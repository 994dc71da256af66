-- ===== src/Transport/Ranges.antt =====
-- ACKs as inclusive ranges of chunk indices: `_chunk_index_ranges`, `_pack_chunk_ranges` and
-- `_unpack_chunk_ranges` of src/quinkgl/network/gossip_community.py.
pub mod RoundTrip
pub mod Bounds
use quinkgl_framework.Common.{
  ℕ, ◌+◌, ◌-◌, ◌%◌, Bool, false, ◌&&◌, Option, none, some, List, [], ◌∷◌, ◌++◌, ltb, leb,
  if◌then◌else◌, ◌==◌, nat_eq, string_eq, pair_eq, length, Result, ok, err,
}
use quinkgl_framework.Transport.IndexSet.{set_of, add_range}
use quinkgl_framework.Transport.Words.{Bytes, word_limit, big_endian, from_big_endian}

-- The loop of `_chunk_index_ranges`, over an ascending list.
unfoldable pub close_ranges : ℕ → ℕ → List ℕ → List (ℕ × ℕ)
close_ranges start prev [] = (start, prev) ∷ []
close_ranges start prev (i ∷ is) =
    let rest = close_ranges (if i == prev + 1 then start else i) i is in
    if i == prev + 1 then rest else (start, prev) ∷ rest

unfoldable pub ranges_of_sorted : List ℕ → List (ℕ × ℕ)
unfolding close_ranges
ranges_of_sorted [] = []
ranges_of_sorted (i ∷ is) = close_ranges i i is

unfoldable pub chunk_index_ranges : List ℕ → List (ℕ × ℕ)
unfolding ranges_of_sorted
chunk_index_ranges indices = ranges_of_sorted (set_of indices)

-- `struct.pack("!II", start, end)`; `none` is the `struct.error` for a number beyond 32 bits.
unfoldable pub pack_range : ℕ → ℕ → Option Bytes
pack_range start end =
    if ltb start word_limit && ltb end word_limit
    then some (big_endian start ++ big_endian end)
    else none

unfoldable pub pack_ranges : List (ℕ × ℕ) → Option Bytes
unfolding pack_range
pack_ranges [] = some []
pack_ranges ((start, end) ∷ rs) = elim (pack_range start end) [
  | none ↦ none
  | some word ↦ elim (pack_ranges rs) [ none ↦ none | some rest ↦ some (word ++ rest) ]
]

unfoldable pub pack_chunk_ranges : List ℕ → Option Bytes
unfolding pack_ranges chunk_index_ranges
pack_chunk_ranges indices = pack_ranges (chunk_index_ranges indices)

-- The messages of the `ValueError`s.
pub data RangeError : Type 0 where
  bad_length end_before_start out_of_bounds : RangeError

abbrev pub exceeds : ℕ → Option ℕ → Bool
exceeds end none = false
exceeds end (some total) = leb total end

unfoldable pub unpack_ranges : Option ℕ → List ℕ → Bytes → Result RangeError (List ℕ)
unpack_ranges total s (a ∷ b ∷ c ∷ d ∷ a' ∷ b' ∷ c' ∷ d' ∷ rest) =
    let start = from_big_endian a b c d in
    let end = from_big_endian a' b' c' d' in
    let more = unpack_ranges total (add_range s start (end + 1 - start)) rest in
    if ltb end start
    then err end_before_start
    else (if exceeds end total then err out_of_bounds else more)
unpack_ranges total s _ = ok s

unfoldable pub unpack_chunk_ranges : Bytes → Option ℕ → Result RangeError (List ℕ)
unfolding unpack_ranges
unpack_chunk_ranges bytes total =
    if length bytes % 8 == 0 then unpack_ranges total [] bytes else err bad_length
