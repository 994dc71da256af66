-- ===== src/Transport/Ranges/Bounds.antt =====
-- What an ACK from the network can make of the set of acknowledged chunks.
use quinkgl_framework.Common.{
  ℕ, ◌+◌, ◌-◌, ◌<◌, ◌≡◌, some, List, [], ◌∷◌, arith, nat_eq, string_eq, pair_eq, All, Result, ok,
  err,
}
use quinkgl_framework.Transport.IndexSet.{AscFrom, add_range, add_range-AscFrom, add_range-All}
use quinkgl_framework.Transport.Words.{Bytes, from_big_endian}
use quinkgl_framework.Transport.Ranges.{RangeError, unpack_ranges, unpack_chunk_ranges}

abbrev Fits : ℕ → Result RangeError (List ℕ) → Type 0
Fits total (err _) = Unit
Fits total (ok s) = AscFrom 0 s × All (λ i. i < total) s

unpack_ranges-Fits :
    (total : ℕ) (s bytes : List ℕ)
    → AscFrom 0 s
    → All (λ i. i < total) s
    → Fits total (unpack_ranges (some total) s bytes)
unfolding unpack_ranges
unpack_ranges-Fits total s (a ∷ b ∷ c ∷ d ∷ a' ∷ b' ∷ c' ∷ d' ∷ rest) asc bound =
    let start = from_big_endian a b c d in
    let end = from_big_endian a' b' c' d' in
    ground (
      arith,
      add_range-AscFrom s start (end + 1 - start) asc,
      add_range-All total s start (end + 1 - start),
      unpack_ranges-Fits total (add_range s start (end + 1 - start)) rest,
    )
unpack_ranges-Fits total s _ asc bound = (asc, bound)

-- Whatever bytes arrive, an accepted ACK names chunks of the transfer only, each once.
pub unpack_in_range :
    (total : ℕ) (bytes : Bytes) (s : List ℕ)
    → unpack_chunk_ranges bytes (some total) ≡ ok s
    → AscFrom 0 s × All (λ i. i < total) s
unfolding unpack_chunk_ranges
unpack_in_range total bytes s h = ground (arith, unpack_ranges-Fits total [] bytes tt tt)
