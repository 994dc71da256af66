-- ===== src/Transport/Ranges/RoundTrip.antt =====
-- What the sender of an ACK packs is what the receiver unpacks.
use quinkgl_framework.Common.{
  ℕ, zero, suc, ◌+◌, ◌-◌, ◌%◌, ◌≤◌, ◌<◌, ◌≡◌, refl, sym, ap, subst, ◌∙◌, false, Option, some, List,
  [], ◌∷◌, ◌++◌, append-nil, append_assoc, arith, ℕ_discrete, contains, nat_eq, string_eq, pair_eq,
  length, All, All-append, range_from, ok,
}
use quinkgl_framework.Transport.IndexSet.{
  set_of, add_range, AscFrom, set_of-AscFrom, All-mono, set_of-All, add_range-append,
  contains-set_of,
}
use quinkgl_framework.Transport.Words.{Bytes, word_limit, big_endian, from_big_endian-big_endian}
use quinkgl_framework.Transport.Ranges.{
  close_ranges, ranges_of_sorted, chunk_index_ranges, pack_range, pack_ranges, pack_chunk_ranges,
  unpack_ranges, unpack_chunk_ranges, exceeds,
}

-- The indices that a list of ranges stands for.
unfoldable pub expand : List (ℕ × ℕ) → List ℕ
expand [] = []
expand ((start, end) ∷ rs) = range_from start (end + 1 - start) ++ expand rs

range_from-suc : (start n : ℕ) → range_from start (suc n) ≡ range_from start n ++ (start + n) ∷ []
range_from-suc start zero = ap (λ i. i ∷ []) (omega arith)
range_from-suc start (suc n) =
    ap (λ t. start ∷ t)
      (range_from-suc (suc start) n ∙ ap (λ i. range_from (suc start) n ++ i ∷ []) (omega arith))

grow :
    (start prev i : ℕ) (t : List ℕ)
    → start ≤ prev
    → i ≡ prev + 1
    → range_from start (i + 1 - start) ++ t ≡ range_from start (prev + 1 - start) ++ i ∷ t
grow start prev i t h e =
    ap (λ n. range_from start n ++ t) {y = suc (prev + 1 - start)} (omega arith)
    ∙ ap (λ s. s ++ t) (range_from-suc start (prev + 1 - start))
    ∙ append_assoc (range_from start (prev + 1 - start)) _ t
    ∙ ap (λ j. range_from start (prev + 1 - start) ++ j ∷ t) (omega arith)

one_index : (i : ℕ) (t : List ℕ) → range_from i (i + 1 - i) ++ t ≡ i ∷ t
one_index i t = ap (λ n. range_from i n ++ t) (let e : i + 1 - i ≡ 1 = omega arith in e)

expand-close_ranges :
    (start prev : ℕ) (is : List ℕ)
    → start ≤ prev
    → AscFrom (suc prev) is
    → expand (close_ranges start prev is) ≡ range_from start (prev + 1 - start) ++ is
unfolding expand close_ranges
expand-close_ranges start prev [] h a = refl
expand-close_ranges start prev (i ∷ is) h a = ground (
  arith,
  grow start prev i is h,
  one_index i is,
  expand-close_ranges start i is,
  expand-close_ranges i i is,
)

expand-ranges_of_sorted : (s : List ℕ) → AscFrom 0 s → expand (ranges_of_sorted s) ≡ s
unfolding expand ranges_of_sorted
expand-ranges_of_sorted [] a = refl
expand-ranges_of_sorted (i ∷ is) a = expand-close_ranges i i is (omega arith) a.1 ∙ one_index i is

-- The ranges of a set are in order, and each runs forward.
abbrev InOrder : ℕ → List (ℕ × ℕ) → Type 0
InOrder lo [] = Unit
InOrder lo ((start, end) ∷ rs) = (lo ≤ start) × (start ≤ end) × InOrder (suc end) rs

abbrev EndBelow : ℕ → List (ℕ × ℕ) → Type 0
EndBelow b [] = Unit
EndBelow b ((start, end) ∷ rs) = (end < b) × EndBelow b rs

close_ranges-InOrder :
    (lo start prev : ℕ) (is : List ℕ)
    → lo ≤ start
    → start ≤ prev
    → AscFrom (suc prev) is
    → InOrder lo (close_ranges start prev is)
unfolding close_ranges
close_ranges-InOrder lo start prev [] l h a = (l, h, tt)
close_ranges-InOrder lo start prev (i ∷ is) l h a =
    ground (arith, close_ranges-InOrder lo start i is, close_ranges-InOrder (suc prev) i i is)

close_ranges-EndBelow :
    (b start prev : ℕ) (is : List ℕ)
    → prev < b
    → All (λ j. j < b) is
    → EndBelow b (close_ranges start prev is)
unfolding close_ranges
close_ranges-EndBelow b start prev [] h a = (h, tt)
close_ranges-EndBelow b start prev (i ∷ is) h a =
    ground (arith, close_ranges-EndBelow b start i is, close_ranges-EndBelow b i i is)

ranges_of_sorted-InOrder : (s : List ℕ) → AscFrom 0 s → InOrder 0 (ranges_of_sorted s)
unfolding ranges_of_sorted
ranges_of_sorted-InOrder [] a = tt
ranges_of_sorted-InOrder (i ∷ is) a = close_ranges-InOrder 0 i i is (omega arith) (omega arith) a.1

ranges_of_sorted-EndBelow :
    (b : ℕ) (s : List ℕ) → All (λ j. j < b) s → EndBelow b (ranges_of_sorted s)
unfolding ranges_of_sorted
ranges_of_sorted-EndBelow b [] a = tt
ranges_of_sorted-EndBelow b (i ∷ is) a = close_ranges-EndBelow b i i is a.0 a.1

-- Packing ranges of 32-bit numbers succeeds.
abbrev packed : List (ℕ × ℕ) → Bytes
packed [] = []
packed ((start, end) ∷ rs) = (big_endian start ++ big_endian end) ++ packed rs

pack_ranges-packed :
    (b : ℕ) (rs : List (ℕ × ℕ))
    → b ≤ word_limit
    → (lo : ℕ) → InOrder lo rs
    → EndBelow b rs
    → pack_ranges rs ≡ some (packed rs)
unfolding pack_ranges
pack_ranges-packed b [] h lo o e = refl
pack_ranges-packed b ((start, end) ∷ rs) h lo o e =
    ground (arith, pack_ranges-packed b rs h (suc end) o.2 e.1)

length-packed : (rs : List (ℕ × ℕ)) → length (packed rs) % 8 ≡ 0
unfolding big_endian
length-packed [] = omega arith
length-packed ((start, end) ∷ rs) = omega (arith, length-packed rs)

All-range_from : (start n : ℕ) → All (λ j. j < start + n) (range_from start n)
All-range_from start zero = tt
All-range_from start (suc n) = (
  omega arith,
  subst (λ b. All (λ j. j < b) (range_from (suc start) n)) (omega arith)
      (All-range_from (suc start) n),
)

pack_range_ok :
    (start end : ℕ)
    → start < word_limit
    → end < word_limit
    → pack_range start end ≡ some (big_endian start ++ big_endian end)
unfolding pack_range
pack_range_ok start end h k = ground arith

unpack_ranges-packed :
    (total : Option ℕ) (b lo : ℕ) (s : List ℕ) (rs : List (ℕ × ℕ))
    → b ≤ word_limit
    → ((e : ℕ) → e < b → exceeds e total ≡ false)
    → InOrder lo rs
    → EndBelow b rs
    → All (λ j. j < lo) s
    → unpack_ranges total s (packed rs) ≡ ok (s ++ expand rs)
unfolding unpack_ranges expand big_endian
unpack_ranges-packed total b lo s [] h t o e a = ap ok (sym (append-nil s))
unpack_ranges-packed total b lo s ((start, end) ∷ rs) h t o e a =
    rw
      (
        from_big_endian-big_endian start (omega arith),
        from_big_endian-big_endian end (omega arith),
        t end e.0,
        grown,
      )
      (ground (
        arith,
        unpack_ranges-packed total b (suc end) (s ++ range_from start (end + 1 - start)) rs h t o.2
            e.1 within,
        append_assoc s (range_from start (end + 1 - start)) (expand rs),
      ))
  where
    below : All (λ j. j < start) s
    below = All-mono s o.0 a

    grown : add_range s start (end + 1 - start) ≡ s ++ range_from start (end + 1 - start)
    grown = add_range-append s start (end + 1 - start) below

    within : All (λ j. j < suc end) (s ++ range_from start (end + 1 - start))
    within =
        All-append (λ j. j < suc end) s (range_from start (end + 1 - start))
          (All-mono s (omega arith) below)
          (All-mono (range_from start (end + 1 - start)) (omega arith)
            (All-range_from start (end + 1 - start)))

-- An ACK carries the set of received indices, whatever their order and repetitions, as long as
-- they are below the number of chunks and that number fits 32 bits.
pub unpack-pack :
    (total : ℕ) (indices : List ℕ)
    → total ≤ word_limit
    → All (λ i. i < total) indices
    → (bytes : Bytes) × (pack_chunk_ranges indices ≡ some bytes)
      × (unpack_chunk_ranges bytes (some total) ≡ ok (set_of indices))
unfolding pack_chunk_ranges chunk_index_ranges unpack_chunk_ranges ℕ_discrete set_of
unpack-pack total indices h a = (
  packed rs,
  pack_ranges-packed total rs h 0 order ends,
  rw (length-packed rs) (
      unpack_ranges-packed (some total) total 0 [] rs h (λ e l. ground arith) order ends tt
      ∙ ap ok (expand-ranges_of_sorted (set_of indices) (set_of-AscFrom indices))),
)
  where
    rs : List (ℕ × ℕ)
    rs = ranges_of_sorted (set_of indices)

    order : InOrder 0 rs
    order = ranges_of_sorted-InOrder (set_of indices) (set_of-AscFrom indices)

    ends : EndBelow total rs
    ends = ranges_of_sorted-EndBelow total (set_of indices) (set_of-All total indices a)

-- The ranges of a collection of indices cover those indices and no others.
pub contains-expand_ranges :
    (indices : List ℕ) (k : ℕ)
    → contains (expand (chunk_index_ranges indices)) k ≡ contains indices k
unfolding chunk_index_ranges
contains-expand_ranges indices k =
    ap (λ s. contains s k) (expand-ranges_of_sorted (set_of indices) (set_of-AscFrom indices))
    ∙ contains-set_of k indices
