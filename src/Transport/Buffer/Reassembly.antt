-- ===== src/Transport/Buffer/Reassembly.antt =====
-- A buffer that has every chunk gives back the sender's bytes, in whatever order they came.
use quinkgl_framework.Common.{
  ℕ, zero, suc, ◌+◌, ◌-◌, ◌*◌, ◌≤◌, ◌<◌, min, ◌≡◌, refl, sym, ap, ap₂, subst, ◌∙◌, true, none, some,
  List, [], ◌∷◌, ◌++◌, arith, dec_le, ℕ_discrete, ltb, if◌then◌else◌, nat_eq, string_eq, pair_eq,
  length, take, drop, length-drop, take-append-drop, take_all, range_from, ok,
}
use quinkgl_framework.Common.Dict.{Dict, lookup, insert, has, NodupKeys}
use quinkgl_framework.Transport.Words.{Bytes}
use quinkgl_framework.Transport.Limits.{chunk_size}
use quinkgl_framework.Transport.Buffer.{join_chunks, chunk_slice}

-- How many of the first `n` indices have an entry.
pub present : ℕ → Dict ℕ Bytes → ℕ
present zero d = 0
present (suc n) d = present n d + (if has n d then 1 else 0)

present-nil : (n : ℕ) → present n [] ≡ 0
unfolding present lookup
present-nil zero = refl
present-nil (suc n) = omega (arith, present-nil n)

present-cons :
    (n k : ℕ) (v : Bytes) (d : Dict ℕ Bytes)
    → lookup k d ≡ none
    → present n ((k, v) ∷ d) ≡ present n d + (if ltb k n then 1 else 0)
unfolding present lookup
present-cons zero k v d h = ground arith
present-cons (suc n) k v d h = ground (arith, present-cons n k v d h)

abbrev pub KeysBelow : ℕ → Dict ℕ Bytes → Type 0
KeysBelow n [] = Unit
KeysBelow n ((k, _) ∷ d) = (k < n) × KeysBelow n d

pub present-eq-length :
    (n : ℕ) (d : Dict ℕ Bytes) → NodupKeys d → KeysBelow n d → present n d ≡ length d
present-eq-length n [] u b = present-nil n
present-eq-length n ((k, v) ∷ d) u b =
    ground (arith, present-cons n k v d u.0, present-eq-length n d u.1 b.1)

present-le : (n : ℕ) (d : Dict ℕ Bytes) → present n d ≤ n
unfolding present
present-le zero d = omega arith
present-le (suc n) d = ground (arith, present-le n d)

pub has_of_present : (n : ℕ) (d : Dict ℕ Bytes) → present n d ≡ n → (i : ℕ) → i < n → has i d ≡ true
unfolding present
has_of_present zero d h i l = absurd (omega arith)
has_of_present (suc n) d h i l = elim (ℕ_discrete i n) [
  | yes e ↦ subst (λ j. has j d ≡ true) (sym e) (ground (arith, present-le n d))
  | no ne ↦ has_of_present n d (ground (arith, present-le n d)) i (omega arith)
]

pub present_of_has :
    (n : ℕ) (d : Dict ℕ Bytes) → ((i : ℕ) → i < n → has i d ≡ true) → present n d ≡ n
unfolding present
present_of_has zero d h = refl
present_of_has (suc n) d h =
    rw (present_of_has n d (λ i l. h i (omega arith)), h n (omega arith)) (omega arith)

-- The chunks are the sender's, for indices below `n`.
abbrev pub Carries : Bytes → ℕ → Dict ℕ Bytes → Type 0
Carries weights n [] = Unit
Carries weights n ((k, chunk) ∷ d) = (k < n) × (chunk ≡ chunk_slice weights k) × Carries weights n d

pub Carries-KeysBelow :
    (weights : Bytes) (n : ℕ) (d : Dict ℕ Bytes) → Carries weights n d → KeysBelow n d
Carries-KeysBelow weights n [] c = tt
Carries-KeysBelow weights n ((k, v) ∷ d) c = (c.0, Carries-KeysBelow weights n d c.2)

pub Carries-lookup :
    (weights : Bytes) (n i : ℕ) (d : Dict ℕ Bytes)
    → Carries weights n d
    → has i d ≡ true
    → lookup i d ≡ some (chunk_slice weights i)
unfolding lookup
Carries-lookup weights n i [] c h = cc
Carries-lookup weights n i ((k, v) ∷ d) c h = elim (ℕ_discrete i k) [
  | yes e ↦ ground (arith, Carries-lookup weights n i d c.2, ap (chunk_slice weights) e)
  | no ne ↦ ground (arith, Carries-lookup weights n i d c.2)
]

pub Carries-insert :
    (weights : Bytes) (n i : ℕ) (d : Dict ℕ Bytes)
    → i < n
    → Carries weights n d
    → Carries weights n (insert i (chunk_slice weights i) d)
unfolding insert
Carries-insert weights n i [] h c = (h, refl, tt)
Carries-insert weights n i ((k, v) ∷ d) h c = ground (arith, Carries-insert weights n i d h c.2)

drop-nil {ℓ} : {A : Type ℓ} (k : ℕ) → drop {A = A} k [] ≡ []
drop-nil zero = refl
drop-nil (suc k) = refl

drop-drop {ℓ} : {A : Type ℓ} (m n : ℕ) (xs : List A) → drop m (drop n xs) ≡ drop (n + m) xs
drop-drop m zero xs = ap (λ k. drop k xs) (omega arith)
drop-drop m (suc n) [] = drop-nil m ∙ sym (drop-nil (suc n + m))
drop-drop m (suc n) (x ∷ xs) =
    drop-drop m n xs ∙ ap (λ k. drop k (x ∷ xs)) {x = suc (n + m)} {y = suc n + m} (omega arith)

drop_all {ℓ} : {A : Type ℓ} (n : ℕ) (xs : List A) → length xs ≤ n → drop n xs ≡ []
drop_all zero [] h = refl
drop_all zero (x ∷ xs) h = absurd (omega arith)
drop_all (suc n) [] h = refl
drop_all (suc n) (x ∷ xs) h = drop_all n xs (omega arith)

-- The clipped slice is the plain one.
take_clipped :
    (c start : ℕ) (w : Bytes)
    → take (min (start + c) (length w) - start) (drop start w) ≡ take c (drop start w)
take_clipped c start w = elim (dec_le (start + c) (length w)) [
  | yes h ↦ ap (λ n. take n (drop start w)) (omega arith)
  | no h ↦
      take_all _ (drop start w) (omega (arith, length-drop start w))
      ∙ sym (take_all c (drop start w) (omega (arith, length-drop start w)))
]

chunk_slice-append :
    (w : Bytes) (i : ℕ) → chunk_slice w i ++ drop (suc i * chunk_size) w ≡ drop (i * chunk_size) w
unfolding chunk_slice
chunk_slice-append w i =
    ap₂ (λ a b. a ++ b) (take_clipped chunk_size (i * chunk_size) w)
      (ap (λ n. drop n w) (omega arith) ∙ sym (drop-drop chunk_size (i * chunk_size) w))
    ∙ take-append-drop chunk_size (drop (i * chunk_size) w)

pub join_chunks-from :
    (w : Bytes) (d : Dict ℕ Bytes) (start count : ℕ)
    → ((i : ℕ) → i < start + count → lookup i d ≡ some (chunk_slice w i))
    → length w ≤ (start + count) * chunk_size
    → join_chunks d (range_from start count) ≡ ok (drop (start * chunk_size) w)
unfolding join_chunks
join_chunks-from w d start zero h l = ap ok (sym (drop_all _ w (omega arith)))
join_chunks-from w d start (suc count) h l =
    rw
      (
        join_chunks,
        h start (omega arith),
        join_chunks-from w d (suc start) count (λ i k. h i (omega arith)) (omega arith),
      )
      (ap ok (chunk_slice-append w start))
