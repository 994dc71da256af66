-- ===== src/Consensus/Prune.antt =====
-- Which rounds stay when old checkpoints are pruned.
use quinkgl_framework.Common.{
  ℕ, zero, suc, ◌≤◌, ◌<◌, ◌≡◌, refl, ap, ◌∙◌, inl, inr, false, ◌&&◌, none, List, [], ◌∷◌, arith,
  dec_le, ltb, leb, if◌then◌else◌, Bool-cases, contains, nat_eq, string_eq, pair_eq, length, drop,
  keep, All,
}
use quinkgl_framework.Common.Dict.{Dict, is_some, lookup, erase, keys, NodupKeys, lookup-erase}
use quinkgl_framework.Common.Purge.{contains-keys}
use quinkgl_framework.Consensus.{
  Ballots, ConsensusTracker, insert_desc, sort_desc, delete_rounds, prune_old_checkpoints,
}

-- How many of some rounds are later than one.
abbrev pub count_later : ℕ → List ℕ → ℕ
count_later r xs = length (keep (ltb r) xs)

contains-insert_desc : (r i : ℕ) (xs : List ℕ) → contains (insert_desc i xs) r ≡ contains (i ∷ xs) r
unfolding insert_desc
contains-insert_desc r i [] = refl
contains-insert_desc r i (x ∷ xs) = ground (arith, contains-insert_desc r i xs)

contains-sort_desc : (r : ℕ) (xs : List ℕ) → contains (sort_desc xs) r ≡ contains xs r
unfolding sort_desc
contains-sort_desc r [] = refl
contains-sort_desc r (x ∷ xs) =
    contains-insert_desc r x (sort_desc xs) ∙ ground (arith, contains-sort_desc r xs)

count_later-insert_desc :
    (r i : ℕ) (xs : List ℕ) → count_later r (insert_desc i xs) ≡ count_later r (i ∷ xs)
unfolding insert_desc
count_later-insert_desc r i [] = refl
count_later-insert_desc r i (x ∷ xs) = ground (arith, count_later-insert_desc r i xs)

count_later-sort_desc : (r : ℕ) (xs : List ℕ) → count_later r (sort_desc xs) ≡ count_later r xs
unfolding sort_desc
count_later-sort_desc r [] = refl
count_later-sort_desc r (x ∷ xs) =
    count_later-insert_desc r x (sort_desc xs) ∙ ground (arith, count_later-sort_desc r xs)

-- Strictly descending, and without repetitions.
abbrev IsDesc : List ℕ → Type 0
IsDesc [] = Unit
IsDesc (x ∷ xs) = All (λ j. j < x) xs × IsDesc xs

abbrev IsDistinct : List ℕ → Type 0
IsDistinct [] = Unit
IsDistinct (x ∷ xs) = (contains xs x ≡ false) × IsDistinct xs

All-insert_desc :
    (b i : ℕ) (xs : List ℕ) → i < b → All (λ j. j < b) xs → All (λ j. j < b) (insert_desc i xs)
unfolding insert_desc
All-insert_desc b i [] h a = (h, tt)
All-insert_desc b i (x ∷ xs) h a = ground (arith, h, a.0, a.1, All-insert_desc b i xs h a.1)

All-lower : (b c : ℕ) (xs : List ℕ) → b ≤ c → All (λ j. j < b) xs → All (λ j. j < c) xs
All-lower b c [] h a = tt
All-lower b c (x ∷ xs) h a = (omega (arith, a.0), All-lower b c xs h a.1)

insert_desc-IsDesc :
    (i : ℕ) (xs : List ℕ) → contains xs i ≡ false → IsDesc xs → IsDesc (insert_desc i xs)
unfolding insert_desc
insert_desc-IsDesc i [] n d = (tt, tt)
insert_desc-IsDesc i (x ∷ xs) n d = elim (Bool-cases (leb x i)) [
  | inl h ↦
      rw (h, insert_desc)
        (let l : x < i = ground (arith, h, n) in ((l, All-lower x i xs (omega arith) d.0), d))
  | inr h ↦
      rw (h, insert_desc)
        (
          All-insert_desc x i xs (ground (arith, h)) d.0,
          insert_desc-IsDesc i xs (ground (arith, h, n)) d.1,
        )
]

sort_desc-IsDesc : (xs : List ℕ) → IsDistinct xs → IsDesc (sort_desc xs)
unfolding sort_desc
sort_desc-IsDesc [] u = tt
sort_desc-IsDesc (x ∷ xs) u =
    insert_desc-IsDesc x (sort_desc xs) (contains-sort_desc x xs ∙ u.0) (sort_desc-IsDesc xs u.1)

below-absent :
    (r b : ℕ) (xs : List ℕ)
    → b ≤ r
    → All (λ j. j < b) xs
    → (contains xs r ≡ false) × (count_later r xs ≡ 0)
below-absent r b [] h a = (refl, refl)
below-absent r b (x ∷ xs) h a =
    let rest = below-absent r b xs h a.1 in
    (ground (arith, h, a.0, rest.0), ground (arith, h, a.0, rest.1))

contains-drop :
    (k r : ℕ) (xs : List ℕ)
    → IsDesc xs
    → contains (drop k xs) r ≡ (contains xs r && leb k (count_later r xs))
contains-drop zero r xs d = ground arith
contains-drop (suc k) r [] d = refl
contains-drop (suc k) r (x ∷ xs) d = elim (dec_le x r) [
  | yes h ↦
      let rest = below-absent r x xs h d.0 in
      ground (arith, h, rest.0, rest.1, contains-drop k r xs d.1)
  | no h ↦ ground (arith, h, contains-drop k r xs d.1)
]

lookup-delete_rounds :
    (r : ℕ) (rs : List ℕ) (d : Dict ℕ Ballots)
    → lookup r (delete_rounds rs d) ≡ (if contains rs r then none else lookup r d)
unfolding delete_rounds
lookup-delete_rounds r [] d = refl
lookup-delete_rounds r (q ∷ rs) d =
    lookup-delete_rounds r rs (erase q d) ∙ ground (arith, lookup-erase r q d)

keys-IsDistinct : (d : Dict ℕ Ballots) → NodupKeys d → IsDistinct (keys d)
keys-IsDistinct [] u = tt
keys-IsDistinct ((k, v) ∷ d) u = (contains-keys k d ∙ ap is_some u.0, keys-IsDistinct d u.1)

-- If the rounds on record are distinct, pruning drops a round exactly when keep_rounds or more
-- later rounds are on record, and leaves the ballots of every other round as they are.
pub prune_old_checkpoints-newest :
    (s : ConsensusTracker) (keep_rounds r : ℕ)
    → NodupKeys s.checkpoints
    → lookup r (prune_old_checkpoints s keep_rounds).checkpoints ≡ (
        if leb keep_rounds (count_later r (keys s.checkpoints))
        then none
        else lookup r s.checkpoints)
unfolding prune_old_checkpoints
prune_old_checkpoints-newest s keep_rounds r u =
    let ks = keys s.checkpoints in
    lookup-delete_rounds r (drop keep_rounds (sort_desc ks)) s.checkpoints
    ∙ ground (
      arith,
      contains-drop keep_rounds r (sort_desc ks)
          (sort_desc-IsDesc ks (keys-IsDistinct s.checkpoints u)),
      contains-sort_desc r ks,
      count_later-sort_desc r ks,
      contains-keys r s.checkpoints,
    )
