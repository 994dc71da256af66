-- ===== src/Transport/IndexSet.antt =====
-- Sets of chunk indices, as `sorted(set(indices))`: ascending lists without repetition.
use quinkgl_framework.Common.{
  ℕ, zero, suc, ◌+◌, ◌≤◌, ◌<◌, ◌≡◌, refl, ap, ◌∙◌, true, List, [], ◌∷◌, ◌++◌, append_assoc,
  append-nil, arith, ltb, if◌then◌else◌, All, contains, nat_eq, range_from, length, All-append, ◌⊎◌,
  inl, inr,
}

-- `s.add(i)`
unfoldable pub add_index : ℕ → List ℕ → List ℕ
add_index i [] = i ∷ []
add_index i (j ∷ s) =
    let rest = add_index i s in if ltb i j then i ∷ j ∷ s else (if ltb j i then j ∷ rest else j ∷ s)

-- `set(indices)`
unfoldable pub set_of : List ℕ → List ℕ
set_of [] = []
set_of (i ∷ is) = add_index i (set_of is)

-- `s.update(range(start, start + count))`
unfoldable pub add_range : List ℕ → ℕ → ℕ → List ℕ
add_range s start zero = s
add_range s start (suc count) = add_range (add_index start s) (suc start) count

-- `s.update(t)`
unfoldable pub union : List ℕ → List ℕ → List ℕ
union s [] = s
union s (i ∷ is) = union (add_index i s) is

-- Ascending from a bound on.
abbrev pub AscFrom : ℕ → List ℕ → Type 0
AscFrom lo [] = Unit
AscFrom lo (i ∷ s) = (lo ≤ i) × AscFrom (suc i) s

AscFrom-mono : {lo hi : ℕ} (s : List ℕ) → lo ≤ hi → AscFrom hi s → AscFrom lo s
AscFrom-mono [] h a = tt
AscFrom-mono (i ∷ s) h a = (omega arith, a.1)

add_index-AscFrom : (lo i : ℕ) (s : List ℕ) → lo ≤ i → AscFrom lo s → AscFrom lo (add_index i s)
unfolding add_index
add_index-AscFrom lo i [] h a = (h, tt)
add_index-AscFrom lo i (j ∷ s) h a = ground (arith, add_index-AscFrom (suc j) i s)

pub set_of-AscFrom : (is : List ℕ) → AscFrom 0 (set_of is)
unfolding set_of
set_of-AscFrom [] = tt
set_of-AscFrom (i ∷ is) = add_index-AscFrom 0 i (set_of is) (omega arith) (set_of-AscFrom is)

pub add_range-AscFrom : (s : List ℕ) (start n : ℕ) → AscFrom 0 s → AscFrom 0 (add_range s start n)
unfolding add_range
add_range-AscFrom s start zero a = a
add_range-AscFrom s start (suc n) a =
    add_range-AscFrom (add_index start s) (suc start) n
      (add_index-AscFrom 0 start s (omega arith) a)

pub union-AscFrom : (s t : List ℕ) → AscFrom 0 s → AscFrom 0 (union s t)
unfolding union
union-AscFrom s [] a = a
union-AscFrom s (i ∷ t) a =
    union-AscFrom (add_index i s) t (add_index-AscFrom 0 i s (omega arith) a)

pub add_index-All :
    (b i : ℕ) (s : List ℕ) → i < b → All (λ j. j < b) s → All (λ j. j < b) (add_index i s)
unfolding add_index
add_index-All b i [] h a = (h, tt)
add_index-All b i (j ∷ s) h a = ground (arith, add_index-All b i s)

pub set_of-All : (b : ℕ) (is : List ℕ) → All (λ j. j < b) is → All (λ j. j < b) (set_of is)
unfolding set_of
set_of-All b [] a = tt
set_of-All b (i ∷ is) a = add_index-All b i (set_of is) a.0 (set_of-All b is a.1)

pub union-All :
    (b : ℕ) (s t : List ℕ) → All (λ j. j < b) s → All (λ j. j < b) t → All (λ j. j < b) (union s t)
unfolding union
union-All b s [] a c = a
union-All b s (i ∷ t) a c = union-All b (add_index i s) t (add_index-All b i s c.0 a) c.1

pub add_range-All :
    (b : ℕ) (s : List ℕ) (start n : ℕ)
    → start + n ≤ b
    → All (λ j. j < b) s
    → All (λ j. j < b) (add_range s start n)
unfolding add_range
add_range-All b s start zero h a = a
add_range-All b s start (suc n) h a =
    add_range-All b (add_index start s) (suc start) n (omega arith)
      (add_index-All b start s (omega arith) a)

-- Beyond the end an index is appended.
add_index-append : (i : ℕ) (s : List ℕ) → All (λ j. j < i) s → add_index i s ≡ s ++ i ∷ []
unfolding add_index
add_index-append i [] a = refl
add_index-append i (j ∷ s) a = ground (arith, add_index-append i s a.1)

pub All-mono : {b c : ℕ} (s : List ℕ) → b ≤ c → All (λ j. j < b) s → All (λ j. j < c) s
All-mono [] h a = tt
All-mono (i ∷ s) h a = (omega arith, All-mono s h a.1)

pub add_range-append :
    (s : List ℕ) (start n : ℕ)
    → All (λ j. j < start) s
    → add_range s start n ≡ s ++ range_from start n
unfolding add_range
add_range-append s start zero a = rw append-nil
add_range-append s start (suc n) a =
    ap (λ t. add_range t (suc start) n) (add_index-append start s a)
    ∙ add_range-append (s ++ start ∷ []) (suc start) n (
        All-append (λ j. j < suc start) s (start ∷ []) (All-mono s (omega arith) a)
          (omega arith, tt))
    ∙ append_assoc s (start ∷ []) (range_from (suc start) n)

-- Membership.
pub contains-add_index :
    (k i : ℕ) (s : List ℕ)
    → contains (add_index i s) k ≡ (if contains s k then true else contains (i ∷ []) k)
unfolding add_index
contains-add_index k i [] = ground arith
contains-add_index k i (j ∷ s) = ground (arith, contains-add_index k i s)

pub contains-set_of : (k : ℕ) (is : List ℕ) → contains (set_of is) k ≡ contains is k
unfolding set_of
contains-set_of k [] = refl
contains-set_of k (i ∷ is) =
    ground (arith, contains-add_index k i (set_of is), contains-set_of k is)

pub contains-union :
    (k : ℕ) (s t : List ℕ) → contains (union s t) k ≡ (if contains s k then true else contains t k)
unfolding union
contains-union k s [] = ground arith
contains-union k s (i ∷ t) =
    contains-union k (add_index i s) t ∙ ground (arith, contains-add_index k i s)

length-add_index-le : (i : ℕ) (s : List ℕ) → length s ≤ length (add_index i s)
unfolding add_index
length-add_index-le i [] = omega arith
length-add_index-le i (j ∷ s) = ground (arith, length-add_index-le i s)

-- An ascending list between two bounds is no longer than the gap.
pub length-le-of_AscFrom :
    (lo b : ℕ) (s : List ℕ) → AscFrom lo s → All (λ j. j < b) s → length s + lo ≤ b ⊎ (s ≡ [])
length-le-of_AscFrom lo b [] a c = inr refl
length-le-of_AscFrom lo b (i ∷ []) a c = inl (omega arith)
length-le-of_AscFrom lo b (i ∷ j ∷ s) a c =
    ground (arith, length-le-of_AscFrom (suc i) b (j ∷ s) a.1 c.1)

pub length-union-le : (s t : List ℕ) → length s ≤ length (union s t)
unfolding union
length-union-le s [] = omega arith
length-union-le s (i ∷ t) =
    omega (arith, length-add_index-le i s, length-union-le (add_index i s) t)
