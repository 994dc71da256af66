-- ===== src/Common/Dict.antt =====
-- Dicts of the source: association lists in insertion order.
use Prim.Native.Nat.{ℕ, ◌+◌, ◌≤◌}
use mathlib.Core.Path.{◌≡◌, refl, sym, ap, subst}
use mathlib.Core.Logic.{◌≢◌, ◌⊎◌}
use mathlib.Core.Bool.{Bool, true, false}
use mathlib.Core.Option.{Option, none, some}
use mathlib.Core.List.{List, [], ◌∷◌, ◌++◌, map}
use native.Mathlib.Omega.{arith}
use quinkgl_framework.Common.Tests.{if◌then◌else◌}
use quinkgl_framework.Common.Equality.{Eq, ◌==◌}
use quinkgl_framework.Common.Lists.{length}

abbrev pub Dict {ℓ κ} : Type ℓ → Type κ → Type (ℓ ⊔ κ)
Dict K V = List (K × V)

abbrev pub keys {ℓ κ} : {K : Type ℓ} {V : Type κ} → Dict K V → List K
keys = map (λ (k, _). k)

abbrev pub values {ℓ κ} : {K : Type ℓ} {V : Type κ} → Dict K V → List V
values = map (λ (_, v). v)

abbrev pub is_some {ℓ} : {A : Type ℓ} → Option A → Bool
is_some none = false
is_some (some _) = true

module _ {ℓ κ} {K : Type ℓ} {V : Type κ} ⦃e : Eq K⦄ where
  -- `d.get(k)`
  unfoldable pub lookup : K → Dict K V → Option V
  lookup k [] = none
  lookup k ((j, v) ∷ d) = if k == j then some v else lookup k d

  -- `k in d`
  abbrev pub has : K → Dict K V → Bool
  has k d = is_some (lookup k d)

  -- `d[k] = v`: an old key keeps its place, a new one goes to the end.
  unfoldable pub insert : K → V → Dict K V → Dict K V
  insert k v [] = (k, v) ∷ []
  insert k v ((j, w) ∷ d) = if k == j then (k, v) ∷ d else (j, w) ∷ insert k v d

  -- `d.pop(k, None)`
  unfoldable pub erase : K → Dict K V → Dict K V
  erase k [] = []
  erase k ((j, w) ∷ d) = let rest = erase k d in if k == j then rest else (j, w) ∷ rest

  -- The number of entries that pass a test of the key.
  unfoldable pub count_keys : (K → Bool) → Dict K V → ℕ
  count_keys p [] = 0
  count_keys p ((j, _) ∷ d) = (if p j then 1 else 0) + count_keys p d

  abbrev pub NodupKeys : Dict K V → Type κ
  NodupKeys [] = Unit
  NodupKeys ((k, _) ∷ d) = (lookup k d ≡ none) × NodupKeys d

  pub lookup-nil : (k : K) → lookup k [] ≡ none
  unfolding lookup
  lookup-nil k = refl

  pub lookup-insert :
      (j k : K) (v : V) (d : Dict K V)
      → lookup j (insert k v d) ≡ (if j == k then some v else lookup j d)
  unfolding insert lookup
  lookup-insert j k v [] = refl
  lookup-insert j k v (_ ∷ d) = ground (arith, lookup-insert j k v d)

  pub lookup-erase :
      (j k : K) (d : Dict K V) → lookup j (erase k d) ≡ (if j == k then none else lookup j d)
  unfolding erase lookup
  lookup-erase j k [] = ground arith
  lookup-erase j k (_ ∷ d) = ground (arith, lookup-erase j k d)

  pub insert-NodupKeys : (k : K) (v : V) (d : Dict K V) → NodupKeys d → NodupKeys (insert k v d)
  unfolding insert
  insert-NodupKeys k v [] _ = (lookup-nil k, tt)
  insert-NodupKeys k v ((j, _) ∷ d) (fresh, u) =
      ground (arith, insert-NodupKeys k v d u, lookup-insert j k v d)

  pub erase-NodupKeys : (k : K) (d : Dict K V) → NodupKeys d → NodupKeys (erase k d)
  unfolding erase
  erase-NodupKeys k [] _ = tt
  erase-NodupKeys k ((j, _) ∷ d) (fresh, u) =
      ground (arith, erase-NodupKeys k d u, lookup-erase j k d)

  pub length-insert :
      (k : K) (v : V) (d : Dict K V) → length (insert k v d) ≡ length d + (if has k d then 0 else 1)
  unfolding insert lookup
  length-insert k v [] = omega arith
  length-insert k v ((j, _) ∷ d) = ground (arith, length-insert k v d)

  pub length-erase-le : (k : K) (d : Dict K V) → length (erase k d) ≤ length d
  unfolding erase
  length-erase-le k [] = omega arith
  length-erase-le k ((j, _) ∷ d) = ground (arith, length-erase-le k d)

  pub length-erase_absent :
      (k : K) (d : Dict K V) → lookup k d ≡ none → length (erase k d) ≡ length d
  unfolding erase lookup
  length-erase_absent k [] h = refl
  length-erase_absent k ((j, _) ∷ d) h = ground (arith, h, length-erase_absent k d)

  pub length-erase :
      (k : K) (d : Dict K V) → NodupKeys d → has k d ≡ true → length (erase k d) + 1 ≡ length d
  unfolding erase lookup
  length-erase k [] u h = absurd (ground (arith, h))
  length-erase k ((j, _) ∷ d) u h = elim (e.dec k j) [
    | yes p ↦ ground (arith, length-erase_absent k d (subst (λ x. lookup x d ≡ none) (sym p) u.0))
    | no n ↦ ground (arith, h, length-erase k d u.1)
  ]

  pub count_keys-insert :
      (p : K → Bool) (k : K) (v : V) (d : Dict K V)
      → count_keys p (insert k v d)
        ≡ count_keys p d + (if has k d then 0 else (if p k then 1 else 0))
  unfolding insert lookup count_keys
  count_keys-insert p k v [] = ground arith
  count_keys-insert p k v ((j, _) ∷ d) = ground (arith, count_keys-insert p k v d)

  pub count_keys-erase-le :
      (p : K → Bool) (k : K) (d : Dict K V) → count_keys p (erase k d) ≤ count_keys p d
  unfolding erase count_keys
  count_keys-erase-le p k [] = omega arith
  count_keys-erase-le p k ((j, _) ∷ d) = ground (arith, count_keys-erase-le p k d)

  pub lookup-insert_self : (k : K) (v : V) (d : Dict K V) → lookup k (insert k v d) ≡ some v
  lookup-insert_self k v d = ground (arith, lookup-insert k k v d)

  pub lookup-insert_ne :
      (j k : K) (v : V) (d : Dict K V) → j ≢ k → lookup j (insert k v d) ≡ lookup j d
  lookup-insert_ne j k v d h = ground (arith, lookup-insert j k v d)

  pub lookup-erase_self : (k : K) (d : Dict K V) → lookup k (erase k d) ≡ none
  lookup-erase_self k d = ground (arith, lookup-erase k k d)

  pub lookup-erase_ne : (j k : K) (d : Dict K V) → j ≢ k → lookup j (erase k d) ≡ lookup j d
  lookup-erase_ne j k d h = ground (arith, lookup-erase j k d)

  -- What stands in a dict after a write was written, or stood there.
  pub lookup-insert_cases :
      (j k : K) (v w : V) (d : Dict K V)
      → lookup j (insert k v d) ≡ some w
      → (v ≡ w) ⊎ (lookup j d ≡ some w)
  lookup-insert_cases j k v w d h = ground (arith, lookup-insert j k v d)

  pub lookup-erase-some :
      (j k : K) (w : V) (d : Dict K V) → lookup j (erase k d) ≡ some w → lookup j d ≡ some w
  lookup-erase-some j k w d h = ground (arith, lookup-erase j k d)

  -- A key that stands in the rest of a dict with distinct keys is not that of the first entry.
  pub lookup-cons_rest :
      (k : K) (v : V) (x : K × V) (d : Dict K V)
      → lookup x.0 d ≡ none
      → lookup k d ≡ some v
      → lookup k (x ∷ d) ≡ some v
  unfolding lookup
  lookup-cons_rest k v x d fresh h = elim (e.dec k x.0) [
    | yes same ↦ ground (arith, fresh, h, ap (λ j. lookup j d) same)
    | no n ↦ ground (arith, h)
  ]

  pub lookup-cons_self : (x : K × V) (d : Dict K V) → lookup x.0 (x ∷ d) ≡ some x.1
  unfolding lookup
  lookup-cons_self x d = ground arith

  -- A new key goes to the end.
  pub insert-absent :
      (k : K) (v : V) (d : Dict K V) → lookup k d ≡ none → insert k v d ≡ d ++ (k, v) ∷ []
  unfolding insert lookup
  insert-absent k v [] h = refl
  insert-absent k v ((j, w) ∷ d) h = ground (arith, h, insert-absent k v d)

  pub erase-append_ne :
      (k j : K) (v : V) (d : Dict K V)
      → k ≢ j
      → erase k (d ++ (j, v) ∷ []) ≡ erase k d ++ (j, v) ∷ []
  unfolding erase
  erase-append_ne k j v [] n = ground arith
  erase-append_ne k j v ((i, w) ∷ d) n = ground (arith, erase-append_ne k j v d n)

  pub lookup-append_last :
      (k : K) (v : V) (d : Dict K V) → lookup k d ≡ none → lookup k (d ++ (k, v) ∷ []) ≡ some v
  unfolding lookup
  lookup-append_last k v [] h = ground arith
  lookup-append_last k v ((j, w) ∷ d) h = ground (arith, h, lookup-append_last k v d)
