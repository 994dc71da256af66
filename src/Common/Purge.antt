-- ===== src/Common/Purge.antt =====
-- Deleting several keys of a dict at once, as the clean-up loops of the source do: the keys to
-- delete are collected first.
use quinkgl_framework.Common.Tests.{if◌then◌else◌}
use quinkgl_framework.Common.Equality.{Eq, contains}
use quinkgl_framework.Common.Lists.{keep}
use quinkgl_framework.Common.Dict.{
  Dict, lookup, erase, has, keys, NodupKeys, lookup-erase, erase-NodupKeys, erase-append_ne,
}
use mathlib.Core.Path.{◌≡◌, refl, sym, ap, ◌∙◌}
use mathlib.Core.Bool.{Bool, false, ◌&&◌}
use mathlib.Core.Option.{Option, none, some}
use mathlib.Core.List.{List, [], ◌∷◌, ◌++◌}
use native.Mathlib.Omega.{arith}

-- Whether a value is there and passes a test.
abbrev pub passes {ℓ} : {V : Type ℓ} → (V → Bool) → Option V → Bool
passes p none = false
passes p (some v) = p v

pub contains-keep {ℓ} :
    {K : Type ℓ} ⦃e : Eq K⦄ (p : K → Bool) (k : K) (ks : List K)
    → contains (keep p ks) k ≡ (contains ks k && p k)
contains-keep p k [] = refl
contains-keep ⦃e⦄ p k (j ∷ ks) = elim (e.dec k j) [
  | yes q ↦ ground (arith, contains-keep p k ks, ap p q)
  | no n ↦ ground (arith, contains-keep p k ks)
]

module _ {ℓ κ} {K : Type ℓ} {V : Type κ} ⦃e : Eq K⦄ where
  -- `for k in ks: del d[k]`
  unfoldable pub erase_all : List K → Dict K V → Dict K V
  erase_all [] d = d
  erase_all (k ∷ ks) d = erase_all ks (erase k d)

  -- `[k for k, v in d.items() if p(v)]`
  unfoldable pub keys_where : (V → Bool) → Dict K V → List K
  keys_where p [] = []
  keys_where p ((k, v) ∷ d) = let rest = keys_where p d in if p v then k ∷ rest else rest

  pub lookup-erase_all :
      (k : K) (ks : List K) (d : Dict K V)
      → lookup k (erase_all ks d) ≡ (if contains ks k then none else lookup k d)
  unfolding erase_all
  lookup-erase_all k [] d = refl
  lookup-erase_all k (j ∷ ks) d =
      lookup-erase_all k ks (erase j d) ∙ ground (arith, lookup-erase k j d)

  pub erase_all-NodupKeys : (ks : List K) (d : Dict K V) → NodupKeys d → NodupKeys (erase_all ks d)
  unfolding erase_all
  erase_all-NodupKeys [] d u = u
  erase_all-NodupKeys (j ∷ ks) d u = erase_all-NodupKeys ks (erase j d) (erase-NodupKeys j d u)

  pub contains-keys_where :
      (p : V → Bool) (k : K) (d : Dict K V)
      → NodupKeys d
      → contains (keys_where p d) k ≡ passes p (lookup k d)
  unfolding keys_where lookup
  contains-keys_where p k [] u = refl
  contains-keys_where p k ((j, v) ∷ d) u = elim (e.dec k j) [
    | yes q ↦
        let gone : lookup k d ≡ none = ap (λ x. lookup x d) q ∙ u.0 in
        ground (arith, contains-keys_where p k d u.1, gone)
    | no n ↦ ground (arith, contains-keys_where p k d u.1)
  ]

  pub contains-keys : (k : K) (d : Dict K V) → contains (keys d) k ≡ has k d
  unfolding lookup
  contains-keys k [] = refl
  contains-keys k ((j, v) ∷ d) = ground (arith, contains-keys k d)

  pub erase_all-append :
      (ks : List K) (j : K) (v : V) (d : Dict K V)
      → contains ks j ≡ false
      → erase_all ks (d ++ (j, v) ∷ []) ≡ erase_all ks d ++ (j, v) ∷ []
  unfolding erase_all
  erase_all-append [] j v d h = refl
  erase_all-append (k ∷ ks) j v d h = elim (e.dec j k) [
    | yes same ↦ absurd (ground (arith, h))
    | no n ↦
        ap (erase_all ks) (erase-append_ne k j v d (λ q. n (sym q)))
        ∙ erase_all-append ks j v (erase k d) (ground (arith, h))
  ]

  -- What is left after the entries that pass a test have been deleted.
  pub lookup-purge :
      (p : V → Bool) (k : K) (d : Dict K V)
      → NodupKeys d
      → lookup k (erase_all (keys_where p d) d)
        ≡ (if passes p (lookup k d) then none else lookup k d)
  lookup-purge p k d u =
      lookup-erase_all k (keys_where p d) d
      ∙ ap (λ b. if b then none else lookup k d) (contains-keys_where p k d u)
