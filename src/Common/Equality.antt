-- ===== src/Common/Equality.antt =====
-- Python's `==` and `in`, for every type whose equality can be decided.
use Prim.Native.Nat.{ℕ}
use Prim.Native.String.{String}
use mathlib.Core.Path.{◌≡◌, refl, sym, ap, ap₂}
use mathlib.Core.Logic.{ite, dite, if_pos}
use mathlib.Core.Bool.{Bool, true, false, Bool-discrete}
use mathlib.Core.List.{List, [], ◌∷◌, cons≢nil, head-eq_of_cons-eq, tail-eq_of_cons-eq}
use native.Mathlib.Decide.{ℕ_discrete}
use text.Mathlib.Text
use text.Mathlib.TextEquality.{eq_iff}

pub record Eq {ℓ} (A : Type ℓ) : Type ℓ where
  pub dec : Discrete A

infix 50 ◌==◌
abbrev pub ◌==◌ {ℓ} : {A : Type ℓ} ⦃e : Eq A⦄ → A → A → Bool
◌==◌ ⦃e⦄ a b = ite (e.dec a b) true false

-- `a in xs`; one structural call.
abbrev pub contains {ℓ} : {A : Type ℓ} ⦃e : Eq A⦄ → List A → A → Bool
contains [] a = false
contains ⦃e⦄ (x ∷ xs) a = ite (e.dec a x) true (contains xs a)

pair_dec {ℓ κ} : {A : Type ℓ} {B : Type κ} → Discrete A → Discrete B → Discrete (A × B)
pair_dec d e (a, b) (a', b') =
    dite (d a a')
      (λ p. dite (e b b') (λ q. yes (ap₂ (λ x y. (x, y)) p q)) (λ n. no (λ r. n (ap (λ t. t.1) r))))
      (λ n. no (λ r. n (ap (λ t. t.0) r)))

instance abbrev pub nat_eq : Eq ℕ
nat_eq = record { dec = ℕ_discrete }

instance unfoldable pub string_eq : Eq String
string_eq = record {
  dec = λ s t.
      dite (Bool-discrete (Text.◌==◌ s t) true) (λ same. yes ((eq_iff s t).0 same))
        (λ differ. no (λ p. differ ((eq_iff s t).1 p)));
}

-- A pair of keys, such as `(peer_mid, transfer_id)`.
instance unfoldable pub pair_eq {ℓ κ} : {A : Type ℓ} {B : Type κ} ⦃d : Eq A⦄ ⦃e : Eq B⦄ → Eq (A × B)
unfolding pair_dec
pair_eq ⦃d⦄ ⦃e⦄ = record { dec = pair_dec d.dec e.dec }

list_dec {ℓ} : {A : Type ℓ} → Discrete A → Discrete (List A)
list_dec d [] [] = yes refl
list_dec d [] (y ∷ ys) = no (λ e. cons≢nil (sym e))
list_dec d (x ∷ xs) [] = no (λ e. cons≢nil e)
list_dec d (x ∷ xs) (y ∷ ys) =
    let tails = list_dec d xs ys in
    dite (d x y)
      (λ p.
        dite tails (λ q. yes (ap₂ (λ t ts. t ∷ ts) p q)) (λ n. no (λ e. n (tail-eq_of_cons-eq e))))
      (λ n. no (λ e. n (head-eq_of_cons-eq e)))

-- A text that is read as its code points.
instance unfoldable pub list_eq {ℓ} : {A : Type ℓ} ⦃d : Eq A⦄ → Eq (List A)
unfolding list_dec
list_eq ⦃d⦄ = record { dec = list_dec d.dec }

pub eq_self {ℓ} : {A : Type ℓ} ⦃d : Eq A⦄ (a : A) → a == a ≡ true
eq_self ⦃d⦄ a = if_pos (d.dec a a) refl true false
