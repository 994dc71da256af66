-- ===== src/Store/State/Heap.antt =====
-- The heap of src/quinkgl/storage/model_store.py: what popping its least pair does to the others.
use quinkgl_framework.Common.{
  ℕ, suc, ◌≤◌, ◌≡◌, refl, sym, ap, ◌≢◌, Bool, true, false, List, [], ◌∷◌, arith, if◌then◌else◌,
  nat_eq, string_eq, pair_eq, length, All, list_eq,
}
use quinkgl_framework.Store.Names.{Text}
use quinkgl_framework.Store.State.{pair_leb, heappop}

abbrev pub Pair : Type 0
Pair = ℕ × Text

abbrev pub NotOf : Text → Pair → Type 0
NotOf i q = q.1 ≢ i

abbrev pub DistinctIds : List Pair → Type 0
DistinctIds [] = Unit
DistinctIds (q ∷ heap) = All (NotOf q.1) heap × DistinctIds heap

abbrev pub NotBefore : ℕ → Pair → Type 0
NotBefore n q = n ≤ q.0

pick : (P : Pair → Type 0) (first : Bool) {p q : Pair} → P p → P q → P (if first then p else q)
pick P true hp hq = hp
pick P false hp hq = hq

unpick :
    (P : Pair → Type 0) (first : Bool) (p q : Pair)
    → P (if first then p else q)
    → P (if first then q else p)
    → P p × P q
unpick P true p q h k = (h, k)
unpick P false p q h k = (k, h)

apart :
    (first : Bool) (p q : Pair)
    → q.1 ≢ p.1
    → NotOf (if first then p else q).1 (if first then q else p)
apart true p q n = n
apart false p q n = λ e. n (sym e)

winner_le :
    (p q : Pair)
    → ((if pair_leb p q then p else q).0 ≤ p.0)
      × ((if pair_leb p q then p else q).0 ≤ (if pair_leb p q then q else p).0)
unfolding pair_leb
winner_le p q = (ground arith, ground arith)

-- What holds of all pairs of a heap holds of the one popped and of the rest, and back.
pub heappop-All :
    (P : Pair → Type 0) (p : Pair) (heap : List Pair)
    → P p
    → All P heap
    → P (heappop p heap).0 × All P (heappop p heap).1
unfolding heappop
heappop-All P p [] hp hs = (hp, tt)
heappop-All P p (q ∷ heap) hp hs =
    let r =
      heappop-All P (if pair_leb p q then p else q) heap (pick P (pair_leb p q) hp hs.0) hs.1 in
    (r.0, (pick P (pair_leb p q) hs.0 hp, r.1))

pub heappop-All_back :
    (P : Pair → Type 0) (p : Pair) (heap : List Pair)
    → P (heappop p heap).0
    → All P (heappop p heap).1
    → P p × All P heap
unfolding heappop
heappop-All_back P p [] h hs = (h, tt)
heappop-All_back P p (q ∷ heap) h hs =
    let r = heappop-All_back P (if pair_leb p q then p else q) heap h hs.1 in
    let both = unpick P (pair_leb p q) p q r.0 hs.0 in (both.0, (both.1, r.1))

pub heappop-DistinctIds :
    (p : Pair) (heap : List Pair)
    → DistinctIds (p ∷ heap)
    → DistinctIds ((heappop p heap).0 ∷ (heappop p heap).1)
unfolding heappop
heappop-DistinctIds p [] h = h
heappop-DistinctIds p (q ∷ heap) ((n, fresh), (fresh', rest)) =
    let b = pair_leb p q in
    let IsFresh : Pair → Type 0 = (λ x. All (NotOf x.1) heap) in
    let r =
      heappop-DistinctIds (if b then p else q) heap
        (pick IsFresh b {p = p} {q = q} fresh fresh', rest) in
    let loser : Pair = if b then q else p in
    let others =
      heappop-All (NotOf loser.1) (if b then p else q) heap (λ e. apart b p q n (sym e))
        (pick IsFresh b {p = q} {q = p} fresh' fresh) in
    ((λ e. others.0 (sym e), r.0), (others.1, r.1))

pub heappop-least :
    (p : Pair) (heap : List Pair)
    → ((heappop p heap).0.0 ≤ p.0) × All (NotBefore (heappop p heap).0.0) (heappop p heap).1
unfolding heappop
heappop-least p [] = (omega arith, tt)
heappop-least p (q ∷ heap) =
    let r = heappop-least (if pair_leb p q then p else q) heap in
    let w = winner_le p q in (omega (arith, r.0, w.0), (omega (arith, r.0, w.1), r.1))

pub length-heappop : (p : Pair) (heap : List Pair) → length (heappop p heap).1 ≡ length heap
unfolding heappop
length-heappop p [] = refl
length-heappop p (q ∷ heap) = ap suc (length-heappop (if pair_leb p q then p else q) heap)
