-- ===== src/Store/Limit.antt =====
-- The limit of the memory of src/quinkgl/storage/model_store.py, which every save keeps to.
use quinkgl_framework.Common.{
  ℕ, zero, suc, ◌-◌, ◌≤◌, ◌<◌, ◌≡◌, refl, sym, ap, ap₂, subst, ◌∙◌, ◌||◌, none, some, List, [], ◌∷◌,
  map, arith, leb, if-elim, ◌==◌, nat_eq, string_eq, pair_eq, list_eq, length, All, All-map,
}
use mathlib.Core.Option.{some-injective}
use quinkgl_framework.Common.Dict.{
  lookup, insert, erase, has, values, NodupKeys, lookup-cons_rest, lookup-cons_self,
}
use quinkgl_framework.Store.Names.{Text}
use quinkgl_framework.Store.Checkpoint.{ModelCheckpoint}
use quinkgl_framework.Store.State.{
  ModelStore, heappop, evict_checkpoint, evict_heap, heap_of, enforce_memory_limit,
}
use quinkgl_framework.Store.State.Heap.{Pair, NotOf, DistinctIds}
use quinkgl_framework.Store.Eviction.{
  Checkpoints, Stands, AreNamed, Covers, evict_heap-length, evict_heap-newest,
}

-- The ids in memory are distinct, and every checkpoint is under its own.
pub record IsStore (s : ModelStore) : Type 0 where
  pub distinct : NodupKeys s.checkpoints
  pub named : AreNamed s.checkpoints

pub insert-AreNamed :
    (c : ModelCheckpoint) (d : Checkpoints) → AreNamed d → AreNamed (insert c.checkpoint_id c d)
unfolding insert
insert-AreNamed c [] h = (refl, tt)
insert-AreNamed c ((k, b) ∷ d) h =
    if-elim AreNamed (c.checkpoint_id == k) (λ same. (refl, h.1))
      (λ differ. (h.0, insert-AreNamed c d h.1))

pub erase-AreNamed : (k : Text) (d : Checkpoints) → AreNamed d → AreNamed (erase k d)
unfolding erase
erase-AreNamed k [] h = tt
erase-AreNamed k ((j, b) ∷ d) h =
    if-elim AreNamed (k == j) (λ same. erase-AreNamed k d h.1)
      (λ differ. (h.0, erase-AreNamed k d h.1))

pairs : Checkpoints → List Pair
pairs d = map (λ (c : ModelCheckpoint). (c.round_number, c.checkpoint_id)) (values d)

length-pairs : (d : Checkpoints) → length (pairs d) ≡ length d
unfolding pairs
length-pairs [] = refl
length-pairs (x ∷ d) = ap suc (length-pairs d)

pairs-NotOf :
    (i : Text) (d : Checkpoints) → AreNamed d → lookup i d ≡ none → All (NotOf i) (pairs d)
unfolding pairs lookup
pairs-NotOf i [] n h = tt
pairs-NotOf i ((k, c) ∷ d) n h = elim (list_eq.dec i k) [
  | yes same ↦ absurd (ground (arith, h, same))
  | no differ ↦ (λ e. differ (sym e ∙ n.0), pairs-NotOf i d n.1 (ground (arith, h, differ)))
]

pairs-DistinctIds : (d : Checkpoints) → NodupKeys d → AreNamed d → DistinctIds (pairs d)
unfolding pairs
pairs-DistinctIds [] u n = tt
pairs-DistinctIds ((k, c) ∷ d) u n = (
  subst (λ i. All (NotOf i) (pairs d)) (sym n.0) (pairs-NotOf k d n.1 u.0),
  pairs-DistinctIds d u.1 n.1,
)

pairs-Stands : (d : Checkpoints) → NodupKeys d → AreNamed d → All (Stands d) (pairs d)
unfolding pairs
pairs-Stands [] u n = tt
pairs-Stands ((k, c) ∷ d) u n = (
  (c, (ap (λ i. lookup i ((k, c) ∷ d)) n.0 ∙ lookup-cons_self (k, c) d, refl)),
  All-map (Stands d) (Stands ((k, c) ∷ d)) (pairs d)
      (λ q (b, (found, rnd)). (b, (lookup-cons_rest q.1 b (k, c) d u.0 found, rnd)))
      (pairs-Stands d u.1 n.1),
)

pairs-Covers : (d : Checkpoints) → AreNamed d → Covers d (pairs d)
unfolding pairs lookup
pairs-Covers [] n i c found P h = absurd (ground (arith, found))
pairs-Covers ((k, b) ∷ d) n i c found P h = elim (list_eq.dec i k) [
  | yes same ↦
      let e : b ≡ c = some-injective _ _ (ground (arith, found, same)) in
      subst P (ap₂ (λ (x : ModelCheckpoint) j. (x.round_number, j)) e (n.0 ∙ sym same)) h.0
  | no differ ↦ pairs-Covers d n.1 i c (ground (arith, found, differ)) P h.1
]

evict_heap-AreNamed :
    (n : ℕ) (s : ModelStore) (heap : List Pair)
    → AreNamed s.checkpoints
    → AreNamed (evict_heap n s heap).checkpoints
unfolding evict_heap evict_checkpoint
evict_heap-AreNamed zero s heap h = h
evict_heap-AreNamed (suc n) s [] h = h
evict_heap-AreNamed (suc n) s (p ∷ heap) h =
    let q = (heappop p heap).0 in
    evict_heap-AreNamed n (evict_checkpoint s q) (heappop p heap).1 (
      if-elim (λ (t : ModelStore). AreNamed t.checkpoints) (has q.1 s.checkpoints)
        (λ yes. erase-AreNamed q.1 s.checkpoints h) (λ no. h))

-- What the limit leaves in memory.
pub enforce_memory_limit-IsStore :
    (s : ModelStore)
    → IsStore s
    → IsStore (enforce_memory_limit s)
      × (0 < s.max_memory_checkpoints
          → length (enforce_memory_limit s).checkpoints ≤ s.max_memory_checkpoints)
unfolding enforce_memory_limit heap_of pairs
enforce_memory_limit-IsStore s h =
    if-elim
      (λ (t : ModelStore).
        IsStore t
        × (0 < s.max_memory_checkpoints → length t.checkpoints ≤ s.max_memory_checkpoints))
      ((s.max_memory_checkpoints == 0) || leb (length s.checkpoints) s.max_memory_checkpoints)
      (λ fits. (h, λ pos. ground (arith, fits, pos)))
      (λ over.
        let n = length s.checkpoints - s.max_memory_checkpoints in
        let (distinct, left) =
          evict_heap-length n s (pairs s.checkpoints) h.distinct
            (pairs-DistinctIds s.checkpoints h.distinct h.named)
            (pairs-Stands s.checkpoints h.distinct h.named)
            (omega (arith, length-pairs s.checkpoints)) in
        (
          record {
            distinct = distinct;
            named = evict_heap-AreNamed n s (pairs s.checkpoints) h.named;
          },
          λ pos. ground (arith, over, left),
        ))

-- What is evicted is not newer than what stays.
pub enforce_memory_limit-newest :
    (s : ModelStore) (i j : Text) (a b : ModelCheckpoint)
    → IsStore s
    → lookup i s.checkpoints ≡ some a
    → lookup i (enforce_memory_limit s).checkpoints ≡ none
    → lookup j (enforce_memory_limit s).checkpoints ≡ some b
    → a.round_number ≤ b.round_number
unfolding enforce_memory_limit heap_of pairs
enforce_memory_limit-newest s i j a b h had =
    if-elim
      (λ (t : ModelStore).
        lookup i t.checkpoints ≡ none
        → lookup j t.checkpoints ≡ some b
        → a.round_number ≤ b.round_number)
      ((s.max_memory_checkpoints == 0) || leb (length s.checkpoints) s.max_memory_checkpoints)
      (λ fits gone. absurd (ground (arith, had, gone)))
      (λ over.
        evict_heap-newest (length s.checkpoints - s.max_memory_checkpoints) s (pairs s.checkpoints)
          i j a b (pairs-DistinctIds s.checkpoints h.distinct h.named)
          (pairs-Stands s.checkpoints h.distinct h.named) (pairs-Covers s.checkpoints h.named) had)
