-- ===== src/Store/Eviction.antt =====
-- What `_enforce_memory_limit` of src/quinkgl/storage/model_store.py evicts, and what it keeps.
use quinkgl_framework.Common.{
  ℕ, zero, suc, ◌+◌, ◌≤◌, ◌≡◌, refl, sym, ap, subst, ◌∙◌, ◌≢◌, none, some, List, [], ◌∷◌, arith,
  if◌then◌else◌, nat_eq, string_eq, pair_eq, list_eq, length, All, All-map,
}
use mathlib.Core.Option.{some-injective}
use quinkgl_framework.Common.Dict.{
  Dict, lookup, erase, lookup-erase, lookup-erase-some, lookup-erase_ne, is_some, length-erase,
  NodupKeys, erase-NodupKeys,
}
use quinkgl_framework.Store.Names.{Text}
use quinkgl_framework.Store.Checkpoint.{ModelCheckpoint}
use quinkgl_framework.Store.State.{ModelStore, heappop, evict_checkpoint, evict_heap}
use quinkgl_framework.Store.State.Heap.{
  Pair, NotOf, DistinctIds, NotBefore, heappop-All, heappop-All_back, heappop-DistinctIds,
  heappop-least, length-heappop,
}

abbrev pub Checkpoints : Type 0
Checkpoints = Dict Text ModelCheckpoint

-- A pair of the heap stands for a checkpoint in memory.
abbrev pub Stands : Checkpoints → Pair → Type 0
Stands d q = (c : ModelCheckpoint) × ((lookup q.1 d ≡ some c) × (c.round_number ≡ q.0))

-- Every checkpoint in memory is under its id.
abbrev pub AreNamed : Checkpoints → Type 0
AreNamed [] = Unit
AreNamed ((k, c) ∷ d) = (c.checkpoint_id ≡ k) × AreNamed d

erase-Stands :
    (d : Checkpoints) (i : Text) (heap : List Pair)
    → All (NotOf i) heap
    → All (Stands d) heap
    → All (Stands (erase i d)) heap
erase-Stands d i [] n h = tt
erase-Stands d i (q ∷ heap) n ((c, (found, rnd)), h) =
    ((c, (lookup-erase_ne q.1 i d n.0 ∙ found, rnd)), erase-Stands d i heap n.1 h)

evict_checkpoint-some :
    (s : ModelStore) (p : Pair) (c : ModelCheckpoint)
    → lookup p.1 s.checkpoints ≡ some c
    → (evict_checkpoint s p).checkpoints ≡ erase p.1 s.checkpoints
unfolding evict_checkpoint
evict_checkpoint-some s p c h =
    ap
      (λ b.
        (if b
          then record s {
            checkpoints = erase p.1 s.checkpoints;
            round_index = erase p.0 s.round_index;
          }
          else s).checkpoints)
      (ap is_some h)

-- What one round of the loop leaves.
popped :
    (s : ModelStore) (p : Pair) (heap : List Pair)
    → DistinctIds (p ∷ heap)
    → Stands s.checkpoints p
    → All (Stands s.checkpoints) heap
    → ((evict_checkpoint s (heappop p heap).0).checkpoints
        ≡ erase (heappop p heap).0.1 s.checkpoints)
      × (DistinctIds (heappop p heap).1
          × (All (Stands (evict_checkpoint s (heappop p heap).0).checkpoints) (heappop p heap).1
              × Stands s.checkpoints (heappop p heap).0))
popped s p heap d a rest =
    let q = (heappop p heap).0 in
    let both = heappop-All (Stands s.checkpoints) p heap a rest in
    let (fresh, distinct) = heappop-DistinctIds p heap d in
    let e = evict_checkpoint-some s q both.0.0 both.0.1.0 in
    (
      e,
      (
        distinct,
        (
          subst (λ x. All (Stands x) (heappop p heap).1) (sym e)
              (erase-Stands s.checkpoints q.1 (heappop p heap).1 fresh both.1),
          both.0,
        ),
      ),
    )

pub evict_heap-length :
    (n : ℕ) (s : ModelStore) (heap : List Pair)
    → NodupKeys s.checkpoints
    → DistinctIds heap
    → All (Stands s.checkpoints) heap
    → n ≤ length heap
    → NodupKeys (evict_heap n s heap).checkpoints
      × (length (evict_heap n s heap).checkpoints + n ≡ length s.checkpoints)
unfolding evict_heap
evict_heap-length zero s heap u d a h = (u, omega arith)
evict_heap-length (suc n) s [] u d a h = absurd (omega (arith, h))
evict_heap-length (suc n) s (p ∷ heap) u d (a, rest) h =
    let q = (heappop p heap).0 in
    let (e, (distinct, (others, (c, (found, _))))) = popped s p heap d a rest in
    let shorter = length-erase q.1 s.checkpoints u (ap is_some found) in
    let r =
      evict_heap-length n (evict_checkpoint s q) (heappop p heap).1
        (subst NodupKeys (sym e) (erase-NodupKeys q.1 s.checkpoints u)) distinct others
        (omega (arith, h, length-heappop p heap)) in
    (r.0, omega (arith, r.1, shorter, ap length e))

evict_heap-some :
    (n : ℕ) (s : ModelStore) (heap : List Pair) (j : Text) (d : ModelCheckpoint)
    → DistinctIds heap
    → All (Stands s.checkpoints) heap
    → lookup j (evict_heap n s heap).checkpoints ≡ some d
    → lookup j s.checkpoints ≡ some d
unfolding evict_heap
evict_heap-some zero s heap j d u a h = h
evict_heap-some (suc n) s [] j d u a h = h
evict_heap-some (suc n) s (p ∷ heap) j d u (a, rest) h =
    let q = (heappop p heap).0 in
    let step = popped s p heap u a rest in
    lookup-erase-some j q.1 d s.checkpoints (
      ap (lookup j) (sym step.0)
      ∙ evict_heap-some n (evict_checkpoint s q) (heappop p heap).1 j d step.1.0 step.1.1.0 h)

-- Every checkpoint in memory has its pair in the heap.
abbrev pub Covers : Checkpoints → List Pair → Type 1
Covers d heap =
    (i : Text) (c : ModelCheckpoint)
    → lookup i d ≡ some c
    → (P : Pair → Type 0) → All P heap
    → P (c.round_number, i)

not_erased :
    (i k : Text) (c : ModelCheckpoint) (d : Checkpoints) → lookup i (erase k d) ≡ some c → i ≢ k
not_erased i k c d h e = absurd (ground (arith, h, e, lookup-erase i k d))

Covers-popped :
    (d : Checkpoints) (p : Pair) (heap : List Pair)
    → Covers d (p ∷ heap)
    → Covers (erase (heappop p heap).0.1 d) (heappop p heap).1
Covers-popped d p heap h i c found P rest =
    let q = (heappop p heap).0 in
    let Other : Pair → Type 0 = (λ x. x.1 ≢ q.1 → P x) in
    h i c (lookup-erase-some i q.1 c d found) Other
      (heappop-All_back Other p heap (λ n. absurd (n refl))
        (All-map P Other (heappop p heap).1 (λ x px n. px) rest))
      (not_erased i q.1 c d found)

-- The evicted pair is not after any that stays.
popped_first :
    (d : Checkpoints) (p : Pair) (heap : List Pair) (j : Text) (b : ModelCheckpoint)
    → Covers d (p ∷ heap)
    → lookup j (erase (heappop p heap).0.1 d) ≡ some b
    → (heappop p heap).0.0 ≤ b.round_number
popped_first d p heap j b h found =
    Covers-popped d p heap h j b found (NotBefore (heappop p heap).0.0) (heappop-least p heap).1

pub evict_heap-newest :
    (n : ℕ) (s : ModelStore) (heap : List Pair) (i j : Text) (a b : ModelCheckpoint)
    → DistinctIds heap
    → All (Stands s.checkpoints) heap
    → Covers s.checkpoints heap
    → lookup i s.checkpoints ≡ some a
    → lookup i (evict_heap n s heap).checkpoints ≡ none
    → lookup j (evict_heap n s heap).checkpoints ≡ some b
    → a.round_number ≤ b.round_number
unfolding evict_heap
evict_heap-newest zero s heap i j a b u st cov had gone stays = absurd (ground (arith, had, gone))
evict_heap-newest (suc n) s [] i j a b u st cov had gone stays = absurd (ground (arith, had, gone))
evict_heap-newest (suc n) s (p ∷ heap) i j a b u st cov had gone stays =
    let q = (heappop p heap).0 in
    let (e, (distinct, (others, (c, (found, rnd))))) = popped s p heap u st.0 st.1 in
    elim (list_eq.dec i q.1) [
      | yes same ↦
          let first = popped_first s.checkpoints p heap j b cov (
            ap (lookup j) (sym e)
            ∙ evict_heap-some n (evict_checkpoint s q) (heappop p heap).1 j b distinct others
                stays) in
          let as_found =
            some-injective _ _ (sym had ∙ ap (λ k. lookup k s.checkpoints) same ∙ found) in
          omega (arith, first, rnd, ap (λ (x : ModelCheckpoint). x.round_number) as_found)
      | no differ ↦
          evict_heap-newest n (evict_checkpoint s q) (heappop p heap).1 i j a b distinct others
            (subst (λ d. Covers d (heappop p heap).1) (sym e)
              (Covers-popped s.checkpoints p heap cov))
            (ap (lookup i) e ∙ lookup-erase_ne i q.1 s.checkpoints differ ∙ had) gone stays
    ]
