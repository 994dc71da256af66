-- ===== src/Store/Retention.antt =====
-- What `save_checkpoint` of src/quinkgl/storage/model_store.py leaves in memory.
use quinkgl_framework.Common.{
  ℕ, ◌≤◌, ◌<◌, String, ◌≡◌, refl, sym, ap, subst, ◌∙◌, true, Option, none, some, List, arith,
  if-elim, nat_eq, string_eq, pair_eq, length, Result-bind_ok, ok, ok-injective, list_eq,
}
use quinkgl_framework.Common.Dict.{lookup, insert, insert-NodupKeys, NodupKeys}
use quinkgl_framework.Store.Eviction.{AreNamed}
use quinkgl_framework.Store.Names.{Text}
use quinkgl_framework.Store.Values.{Value}
use quinkgl_framework.Store.Checkpoint.{ModelCheckpoint, Codec, post_init}
use quinkgl_framework.Store.State.{StorageDir, ModelStore, invalidate_cache}
use quinkgl_framework.Store.Saving.{
  save_checkpoint, save_files, save_at, save_to_disk, keep_checkpoint, index_round, new_checkpoint,
}
use quinkgl_framework.Store.Limit.{
  IsStore, insert-AreNamed, enforce_memory_limit-IsStore, enforce_memory_limit-newest,
}

-- The same memory under the same limit.
abbrev SameMemory : ModelStore → ModelStore → Type 0
SameMemory s t =
    (t.checkpoints ≡ s.checkpoints)
    × ((t.max_memory_checkpoints ≡ s.max_memory_checkpoints)
        × (t.keep_in_memory ≡ s.keep_in_memory))

save_at-SameMemory :
    (h : Codec) (s t : ModelStore) (c : ModelCheckpoint) (dir : Option StorageDir)
    → save_at h s c dir ≡ ok t
    → SameMemory s t
unfolding save_at
save_at-SameMemory h s t c none e = subst (SameMemory s) (ok-injective s t e) (refl, (refl, refl))
save_at-SameMemory h s t c (some d) e =
    let (w, (_, g)) = Result-bind_ok (save_to_disk h s.compression d c) _ t e in
    subst (SameMemory s) (ok-injective _ t g) (refl, (refl, refl))

-- A save that returns has kept its checkpoint in a store of the same memory.
save_checkpoint-kept :
    (h : Codec) (s s' : ModelStore) (round_number : ℕ) (weights : Value) (metrics : Option Value)
    (contributing_peers : Option (List String)) (now : ℕ) (c : ModelCheckpoint)
    → save_checkpoint h s round_number weights metrics contributing_peers now ≡ ok (s', c)
    → (t : ModelStore) × (SameMemory s t × (s' ≡ keep_checkpoint t c))
unfolding save_checkpoint save_files index_round invalidate_cache
save_checkpoint-kept h s s' round_number weights metrics contributing_peers now c e =
    let (b, (made, rest)) =
      Result-bind_ok
        (post_init h (new_checkpoint h round_number weights metrics contributing_peers now)) _
        (s', c) e in
    let (saved, (wrote, last)) = Result-bind_ok (save_files h s b) _ (s', c) rest in
    let same = ok-injective _ (s', c) last in
    (
      index_round (invalidate_cache saved) b,
      (
        save_at-SameMemory h s saved b s.storage_dir wrote,
        sym (ap (λ x. x.0) same)
            ∙ ap (keep_checkpoint (index_round (invalidate_cache saved) b)) (ap (λ x. x.1) same),
      ),
    )

with_new : ModelStore → ModelCheckpoint → ModelStore
with_new t c = record t { checkpoints = insert c.checkpoint_id c t.checkpoints }

with_new-IsStore : (t : ModelStore) (c : ModelCheckpoint) → IsStore t → IsStore (with_new t c)
unfolding with_new
with_new-IsStore t c h = record {
  distinct = insert-NodupKeys c.checkpoint_id c t.checkpoints h.distinct;
  named = insert-AreNamed c t.checkpoints h.named;
}

keep_checkpoint-IsStore :
    (t : ModelStore) (c : ModelCheckpoint)
    → IsStore t
    → IsStore (keep_checkpoint t c)
      × (t.keep_in_memory ≡ true
          → 0 < t.max_memory_checkpoints
          → length (keep_checkpoint t c).checkpoints ≤ t.max_memory_checkpoints)
unfolding keep_checkpoint with_new
keep_checkpoint-IsStore t c h =
    if-elim
      (λ (u : ModelStore).
        IsStore u
        × (t.keep_in_memory ≡ true
            → 0 < t.max_memory_checkpoints
            → length u.checkpoints ≤ t.max_memory_checkpoints))
      t.keep_in_memory
      (λ keeps.
        let r = enforce_memory_limit-IsStore (with_new t c) (with_new-IsStore t c h) in
        (r.0, λ k pos. r.1 pos))
      (λ drops. (h, λ k. absurd (cc (drops, k))))

keep_checkpoint-newest :
    (t : ModelStore) (c : ModelCheckpoint) (i j : Text) (a b : ModelCheckpoint)
    → IsStore t
    → t.keep_in_memory ≡ true
    → lookup i (insert c.checkpoint_id c t.checkpoints) ≡ some a
    → lookup i (keep_checkpoint t c).checkpoints ≡ none
    → lookup j (keep_checkpoint t c).checkpoints ≡ some b
    → a.round_number ≤ b.round_number
unfolding keep_checkpoint with_new
keep_checkpoint-newest t c i j a b h keeps had =
    if-elim
      (λ (u : ModelStore).
        lookup i u.checkpoints ≡ none
        → lookup j u.checkpoints ≡ some b
        → a.round_number ≤ b.round_number)
      t.keep_in_memory
      (λ yes. enforce_memory_limit-newest (with_new t c) i j a b (with_new-IsStore t c h) had)
      (λ no. absurd (cc (no, keeps)))

same-IsStore : (s t : ModelStore) → SameMemory s t → IsStore s → IsStore t
same-IsStore s t same h = record {
  distinct = subst NodupKeys (sym same.0) h.distinct;
  named = subst AreNamed (sym same.0) h.named;
}

-- Where a save returns, from a store whose ids in memory are distinct and name their checkpoints
-- (IsStore), the store is so again; and if it keeps checkpoints in memory and has a limit, it
-- has no more of them than that.
pub save_checkpoint-bounded :
    (h : Codec) (s s' : ModelStore) (round_number : ℕ) (weights : Value) (metrics : Option Value)
    (contributing_peers : Option (List String)) (now : ℕ) (c : ModelCheckpoint)
    → IsStore s
    → save_checkpoint h s round_number weights metrics contributing_peers now ≡ ok (s', c)
    → IsStore s'
      × (s.keep_in_memory ≡ true
          → 0 < s.max_memory_checkpoints
          → length s'.checkpoints ≤ s.max_memory_checkpoints)
save_checkpoint-bounded h s s' round_number weights metrics contributing_peers now c sound e =
    let (t, (same, kept)) =
      save_checkpoint-kept h s s' round_number weights metrics contributing_peers now c e in
    let r = keep_checkpoint-IsStore t c (same-IsStore s t same sound) in
    (
      subst IsStore (sym kept) r.0,
      λ keeps pos.
          let le = r.1 (same.1.1 ∙ keeps) (subst (λ n. 0 < n) (sym same.1.0) pos) in
          omega (arith, le, same.1.0, ap (λ (x : ModelStore). length x.checkpoints) kept),
    )

-- Where a save returns, a checkpoint that was in memory, or is the saved one, and is not there
-- afterwards, has no higher round than any that is there. The store must be sound (IsStore) and
-- keep checkpoints in memory.
pub save_checkpoint-newest :
    (h : Codec) (s s' : ModelStore) (round_number : ℕ) (weights : Value) (metrics : Option Value)
    (contributing_peers : Option (List String)) (now : ℕ) (c : ModelCheckpoint) (i j : Text)
    (a b : ModelCheckpoint)
    → IsStore s
    → s.keep_in_memory ≡ true
    → save_checkpoint h s round_number weights metrics contributing_peers now ≡ ok (s', c)
    → lookup i (insert c.checkpoint_id c s.checkpoints) ≡ some a
    → lookup i s'.checkpoints ≡ none
    → lookup j s'.checkpoints ≡ some b
    → a.round_number ≤ b.round_number
save_checkpoint-newest h s s' round_number weights metrics contributing_peers now c i j a b sound
      keeps e had gone stays =
    let (t, (same, kept)) =
      save_checkpoint-kept h s s' round_number weights metrics contributing_peers now c e in
    let memory = ap (λ (x : ModelStore). x.checkpoints) kept in
    keep_checkpoint-newest t c i j a b (same-IsStore s t same sound) (same.1.1 ∙ keeps)
      (ap (λ d. lookup i (insert c.checkpoint_id c d)) same.0 ∙ had)
      (sym (ap (lookup i) memory) ∙ gone) (sym (ap (lookup j) memory) ∙ stays)
