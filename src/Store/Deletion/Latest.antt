-- ===== src/Store/Deletion/Latest.antt =====
-- What src/quinkgl/storage/model_store.py takes for the latest checkpoint when that has been deleted.
use quinkgl_framework.Common.{
  ◌≡◌, refl, sym, ap, ◌∙◌, Bool, true, Option, none, some, [], Option-elim, nat_eq, string_eq,
  pair_eq, list_eq, Result, ok, ◌>>=◌,
}
use mathlib.Core.Option.{some-injective}
use quinkgl_framework.Common.Dict.{lookup}
use quinkgl_framework.Store.Names.{Text, StoreError, matches_id_pattern}
use quinkgl_framework.Store.Names.Paths.{validate_valid}
use quinkgl_framework.Store.Checkpoint.{ModelCheckpoint, Codec}
use quinkgl_framework.Store.State.{StorageDir, ModelStore, invalidate_cache}
use quinkgl_framework.Store.Loading.{latest_id, latest_found, get_latest_checkpoint}
use quinkgl_framework.Store.Deletion.{
  files_named, unlink_all, forget_in_memory, delete_files, delete_valid, delete_checkpoint,
}
use quinkgl_framework.Store.Deletion.Effects.{
  IsGone, unlinked-IsGone, load_from_disk-gone, deleted_found, outcome,
}

delete_files-dir :
    (s : ModelStore) (checkpoint_id : Text) (d : StorageDir)
    → s.storage_dir ≡ some d
    → ((delete_files s checkpoint_id).0.storage_dir
        ≡ some (record d { files = unlink_all (files_named checkpoint_id) d.files }))
      × ((delete_files s checkpoint_id).0.round_index ≡ s.round_index)
unfolding delete_files
delete_files-dir s checkpoint_id d dir =
    let without : StorageDir → StorageDir =
      (λ x. record x { files = unlink_all (files_named checkpoint_id) x.files }) in
    let P : ModelStore × Bool → Type 0 =
      (λ r. (r.0.storage_dir ≡ some (without d)) × (r.0.round_index ≡ s.round_index)) in
    Option-elim P s.storage_dir (λ nowhere. absurd (cc (nowhere, dir)))
      (λ x found. (ap (λ y. some (without y)) (some-injective _ _ (sym found ∙ dir)), refl))

forget_in_memory-absent :
    (s : ModelStore) (checkpoint_id : Text)
    → lookup checkpoint_id s.checkpoints ≡ none
    → forget_in_memory s checkpoint_id ≡ s
unfolding forget_in_memory
forget_in_memory-absent s checkpoint_id absent =
    Option-elim (λ (t : ModelStore). t ≡ s) (lookup checkpoint_id s.checkpoints) (λ no. refl)
      (λ c found. absurd (cc (absent, found)))

deleted_stale :
    (s : ModelStore) (checkpoint_id : Text) (d : StorageDir)
    → s.storage_dir ≡ some d
    → lookup checkpoint_id s.checkpoints ≡ none
    → let t = (delete_valid s checkpoint_id).0 in
      (t.storage_dir ≡ some (record d { files = unlink_all (files_named checkpoint_id) d.files }))
      × (t.round_index ≡ s.round_index)
unfolding delete_valid invalidate_cache
deleted_stale s checkpoint_id d dir absent =
    let same = forget_in_memory-absent s checkpoint_id absent in
    let r =
      delete_files-dir (invalidate_cache (forget_in_memory s checkpoint_id)) checkpoint_id d
        (ap (λ (x : ModelStore). x.storage_dir) same ∙ dir) in
    (r.0, r.1 ∙ ap (λ (x : ModelStore). x.round_index) same)

latest_found-gone :
    (h : Codec) (s : ModelStore) (checkpoint_id : Text) (d : StorageDir)
    → s.storage_dir ≡ some d
    → lookup checkpoint_id s.checkpoints ≡ none
    → matches_id_pattern checkpoint_id ≡ true
    → IsGone checkpoint_id (some d)
    → latest_found h s (some checkpoint_id) ≡ ok (s, none)
unfolding latest_found
latest_found-gone h s checkpoint_id d dir absent valid gone =
    Option-elim (λ (r : Result StoreError (ModelStore × Option ModelCheckpoint)). r ≡ ok (s, none))
      (lookup checkpoint_id s.checkpoints)
      (λ no. load_from_disk-gone h s checkpoint_id d dir valid gone)
      (λ c found. absurd (cc (absent, found)))

-- In a store with a directory and nothing in memory, after the checkpoint of the latest indexed
-- round has been deleted no checkpoint is the latest one, whatever else is stored.
pub get_latest_checkpoint-stale :
    (h : Codec) (s : ModelStore) (d : StorageDir) (checkpoint_id : Text)
    → s.storage_dir ≡ some d
    → s.checkpoints ≡ []
    → latest_id s.round_index ≡ some checkpoint_id
    → matches_id_pattern checkpoint_id ≡ true
    → (delete_checkpoint s checkpoint_id >>= λ (s', _). outcome (get_latest_checkpoint h s'))
      ≡ ok none
unfolding delete_checkpoint get_latest_checkpoint lookup
get_latest_checkpoint-stale h s d checkpoint_id dir empty latest valid =
    let t = (delete_valid s checkpoint_id).0 in
    let absent = ap (lookup checkpoint_id) empty in
    let (dir', index) = deleted_stale s checkpoint_id d dir absent in
    let after : ModelStore × Bool → Result StoreError (Option ModelCheckpoint) =
      (λ (x, _). outcome (get_latest_checkpoint h x)) in
    ap (λ r. (r >>= λ v. ok (delete_valid s v)) >>= after) (validate_valid checkpoint_id valid)
    ∙ ap (λ o. outcome (latest_found h t o)) (ap latest_id index ∙ latest)
    ∙ ap outcome (
        latest_found-gone h t checkpoint_id
          (record d { files = unlink_all (files_named checkpoint_id) d.files }) dir'
          (deleted_found h s checkpoint_id valid).0 valid (unlinked-IsGone checkpoint_id d))
