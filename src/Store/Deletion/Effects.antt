-- ===== src/Store/Deletion/Effects.antt =====
-- What is left when src/quinkgl/storage/model_store.py has deleted a checkpoint.
use quinkgl_framework.Common.{
  ◌≡◌, refl, sym, ap, ap₂, subst, ◌∙◌, ◌⊎◌, inl, inr, Bool, true, Option, none, some, arith,
  if◌then◌else◌, Bool-cases, if-elim, Option-elim, nat_eq, string_eq, pair_eq, Result, ok, err,
  ◌>>=◌, list_eq,
}
use quinkgl_framework.Common.Dict.{Dict, lookup, erase, lookup-erase, lookup-erase_self}
use quinkgl_framework.Store.Names.{
  Text, StoreError, invalid_checkpoint_id, validate_checkpoint_id, matches_id_pattern, file_name,
  gz_ext, msgpack_ext, pkl_ext, meta_ext,
}
use quinkgl_framework.Store.Names.Paths.{validate_valid}
use quinkgl_framework.Store.Checkpoint.{Bytes, ModelCheckpoint, Codec}
use quinkgl_framework.Store.State.{StorageDir, ModelStore, invalidate_cache}
use quinkgl_framework.Store.Loading.{
  stored_bytes, read_stored, load_in, load_found, load_from_disk, load_checkpoint,
}
use quinkgl_framework.Store.Deletion.{
  files_named, unlink_all, forget_in_memory, delete_files, delete_valid, delete_checkpoint,
}

stays_absent :
    (j k : Text) (files : Dict Text Bytes) → lookup j files ≡ none → lookup j (erase k files) ≡ none
stays_absent j k files h = ground (arith, h, lookup-erase j k files)

-- Neither form of a checkpoint is among the files.
abbrev pub IsGone : Text → Option StorageDir → Type 0
IsGone checkpoint_id none = Unit
IsGone checkpoint_id (some d) =
    (lookup (file_name checkpoint_id gz_ext) d.files ≡ none)
    × (lookup (file_name checkpoint_id msgpack_ext) d.files ≡ none)

pub unlinked-IsGone :
    (checkpoint_id : Text) (d : StorageDir)
    → IsGone checkpoint_id
        (some (record d { files = unlink_all (files_named checkpoint_id) d.files }))
unfolding files_named unlink_all
unlinked-IsGone checkpoint_id d =
    let gz = file_name checkpoint_id gz_ext in
    let plain = file_name checkpoint_id msgpack_ext in
    let first = erase gz d.files in
    let second = erase plain first in
    let third = erase (file_name checkpoint_id pkl_ext) second in
    let after : (name : Text)
        → lookup name second ≡ none
        → lookup name (erase (file_name checkpoint_id meta_ext) third) ≡ none =
      (λ name h.
        stays_absent name (file_name checkpoint_id meta_ext) third
          (stays_absent name (file_name checkpoint_id pkl_ext) second h)) in
    (
      after gz (stays_absent gz plain first (lookup-erase_self gz d.files)),
      after plain (lookup-erase_self plain first),
    )

validate-cases :
    (s : Text)
    → ((matches_id_pattern s ≡ true) × (validate_checkpoint_id s ≡ ok s))
      ⊎ (validate_checkpoint_id s ≡ err invalid_checkpoint_id)
unfolding validate_checkpoint_id
validate-cases s = elim (Bool-cases (matches_id_pattern s)) [
  | inl valid ↦ inl (valid, validate_valid s valid)
  | inr bad ↦ inr (ap (λ b. if b then ok s else err invalid_checkpoint_id) bad)
]

delete_files-IsGone :
    (s : ModelStore) (checkpoint_id : Text)
    → IsGone checkpoint_id (delete_files s checkpoint_id).0.storage_dir
      × ((delete_files s checkpoint_id).0.checkpoints ≡ s.checkpoints)
unfolding delete_files
delete_files-IsGone s checkpoint_id =
    let P : ModelStore × Bool → Type 0 =
      (λ r. IsGone checkpoint_id r.0.storage_dir × (r.0.checkpoints ≡ s.checkpoints)) in
    Option-elim P s.storage_dir (λ nowhere. (subst (IsGone checkpoint_id) (sym nowhere) tt, refl))
      (λ d found. (unlinked-IsGone checkpoint_id d, refl))

forgotten :
    (s : ModelStore) (checkpoint_id : Text)
    → lookup checkpoint_id (forget_in_memory s checkpoint_id).checkpoints ≡ none
unfolding forget_in_memory
forgotten s checkpoint_id =
    Option-elim (λ (t : ModelStore). lookup checkpoint_id t.checkpoints ≡ none)
      (lookup checkpoint_id s.checkpoints) (λ absent. absent)
      (λ c found. lookup-erase_self checkpoint_id s.checkpoints)

stored_bytes-none :
    (s : ModelStore) (d : StorageDir) (checkpoint_id : Text)
    → IsGone checkpoint_id (some d)
    → stored_bytes s d checkpoint_id ≡ none
unfolding stored_bytes
stored_bytes-none s d checkpoint_id (gz, plain) =
    if-elim (λ (o : Option (Bytes × Bool)). o ≡ none) s.compression (λ yes. rw (gz, plain) refl)
      (λ no. rw plain refl)

abbrev pub outcome :
    Result StoreError (ModelStore × Option ModelCheckpoint)
    → Result StoreError (Option ModelCheckpoint)
outcome r = r >>= λ (_, found). ok found

pub load_from_disk-gone :
    (h : Codec) (s : ModelStore) (checkpoint_id : Text) (d : StorageDir)
    → s.storage_dir ≡ some d
    → matches_id_pattern checkpoint_id ≡ true
    → IsGone checkpoint_id (some d)
    → load_from_disk h s checkpoint_id ≡ ok (s, none)
unfolding load_from_disk load_in read_stored
load_from_disk-gone h s checkpoint_id d dir valid gone =
    ap (λ r. r >>= λ v. load_in h s v s.storage_dir) (validate_valid checkpoint_id valid)
    ∙ ap (load_in h s checkpoint_id) dir
    ∙ ap (λ o. ok (read_stored h s o)) (stored_bytes-none s d checkpoint_id gone)

load_checkpoint-gone :
    (h : Codec) (s : ModelStore) (checkpoint_id : Text) (dir : Option StorageDir)
    → s.storage_dir ≡ dir
    → matches_id_pattern checkpoint_id ≡ true
    → lookup checkpoint_id s.checkpoints ≡ none
    → IsGone checkpoint_id dir
    → load_found h s checkpoint_id (lookup checkpoint_id s.checkpoints) s.storage_dir ≡ ok (s, none)
unfolding load_found
load_checkpoint-gone h s checkpoint_id none e valid absent gone =
    ap₂ (load_found h s checkpoint_id) absent e
load_checkpoint-gone h s checkpoint_id (some d) e valid absent gone =
    ap₂ (load_found h s checkpoint_id) absent e
    ∙ load_from_disk-gone h s checkpoint_id d e valid gone

pub deleted_found :
    (h : Codec) (s : ModelStore) (checkpoint_id : Text)
    → matches_id_pattern checkpoint_id ≡ true
    → let t = (delete_valid s checkpoint_id).0 in
      (lookup checkpoint_id t.checkpoints ≡ none)
      × (load_found h t checkpoint_id (lookup checkpoint_id t.checkpoints) t.storage_dir
          ≡ ok (t, none))
unfolding delete_valid invalidate_cache
deleted_found h s checkpoint_id valid =
    let t = invalidate_cache (forget_in_memory s checkpoint_id) in
    let (gone, same) = delete_files-IsGone t checkpoint_id in
    let absent = ap (lookup checkpoint_id) same ∙ forgotten s checkpoint_id in
    (
      absent,
      load_checkpoint-gone h (delete_files t checkpoint_id).0 checkpoint_id
          (delete_files t checkpoint_id).0.storage_dir refl valid absent gone,
    )

-- A checkpoint that has been deleted is not found any more, in memory or in the directory; an id
-- that does not match the pattern is refused.
pub delete_checkpoint-gone :
    (h : Codec) (s : ModelStore) (checkpoint_id : Text)
    → (delete_checkpoint s checkpoint_id >>= λ (s', _).
        outcome (load_checkpoint h s' checkpoint_id))
      ≡ (validate_checkpoint_id checkpoint_id >>= λ _. ok none)
unfolding delete_checkpoint load_checkpoint
delete_checkpoint-gone h s checkpoint_id =
    let load : Text → ModelStore × Bool → Result StoreError (Option ModelCheckpoint) =
      (λ v (t, _). outcome (load_found h t v (lookup v t.checkpoints) t.storage_dir)) in
    let after : ModelStore × Bool → Result StoreError (Option ModelCheckpoint) =
      (λ (t, _). outcome (load_checkpoint h t checkpoint_id)) in
    elim (validate-cases checkpoint_id) [
      | inl (valid, e) ↦
          ap (λ r. (r >>= λ v. ok (delete_valid s v)) >>= after) e
          ∙ ap
              (λ r. outcome (
                r >>= λ w.
                let t = (delete_valid s checkpoint_id).0 in
                load_found h t w (lookup w t.checkpoints) t.storage_dir))
              e
          ∙ ap outcome (deleted_found h s checkpoint_id valid).1
          ∙ sym (ap (λ r. r >>= λ _. ok none) e)
      | inr e ↦
          ap (λ r. (r >>= λ v. ok (delete_valid s v)) >>= after) e
          ∙ sym (ap (λ r. r >>= λ _. ok none) e)
    ]
