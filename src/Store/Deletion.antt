-- ===== src/Store/Deletion.antt =====
-- How `ModelStore` of src/quinkgl/storage/model_store.py deletes and measures checkpoints.
pub mod Effects
pub mod Latest
use quinkgl_framework.Common.{
  ℕ, ◌+◌, ◌-◌, Bool, false, ◌||◌, none, some, List, [], ◌∷◌, ltb, leb, if◌then◌else◌, nat_eq,
  string_eq, pair_eq, length, take, Result, ok, err, ◌>>=◌, list_eq,
}
use quinkgl_framework.Common.Text.{ends_with}
use quinkgl_framework.Common.Dict.{Dict, lookup, insert, erase, has, keys, values}
use quinkgl_framework.Store.Names.{
  Text, StoreError, not_serializable, validate_checkpoint_id, get_checkpoint_path,
  get_metadata_path, checkpoint_id_from_path, file_name, gz_ext, msgpack_ext, pkl_ext, meta_ext,
}
use quinkgl_framework.Store.Checkpoint.{
  Bytes, ModelCheckpoint, CheckpointMetadata, Codec, serialize_checkpoint, checkpoint_to_metadata,
  deserialize_metadata,
}
use quinkgl_framework.Store.State.{StorageDir, ModelStore, invalidate_cache}
use quinkgl_framework.Store.Saving.{save_metadata_to_disk}
use quinkgl_framework.Store.Loading.{find_checkpoint_files, load_from_disk}
-- `filepath.stat().st_size` of a file that exists, else 0.
use quinkgl_framework.Store.Listing.{list_checkpoint_metadata}

unfoldable pub files_named : Text → List Text
unfolding file_name
files_named checkpoint_id =
    file_name checkpoint_id gz_ext
    ∷ file_name checkpoint_id msgpack_ext
    ∷ file_name checkpoint_id pkl_ext
    ∷ file_name checkpoint_id meta_ext
    ∷ []

unfoldable pub unlink_all : List Text → Dict Text Bytes → Dict Text Bytes
unlink_all [] files = files
unlink_all (name ∷ names) files = unlink_all names (erase name files)

unfoldable pub any_exists : List Text → Dict Text Bytes → Bool
any_exists [] files = false
any_exists (name ∷ names) files = has name files || any_exists names files

-- Where a slice to -n stops: a stop below zero counts from the end, and -0 is 0.
unfoldable pub slice_stop : ℕ → ℕ → ℕ
slice_stop n count = if ltb 0 n then count - n else 0

-- `checkpoints[:-keep_last_n]`
unfoldable pub all_but_last : ℕ → List CheckpointMetadata → List CheckpointMetadata
unfolding slice_stop
all_but_last n entries = take (slice_stop n (length entries)) entries

unfoldable pub sum_sizes : List CheckpointMetadata → ℕ
sum_sizes [] = 0
sum_sizes (m ∷ ms) = m.size_bytes + sum_sizes ms

unfoldable pub forget_in_memory : ModelStore → Text → ModelStore
forget_in_memory s checkpoint_id = elim (lookup checkpoint_id s.checkpoints) [
  | none ↦ s
  | some c ↦ record s {
    checkpoints = erase checkpoint_id s.checkpoints;
    round_index = erase c.round_number s.round_index;
  }
]

unfoldable pub delete_files : ModelStore → Text → ModelStore × Bool
unfolding files_named unlink_all any_exists
delete_files s checkpoint_id = elim s.storage_dir [
  | none ↦ (s, false)
  | some d ↦ (
    record s {
      storage_dir = some (record d { files = unlink_all (files_named checkpoint_id) d.files });
    },
    any_exists (files_named checkpoint_id) d.files,
  )
]

-- `delete_checkpoint` from the valid id on.
unfoldable pub delete_valid : ModelStore → Text → ModelStore × Bool
unfolding forget_in_memory delete_files invalidate_cache
delete_valid s checkpoint_id =
    let deleted =
      delete_files (invalidate_cache (forget_in_memory s checkpoint_id)) checkpoint_id in
    (deleted.0, has checkpoint_id s.checkpoints || deleted.1)

unfoldable pub delete_checkpoint : ModelStore → Text → Result StoreError (ModelStore × Bool)
unfolding validate_checkpoint_id delete_valid
delete_checkpoint s checkpoint_id =
    validate_checkpoint_id checkpoint_id >>= λ valid. ok (delete_valid s valid)

unfoldable pub delete_all : ModelStore → List CheckpointMetadata → Result StoreError ModelStore
unfolding delete_checkpoint
delete_all s [] = ok s
delete_all s (m ∷ ms) = delete_checkpoint s m.checkpoint_id >>= λ (rest, _). delete_all rest ms

unfoldable pub clear_old_checkpoints : Codec → ModelStore → ℕ → Result StoreError ModelStore
unfolding list_checkpoint_metadata all_but_last delete_all
clear_old_checkpoints h s keep_last_n = list_checkpoint_metadata h s >>= λ (listed, entries).
    if leb (length entries) keep_last_n
    then ok listed
    else delete_all listed (all_but_last keep_last_n entries)

unfoldable pub serialized_size : Codec → Bool → List ModelCheckpoint → Result StoreError ℕ
unfolding serialize_checkpoint
serialized_size h compression [] = ok 0
serialized_size h compression (c ∷ cs) = elim (serialize_checkpoint h c compression) [
  | none ↦ err not_serializable
  | some bytes ↦ serialized_size h compression cs >>= λ n. ok (length bytes + n)
]

unfoldable pub get_storage_size : Codec → ModelStore → Result StoreError (ModelStore × ℕ)
unfolding serialized_size list_checkpoint_metadata sum_sizes
get_storage_size h s = elim s.storage_dir [
  | none ↦ serialized_size h s.compression (values s.checkpoints) >>= λ n. ok (s, n)
  | some _ ↦ elim s.storage_size_cache [
    | some n ↦ ok (s, n)
    | none ↦ list_checkpoint_metadata h s >>= λ (listed, entries).
        ok (record listed { storage_size_cache = some (sum_sizes entries) }, sum_sizes entries)
  ]
]
