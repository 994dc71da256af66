-- ===== src/Store/Saving.antt =====
-- How `ModelStore` of src/quinkgl/storage/model_store.py saves a checkpoint.
use quinkgl_framework.Common.{
  ℕ, String, Bool, Option, none, some, List, [], if◌then◌else◌, nat_eq, string_eq, pair_eq, length,
  Result, ok, err, ◌>>=◌, list_eq,
}
use quinkgl_framework.Common.Dict.{insert}
use quinkgl_framework.Store.Names.{
  Text, StoreError, save_failed, get_checkpoint_path, get_metadata_path,
}
use quinkgl_framework.Store.Values.{Value, dict, end}
use quinkgl_framework.Store.Checkpoint.{
  Bytes, ModelCheckpoint, Codec, post_init, serialize_checkpoint, checkpoint_to_metadata,
  serialize_metadata,
}
use quinkgl_framework.Store.State.{
  StorageDir, ModelStore, write_file, enforce_memory_limit, invalidate_cache,
}

unfoldable pub written_size : Option StorageDir → ℕ → Result StoreError (StorageDir × ℕ)
written_size none n = err save_failed
written_size (some d) n = ok (d, n)

unfoldable pub write_serialized :
    StorageDir → Text → Option Bytes → Result StoreError (StorageDir × ℕ)
unfolding write_file written_size
write_serialized d path none = err save_failed
write_serialized d path (some bytes) = written_size (write_file d path bytes) (length bytes)

unfoldable pub write_metadata :
    StorageDir → Result StoreError Text → Option Bytes → Option StorageDir
unfolding write_file
write_metadata d (ok path) (some bytes) = write_file d path bytes
write_metadata d (ok path) none = none
write_metadata d (err e) bytes = none

-- A failure to write the metadata is only written to the log.
unfoldable pub described : StorageDir → Option StorageDir → StorageDir
described written none = written
described written (some d) = d

-- The directory with the file, and the length of what was written.
unfoldable pub save_to_disk :
    Codec → Bool → StorageDir → ModelCheckpoint → Result StoreError (StorageDir × ℕ)
unfolding get_checkpoint_path serialize_checkpoint write_serialized
save_to_disk h compression d c = get_checkpoint_path compression c.checkpoint_id >>= λ path.
    write_serialized d path (serialize_checkpoint h c compression)

-- None is an exception.
unfoldable pub save_metadata_to_disk : Codec → StorageDir → ModelCheckpoint → ℕ → Option StorageDir
unfolding get_metadata_path checkpoint_to_metadata serialize_metadata write_metadata
save_metadata_to_disk h d c size_bytes =
    write_metadata d (get_metadata_path c.checkpoint_id)
      (serialize_metadata h (checkpoint_to_metadata c size_bytes))

unfoldable pub save_at :
    Codec → ModelStore → ModelCheckpoint → Option StorageDir → Result StoreError ModelStore
unfolding save_to_disk save_metadata_to_disk described
save_at h s c none = ok s
save_at h s c (some d) = save_to_disk h s.compression d c >>= λ (written, size_bytes).
    ok (record s {
      storage_dir = some (described written (save_metadata_to_disk h written c size_bytes));
    })

unfoldable pub save_files : Codec → ModelStore → ModelCheckpoint → Result StoreError ModelStore
unfolding save_at
save_files h s c = save_at h s c s.storage_dir

unfoldable pub keep_checkpoint : ModelStore → ModelCheckpoint → ModelStore
unfolding enforce_memory_limit
keep_checkpoint s c =
    if s.keep_in_memory
    then enforce_memory_limit (record s { checkpoints = insert c.checkpoint_id c s.checkpoints })
    else s

unfoldable pub index_round : ModelStore → ModelCheckpoint → ModelStore
index_round s c = record s { round_index = insert c.round_number c.checkpoint_id s.round_index }

unfoldable pub new_checkpoint :
    Codec → ℕ → Value → Option Value → Option (List String) → ℕ → ModelCheckpoint
new_checkpoint h round_number weights metrics contributing_peers now = record {
  round_number = round_number;
  weights = weights;
  timestamp = now;
  metrics = elim metrics [ none ↦ dict end | some m ↦ m ];
  contributing_peers = elim contributing_peers [ none ↦ [] | some peers ↦ peers ];
  checkpoint_id = [];
  checksum = [];
}

unfoldable pub save_checkpoint :
    Codec
    → ModelStore
    → ℕ
    → Value
    → Option Value
    → Option (List String)
    → ℕ
    → Result StoreError (ModelStore × ModelCheckpoint)
unfolding new_checkpoint post_init save_files invalidate_cache index_round keep_checkpoint
save_checkpoint h s round_number weights metrics contributing_peers now =
    post_init h (new_checkpoint h round_number weights metrics contributing_peers now) >>= λ c.
    save_files h s c >>= λ saved. ok (keep_checkpoint (index_round (invalidate_cache saved) c) c, c)
