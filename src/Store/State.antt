-- ===== src/Store/State.antt =====
-- `ModelStore` of src/quinkgl/storage/model_store.py: its memory, its files, and the operations that
-- save and load. Every public operation holds the lock from its start to its end.
pub mod Heap
use quinkgl_framework.Common.{
  ℕ, zero, suc, ◌-◌, Bool, true, ◌||◌, Option, none, some, List, [], ◌∷◌, map, ltb, leb,
  if◌then◌else◌, ◌==◌, nat_eq, string_eq, pair_eq, length, list_eq,
}
use quinkgl_framework.Common.Text.{text_leb}
use quinkgl_framework.Common.Dict.{Dict, lookup, insert, erase, has, keys, values}
use quinkgl_framework.Store.Names.{
  Text, StoreError, save_failed, type_error, validate_checkpoint_id, get_checkpoint_path,
  get_metadata_path, checkpoint_id_from_path, matches_glob, file_name, gz_ext, msgpack_ext, pkl_ext,
}
use quinkgl_framework.Store.Checkpoint.{
  Bytes, ModelCheckpoint, CheckpointMetadata, Codec, post_init, serialize_checkpoint,
  deserialize_checkpoint, checkpoint_to_metadata, deserialize_metadata,
}

-- The directory of a store: its files in the order in which `glob` lists them, and which of them
-- can be written. Writing is atomic, so a file has its old bytes or its new ones.
pub record StorageDir : Type 0 where
  pub files : Dict Text Bytes
  pub writable : Text → Bool

pub record ModelStore : Type 0 where
  pub storage_dir : Option StorageDir
  pub keep_in_memory : Bool
  pub compression : Bool
  pub max_memory_checkpoints : ℕ
  pub checkpoints : Dict Text ModelCheckpoint
  pub round_index : Dict ℕ Text
  pub metadata_cache : Option (List CheckpointMetadata)
  pub cache_dirty : Bool
  pub storage_size_cache : Option ℕ

-- `write_bytes_atomically`; none is its exception.
unfoldable pub write_file : StorageDir → Text → Bytes → Option StorageDir
write_file d name bytes =
    if d.writable name then some (record d { files = insert name bytes d.files }) else none

-- Order of the pairs (round_number, checkpoint_id): by round, then by the text.
unfoldable pub pair_leb : ℕ × Text → ℕ × Text → Bool
unfolding text_leb
pair_leb (m, s) (n, t) = if m == n then text_leb s t else ltb m n

-- The least pair of a heap, and the heap without it.
unfoldable pub heappop : ℕ × Text → List (ℕ × Text) → (ℕ × Text) × List (ℕ × Text)
unfolding pair_leb
heappop p [] = (p, [])
heappop p (q ∷ heap) =
    let (least, rest) = heappop (if pair_leb p q then p else q) heap in
    (least, (if pair_leb p q then q else p) ∷ rest)

-- `__init__`
unfoldable pub new_store : Option StorageDir → Bool → Bool → ℕ → ModelStore
new_store storage_dir keep_in_memory compression max_memory_checkpoints = record {
  storage_dir = storage_dir;
  keep_in_memory = keep_in_memory;
  compression = compression;
  max_memory_checkpoints = max_memory_checkpoints;
  checkpoints = [];
  round_index = [];
  metadata_cache = none;
  cache_dirty = true;
  storage_size_cache = none;
}

unfoldable pub evict_checkpoint : ModelStore → ℕ × Text → ModelStore
evict_checkpoint s (oldest_round, oldest_id) =
    if has oldest_id s.checkpoints
    then record s {
      checkpoints = erase oldest_id s.checkpoints;
      round_index = erase oldest_round s.round_index;
    }
    else s

-- `for _ in range(evicted_count)`
unfoldable pub evict_heap : ℕ → ModelStore → List (ℕ × Text) → ModelStore
unfolding evict_checkpoint heappop
evict_heap zero s heap = s
evict_heap (suc n) s [] = s
evict_heap (suc n) s (p ∷ heap) =
    let popped = heappop p heap in evict_heap n (evict_checkpoint s popped.0) popped.1

unfoldable pub heap_of : ModelStore → List (ℕ × Text)
heap_of s = map (λ (c : ModelCheckpoint). (c.round_number, c.checkpoint_id)) (values s.checkpoints)

unfoldable pub enforce_memory_limit : ModelStore → ModelStore
unfolding evict_heap heap_of
enforce_memory_limit s =
    if (s.max_memory_checkpoints == 0) || leb (length s.checkpoints) s.max_memory_checkpoints
    then s
    else evict_heap (length s.checkpoints - s.max_memory_checkpoints) s (heap_of s)

unfoldable pub invalidate_cache : ModelStore → ModelStore
invalidate_cache s = record s {
  cache_dirty = true;
  metadata_cache = none;
  storage_size_cache = none;
}
