-- ===== src/Store/Loading.antt =====
-- How `ModelStore` of src/quinkgl/storage/model_store.py loads checkpoints. If the checksum of a loaded
-- one does not match, that is only written to the log.
use quinkgl_framework.Common.{
  ℕ, Bool, true, false, not, ◌&&◌, Option, none, some, List, [], ◌∷◌, ◌++◌, ltb, if◌then◌else◌,
  ◌==◌, nat_eq, string_eq, pair_eq, keep, Result, ok, err, ◌>>=◌, list_eq,
}
use quinkgl_framework.Common.Text.{ends_with}
use quinkgl_framework.Common.Dict.{Dict, lookup, insert, keys}
use quinkgl_framework.Store.Names.{
  Text, StoreError, type_error, validate_checkpoint_id, checkpoint_id_from_path, matches_glob,
  file_name, gz_ext, msgpack_ext, pkl_ext, meta_ext,
}
use quinkgl_framework.Store.Checkpoint.{Bytes, ModelCheckpoint, Codec, deserialize_checkpoint}
use quinkgl_framework.Store.State.{StorageDir, ModelStore}
use quinkgl_framework.Store.Saving.{index_round}

unfoldable pub find_checkpoint_files : Bool → StorageDir → List Text
unfolding matches_glob ends_with
find_checkpoint_files compression d =
    (if compression then keep (matches_glob gz_ext) (keys d.files) else [])
    ++ (keep (λ name. matches_glob msgpack_ext name && not (ends_with name meta_ext)) (keys d.files)
        ++ keep (matches_glob pkl_ext) (keys d.files))

-- `max` of a round and more rounds.
unfoldable pub latest_of : ℕ → List ℕ → ℕ
latest_of best [] = best
latest_of best (n ∷ rounds) = latest_of (if ltb best n then n else best) rounds

-- The id under `max(self._round_index.keys())`.
unfoldable pub latest_id : Dict ℕ Text → Option Text
unfolding latest_of
latest_id index = elim (keys index) [ [] ↦ none | n ∷ rounds ↦ lookup (latest_of n rounds) index ]

unfoldable pub load_from_file :
    Codec → ModelStore → Bytes → Bool → ModelStore × Option ModelCheckpoint
unfolding deserialize_checkpoint index_round
load_from_file h s bytes compressed = elim (deserialize_checkpoint h bytes compressed) [
  | err _ ↦ (s, none)
  | ok c ↦
      let indexed = index_round s c in
      (
        if s.keep_in_memory
            then record indexed { checkpoints = insert c.checkpoint_id c s.checkpoints }
            else indexed,
        some c,
      )
]

-- The bytes of the file that `_load_from_disk` opens, and whether they are compressed.
unfoldable pub stored_bytes : ModelStore → StorageDir → Text → Option (Bytes × Bool)
unfolding file_name
stored_bytes s d checkpoint_id =
    let plain : Option (Bytes × Bool) =
      elim (lookup (file_name checkpoint_id msgpack_ext) d.files) [
        | none ↦ none
        | some bytes ↦ some (bytes, false)
      ] in
    if s.compression
    then elim (lookup (file_name checkpoint_id gz_ext) d.files) [
      | none ↦ plain
      | some bytes ↦ some (bytes, true)
    ]
    else plain

unfoldable pub read_stored :
    Codec → ModelStore → Option (Bytes × Bool) → ModelStore × Option ModelCheckpoint
unfolding load_from_file
read_stored h s none = (s, none)
read_stored h s (some (bytes, compressed)) = load_from_file h s bytes compressed

-- Without a directory the path cannot be formed.
unfoldable pub load_in :
    Codec
    → ModelStore
    → Text
    → Option StorageDir
    → Result StoreError (ModelStore × Option ModelCheckpoint)
unfolding stored_bytes read_stored
load_in h s checkpoint_id none = err type_error
load_in h s checkpoint_id (some d) = ok (read_stored h s (stored_bytes s d checkpoint_id))

unfoldable pub load_from_disk :
    Codec → ModelStore → Text → Result StoreError (ModelStore × Option ModelCheckpoint)
unfolding validate_checkpoint_id load_in
load_from_disk h s checkpoint_id =
    validate_checkpoint_id checkpoint_id >>= λ valid. load_in h s valid s.storage_dir

-- What is in memory, else on the disk if there is one.
unfoldable pub load_found :
    Codec
    → ModelStore
    → Text
    → Option ModelCheckpoint
    → Option StorageDir
    → Result StoreError (ModelStore × Option ModelCheckpoint)
unfolding load_from_disk
load_found h s checkpoint_id (some c) dir = ok (s, some c)
load_found h s checkpoint_id none none = ok (s, none)
load_found h s checkpoint_id none (some d) = load_from_disk h s checkpoint_id

unfoldable pub load_checkpoint :
    Codec → ModelStore → Text → Result StoreError (ModelStore × Option ModelCheckpoint)
unfolding validate_checkpoint_id load_found
load_checkpoint h s checkpoint_id = validate_checkpoint_id checkpoint_id >>= λ valid.
    load_found h s valid (lookup valid s.checkpoints) s.storage_dir

-- The files of the directory one after the other, until one has the round.
unfoldable pub search_files :
    Codec → ℕ → ModelStore → List Text → Result StoreError (ModelStore × Option ModelCheckpoint)
unfolding checkpoint_id_from_path load_from_disk index_round
search_files h round_number s [] = ok (s, none)
search_files h round_number s (name ∷ names) = elim (checkpoint_id_from_path name) [
  | err _ ↦ search_files h round_number s names
  | ok checkpoint_id ↦ elim (load_from_disk h s checkpoint_id) [
    | err e ↦ err e
    | ok (loaded, none) ↦ search_files h round_number loaded names
    | ok (loaded, some c) ↦ elim (c.round_number == round_number) [
      | true ↦ ok (index_round loaded c, some c)
      | false ↦ search_files h round_number loaded names
    ]
  ]
]

unfoldable pub get_checkpoint_by_round :
    Codec → ModelStore → ℕ → Result StoreError (ModelStore × Option ModelCheckpoint)
unfolding load_checkpoint find_checkpoint_files search_files
get_checkpoint_by_round h s round_number = elim (lookup round_number s.round_index) [
  | some checkpoint_id ↦ load_checkpoint h s checkpoint_id
  | none ↦ elim s.storage_dir [
    | none ↦ ok (s, none)
    | some d ↦ search_files h round_number s (find_checkpoint_files s.compression d)
  ]
]

unfoldable pub latest_found :
    Codec → ModelStore → Option Text → Result StoreError (ModelStore × Option ModelCheckpoint)
unfolding load_from_disk
latest_found h s none = ok (s, none)
latest_found h s (some checkpoint_id) = elim (lookup checkpoint_id s.checkpoints) [
  | some c ↦ ok (s, some c)
  | none ↦ load_from_disk h s checkpoint_id
]

unfoldable pub get_latest_checkpoint :
    Codec → ModelStore → Result StoreError (ModelStore × Option ModelCheckpoint)
unfolding latest_found latest_id
get_latest_checkpoint h s = latest_found h s (latest_id s.round_index)
