-- ===== src/Store/Listing.antt =====
-- How `ModelStore` of src/quinkgl/storage/model_store.py lists its checkpoints.
use quinkgl_framework.Common.{
  ℕ, Bool, true, false, ◌||◌, Option, none, some, List, [], ◌∷◌, ◌++◌, map, leb, if◌then◌else◌,
  ◌==◌, contains, nat_eq, string_eq, pair_eq, length, Result, ok, err, ◌>>=◌, list_eq,
}
use quinkgl_framework.Common.Text.{ends_with}
use quinkgl_framework.Common.Dict.{lookup, values}
use quinkgl_framework.Store.Names.{
  Text, StoreError, get_checkpoint_path, checkpoint_id_from_path, file_name, pkl_ext, meta_ext,
}
use quinkgl_framework.Store.Checkpoint.{
  ModelCheckpoint, CheckpointMetadata, Codec, checkpoint_to_metadata, deserialize_metadata,
}
use quinkgl_framework.Store.State.{StorageDir, ModelStore}
use quinkgl_framework.Store.Saving.{save_metadata_to_disk}
use quinkgl_framework.Store.Loading.{find_checkpoint_files, load_from_disk}

-- `filepath.stat().st_size` of a file that exists, else 0.
unfoldable pub size_of : Option StorageDir → Text → ℕ
size_of none name = 0
size_of (some d) name = elim (lookup name d.files) [ none ↦ 0 | some bytes ↦ length bytes ]

unfoldable pub checkpoint_size : Option StorageDir → Bool → Text → ℕ
unfolding get_checkpoint_path size_of
checkpoint_size dir compression checkpoint_id =
    elim (get_checkpoint_path compression checkpoint_id) [ err _ ↦ 0 | ok path ↦ size_of dir path ]

unfoldable pub with_size : Option StorageDir → Text → CheckpointMetadata → CheckpointMetadata
unfolding size_of
with_size dir name m = if m.size_bytes == 0 then record m { size_bytes = size_of dir name } else m

-- `sort(key=round_number)`, which is stable.
unfoldable pub insert_by_round :
    CheckpointMetadata → List CheckpointMetadata → List CheckpointMetadata
insert_by_round m [] = m ∷ []
insert_by_round m (n ∷ ms) =
    let rest = insert_by_round m ms in
    if leb m.round_number n.round_number then m ∷ n ∷ ms else n ∷ rest

unfoldable pub sort_by_round : List CheckpointMetadata → List CheckpointMetadata
unfolding insert_by_round
sort_by_round [] = []
sort_by_round (m ∷ ms) = insert_by_round m (sort_by_round ms)

unfoldable pub in_memory : ModelStore → List ModelCheckpoint → List CheckpointMetadata
unfolding checkpoint_to_metadata checkpoint_size
in_memory s [] = []
in_memory s (c ∷ cs) =
    checkpoint_to_metadata c (checkpoint_size s.storage_dir s.compression c.checkpoint_id)
    ∷ in_memory s cs

-- `load_metadata_from_disk` where the metadata must be rebuilt from the checkpoint.
unfoldable pub rebuild_metadata :
    Codec → ModelStore → Text → Result StoreError (ModelStore × Option CheckpointMetadata)
unfolding load_from_disk checkpoint_size checkpoint_to_metadata save_metadata_to_disk
rebuild_metadata h s checkpoint_id = load_from_disk h s checkpoint_id >>= λ (loaded, found).
    elim found [
      | none ↦ ok (loaded, none)
      | some c ↦
          let size_bytes = checkpoint_size loaded.storage_dir loaded.compression checkpoint_id in
          ok (
            record loaded {
              storage_dir = elim loaded.storage_dir [
                | none ↦ none
                | some d ↦ elim (save_metadata_to_disk h d c size_bytes) [
                  | none ↦ some d
                  | some described ↦ some described
                ]
              ];
            },
            some (checkpoint_to_metadata c size_bytes),
          )
    ]

unfoldable pub read_metadata : Codec → Option StorageDir → Text → Option CheckpointMetadata
unfolding deserialize_metadata file_name
read_metadata h none checkpoint_id = none
read_metadata h (some d) checkpoint_id = elim (lookup (file_name checkpoint_id meta_ext) d.files) [
  | none ↦ none
  | some bytes ↦ deserialize_metadata h bytes
]

unfoldable pub load_metadata_from_disk :
    Codec → ModelStore → Text → Result StoreError (ModelStore × Option CheckpointMetadata)
unfolding read_metadata rebuild_metadata
load_metadata_from_disk h s checkpoint_id = elim (read_metadata h s.storage_dir checkpoint_id) [
  | some m ↦ ok (s, some m)
  | none ↦ rebuild_metadata h s checkpoint_id
]

-- The files that are not in memory, one after the other.
unfoldable pub on_disk :
    Codec
    → List Text
    → ModelStore
    → List Text
    → List CheckpointMetadata
    → Result StoreError (ModelStore × List CheckpointMetadata)
unfolding checkpoint_id_from_path load_metadata_from_disk with_size ends_with
on_disk h seen s [] entries = ok (s, entries)
on_disk h seen s (name ∷ names) entries = elim (checkpoint_id_from_path name) [
  | err _ ↦ on_disk h seen s names entries
  | ok checkpoint_id ↦ elim (ends_with name pkl_ext || contains seen checkpoint_id) [
    | true ↦ on_disk h seen s names entries
    | false ↦ elim (load_metadata_from_disk h s checkpoint_id) [
      | err e ↦ err e
      | ok (loaded, none) ↦ on_disk h seen loaded names entries
      | ok (loaded, some m) ↦
          on_disk h seen loaded names (entries ++ with_size loaded.storage_dir name m ∷ [])
    ]
  ]
]

unfoldable pub listed_in_memory : ModelStore → List CheckpointMetadata
unfolding in_memory
listed_in_memory s = if s.keep_in_memory then in_memory s (values s.checkpoints) else []

unfoldable pub collect_metadata :
    Codec → ModelStore → Result StoreError (ModelStore × List CheckpointMetadata)
unfolding listed_in_memory find_checkpoint_files on_disk
collect_metadata h s = elim s.storage_dir [
  | none ↦ ok (s, listed_in_memory s)
  | some d ↦
      on_disk h (if s.keep_in_memory then map (λ c. c.checkpoint_id) (values s.checkpoints) else [])
        s (find_checkpoint_files s.compression d) (listed_in_memory s)
]

unfoldable pub remember_listing :
    ModelStore × List CheckpointMetadata → ModelStore × List CheckpointMetadata
unfolding sort_by_round
remember_listing (s, entries) = (
  record s { metadata_cache = some (sort_by_round entries); cache_dirty = false },
  sort_by_round entries,
)

unfoldable pub list_checkpoint_metadata :
    Codec → ModelStore → Result StoreError (ModelStore × List CheckpointMetadata)
unfolding collect_metadata remember_listing
list_checkpoint_metadata h s =
    let listed = collect_metadata h s >>= (λ found. ok (remember_listing found)) in
    if s.cache_dirty
    then listed
    else elim s.metadata_cache [ none ↦ listed | some entries ↦ ok (s, entries) ]
