-- ===== src/Store/Names.antt =====
-- Checkpoint ids, and the files that they name, of src/quinkgl/storage/model_store.py. A text is
-- the list of its code points, and a file is named within the directory of the store.
pub mod Paths
use quinkgl_framework.Common.{
  ℕ, ◌-◌, Bool, true, false, ◌&&◌, ◌||◌, none, some, List, [], ◌∷◌, ◌++◌, leb, if◌then◌else◌, ◌==◌,
  nat_eq, string_eq, pair_eq, length, take, drop, Result, ok, err, ◌>>=◌, list_eq,
}
use quinkgl_framework.Common.Text.{codes, strip_prefix, ends_with}

abbrev pub Text : Type 0
Text = List ℕ

pub data StoreError : Type 0 where
  invalid_checkpoint_id unsupported_filename not_serializable save_failed deserialize_failed
        type_error :
      StoreError

-- `[A-Za-z0-9_-]`
unfoldable pub is_id_char : ℕ → Bool
is_id_char c =
    ((leb b'A' c && leb c b'Z') || (leb b'a' c && leb c b'z'))
    || ((leb b'0' c && leb c b'9') || ((c == b'_') || (c == b'-')))

unfoldable pub all_id_chars : Text → Bool
unfolding is_id_char
all_id_chars [] = true
all_id_chars (c ∷ s) = is_id_char c && all_id_chars s

unfoldable pub matches_id_pattern : Text → Bool
unfolding all_id_chars
matches_id_pattern s = (leb 1 (length s) && leb (length s) 64) && all_id_chars s

unfoldable pub validate_checkpoint_id : Text → Result StoreError Text
unfolding matches_id_pattern
validate_checkpoint_id s = if matches_id_pattern s then ok s else err invalid_checkpoint_id

abbrev pub file_prefix : Text
file_prefix = codes "checkpoint_"

abbrev pub gz_ext : Text
gz_ext = codes ".msgpack.gz"

abbrev pub msgpack_ext : Text
msgpack_ext = codes ".msgpack"

abbrev pub pkl_ext : Text
pkl_ext = codes ".pkl"

abbrev pub meta_ext : Text
meta_ext = codes ".meta.msgpack"

-- f"checkpoint_{checkpoint_id}{ext}"
unfoldable pub file_name : Text → Text → Text
file_name checkpoint_id ext = file_prefix ++ (checkpoint_id ++ ext)

unfoldable pub get_checkpoint_path : Bool → Text → Result StoreError Text
unfolding validate_checkpoint_id file_name
get_checkpoint_path compression checkpoint_id = validate_checkpoint_id checkpoint_id >>= λ valid.
    ok (file_name valid (if compression then gz_ext else msgpack_ext))

unfoldable pub get_metadata_path : Text → Result StoreError Text
unfolding validate_checkpoint_id file_name
get_metadata_path checkpoint_id =
    validate_checkpoint_id checkpoint_id >>= λ valid. ok (file_name valid meta_ext)

-- `name[len("checkpoint_"):-len(ext)]`
unfoldable pub between : Text → Text → Text
between name ext = drop (length file_prefix) (take (length name - length ext) name)

unfoldable pub checkpoint_id_from_path : Text → Result StoreError Text
unfolding validate_checkpoint_id between ends_with
checkpoint_id_from_path name =
    if ends_with name gz_ext
    then validate_checkpoint_id (between name gz_ext)
    else (if ends_with name msgpack_ext
        then validate_checkpoint_id (between name msgpack_ext)
        else (if ends_with name pkl_ext
            then validate_checkpoint_id (between name pkl_ext)
            else err unsupported_filename))

-- The glob pattern "checkpoint_*{ext}", whose parts cannot overlap in a name.
unfoldable pub matches_glob : Text → Text → Bool
unfolding strip_prefix ends_with
matches_glob ext name = elim (strip_prefix file_prefix name) [
  | none ↦ false
  | some rest ↦ ends_with rest ext
]
