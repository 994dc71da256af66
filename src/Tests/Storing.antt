-- ===== src/Tests/Storing.antt =====
-- The theorems on the storage of checkpoints at concrete inputs.
use quinkgl_framework.Common.{
  ℕ, ◌+◌, ◌%◌, ◌≤◌, ◌<◌, ◌≡◌, refl, true, false, Option, none, some, [], ◌∷◌, ◌++◌, ℕ_discrete,
  nat_eq, string_eq, pair_eq, list_eq, length, take, drop, ok, ◌>>=◌,
}
use quinkgl_framework.Common.Text.{codes}
use quinkgl_framework.Common.Dict.{lookup, insert, erase}
use quinkgl_framework.Store.Names.{
  Text, validate_checkpoint_id, matches_id_pattern, get_checkpoint_path, checkpoint_id_from_path,
  file_name, msgpack_ext,
}
use quinkgl_framework.Store.Names.Paths.{checkpoint_id_from_path-get_checkpoint_path}
use quinkgl_framework.Store.Values.{
  Array, Value, Formats, dict, list, ndarray, floating, cons, nil, end, field, datetime_dict,
  get_field, serialize_value,
}
use quinkgl_framework.Store.Values.RoundTrip.{lists_only, IsStorable, IsPlain}
use quinkgl_framework.Store.Checkpoint.{
  Bytes, ModelCheckpoint, CheckpointDocument, Codec, post_init, document_of, deserialize_checkpoint,
}
use quinkgl_framework.Store.State.{StorageDir, ModelStore, new_store}
use quinkgl_framework.Store.Saving.{save_checkpoint, new_checkpoint}
use quinkgl_framework.Store.Loading.{load_checkpoint, latest_id, get_latest_checkpoint}
use quinkgl_framework.Store.Deletion.{delete_checkpoint}
use quinkgl_framework.Store.Deletion.Effects.{delete_checkpoint-gone, outcome}
use quinkgl_framework.Store.Deletion.Latest.{get_latest_checkpoint-stale}
use quinkgl_framework.Store.Limit.{IsStore}
use quinkgl_framework.Store.Retention.{save_checkpoint-bounded, save_checkpoint-newest}
use quinkgl_framework.Store.Persistence.{
  IsRestorable, unpacked_document, save_checkpoint-survives, load_checkpoint-unbounded,
}
use quinkgl_framework.Gossip.Aggregator.{resumed_round}
use quinkgl_framework.Gossip.Resumption.{resumed_round-reopened}

abbrev matrix : Array
matrix = record { dtype = "float32"; shape = 1 ∷ 2 ∷ []; elements = 3 ∷ 4 ∷ [] }

-- The weights of all checkpoints here.
abbrev model : Value
model = dict (field "layer" (ndarray matrix) (field "bias" (list (cons (floating 5) nil)) end))

-- One array, and one time.
abbrev formats : Formats
formats = record {
  array_hex = λ _. "934e";
  array_of_hex = λ _. some matrix;
  isoformat = λ _. "1970-01-01";
  fromisoformat = λ _. some 100;
}

abbrev packed : CheckpointDocument → Option Bytes
packed d = some (
    d.round_number
    ∷ length d.checkpoint_id
    ∷ (d.checkpoint_id ++ elim d.checksum [ none ↦ [] | some sum ↦ sum ]))

abbrev unpacked_bytes : Bytes → Option CheckpointDocument
unpacked_bytes (rnd ∷ n ∷ rest) = some (record {
  round_number = rnd;
  timestamp = dict (datetime_dict formats 100);
  metrics = dict end;
  contributing_peers = [];
  checkpoint_id = take n rest;
  weights = lists_only (serialize_value formats model);
  checksum = some (drop n rest);
})
unpacked_bytes _ = none

-- A codec for checkpoints of that model. Metadata cannot be packed, and nothing can be decompressed.
abbrev codec : Codec
codec = record {
  formats = formats;
  content = λ rnd now. rnd ∷ now ∷ [];
  hexdigest = λ bytes. (b'a' + length bytes % 6) ∷ codes "0123456789abcdef";
  pack = packed;
  unpack = unpacked_bytes;
  pack_metadata = λ _. none;
  unpack_metadata = λ _. none;
  compress = λ bytes. bytes;
  decompress = λ _ _. none;
}

checkpoint_id_from_path-get_checkpoint_path_example :
    (get_checkpoint_path true (codes "aBc-01_") >>= checkpoint_id_from_path)
    ≡ validate_checkpoint_id (codes "aBc-01_")
checkpoint_id_from_path-get_checkpoint_path_example =
    checkpoint_id_from_path-get_checkpoint_path true (codes "aBc-01_")

abbrev checkpoint : ℕ → Text → Text → ModelCheckpoint
checkpoint rnd name sum = record {
  round_number = rnd;
  weights = model;
  timestamp = 100;
  metrics = dict end;
  contributing_peers = [];
  checkpoint_id = name;
  checksum = sum;
}

abbrev old : ModelCheckpoint
old = checkpoint 3 (codes "old") (codes "ff")

-- One checkpoint in memory, at most one.
abbrev full_store : ModelStore
full_store = record {
  storage_dir = none;
  keep_in_memory = true;
  compression = false;
  max_memory_checkpoints = 1;
  checkpoints = (codes "old", old) ∷ [];
  round_index = (3, codes "old") ∷ [];
  metadata_cache = none;
  cache_dirty = true;
  storage_size_cache = none;
}

full_store-IsStore : IsStore full_store
unfolding lookup
full_store-IsStore = record { distinct = (refl, tt); named = (refl, tt) }

abbrev made : ModelCheckpoint
made = checkpoint 7 (codes "c0123456789abcde") (codes "a0123456789abcdef")

abbrev next_store : ModelStore
next_store = record full_store {
  checkpoints = (made.checkpoint_id, made) ∷ [];
  round_index = (7, made.checkpoint_id) ∷ [];
}

saves : save_checkpoint codec full_store 7 model none none 100 ≡ ok (next_store, made)
unfolding save_checkpoint list_eq ℕ_discrete insert lookup erase
saves = refl

save_checkpoint-bounded_example :
    IsStore next_store
    × (full_store.keep_in_memory ≡ true
        → 0 < full_store.max_memory_checkpoints
        → length next_store.checkpoints ≤ full_store.max_memory_checkpoints)
save_checkpoint-bounded_example =
    save_checkpoint-bounded codec full_store next_store 7 model none none 100 made
      full_store-IsStore saves

had_old : lookup (codes "old") (insert made.checkpoint_id made full_store.checkpoints) ≡ some old
unfolding lookup insert list_eq ℕ_discrete
had_old = refl

old_gone : lookup (codes "old") next_store.checkpoints ≡ none
unfolding lookup list_eq ℕ_discrete
old_gone = refl

made_stays : lookup made.checkpoint_id next_store.checkpoints ≡ some made
unfolding lookup list_eq ℕ_discrete
made_stays = refl

save_checkpoint-newest_example : old.round_number ≤ made.round_number
save_checkpoint-newest_example =
    save_checkpoint-newest codec full_store next_store 7 model none none 100 made (codes "old")
      made.checkpoint_id old made full_store-IsStore refl saves had_old old_gone made_stays

abbrev made_bytes : Bytes
made_bytes = 7 ∷ 16 ∷ (made.checkpoint_id ++ made.checksum)

abbrev empty_directory : StorageDir
empty_directory = record { files = []; writable = λ _. true }

abbrev disk_store : ModelStore
disk_store = record full_store {
  storage_dir = some empty_directory;
  checkpoints = [];
  round_index = [];
}

is_made : post_init codec (new_checkpoint codec 7 model none none 100) ≡ ok made
unfolding post_init new_checkpoint list_eq ℕ_discrete validate_checkpoint_id
is_made = refl

is_packed : packed (document_of codec made) ≡ some made_bytes
unfolding document_of
is_packed = refl

is_restorable : IsRestorable codec made
unfolding IsStorable IsPlain get_field string_eq
is_restorable = record { time = refl; weights = (refl, (refl, ((tt, tt), tt))); metrics = tt }

is_unpacked : unpacked_bytes made_bytes ≡ some (unpacked_document (document_of codec made))
unfolding document_of lists_only
is_unpacked = refl

save_checkpoint-survives_example :
    (save_checkpoint codec disk_store 7 model none none 100 >>= λ (s', saved).
    load_checkpoint codec (new_store s'.storage_dir false false 0) saved.checkpoint_id
    >>= λ (_, found). ok found)
    ≡ ok (some made)
save_checkpoint-survives_example =
    save_checkpoint-survives codec disk_store empty_directory 7 model none none 100 made made_bytes
      false 0 refl refl is_made is_packed is_restorable is_unpacked refl

resumed_round-reopened_example :
    (save_checkpoint codec disk_store 7 model none none 100 >>= λ (s', saved).
    let reopened : ModelStore = new_store s'.storage_dir true false 5 in
    load_checkpoint codec reopened saved.checkpoint_id >>= λ (_, found).
    let answer : Option ModelCheckpoint × ℕ = (found, resumed_round codec (some reopened)) in
    ok answer)
    ≡ ok (some made, 0)
resumed_round-reopened_example =
    resumed_round-reopened codec disk_store empty_directory 7 model none none 100 made made_bytes
      true 5 refl refl is_made is_packed is_restorable is_unpacked refl

abbrev written_directory : StorageDir
written_directory = record {
  files = (codes "checkpoint_c0123456789abcde.msgpack", made_bytes) ∷ [];
  writable = λ _. true;
}

abbrev written_store : ModelStore
written_store = record full_store { storage_dir = some written_directory }

made_absent : lookup made.checkpoint_id written_store.checkpoints ≡ none
unfolding lookup list_eq ℕ_discrete
made_absent = refl

made_stored :
    lookup (file_name made.checkpoint_id msgpack_ext) written_directory.files ≡ some made_bytes
unfolding lookup list_eq ℕ_discrete file_name
made_stored = refl

made_is_valid : matches_id_pattern made.checkpoint_id ≡ true
unfolding matches_id_pattern ℕ_discrete
made_is_valid = refl

made_is_read : deserialize_checkpoint codec made_bytes false ≡ ok made
unfolding deserialize_checkpoint string_eq lists_only list_eq ℕ_discrete validate_checkpoint_id
made_is_read = refl

load_checkpoint-unbounded_example :
    (load_checkpoint codec written_store made.checkpoint_id >>= λ (s', _).
    ok (length s'.checkpoints))
    ≡ ok 2
load_checkpoint-unbounded_example =
    load_checkpoint-unbounded codec written_store written_directory made made_bytes refl refl refl
      made_is_valid made_absent made_stored made_is_read

delete_checkpoint-gone_example :
    (delete_checkpoint written_store made.checkpoint_id >>= λ (s', _).
    outcome (load_checkpoint codec s' made.checkpoint_id))
    ≡ (validate_checkpoint_id made.checkpoint_id >>= λ _. ok none)
delete_checkpoint-gone_example = delete_checkpoint-gone codec written_store made.checkpoint_id

-- Two checkpoints in the index of a store that keeps nothing in memory.
abbrev indexed_store : ModelStore
indexed_store = record written_store {
  keep_in_memory = false;
  checkpoints = [];
  round_index = (3, codes "old") ∷ (7, made.checkpoint_id) ∷ [];
}

made_is_latest : latest_id indexed_store.round_index ≡ some made.checkpoint_id
unfolding latest_id lookup ℕ_discrete
made_is_latest = refl

get_latest_checkpoint-stale_example :
    (delete_checkpoint indexed_store made.checkpoint_id >>= λ (s', _).
    outcome (get_latest_checkpoint codec s'))
    ≡ ok none
get_latest_checkpoint-stale_example =
    get_latest_checkpoint-stale codec indexed_store written_directory made.checkpoint_id refl refl
      made_is_latest made_is_valid
