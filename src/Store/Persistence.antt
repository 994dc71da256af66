-- ===== src/Store/Persistence.antt =====
-- What is saved can be loaded again: the files of src/quinkgl/storage/model_store.py.
use quinkgl_framework.Common.{
  ℕ, ◌+◌, String, ◌≡◌, refl, ap, ap₂, ◌∙◌, Bool, true, false, Option, none, some, List, [], arith,
  nat_eq, string_eq, pair_eq, length, Result, ok, err, ◌>>=◌, list_eq,
}
use quinkgl_framework.Common.Dict.{lookup, insert, lookup-insert_self, length-insert}
use quinkgl_framework.Store.Names.{
  Text, StoreError, deserialize_failed, type_error, matches_id_pattern, file_name, msgpack_ext,
}
use quinkgl_framework.Store.Names.Paths.{validate_valid}
use quinkgl_framework.Store.Values.{Value, datetime}
use quinkgl_framework.Store.Values.RoundTrip.{
  IsStorable, IsPlain, lists_only, deserialize_value-stored, serialize_value-plain,
}
use quinkgl_framework.Store.Checkpoint.{
  Bytes, ModelCheckpoint, CheckpointDocument, Codec, post_init, payload_dict, document_of,
  checkpoint_of, checkpoint_with, made_of, unpacked, deserialize_checkpoint,
}
use quinkgl_framework.Store.State.{StorageDir, ModelStore, new_store, invalidate_cache}
use quinkgl_framework.Store.Saving.{
  save_checkpoint, save_files, save_at, keep_checkpoint, index_round, new_checkpoint,
}
use quinkgl_framework.Store.Loading.{
  get_latest_checkpoint, latest_found, latest_id, latest_of, load_from_file, read_stored, load_in,
  load_found, stored_bytes, load_from_disk, load_checkpoint,
}
use quinkgl_framework.Store.Making.{post_init-again}
use quinkgl_framework.Store.Writing.{Stored, save_files-Stored, keep_checkpoint-dir}

-- msgpack unpacks the tuples in a document as lists.
abbrev pub unpacked_document : CheckpointDocument → CheckpointDocument
unpacked_document d = record d {
  timestamp = lists_only d.timestamp;
  metrics = lists_only d.metrics;
  weights = lists_only d.weights;
}

-- The time and the weights are storable, and the metrics plain.
pub record IsRestorable (h : Codec) (c : ModelCheckpoint) : Type 0 where
  pub time : h.formats.fromisoformat (h.formats.isoformat c.timestamp) ≡ some c.timestamp
  pub weights : IsStorable h.formats c.weights
  pub metrics : IsPlain c.metrics

checkpoint_of-document :
    (h : Codec) (c : ModelCheckpoint)
    → IsRestorable h c
    → checkpoint_of h (unpacked_document (document_of h c)) ≡ some c
unfolding checkpoint_of document_of payload_dict checkpoint_with IsStorable
checkpoint_of-document h c r =
    let d = unpacked_document (document_of h c) in
    ap₂ (checkpoint_with d) (deserialize_value-stored h.formats (datetime c.timestamp) r.time)
      (deserialize_value-stored h.formats c.weights r.weights)
    ∙ ap (λ m. some (record c { metrics = m }))
        (serialize_value-plain h.formats c.metrics r.metrics)

made_of-made : (h : Codec) (c : ModelCheckpoint) → post_init h c ≡ ok c → made_of h (some c) ≡ ok c
unfolding made_of
made_of-made h c made =
    ap
      (λ (r : Result StoreError ModelCheckpoint).
        elim r as (λ _. Result StoreError ModelCheckpoint) [
          | ok b ↦ ok b
          | err _ ↦ err deserialize_failed
        ])
      made

deserialize-packed :
    (h : Codec) (c : ModelCheckpoint) (bytes : Bytes)
    → post_init h c ≡ ok c
    → IsRestorable h c
    → h.unpack bytes ≡ some (unpacked_document (document_of h c))
    → deserialize_checkpoint h bytes false ≡ ok c
unfolding deserialize_checkpoint unpacked
deserialize-packed h c bytes made r read =
    rw (deserialize_checkpoint, read)
      (ap (made_of h) (checkpoint_of-document h c r) ∙ made_of-made h c made)

stored_bytes-Stored :
    (s : ModelStore) (d : StorageDir) (checkpoint_id : Text) (bytes : Bytes)
    → s.compression ≡ false
    → Stored d checkpoint_id bytes
    → stored_bytes s d checkpoint_id ≡ some (bytes, false)
unfolding stored_bytes
stored_bytes-Stored s d checkpoint_id bytes plain stored = rw (stored_bytes, plain, stored) refl

load_from_file-read :
    (h : Codec) (s : ModelStore) (c : ModelCheckpoint) (bytes : Bytes)
    → deserialize_checkpoint h bytes false ≡ ok c
    → (load_from_file h s bytes false).1 ≡ some c
unfolding load_from_file
load_from_file-read h s c bytes read = rw (load_from_file, read) refl

load_checkpoint-Stored :
    (h : Codec) (s : ModelStore) (d : StorageDir) (c : ModelCheckpoint) (bytes : Bytes)
    → s.storage_dir ≡ some d
    → s.compression ≡ false
    → lookup c.checkpoint_id s.checkpoints ≡ none
    → Stored d c.checkpoint_id bytes
    → matches_id_pattern c.checkpoint_id ≡ true
    → load_checkpoint h s c.checkpoint_id ≡ ok (load_from_file h s bytes false)
unfolding load_checkpoint load_found load_from_disk load_in read_stored
load_checkpoint-Stored h s d c bytes dir plain absent stored valid =
    ap (λ r. r >>= λ v. load_found h s v (lookup v s.checkpoints) s.storage_dir)
      (validate_valid c.checkpoint_id valid)
    ∙ ap₂ (load_found h s c.checkpoint_id) absent dir
    ∙ ap (λ r. r >>= λ v. load_in h s v s.storage_dir) (validate_valid c.checkpoint_id valid)
    ∙ ap (load_in h s c.checkpoint_id) dir
    ∙ ap (λ o. ok (read_stored h s o)) (stored_bytes-Stored s d c.checkpoint_id bytes plain stored)

-- A checkpoint that a store saves in its directory, without compression, is loaded exactly as it
-- was by a new store on that directory. Its file must be writable, and msgpack read back what it
-- has packed, with lists for tuples; the weights must have no tuples, no numpy numbers and no
-- dicts with a key __type__, the metrics no tuples, numpy numbers, arrays or times, and numpy
-- and datetime read back the arrays and times (IsRestorable). Whether the metadata are written
-- does not matter.
pub save_checkpoint-survives :
    (h : Codec) (s : ModelStore) (d : StorageDir) (round_number : ℕ) (weights : Value)
    (metrics : Option Value) (contributing_peers : Option (List String)) (now : ℕ)
    (c : ModelCheckpoint) (bytes : Bytes) (keep_in_memory : Bool) (max_memory_checkpoints : ℕ)
    → s.storage_dir ≡ some d
    → s.compression ≡ false
    → post_init h (new_checkpoint h round_number weights metrics contributing_peers now) ≡ ok c
    → h.pack (document_of h c) ≡ some bytes
    → IsRestorable h c
    → h.unpack bytes ≡ some (unpacked_document (document_of h c))
    → d.writable (file_name c.checkpoint_id msgpack_ext) ≡ true
    → (save_checkpoint h s round_number weights metrics contributing_peers now >>= λ (s', saved).
        load_checkpoint h
          (new_store s'.storage_dir keep_in_memory false max_memory_checkpoints)
          saved.checkpoint_id
        >>= λ (_, found). ok found)
      ≡ ok (some c)
unfolding save_checkpoint new_store index_round invalidate_cache lookup
save_checkpoint-survives h s d round_number weights metrics contributing_peers now c bytes
      keep_in_memory max_memory_checkpoints dir plain made packed restorable read writable =
    let (valid, again) = post_init-again h _ c made in
    let (d', (stored, saved)) = save_files-Stored h s d c bytes dir plain valid packed writable in
    let next : ModelStore × ModelCheckpoint → Result StoreError (Option ModelCheckpoint) =
      (λ (s', saved).
        load_checkpoint h (new_store s'.storage_dir keep_in_memory false max_memory_checkpoints)
          saved.checkpoint_id
        >>= λ (_, found). ok found) in
    let after : ModelStore → Result StoreError (Option ModelCheckpoint) =
      (λ t. next (keep_checkpoint (index_round (invalidate_cache t) c) c, c)) in
    let kept : ModelStore = index_round (invalidate_cache (record s { storage_dir = some d' })) c in
    ap
      (λ r.
        (r >>= λ b.
        save_files h s b >>= λ t. ok (keep_checkpoint (index_round (invalidate_cache t) b) b, b))
        >>= next)
      made
    ∙ ap (λ r. (r >>= λ t. ok (keep_checkpoint (index_round (invalidate_cache t) c) c, c)) >>= next)
        saved
    ∙ ap (λ r. r >>= λ (_, found). ok found)
        (load_checkpoint-Stored h
          (new_store (keep_checkpoint kept c).storage_dir keep_in_memory false
            max_memory_checkpoints)
          d' c bytes (keep_checkpoint-dir kept c) refl refl stored valid)
    ∙ ap ok (load_from_file-read h _ c bytes (deserialize-packed h c bytes again restorable read))

-- A checkpoint that is not in memory and is loaded from its uncompressed file is kept in memory
-- in addition to the others, whatever the limit is, where checkpoints are kept in memory.
pub load_checkpoint-unbounded :
    (h : Codec) (s : ModelStore) (d : StorageDir) (c : ModelCheckpoint) (bytes : Bytes)
    → s.storage_dir ≡ some d
    → s.compression ≡ false
    → s.keep_in_memory ≡ true
    → matches_id_pattern c.checkpoint_id ≡ true
    → lookup c.checkpoint_id s.checkpoints ≡ none
    → lookup (file_name c.checkpoint_id msgpack_ext) d.files ≡ some bytes
    → deserialize_checkpoint h bytes false ≡ ok c
    → (load_checkpoint h s c.checkpoint_id >>= λ (s', _). ok (length s'.checkpoints))
      ≡ ok (length s.checkpoints + 1)
unfolding load_from_file index_round
load_checkpoint-unbounded h s d c bytes dir plain keeps valid absent stored read =
    let grown = length-insert c.checkpoint_id c s.checkpoints in
    ap (λ r. r >>= λ (s', _). ok (length s'.checkpoints))
      (load_checkpoint-Stored h s d c bytes dir plain absent stored valid)
    ∙ ap ok (rw (load_from_file, read, keeps) (ground (arith, grown, absent)))

-- In a new store without a directory that keeps nothing in memory, to ask for the latest
-- checkpoint after a save raises a TypeError.
pub get_latest_checkpoint-fails :
    (h : Codec) (round_number : ℕ) (weights : Value) (metrics : Option Value)
    (contributing_peers : Option (List String)) (now : ℕ) (c : ModelCheckpoint) (compression : Bool)
    (max_memory_checkpoints : ℕ)
    → post_init h (new_checkpoint h round_number weights metrics contributing_peers now) ≡ ok c
    → (save_checkpoint h
          (new_store none false compression max_memory_checkpoints)
          round_number
          weights
          metrics
          contributing_peers
          now
        >>= λ (s', _). get_latest_checkpoint h s')
      ≡ err type_error
unfolding save_checkpoint new_store index_round invalidate_cache lookup insert save_files save_at
    keep_checkpoint get_latest_checkpoint latest_found latest_id latest_of load_from_disk load_in
get_latest_checkpoint-fails h round_number weights metrics contributing_peers now c compression
      max_memory_checkpoints made =
    let s : ModelStore = new_store none false compression max_memory_checkpoints in
    let t : ModelStore = index_round (invalidate_cache s) c in
    let next : ModelStore × ModelCheckpoint
        → Result StoreError (ModelStore × Option ModelCheckpoint) =
      (λ (s', _). get_latest_checkpoint h s') in
    ap
      (λ r.
        (r >>= λ b. save_files h s b >>= λ saved.
        ok (keep_checkpoint (index_round (invalidate_cache saved) b) b, b))
        >>= next)
      made
    ∙ ap (latest_found h t) (lookup-insert_self c.round_number c.checkpoint_id [])
    ∙ ap (λ r. r >>= λ v. load_in h t v none)
        (validate_valid c.checkpoint_id (post_init-again h _ c made).0)
