-- ===== src/Store/Writing.antt =====
-- The files that `save_checkpoint` of src/quinkgl/storage/model_store.py writes.
use quinkgl_framework.Common.{
  ℕ, zero, suc, ◌-◌, ◌≡◌, refl, sym, ap, subst, ◌∙◌, ◌≢◌, true, false, ◌||◌, Option, none, some,
  List, [], ◌∷◌, arith, leb, if-elim, ◌==◌, nat_eq, string_eq, pair_eq, length, length-append,
  Result, ok, ◌>>=◌, list_eq,
}
use quinkgl_framework.Common.Dict.{lookup, has, insert, lookup-insert_self, lookup-insert_ne}
use quinkgl_framework.Store.Names.{
  Text, StoreError, matches_id_pattern, file_name, msgpack_ext, meta_ext, get_checkpoint_path,
  get_metadata_path,
}
use quinkgl_framework.Store.Names.Paths.{validate_valid}
use quinkgl_framework.Store.Checkpoint.{
  Bytes, ModelCheckpoint, Codec, document_of, checkpoint_to_metadata, serialize_metadata,
  serialize_checkpoint,
}
use quinkgl_framework.Store.State.{
  StorageDir, ModelStore, heap_of, write_file, enforce_memory_limit, evict_heap, evict_checkpoint,
  heappop,
}
use quinkgl_framework.Store.Saving.{
  save_files, save_at, described, write_serialized, written_size, write_metadata, save_to_disk,
  save_metadata_to_disk, keep_checkpoint,
}

-- The metadata of a checkpoint are in another file.
meta_apart : (s : Text) → file_name s msgpack_ext ≢ file_name s meta_ext
unfolding file_name
meta_apart s e =
    absurd (omega (arith, ap length e, length-append s msgpack_ext, length-append s meta_ext))

Option-All : {A : Type 0} → (A → Type 0) → Option A → Type 0
Option-All P none = Unit
Option-All P (some a) = P a

-- A directory in which a checkpoint can be found, where nothing is compressed.
abbrev pub Stored : StorageDir → Text → Bytes → Type 0
Stored d checkpoint_id bytes = lookup (file_name checkpoint_id msgpack_ext) d.files ≡ some bytes

write_file-Stored :
    (d : StorageDir) (checkpoint_id name : Text) (bytes other : Bytes)
    → file_name checkpoint_id msgpack_ext ≢ name
    → Stored d checkpoint_id bytes
    → Option-All (λ (x : StorageDir). Stored x checkpoint_id bytes) (write_file d name other)
unfolding write_file Option-All
write_file-Stored d checkpoint_id name bytes other n h =
    if-elim (Option-All (λ (x : StorageDir). Stored x checkpoint_id bytes)) (d.writable name)
      (λ yes. lookup-insert_ne _ name other d.files n ∙ h) (λ no. tt)

write_file-written :
    (d : StorageDir) (name : Text) (bytes : Bytes)
    → d.writable name ≡ true
    → write_file d name bytes ≡ some (record d { files = insert name bytes d.files })
unfolding write_file
write_file-written d name bytes h = rw h refl

described-Stored :
    (written : StorageDir) (o : Option StorageDir) (checkpoint_id : Text) (bytes : Bytes)
    → Stored written checkpoint_id bytes
    → Option-All (λ d. Stored d checkpoint_id bytes) o
    → Stored (described written o) checkpoint_id bytes
unfolding described Option-All
described-Stored written none checkpoint_id bytes h a = h
described-Stored written (some d) checkpoint_id bytes h a = a

write_metadata-Stored :
    (d : StorageDir) (checkpoint_id : Text) (bytes : Bytes) (path : Text) (o : Option Bytes)
    → file_name checkpoint_id msgpack_ext ≢ path
    → Stored d checkpoint_id bytes
    → Option-All (λ x. Stored x checkpoint_id bytes) (write_metadata d (ok path) o)
unfolding write_metadata Option-All
write_metadata-Stored d checkpoint_id bytes path none n h = tt
write_metadata-Stored d checkpoint_id bytes path (some other) n h =
    write_file-Stored d checkpoint_id path bytes other n h

evict_heap-dir :
    (n : ℕ) (s : ModelStore) (heap : List (ℕ × Text))
    → (evict_heap n s heap).storage_dir ≡ s.storage_dir
unfolding evict_heap evict_checkpoint
evict_heap-dir zero s heap = refl
evict_heap-dir (suc n) s [] = refl
evict_heap-dir (suc n) s (p ∷ heap) =
    let q = (heappop p heap).0 in
    evict_heap-dir n (evict_checkpoint s q) (heappop p heap).1
    ∙ if-elim (λ (t : ModelStore). t.storage_dir ≡ s.storage_dir) (has q.1 s.checkpoints)
        (λ yes. refl) (λ no. refl)

enforce_memory_limit-dir : (s : ModelStore) → (enforce_memory_limit s).storage_dir ≡ s.storage_dir
unfolding enforce_memory_limit
enforce_memory_limit-dir s =
    if-elim (λ (t : ModelStore). t.storage_dir ≡ s.storage_dir)
      ((s.max_memory_checkpoints == 0) || leb (length s.checkpoints) s.max_memory_checkpoints)
      (λ fits. refl)
      (λ over. evict_heap-dir (length s.checkpoints - s.max_memory_checkpoints) s (heap_of s))

pub keep_checkpoint-dir :
    (s : ModelStore) (c : ModelCheckpoint) → (keep_checkpoint s c).storage_dir ≡ s.storage_dir
unfolding keep_checkpoint
keep_checkpoint-dir s c =
    if-elim (λ (t : ModelStore). t.storage_dir ≡ s.storage_dir) s.keep_in_memory
      (λ keeps.
        enforce_memory_limit-dir
          (record s { checkpoints = insert c.checkpoint_id c s.checkpoints }))
      (λ drops. refl)

serialize-packed :
    (h : Codec) (c : ModelCheckpoint) (bytes : Bytes)
    → h.pack (document_of h c) ≡ some bytes
    → serialize_checkpoint h c false ≡ some bytes
unfolding serialize_checkpoint
serialize-packed h c bytes packed = rw (serialize_checkpoint, packed) refl

save_to_disk-written :
    (h : Codec) (d : StorageDir) (c : ModelCheckpoint) (bytes : Bytes)
    → matches_id_pattern c.checkpoint_id ≡ true
    → h.pack (document_of h c) ≡ some bytes
    → d.writable (file_name c.checkpoint_id msgpack_ext) ≡ true
    → save_to_disk h false d c
      ≡ ok (
        record d { files = insert (file_name c.checkpoint_id msgpack_ext) bytes d.files },
        length bytes,
      )
unfolding save_to_disk get_checkpoint_path write_serialized written_size
save_to_disk-written h d c bytes valid packed writable =
    ap
      (λ r. (r >>= λ v. ok (file_name v msgpack_ext)) >>= λ path.
        write_serialized d path (serialize_checkpoint h c false))
      (validate_valid c.checkpoint_id valid)
    ∙ ap (write_serialized d (file_name c.checkpoint_id msgpack_ext))
        (serialize-packed h c bytes packed)
    ∙ ap (λ o. written_size o (length bytes))
        (write_file-written d (file_name c.checkpoint_id msgpack_ext) bytes writable)

save_metadata-Stored :
    (h : Codec) (d : StorageDir) (c : ModelCheckpoint) (size_bytes : ℕ) (bytes : Bytes)
    → matches_id_pattern c.checkpoint_id ≡ true
    → Stored d c.checkpoint_id bytes
    → Option-All (λ x. Stored x c.checkpoint_id bytes) (save_metadata_to_disk h d c size_bytes)
unfolding save_metadata_to_disk get_metadata_path
save_metadata-Stored h d c size_bytes bytes valid stored =
    subst
      (λ r.
        Option-All (λ x. Stored x c.checkpoint_id bytes)
          (write_metadata d (r >>= λ v. ok (file_name v meta_ext))
            (serialize_metadata h (checkpoint_to_metadata c size_bytes))))
      (sym (validate_valid c.checkpoint_id valid))
      (write_metadata-Stored d c.checkpoint_id bytes (file_name c.checkpoint_id meta_ext)
        (serialize_metadata h (checkpoint_to_metadata c size_bytes)) (meta_apart c.checkpoint_id)
        stored)

-- The directory after a save has the bytes of the checkpoint.
pub save_files-Stored :
    (h : Codec) (s : ModelStore) (d : StorageDir) (c : ModelCheckpoint) (bytes : Bytes)
    → s.storage_dir ≡ some d
    → s.compression ≡ false
    → matches_id_pattern c.checkpoint_id ≡ true
    → h.pack (document_of h c) ≡ some bytes
    → d.writable (file_name c.checkpoint_id msgpack_ext) ≡ true
    → (d' : StorageDir) × (Stored d' c.checkpoint_id bytes
        × (save_files h s c ≡ ok (record s { storage_dir = some d' })))
unfolding save_files save_at
save_files-Stored h s d c bytes dir plain valid packed writable =
    let name = file_name c.checkpoint_id msgpack_ext in
    let written : StorageDir = record d { files = insert name bytes d.files } in
    let described_by = save_metadata_to_disk h written c (length bytes) in
    let stored = lookup-insert_self name bytes d.files in
    let next : Result StoreError (StorageDir × ℕ) → Result StoreError ModelStore = (λ r.
      r >>= λ (w, n).
      ok (record s { storage_dir = some (described w (save_metadata_to_disk h w c n)) })) in
    (
      described written described_by,
      (
        described-Stored written described_by c.checkpoint_id bytes stored
            (save_metadata-Stored h written c (length bytes) bytes valid stored),
        ap (save_at h s c) dir
            ∙ ap (λ b. next (save_to_disk h b d c)) plain
            ∙ ap next (save_to_disk-written h d c bytes valid packed writable),
      ),
    )
