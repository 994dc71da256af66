-- ===== src/Gossip/Resumption.antt =====
-- How src/quinkgl/gossip/aggregator.py takes up its round again from a model store.
use quinkgl_framework.Common.{
  ℕ, String, ◌≡◌, ap, sym, ◌∙◌, Bool, true, false, Option, some, List, ok, Result, ◌>>=◌, list_eq,
  Result-bind_cong, Result-bind_assoc,
}
use quinkgl_framework.Store.Names.{StoreError, file_name, msgpack_ext}
use quinkgl_framework.Store.Values.{Value}
use quinkgl_framework.Store.Checkpoint.{Bytes, ModelCheckpoint, Codec, post_init, document_of}
use quinkgl_framework.Store.State.{StorageDir, ModelStore, new_store}
use quinkgl_framework.Store.Saving.{save_checkpoint, new_checkpoint}
use quinkgl_framework.Store.Loading.{load_checkpoint}
use quinkgl_framework.Store.Persistence.{IsRestorable, unpacked_document, save_checkpoint-survives}
use quinkgl_framework.Gossip.Aggregator.{resumed_round}

-- From a new store on the directory that a checkpoint was saved in, the checkpoint can be loaded
-- by its id, but an aggregator that is set up with that store resumes at round 0. Both stores
-- are without compression, the file must be writable, the checkpoint restorable (IsRestorable),
-- and msgpack read back what it has packed, with lists for tuples.
pub resumed_round-reopened :
    (h : Codec) (s : ModelStore) (d : StorageDir) (round_number : ℕ) (weights : Value)
    (metrics : Option Value) (contributing_peers : Option (List String)) (now : ℕ)
    (c : ModelCheckpoint) (bytes : Bytes) (keep_in_memory : Bool) (max_memory_checkpoints : ℕ)
    → s.storage_dir ≡ some d
    → s.compression ≡ false
    → post_init h (new_checkpoint h round_number weights metrics contributing_peers now) ≡ ok c
    → h.pack (document_of h c) ≡ some bytes
    → IsRestorable h c
    → h.unpack bytes ≡ some (unpacked_document (document_of h c))
    → d.writable (file_name c.checkpoint_id msgpack_ext) ≡ true
    → (save_checkpoint h s round_number weights metrics contributing_peers now >>= λ (s', saved).
        let reopened : ModelStore =
          new_store s'.storage_dir keep_in_memory false max_memory_checkpoints in
        load_checkpoint h reopened saved.checkpoint_id >>= λ (_, found).
        let answer : Option ModelCheckpoint × ℕ = (found, resumed_round h (some reopened)) in
        ok answer)
      ≡ ok (some c, 0)
unfolding resumed_round new_store
resumed_round-reopened h s d round_number weights metrics contributing_peers now c bytes
      keep_in_memory max_memory_checkpoints dir plain made packed restorable read writable =
    let saved = save_checkpoint h s round_number weights metrics contributing_peers now in
    let load : ModelStore × ModelCheckpoint
        → Result StoreError (ModelStore × Option ModelCheckpoint) =
      (λ (s', b).
        load_checkpoint h (new_store s'.storage_dir keep_in_memory false max_memory_checkpoints)
          b.checkpoint_id) in
    let outcome : ModelStore × Option ModelCheckpoint → Result StoreError (Option ModelCheckpoint) =
      (λ (_, found). ok found) in
    let at_zero : Option ModelCheckpoint → Result StoreError (Option ModelCheckpoint × ℕ) =
      (λ found. ok (found, 0)) in
    Result-bind_cong saved _ _ (λ a. sym (Result-bind_assoc (load a) outcome at_zero))
    ∙ sym (Result-bind_assoc saved (λ a. load a >>= outcome) at_zero)
    ∙ ap (λ r. r >>= at_zero)
        (save_checkpoint-survives h s d round_number weights metrics contributing_peers now c bytes
          keep_in_memory max_memory_checkpoints dir plain made packed restorable read writable)
