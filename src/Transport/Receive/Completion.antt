-- ===== src/Transport/Receive/Completion.antt =====
-- The last chunk of a transfer hands the sender's model over, once.
use quinkgl_framework.Common.{
  ℕ, ◌+◌, ◌≤◌, ◌<◌, String, ◌≡◌, sym, subst, ◌∙◌, true, false, none, some, [], ◌∷◌, arith, ltb,
  nat_eq, string_eq, pair_eq, length, ok,
}
use quinkgl_framework.Common.Dict.{
  lookup, insert, has, NodupKeys, insert-NodupKeys, lookup-insert_self, lookup-erase_self,
}
use quinkgl_framework.Transport.Words.{Bytes}
use quinkgl_framework.Transport.Limits.{max_chunks_per_transfer, max_incoming_message_size}
use quinkgl_framework.Transport.Host.{Host}
use quinkgl_framework.Transport.Buffer.{
  ChunkBuffer, is_complete, add_chunk, reassemble, chunk_total, chunk_slice,
}
use quinkgl_framework.Transport.Buffer.Reassembly.{Carries, Carries-insert}
use quinkgl_framework.Transport.Buffer.Delivery.{reassemble_sent}
use quinkgl_framework.Transport.State.{Community, ModelChunk}
use quinkgl_framework.Transport.Replies.{maybe_send_chunk_ack, send_chunk_ack}
use quinkgl_framework.Transport.Admission.{buffer_key, chunk_key, authenticate, touch_sender}
use quinkgl_framework.Transport.Receive.{
  accept_model, finish_transfer, store_chunk, buffer_chunk, on_model_chunk,
}
use quinkgl_framework.Transport.Receive.Steps.{remembered, check_chunk-passed, on_model_chunk-fresh}
use quinkgl_framework.Transport.Receive.Deliveries.{
  deliveries, acknowledged, deliveries-store_chunk, store_chunk-state,
}

module _ (host : Host) (peer_mid : String) (p : ModelChunk) (now : ℕ) where
  finish_transfer-accepts :
      (s : Community) (b : ChunkBuffer) (w : Bytes)
      → reassemble b ≡ ok w
      → length w ≤ max_incoming_message_size
      → host.deserializes w ≡ true
      → s.has_callback ≡ true
      → let t = finish_transfer host peer_mid p now s b in
        (deliveries t.1 ≡ (p.sender_id, w) ∷ [])
        × (has (buffer_key peer_mid p) t.0.completed_chunk_transfers ≡ true)
        × (lookup (buffer_key peer_mid p) t.0.chunk_buffers ≡ none)
  unfolding finish_transfer accept_model deliveries
  finish_transfer-accepts s b w e l d c = ground (
    arith,
    lookup-insert_self (buffer_key peer_mid p) now s.completed_chunk_transfers,
    lookup-erase_self (buffer_key peer_mid p) s.chunk_buffers,
  )

  touch_sender-callback : (s : Community) → (touch_sender s p now).0.has_callback ≡ s.has_callback
  unfolding touch_sender
  touch_sender-callback s = ground arith

  -- A buffer that holds the sender's chunks, and lacks the one that arrives.
  pub record IsLast (s : Community) (b : ChunkBuffer) (w : Bytes) : Type 0 where
    pub authentic : authenticate host s peer_mid p ≡ none
    pub not_completed : has (buffer_key peer_mid p) s.completed_chunk_transfers ≡ false
    pub not_recent : has (chunk_key peer_mid p) s.recent_chunks ≡ false
    pub small : ltb max_chunks_per_transfer p.total_chunks ≡ false
    pub timely : ltb (s.local_round + s.max_round_skip) p.round_number ≡ false
    pub buffered : lookup (buffer_key peer_mid p) s.chunk_buffers ≡ some b
    pub total : b.total_chunks ≡ chunk_total w
    pub distinct : NodupKeys b.chunks
    pub carried : Carries w (chunk_total w) b.chunks
    pub in_range : p.chunk_index < chunk_total w
    pub sent : p.chunk_data ≡ chunk_slice w p.chunk_index
    pub last : length (insert p.chunk_index p.chunk_data b.chunks) ≡ b.total_chunks

  completes :
      (b : ChunkBuffer)
      → length (insert p.chunk_index p.chunk_data b.chunks) ≡ b.total_chunks
      → (add_chunk b p.chunk_index p.chunk_data).1 ≡ true
  unfolding add_chunk is_complete
  completes b e = ground arith

  callback_kept :
      (s : Community) → s.has_callback ≡ true → (remembered peer_mid p now s).has_callback ≡ true
  unfolding remembered
  callback_kept s c = c

  reassemble_last :
      (s : Community) (b : ChunkBuffer) (w : Bytes)
      → b.total_chunks ≡ chunk_total w
      → NodupKeys b.chunks
      → Carries w (chunk_total w) b.chunks
      → p.chunk_index < chunk_total w
      → p.chunk_data ≡ chunk_slice w p.chunk_index
      → length (insert p.chunk_index p.chunk_data b.chunks) ≡ b.total_chunks
      → reassemble (acknowledged host peer_mid p now s b) ≡ ok w
  unfolding maybe_send_chunk_ack send_chunk_ack add_chunk is_complete
  reassemble_last s b w total distinct carried in_range sent last =
      reassemble_sent w (acknowledged host peer_mid p now s b) total
        (insert-NodupKeys p.chunk_index p.chunk_data b.chunks distinct)
        (subst (λ n. Carries w n (insert p.chunk_index p.chunk_data b.chunks)) (sym total)
          (subst (λ c. Carries w (chunk_total w) (insert p.chunk_index c b.chunks)) (sym sent)
            (Carries-insert w (chunk_total w) p.chunk_index b.chunks in_range carried)))
        (ground arith)

  buffer_chunk-found :
      (s : Community) (b : ChunkBuffer)
      → lookup (buffer_key peer_mid p) s.chunk_buffers ≡ some b
      → buffer_chunk host peer_mid p now s ≡ store_chunk host peer_mid p now s b
  unfolding buffer_chunk
  buffer_chunk-found s b e = rw (e, buffer_chunk)

  on_model_chunk-stores :
      (s : Community) (b : ChunkBuffer) (w : Bytes)
      → IsLast s b w
      → on_model_chunk host peer_mid p now s
        ≡ store_chunk host peer_mid p now (remembered peer_mid p now s) b
  unfolding remembered
  on_model_chunk-stores s b w h =
      on_model_chunk-fresh host peer_mid p now s h.authentic h.not_completed h.not_recent
      ∙ check_chunk-passed host peer_mid p now (remembered peer_mid p now s) h.small h.timely
      ∙ buffer_chunk-found (remembered peer_mid p now s) b h.buffered

  -- When an authentic chunk of a transfer that is neither completed nor refused by size or round
  -- arrives for the first time, and it is the last one that the buffer of the sender's chunks
  -- lacks, the model callback gets exactly the bytes of the sender, once; the buffer is gone and
  -- the transfer is marked as completed. The bytes must be within the size limit and
  -- deserializable, and a callback set.
  pub last_chunk_delivers :
      (s : Community) (b : ChunkBuffer) (w : Bytes)
      → IsLast s b w
      → length w ≤ max_incoming_message_size
      → host.deserializes w ≡ true
      → s.has_callback ≡ true
      → let t = on_model_chunk host peer_mid p now s in
        (deliveries t.1 ≡ (p.sender_id, w) ∷ [])
        × (has (buffer_key peer_mid p) t.0.completed_chunk_transfers ≡ true)
        × (lookup (buffer_key peer_mid p) t.0.chunk_buffers ≡ none)
  last_chunk_delivers s b w h l d c = rw (on_model_chunk-stores s b w h) (
      let r : Community = remembered peer_mid p now s in
      let f =
        finish_transfer-accepts (touch_sender r p now).0 (acknowledged host peer_mid p now r b) w
          (reassemble_last r b w h.total h.distinct h.carried h.in_range h.sent h.last) l d
          (touch_sender-callback r ∙ callback_kept s c) in
      (
        deliveries-store_chunk host peer_mid p now r b (completes b h.last) ∙ f.0,
        rw (store_chunk-state host peer_mid p now r b (completes b h.last)) f.1,
        rw (store_chunk-state host peer_mid p now r b (completes b h.last)) f.2,
      ))
