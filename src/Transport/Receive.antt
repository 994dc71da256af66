-- ===== src/Transport/Receive.antt =====
-- `on_model_chunk` of src/quinkgl/network/gossip_community.py: the state and the effects of a call.
pub mod Steps
pub mod Changes
pub mod Safety
pub mod Lockout
pub mod Deliveries
pub mod Completion
pub mod Once
use quinkgl_framework.Common.{
  ℕ, ◌+◌, String, true, none, some, List, [], ◌∷◌, ◌++◌, ltb, if◌then◌else◌, ◌==◌, nat_eq,
  string_eq, pair_eq, length, range, ok, err,
}
use quinkgl_framework.Common.Dict.{Dict, lookup, insert, erase, has}
use quinkgl_framework.Transport.Words.{Bytes}
use quinkgl_framework.Transport.Limits.{max_chunks_per_transfer, max_incoming_message_size}
use quinkgl_framework.Transport.Host.{Host}
use quinkgl_framework.Transport.Buffer.{ChunkBuffer, add_chunk, reassemble}
use quinkgl_framework.Transport.State.{
  Community, Metrics, ModelChunk, Reason, Effect, dropped, deliver,
}
use quinkgl_framework.Transport.Replies.{
  send_chunk_ack_ranges, maybe_send_chunk_ack, send_missing_chunks_report,
}
use quinkgl_framework.Transport.Admission.{
  buffer_key, chunk_key, authenticate, capacity, count_refusal, new_buffer, touch_sender,
}

abbrev pub count_started : Metrics → Metrics
count_started m = record m { chunk_transfers_started = m.chunk_transfers_started + 1 }

abbrev count_completed : Metrics → Metrics
count_completed m = record m { chunk_transfers_completed = m.chunk_transfers_completed + 1 }

module _ (host : Host) (peer_mid : String) (p : ModelChunk) (now : ℕ) where
  -- The reassembled bytes, after their buffer is gone.
  unfoldable pub accept_model : Community → ChunkBuffer → Bytes → Community × List Effect
  accept_model s b weights =
      if ltb max_incoming_message_size (length weights)
      then (s, dropped Reason.oversized_model ∷ [])
      else (if host.deserializes weights
          then (
            record s {
              completed_chunk_transfers =
                  insert (buffer_key peer_mid p) now s.completed_chunk_transfers;
              metrics = count_completed s.metrics;
            },
            if s.has_callback
                then deliver p.sender_id weights b.sample_count b.round_number b.loss b.accuracy
                  ∷ []
                else [],
          )
          else (s, dropped Reason.deserialization_error ∷ []))

  unfoldable pub finish_transfer : Community → ChunkBuffer → Community × List Effect
  finish_transfer s b =
      let s' : Community = record s {
        chunk_buffers = erase (buffer_key peer_mid p) s.chunk_buffers;
      } in
      elim (reassemble b) [
        | err e ↦ (s', dropped Reason.processing_error ∷ [])
        | ok weights ↦ accept_model s' b weights
      ]

  -- An incomplete buffer is kept; the last index of a transfer asks for what is missing.
  unfoldable pub keep_buffer : Community → ChunkBuffer → Community × List Effect
  keep_buffer s b =
      if p.chunk_index + 1 == p.total_chunks
      then (let (b', metrics, effects) = send_missing_chunks_report host s peer_mid b now in
          (
            record s {
              chunk_buffers = insert (buffer_key peer_mid p) b' s.chunk_buffers;
              metrics = metrics;
            },
            effects,
          ))
      else (record s { chunk_buffers = insert (buffer_key peer_mid p) b s.chunk_buffers }, [])

  -- The chunk goes into a buffer, which is acknowledged, and completed or kept.
  unfoldable pub store_chunk : Community → ChunkBuffer → Community × List Effect
  store_chunk s b =
      let (b', complete) = add_chunk b p.chunk_index p.chunk_data in
      let (b'', acks) = maybe_send_chunk_ack host s peer_mid b' now complete in
      let (s', beats) = touch_sender s p now in
      let (s'', effects) = (if complete then finish_transfer s' b'' else keep_buffer s' b'') in
      (s'', acks ++ (beats ++ effects))

  -- A chunk that passed the checks of its own; a new buffer must also fit.
  unfoldable pub buffer_chunk : Community → Community × List Effect
  buffer_chunk s = elim (lookup (buffer_key peer_mid p) s.chunk_buffers) [
    | some b ↦ store_chunk s b
    | none ↦ elim (capacity s peer_mid p) [
      | some r ↦ (record s { metrics = count_refusal r s.metrics }, dropped r ∷ [])
      | none ↦ store_chunk (record s { metrics = count_started s.metrics }) (new_buffer p now)
    ]
  ]

  -- The checks of the transfer's size and round.
  unfoldable pub check_chunk : Community → Community × List Effect
  check_chunk s =
      if ltb max_chunks_per_transfer p.total_chunks
      then (s, dropped Reason.oversized_transfer ∷ [])
      else (if ltb (s.local_round + s.max_round_skip) p.round_number
          then (s, dropped Reason.future_round ∷ [])
          else buffer_chunk s)

  -- A chunk that was seen lately is acknowledged again if its buffer still has it.
  unfoldable pub repeat_chunk : Community → Community × List Effect
  repeat_chunk s = elim (lookup (buffer_key peer_mid p) s.chunk_buffers) [
    | none ↦ (s, [])
    | some b ↦
        if has p.chunk_index b.chunks
        then (let (b', acks) = maybe_send_chunk_ack host s peer_mid b now true in
            (record s { chunk_buffers = insert (buffer_key peer_mid p) b' s.chunk_buffers }, acks))
        else (s, [])
  ]

  unfoldable pub completion_ack : Community → List Effect
  completion_ack s =
      send_chunk_ack_ranges host s peer_mid p.transfer_id p.data_schema_hash p.round_number
        p.total_chunks (range p.total_chunks)

  unfoldable pub on_model_chunk : Community → Community × List Effect
  on_model_chunk s = elim (authenticate host s peer_mid p) [
    | some r ↦ (s, dropped r ∷ [])
    | none ↦
        if has (buffer_key peer_mid p) s.completed_chunk_transfers
        then (s, completion_ack s)
        else (if has (chunk_key peer_mid p) s.recent_chunks
            then repeat_chunk s
            else check_chunk
                (record s { recent_chunks = insert (chunk_key peer_mid p) now s.recent_chunks }))
  ]
