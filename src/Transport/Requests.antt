-- ===== src/Transport/Requests.antt =====
-- `_send_model_chunk` and `on_request_chunks` of src/quinkgl/network/gossip_community.py: a receiver
-- asks for missing chunks, and the sender sends them again or marks them.
pub mod Resends
pub mod Marks
use quinkgl_framework.Common.{
  ℕ, ◌+◌, ◌/◌, ◌%◌, String, Bool, not, ◌&&◌, ◌||◌, Option, none, some, List, [], ◌∷◌, map, ltb,
  if◌then◌else◌, ◌==◌, contains, nat_eq, string_eq, pair_eq, length, take, keep,
}
use quinkgl_framework.Common.Dict.{Dict, lookup, insert, has}
use quinkgl_framework.Transport.Words.{Bytes, unpack_native}
use quinkgl_framework.Transport.Limits.{chunk_max_nack_indices}
use quinkgl_framework.Transport.Host.{Host}
use quinkgl_framework.Transport.Signing.{chunk_sign}
use quinkgl_framework.Transport.Buffer.{chunk_total, chunk_slice}
use quinkgl_framework.Transport.Bucket.{nack_try_consume, nack_try_consume_transfer}
use quinkgl_framework.Transport.State.{
  Community, Metrics, CachedTransfer, OutgoingTransfer, ModelChunk, RequestChunks, Reason, Effect,
  dropped, send_chunk, signed_chunk,
}

module _ (host : Host) where
  -- The chunk as it is signed.
  unfoldable pub outgoing_chunk : Community → String → CachedTransfer → ℕ → ModelChunk
  outgoing_chunk s transfer_id t index = record {
    transfer_id = transfer_id;
    chunk_index = index;
    total_chunks = chunk_total t.weights;
    sender_id = s.node_id;
    data_schema_hash = s.data_schema_hash;
    round_number = t.round;
    sample_count = t.samples;
    loss = t.loss;
    accuracy = t.accuracy;
    timestamp = t.timestamp;
    chunk_data = chunk_slice t.weights index;
    signature = [];
  }

  -- A zero timestamp is replaced by the time, in seconds, after signing.
  unfoldable pub send_model_chunk : Community → String → String → CachedTransfer → ℕ → ℕ → Effect
  unfolding outgoing_chunk
  send_model_chunk s peer_mid transfer_id t now index =
      let c = outgoing_chunk s transfer_id t index in
      send_chunk peer_mid (record c {
        timestamp = if c.timestamp == 0 then now / 1000 else c.timestamp;
        signature = chunk_sign host (signed_chunk c);
      })

-- Chunks that were sent and not acknowledged are due at once, with all attempts left.
unfoldable pub mark_due : List ℕ → OutgoingTransfer → OutgoingTransfer
mark_due [] t = t
mark_due (i ∷ is) t = mark_due is (
    if not (contains t.acked i) && has i t.sent_at
    then record t { sent_at = insert i 0 t.sent_at; attempts = insert i 0 t.attempts }
    else t)

-- The requested indices that the transfer has, as many as one request may name.
unfoldable pub valid_indices : ℕ → List ℕ → List ℕ
valid_indices total indices = take chunk_max_nack_indices (keep (λ i. ltb i total) indices)

abbrev count_resent : ℕ → Metrics → Metrics
count_resent n m = record m { chunks_resent = m.chunks_resent + n }

abbrev count_received : Metrics → Metrics
count_received m = record m { nacks_received = m.nacks_received + 1 }

module _ (host : Host) (peer_mid : String) (p : RequestChunks) (now : ℕ) where
  unfoldable pub resend : Community → CachedTransfer → List ℕ → Community × List Effect
  unfolding send_model_chunk
  resend s t valid = (
    record s {
      nack_resend_counts =
          insert p.transfer_id
            (elim (lookup p.transfer_id s.nack_resend_counts) [ none ↦ 0 | some n ↦ n ] + 1)
            s.nack_resend_counts;
      metrics = count_resent (length valid) s.metrics;
    },
    map (send_model_chunk host s peer_mid p.transfer_id t now) valid,
  )

  -- The list of indices must be whole words. An active transfer is marked, and its sender's loop
  -- sends; a cached one is sent here.
  unfoldable pub serve_request :
      Community → CachedTransfer → Option OutgoingTransfer → Community × List Effect
  unfolding resend mark_due valid_indices
  serve_request s t active =
      let raw_len = length p.missing_indices_bytes in
      let valid =
        valid_indices (chunk_total t.weights)
          (unpack_native host.byte_order p.missing_indices_bytes) in
      if raw_len == 0 || not (raw_len % 4 == 0)
      then (s, dropped Reason.malformed_nack ∷ [])
      else elim active [
        | none ↦ resend s t valid
        | some o ↦ (
          record s {
            active_outgoing_transfers =
                insert p.transfer_id (mark_due valid o) s.active_outgoing_transfers;
          },
          [],
        )
      ]

  -- A cached transfer is rate-limited by transfer, then by peer.
  unfoldable pub limit_request : Community → CachedTransfer → Community × List Effect
  limit_request s t =
      let (transfer_buckets, transfer_ok) =
        nack_try_consume_transfer s.nack_transfer_buckets p.transfer_id now in
      let (buckets, peer_ok) = nack_try_consume s.nack_buckets peer_mid now in
      let s' : Community = record s { nack_transfer_buckets = transfer_buckets } in
      let s'' : Community = record s' { nack_buckets = buckets } in
      if transfer_ok
      then (if peer_ok
          then serve_request s'' t none
          else (s'', dropped Reason.nack_rate_limited ∷ []))
      else (s', dropped Reason.nack_transfer_rate_limited ∷ [])

  -- Only the recipient of a transfer may ask.
  unfoldable pub is_unauthorized : CachedTransfer → Bool
  is_unauthorized t = not (t.recipient_mid == "") && not (peer_mid == t.recipient_mid)

  unfoldable pub on_request_chunks : Community → Community × List Effect
  unfolding is_unauthorized
  on_request_chunks s₀ =
      let s : Community = record s₀ { metrics = count_received s₀.metrics } in
      elim (lookup p.transfer_id s₀.outgoing_transfers) [
        | none ↦ (s, dropped Reason.unknown_transfer ∷ [])
        | some t ↦
            if is_unauthorized t
            then (s, dropped Reason.unauthorized_nack ∷ [])
            else elim (lookup p.transfer_id s₀.active_outgoing_transfers) [
              | none ↦ limit_request s t
              | some o ↦ serve_request s t (some o)
            ]
      ]
