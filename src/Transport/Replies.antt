-- ===== src/Transport/Replies.antt =====
-- What a receiver sends back: `_send_chunk_ack`, `_send_chunk_ack_ranges`,
-- `_maybe_send_chunk_ack` and `_send_missing_chunks_report` of
-- src/quinkgl/network/gossip_community.py.
use quinkgl_framework.Common.{
  ℕ, ◌+◌, ◌-◌, String, Bool, true, false, not, ◌&&◌, ◌||◌, none, some, List, [], ◌∷◌, ltb, leb,
  if◌then◌else◌, ◌==◌, nat_eq, string_eq, pair_eq, take, keep, range,
}
use quinkgl_framework.Common.Dict.{has, keys}
use quinkgl_framework.Transport.Words.{Bytes, pack_native}
use quinkgl_framework.Transport.Limits.{
  chunk_ack_every, chunk_ack_interval, chunk_max_nack_indices, receiver_nack_report_interval,
}
use quinkgl_framework.Transport.Ranges.{pack_chunk_ranges}
use quinkgl_framework.Transport.Host.{Host}
use quinkgl_framework.Transport.Signing.{chunk_sign}
use quinkgl_framework.Transport.Buffer.{ChunkBuffer}
use quinkgl_framework.Transport.State.{
  Community, Metrics, RequestChunks, Effect, send_ack, send_request, signed_ack,
}

-- The missing indices, in order.
unfoldable pub missing_chunks : ChunkBuffer → List ℕ
missing_chunks b = keep (λ i. not (has i b.chunks)) (range b.total_chunks)

module _ (host : Host) where
  -- The indices are 32-bit fields of packets, so they can be packed; else this would raise.
  unfoldable pub send_chunk_ack_ranges :
      Community → String → String → String → ℕ → ℕ → List ℕ → List Effect
  send_chunk_ack_ranges s peer_mid transfer_id data_schema_hash round_number total_chunks indices =
      elim (pack_chunk_ranges indices) [
        | none ↦ []
        | some sack_ranges ↦
            send_ack peer_mid (record {
              transfer_id = transfer_id;
              sender_id = s.node_id;
              data_schema_hash = data_schema_hash;
              round_number = round_number;
              total_chunks = total_chunks;
              sack_ranges = sack_ranges;
              signature =
                  chunk_sign host
                    (signed_ack s.node_id round_number data_schema_hash total_chunks sack_ranges);
            })
            ∷ []
      ]

  unfoldable pub send_chunk_ack : Community → String → ChunkBuffer → ℕ → ChunkBuffer × List Effect
  unfolding send_chunk_ack_ranges
  send_chunk_ack s peer_mid b now = (
    record b { last_ack_at = now; chunks_since_ack = 0 },
    send_chunk_ack_ranges s peer_mid b.transfer_id b.data_schema_hash b.round_number b.total_chunks
        (keys b.chunks),
  )

  unfoldable pub maybe_send_chunk_ack :
      Community → String → ChunkBuffer → ℕ → Bool → ChunkBuffer × List Effect
  unfolding send_chunk_ack
  maybe_send_chunk_ack s peer_mid b now force =
      if force
        || (leb chunk_ack_every b.chunks_since_ack || leb chunk_ack_interval (now - b.last_ack_at))
      then send_chunk_ack s peer_mid b now
      else (b, [])

-- `==` of bytes
unfoldable pub same_bytes : Bytes → Bytes → Bool
same_bytes [] [] = true
same_bytes [] (y ∷ ys) = false
same_bytes (x ∷ xs) [] = false
same_bytes (x ∷ xs) (y ∷ ys) = x == y && same_bytes xs ys

abbrev count_ignored : Metrics → Metrics
count_ignored m = record m { nacks_ignored_budget = m.nacks_ignored_budget + 1 }

abbrev count_sent : Metrics → Metrics
count_sent m = record m { nacks_sent = m.nacks_sent + 1 }

module _ (host : Host) where
  -- The signature of a report is the packed list of its indices.
  unfoldable pub report_signature : ChunkBuffer → Bytes
  unfolding missing_chunks
  report_signature b = pack_native host.byte_order (take chunk_max_nack_indices (missing_chunks b))

  unfoldable pub is_throttled : ChunkBuffer → ℕ → Bool
  unfolding same_bytes report_signature
  is_throttled b now =
      same_bytes (report_signature b) b.last_nack_signature
      && ltb (now - b.last_nack_at) receiver_nack_report_interval

  unfoldable pub request_for : Community → ChunkBuffer → RequestChunks
  request_for s b = record {
    transfer_id = b.transfer_id;
    sender_id = s.node_id;
    missing_indices_bytes = report_signature b;
  }

  -- The report on a buffer that lacks a chunk.
  unfoldable pub report_missing :
      Community → String → ChunkBuffer → ℕ → ChunkBuffer × Metrics × List Effect
  unfolding is_throttled request_for
  report_missing s peer_mid b now =
      if is_throttled b now then (b, count_ignored s.metrics, []) else (
        record b { last_nack_at = now; last_nack_signature = report_signature b },
        count_sent s.metrics,
        send_request peer_mid (request_for s b) ∷ [],
      )

  -- The buffer and the metrics after the call, and the packets; none is sent by force.
  unfoldable pub send_missing_chunks_report :
      Community → String → ChunkBuffer → ℕ → ChunkBuffer × Metrics × List Effect
  unfolding report_missing missing_chunks
  send_missing_chunks_report s peer_mid b now = elim (missing_chunks b) [
    | [] ↦ (b, s.metrics, [])
    | i ∷ is ↦ report_missing s peer_mid b now
  ]
