-- ===== src/Transport/Admission.antt =====
-- The checks that `on_model_chunk` of src/quinkgl/network/gossip_community.py makes of a chunk, and
-- the pieces of state that it touches. `Transport.Receive` puts them together.
use quinkgl_framework.Common.{
  ℕ, ◌+◌, ◌%◌, String, Bool, true, false, not, Option, none, some, List, [], ◌∷◌, leb,
  if◌then◌else◌, ◌==◌, nat_eq, string_eq, pair_eq, length,
}
use quinkgl_framework.Common.Dict.{Dict, lookup, insert, has, count_keys}
use quinkgl_framework.Transport.Words.{Bytes}
use quinkgl_framework.Transport.Limits.{
  max_concurrent_transfers_per_peer, max_total_transfers, max_buffered_bytes_per_peer,
}
use quinkgl_framework.Transport.Host.{Host}
use quinkgl_framework.Transport.Signing.{chunk_verify}
use quinkgl_framework.Transport.Buffer.{ChunkBuffer}
use quinkgl_framework.Transport.State.{
  Community, Metrics, ModelChunk, Reason, Effect, signed_chunk, send_heartbeat,
}

-- `(peer_mid, transfer_id)`
abbrev pub buffer_key : String → ModelChunk → String × String
buffer_key peer_mid p = (peer_mid, p.transfer_id)

-- `(peer_mid, transfer_id, chunk_index)`
abbrev pub chunk_key : String → ModelChunk → String × (String × ℕ)
chunk_key peer_mid p = (peer_mid, (p.transfer_id, p.chunk_index))

-- The sender id is not the node that was discovered under this mid.
unfoldable pub claims_other : Community → String → ModelChunk → Bool
claims_other s peer_mid p = elim (lookup peer_mid s.mid_to_node_id) [
  | none ↦ false
  | some expected ↦ not (p.sender_id == expected)
]

unfoldable pub is_unsigned : ModelChunk → Bool
is_unsigned p = elim p.signature [ [] ↦ true | _ ∷ _ ↦ false ]

module _ (host : Host) where
  -- The checks of identity and signature.
  unfoldable pub authenticate : Community → String → ModelChunk → Option Reason
  unfolding claims_other is_unsigned signed_chunk
  authenticate s peer_mid p =
      if claims_other s peer_mid p
      then some Reason.identity_mismatch
      else (if is_unsigned p
          then (if s.require_signature then some Reason.missing_signature else none)
          else (if chunk_verify host peer_mid p.signature (signed_chunk p)
              then none
              else some Reason.invalid_signature))

unfoldable pub bytes_in : Dict ℕ Bytes → ℕ
bytes_in [] = 0
bytes_in ((_, c) ∷ d) = length c + bytes_in d

-- What the buffers of a peer hold.
unfoldable pub peer_bytes : String → Dict (String × String) ChunkBuffer → ℕ
unfolding bytes_in
peer_bytes peer_mid [] = 0
peer_bytes peer_mid (((mid, _), b) ∷ d) =
    (if mid == peer_mid then bytes_in b.chunks else 0) + peer_bytes peer_mid d

unfoldable pub peer_transfers : String → Dict (String × String) ChunkBuffer → ℕ
peer_transfers peer_mid d = count_keys (λ key. key.0 == peer_mid) d

-- The caps on a new buffer.
unfoldable pub capacity : Community → String → ModelChunk → Option Reason
unfolding peer_transfers peer_bytes
capacity s peer_mid p =
    if has (buffer_key peer_mid p) s.completed_chunk_transfers
    then some Reason.duplicate_completed_transfer
    else (if leb max_concurrent_transfers_per_peer (peer_transfers peer_mid s.chunk_buffers)
        then some Reason.peer_transfer_limit
        else (if leb max_total_transfers (length s.chunk_buffers)
            then some Reason.global_transfer_limit
            else (if leb max_buffered_bytes_per_peer (peer_bytes peer_mid s.chunk_buffers)
                then some Reason.peer_byte_budget
                else none)))

-- Two of the refusals count in the metrics.
unfoldable pub count_refusal : Reason → Metrics → Metrics
count_refusal Reason.duplicate_completed_transfer m = record m {
  chunk_transfers_rejected_peer_limit = m.chunk_transfers_rejected_peer_limit + 1;
}
count_refusal Reason.peer_transfer_limit m = record m {
  chunk_transfers_rejected_peer_limit = m.chunk_transfers_rejected_peer_limit + 1;
}
count_refusal _ m = m

unfoldable pub new_buffer : ModelChunk → ℕ → ChunkBuffer
new_buffer p now = record {
  transfer_id = p.transfer_id;
  sender_id = p.sender_id;
  total_chunks = p.total_chunks;
  data_schema_hash = p.data_schema_hash;
  round_number = p.round_number;
  sample_count = p.sample_count;
  loss = p.loss;
  accuracy = p.accuracy;
  timestamp = p.timestamp;
  created_at = now;
  last_ack_at = now;
  chunks_since_ack = 0;
  last_nack_at = 0;
  last_nack_signature = [];
  chunks = [];
}

-- The sender has been seen, and every fifth chunk is answered with a heartbeat.
unfoldable pub touch_sender : Community → ModelChunk → ℕ → Community × List Effect
touch_sender s p now = elim (lookup p.sender_id s.known_peers) [
  | none ↦ (s, [])
  | some info ↦ (
    record s { known_peers = insert p.sender_id (record info { last_seen = now }) s.known_peers },
    if p.chunk_index % 5 == 0 then send_heartbeat info.peer_mid s.heartbeat_sequence ∷ [] else [],
  )
]
