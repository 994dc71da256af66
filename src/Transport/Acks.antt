-- ===== src/Transport/Acks.antt =====
-- `on_chunk_ack` of src/quinkgl/network/gossip_community.py.
pub mod Progress
use quinkgl_framework.Common.{
  ℕ, String, Bool, true, false, not, ◌&&◌, ◌||◌, none, some, List, [], ◌∷◌, leb, ◌==◌, nat_eq,
  string_eq, pair_eq, length, ok, err,
}
use quinkgl_framework.Common.Dict.{Dict, lookup, insert, has}
use quinkgl_framework.Transport.IndexSet.{union}
use quinkgl_framework.Transport.Ranges.{unpack_chunk_ranges}
use quinkgl_framework.Transport.Host.{Host}
use quinkgl_framework.Transport.Signing.{chunk_verify}
use quinkgl_framework.Transport.State.{Community, OutgoingTransfer, ChunkAck, signed_ack}

-- `acked.update(...)`, and the event of completion.
unfoldable pub acknowledge : OutgoingTransfer → List ℕ → OutgoingTransfer
acknowledge t acked =
    let all = union t.acked acked in
    record t { acked = all; completed = t.completed || leb t.total_chunks (length all) }

module _ (host : Host) (peer_mid : String) (p : ChunkAck) where
  -- A signature is checked if there is one.
  unfoldable pub is_forged : Bool
  is_forged = elim p.signature [
    | [] ↦ false
    | _ ∷ _ ↦ not (
        chunk_verify host peer_mid p.signature
          (signed_ack p.sender_id p.round_number p.data_schema_hash p.total_chunks p.sack_ranges))
  ]

  -- The ACK comes from the recipient, and is about this transfer.
  unfoldable pub ack_matches : OutgoingTransfer → Bool
  unfolding is_forged
  ack_matches t =
      (peer_mid == t.recipient_mid)
      && ((p.sender_id == t.target_node_id)
          && ((p.total_chunks == t.total_chunks) && not is_forged))

  unfoldable pub apply_ack : OutgoingTransfer → OutgoingTransfer
  unfolding ack_matches acknowledge
  apply_ack t = elim (ack_matches t) [
    | false ↦ t
    | true ↦ elim (unpack_chunk_ranges p.sack_ranges (some t.total_chunks)) [
      | err e ↦ t
      | ok acked ↦ acknowledge t acked
    ]
  ]

  unfoldable pub on_chunk_ack : Community → Community
  on_chunk_ack s = elim (lookup p.transfer_id s.active_outgoing_transfers) [
    | none ↦ s
    | some t ↦ record s {
      active_outgoing_transfers = insert p.transfer_id (apply_ack t) s.active_outgoing_transfers;
    }
  ]
