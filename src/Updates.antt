-- ===== src/Updates.antt =====
-- Model updates that fit one packet, and how a node sends a model: `on_model_update`,
-- `send_model_update`, `_send_chunked_model_update` and `broadcast_model_update` of
-- src/quinkgl/network/gossip_community.py.
pub mod Replay
pub mod Waiting
pub mod Exchange
use quinkgl_framework.Common.{
  ℕ, ◌+◌, ◌/◌, max, String, Bool, true, false, not, ◌||◌, Option, none, some, List, [], ◌∷◌, ◌++◌,
  ltb, leb, if◌then◌else◌, nat_eq, string_eq, pair_eq, length,
}
use quinkgl_framework.Common.Dict.{Dict, lookup, insert, has, keys}
use quinkgl_framework.Transport.Words.{Bytes}
use quinkgl_framework.Transport.Limits.{chunk_size, max_incoming_message_size}
use quinkgl_framework.Transport.Host.{Host}
use quinkgl_framework.Transport.Signing.{Signed, chunk_sign}
use quinkgl_framework.Transport.State.{
  Community, PeerInfo, Reason, Effect, CachedTransfer, ModelChunk, ModelUpdate, dropped, deliver,
  send_update,
}
use quinkgl_framework.Transport.Admission.{authenticate}
use quinkgl_framework.Transport.Sender.{
  Phase, polling, retrying, filling, finished, Sending, Event, run_events, start_transfer,
  end_transfer,
}
use quinkgl_framework.Membership.{update_seen}

-- The checks of sender and signature take an update as chunk 0 of a transfer of one chunk.
unfoldable pub as_chunk : ModelUpdate → ModelChunk
as_chunk p = record {
  transfer_id = "";
  chunk_index = 0;
  total_chunks = 1;
  sender_id = p.sender_id;
  data_schema_hash = p.data_schema_hash;
  round_number = p.round_number;
  sample_count = p.sample_count;
  loss = p.loss;
  accuracy = p.accuracy;
  timestamp = p.timestamp;
  chunk_data = p.weights_bytes;
  signature = p.signature;
}

-- The round is not above the last one of this peer; without one, the source has -1.
unfoldable pub is_replayed : Community → String → ℕ → Bool
is_replayed s peer_mid round = elim (lookup peer_mid s.last_seen_round) [
  | none ↦ false
  | some last ↦ leb round last
]

-- `_record_last_seen_round`. The file that keeps the rounds is not modelled.
unfoldable pub record_last_seen_round : Community → String → ℕ → Community
record_last_seen_round s peer_mid round = record s {
  last_seen_round =
      insert peer_mid
        (elim (lookup peer_mid s.last_seen_round) [ none ↦ round | some last ↦ max last round ])
        s.last_seen_round;
}

module _ (host : Host) where
  -- Why an update is dropped, before its weights are looked at.
  unfoldable pub refusal : Community → String → ModelUpdate → Option Reason
  unfolding as_chunk is_replayed
  refusal s peer_mid p = elim (authenticate host s peer_mid (as_chunk p)) [
    | some r ↦ some r
    | none ↦
        if ltb (s.local_round + s.max_round_skip) p.round_number
        then some Reason.future_round
        else (if is_replayed s peer_mid p.round_number
            then some Reason.replayed_round
            else (if ltb max_incoming_message_size (length p.weights_bytes)
                then some Reason.oversized_model
                else none))
  ]

  -- `on_model_update` up to the call of the callback, and whether it goes on after that.
  unfoldable pub begin_update :
      Community → String → ModelUpdate → ℕ → Community × (List Effect × Bool)
  unfolding refusal
  begin_update s peer_mid p now = elim (refusal s peer_mid p) [
    | some r ↦ (s, (dropped r ∷ [], false))
    | none ↦
        let s' = update_seen p.sender_id now s in
        if host.deserializes p.weights_bytes
        then (
          s',
          (
            if s.has_callback
                then deliver p.sender_id p.weights_bytes p.sample_count p.round_number p.loss
                    p.accuracy
                  ∷ []
                else [],
            true,
          ),
        )
        else (s', (dropped Reason.deserialization_error ∷ [], false))
  ]

  -- The rest, after the callback has returned or raised.
  unfoldable pub end_update : Community → String → ModelUpdate → Bool → Community × List Effect
  unfolding record_last_seen_round
  end_update s peer_mid p true = (record_last_seen_round s peer_mid p.round_number, [])
  end_update s peer_mid p false = (s, dropped Reason.callback_error ∷ [])

  unfoldable pub finish_update :
      String → ModelUpdate → Bool → Community × (List Effect × Bool) → Community × List Effect
  unfolding end_update
  finish_update peer_mid p callback_returns (s, (effects, false)) = (s, effects)
  finish_update peer_mid p callback_returns (s, (effects, true)) =
      let (s', more) = end_update s peer_mid p callback_returns in (s', effects ++ more)

  -- A call during which no other handler runs. Without a callback, nothing raises.
  unfoldable pub on_model_update :
      Community → String → ModelUpdate → ℕ → Bool → Community × List Effect
  unfolding begin_update finish_update
  on_model_update s peer_mid p now callback_returns =
      finish_update peer_mid p (callback_returns || not s.has_callback)
        (begin_update s peer_mid p now)

  unfoldable pub signed_update : Community → CachedTransfer → Signed
  signed_update s t = record {
    sender_id = s.node_id;
    round_number = t.round;
    data_schema_hash = s.data_schema_hash;
    chunk_index = 0;
    chunk_data = t.weights;
    sample_count = t.samples;
    loss = t.loss;
    accuracy = t.accuracy;
    timestamp = t.timestamp;
    total_chunks = 1;
  }

  unfoldable pub direct_update : Community → CachedTransfer → ModelUpdate
  unfolding signed_update
  direct_update s t = record {
    sender_id = s.node_id;
    weights_bytes = t.weights;
    sample_count = t.samples;
    round_number = t.round;
    data_schema_hash = s.data_schema_hash;
    loss = t.loss;
    accuracy = t.accuracy;
    timestamp = t.timestamp;
    signature = chunk_sign host (signed_update s t);
  }

  -- The value that a loop has returned.
  unfoldable pub result_of : Phase → Option Bool
  result_of polling = none
  result_of (retrying now entries) = none
  result_of filling = none
  result_of (finished b) = some b

  -- A whole chunked transfer, with the events of its loop; without a result, it is still running.
  unfoldable pub send_chunked_model_update :
      Community
      → String
      → String
      → String
      → CachedTransfer
      → String
      → ℕ
      → List Event
      → Community × (List Effect × Option Bool)
  unfolding result_of
  send_chunked_model_update s transfer_id target recipient_mid t model_hash now events =
      elim (start_transfer s transfer_id target recipient_mid t model_hash now) [
        | none ↦ (s, ([], some true))
        | some (s', sending) ↦
            let (sending', effects) = run_events host s sending events in
            let s'' : Community = record s' { metrics = sending'.metrics } in
            elim (result_of sending'.phase) [
              | none ↦ (s'', (effects, none))
              | some b ↦ (end_transfer s'' transfer_id target t.round model_hash, (effects, some b))
            ]
      ]

  -- The packet of a model that fits one, or the chunked transfer. The model is what `serialize_model`
  -- returned, or none if it raised; the transfer's id is fresh, and the clock is in milliseconds.
  unfoldable pub send_model_update :
      Community
      → String
      → Option CachedTransfer
      → String
      → String
      → ℕ
      → List Event
      → Community × (List Effect × Option Bool)
  unfolding direct_update send_chunked_model_update
  send_model_update s target none transfer_id model_hash now events = (s, ([], some false))
  send_model_update s target (some t) transfer_id model_hash now events =
      elim (lookup target s.known_peers) [
        | none ↦ (s, ([], some false))
        | some info ↦
            if leb (length t.weights) chunk_size
            then (
              s,
              (
                send_update info.peer_mid (direct_update s (record t { timestamp = now / 1000 }))
                    ∷ [],
                some true,
              ),
            )
            else send_chunked_model_update s transfer_id target info.peer_mid t model_hash now
                events
      ]

  -- `broadcast_model_update` of a model that fits one packet: no call waits, so no peer comes or goes.
  unfoldable pub broadcast_to :
      Community → Option CachedTransfer → ℕ → List String → List Effect × ℕ
  unfolding send_model_update
  broadcast_to s t now [] = ([], 0)
  broadcast_to s t now (target ∷ rest) =
      let (s', (effects, sent)) = send_model_update s target t "" "" now [] in
      let (more, count) = broadcast_to s t now rest in
      (effects ++ more, (elim sent [ none ↦ 0 | some b ↦ if b then 1 else 0 ]) + count)

  unfoldable pub broadcast_model_update : Community → Option CachedTransfer → ℕ → List Effect × ℕ
  unfolding broadcast_to
  broadcast_model_update s t now = broadcast_to s t now (keys s.known_peers)
