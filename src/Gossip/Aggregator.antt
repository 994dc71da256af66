-- ===== src/Gossip/Aggregator.antt =====
-- `ModelAggregator` of src/quinkgl/gossip/aggregator.py: how a node takes in messages. Hooks, which are
-- code of the application, and the deliveries of events are left out; the topology hears of peers
-- from the events.
use quinkgl_framework.Common.{
  ℕ, ◌+◌, ◌-◌, String, Bool, true, false, ◌&&◌, Option, none, some, List, [], ◌∷◌, ◌++◌, ltb, leb,
  if◌then◌else◌, ◌==◌, nat_eq, string_eq, pair_eq, list_eq, length, ok, err,
}
use quinkgl_framework.Common.Dict.{Dict, lookup, insert, erase, has}
use quinkgl_framework.Consensus.{ConsensusTracker, record_checkpoint}
use quinkgl_framework.Common.Text.{codes, text_leb}
use quinkgl_framework.Store.Checkpoint.{Codec}
use quinkgl_framework.Store.State.{ModelStore}
use quinkgl_framework.Store.Loading.{get_latest_checkpoint}
use quinkgl_framework.Gossip.Messages.{
  ModelUpdateMessage, AnnouncePayload, CheckpointAnnounceMessage, GossipMessage, model_update,
  heartbeat, discovery_announce, checkpoint_announce, other_message, validate_message,
}

pub record ModelUpdate (W : Type 0) : Type 0 where
  pub peer_id : String
  pub weights : W
  pub sample_count : ℕ
  pub loss : Option ℕ
  pub accuracy : Option ℕ
  pub round_number : ℕ

pub record KnownPeer : Type 0 where
  pub peer_id : String
  pub domain : String
  pub data_schema_hash : String
  pub model_version : String
  pub last_seen : ℕ

-- The events of the handlers, with the peer and the round.
pub data Event : Type 0 where
  peer_discovered peer_disconnected model_received model_rejected_stale model_rejected_duplicate
        model_rejected_backpressure :
      String → ℕ → Event

pub record ModelAggregator (W : Type 0) : Type 0 where
  pub peer_id : String
  pub domain : String
  pub data_schema_hash : String
  pub running : Bool
  pub current_round : ℕ
  pub known_peers : Dict String KnownPeer
  pub pending_updates : List (ModelUpdate W)
  pub aggregating : Bool
  pub aggregation_event : Bool
  pub stale_round_tolerance : ℕ
  pub max_pending_updates : ℕ
  pub min_peers_before_aggregate : ℕ
  pub peer_rejection_counts : Dict String ℕ
  pub consensus_tracker : ConsensusTracker
  pub samples_trained : Option ℕ
  pub batch_size : ℕ
  pub weights : W

-- The round that `__init__` resumes at from a model store.
unfoldable pub resumed_round : Codec → Option ModelStore → ℕ
unfolding get_latest_checkpoint
resumed_round h none = 0
resumed_round h (some store) = elim (get_latest_checkpoint h store) [
  | err _ ↦ 0
  | ok (_, none) ↦ 0
  | ok (_, some c) ↦ c.round_number
]

-- `select_fanout`
unfoldable pub select_fanout : ℕ → ℕ
select_fanout n =
    if ltb n 3
    then n
    else (if leb n 100 then 3 else (if leb n 250 then 5 else (if leb n 500 then 7 else 10)))

abbrev pub max_peer_rejection_entries : ℕ
max_peer_rejection_entries = 256

-- `min` by the pair of the count and the id.
unfoldable pub least_rejected : String × ℕ → Dict String ℕ → String × ℕ
unfolding text_leb
least_rejected best [] = best
least_rejected best (e ∷ d) =
    least_rejected
      (if e.1 == best.1
        then (if text_leb (codes best.0) (codes e.0) then best else e)
        else (if ltb e.1 best.1 then e else best))
      d

unfoldable pub prune_rejections : Dict String ℕ → Dict String ℕ
unfolding least_rejected
prune_rejections [] = []
prune_rejections (e ∷ d) =
    if ltb max_peer_rejection_entries (length (e ∷ d))
    then erase (least_rejected e d).0 (e ∷ d)
    else e ∷ d

unfoldable pub count_rejection : Dict String ℕ → String → Dict String ℕ
unfolding prune_rejections
count_rejection d peer_id =
    prune_rejections (insert peer_id (elim (lookup peer_id d) [ none ↦ 0 | some n ↦ n ] + 1) d)

-- `abs(m - n) > tolerance`
unfoldable pub is_far : ℕ → ℕ → ℕ → Bool
is_far tolerance m n = ltb tolerance ((m - n) + (n - m))

unfoldable pub is_mine : Option String → String → Bool
is_mine none mine = false
is_mine (some theirs) mine = theirs == mine

module _ {W : Type 0} where
  unfoldable pub has_update : String → List (ModelUpdate W) → Bool
  has_update peer_id [] = false
  has_update peer_id (u ∷ us) =
      let rest = has_update peer_id us in if u.peer_id == peer_id then true else rest

  unfoldable pub update_of : ModelUpdateMessage W → ModelUpdate W
  update_of m = record {
    peer_id = m.sender_id;
    weights = m.weights;
    sample_count = m.sample_count;
    loss = m.loss;
    accuracy = m.accuracy;
    round_number = m.round_number;
  }

  unfoldable pub reject_stale :
      ModelAggregator W → ModelUpdateMessage W → ModelAggregator W × List Event
  unfolding count_rejection
  reject_stale s m = (
    record s { peer_rejection_counts = count_rejection s.peer_rejection_counts m.sender_id },
    model_rejected_stale m.sender_id m.round_number ∷ [],
  )

  unfoldable pub accept_update :
      ModelAggregator W → ModelUpdateMessage W → ModelAggregator W × List Event
  unfolding update_of
  accept_update s m = (
    record s { pending_updates = s.pending_updates ++ update_of m ∷ []; aggregation_event = true },
    model_received m.sender_id m.round_number ∷ [],
  )

  -- What is done under the lock of the pending updates, and after it.
  unfoldable pub append_update :
      ModelAggregator W → ModelUpdateMessage W → ModelAggregator W × List Event
  unfolding has_update accept_update
  append_update s m =
      if has_update m.sender_id s.pending_updates
      then (s, model_rejected_duplicate m.sender_id m.round_number ∷ [])
      else (if leb s.max_pending_updates (length s.pending_updates)
          then (s, model_rejected_backpressure m.sender_id m.round_number ∷ [])
          else accept_update s m)

  unfoldable pub handle_model_update :
      ModelAggregator W → ModelUpdateMessage W → ModelAggregator W × List Event
  unfolding is_far reject_stale append_update
  handle_model_update s m =
      if s.running
      then (if is_far s.stale_round_tolerance m.round_number s.current_round
          then reject_stale s m
          else append_update s m)
      else (s, [])

  unfoldable pub add_known_peer : ModelAggregator W → KnownPeer → ModelAggregator W × List Event
  add_known_peer s p = if has p.peer_id s.known_peers then (s, []) else (
    record s { known_peers = insert p.peer_id p s.known_peers },
    peer_discovered p.peer_id s.current_round ∷ [],
  )

  unfoldable pub remove_known_peer : ModelAggregator W → String → ModelAggregator W × List Event
  remove_known_peer s peer_id =
      if has peer_id s.known_peers
      then (
        record s { known_peers = erase peer_id s.known_peers },
        peer_disconnected peer_id s.current_round ∷ [],
      )
      else (s, [])

  unfoldable pub handle_discovery_announce :
      ModelAggregator W → AnnouncePayload → ℕ → ModelAggregator W × List Event
  unfolding is_mine add_known_peer
  handle_discovery_announce s m now =
      if is_mine m.domain s.domain && is_mine m.data_schema_hash s.data_schema_hash
      then add_known_peer s (record {
        peer_id = m.sender_id;
        domain = s.domain;
        data_schema_hash = s.data_schema_hash;
        model_version = elim m.model_version [ none ↦ "1.0.0" | some version ↦ version ];
        last_seen = now;
      })
      else (s, [])

  -- The source awaits `record_checkpoint`, which returns None: that raises, after the checkpoint has
  -- been recorded, and the caller logs it. What follows is never reached.
  unfoldable pub handle_checkpoint_announce :
      ModelAggregator W → CheckpointAnnounceMessage → ModelAggregator W × List Event
  unfolding record_checkpoint
  handle_checkpoint_announce s m =
      if has m.sender_id s.known_peers && s.running
      then (
        record s {
          consensus_tracker = record_checkpoint s.consensus_tracker (record {
            peer_id = m.sender_id;
            round_number = m.round_number;
            loss = m.loss;
            accuracy = m.accuracy;
          });
        },
        [],
      )
      else (s, [])

  unfoldable pub handle_heartbeat : ModelAggregator W → String → ℕ → ModelAggregator W
  handle_heartbeat s sender_id now = elim (lookup sender_id s.known_peers) [
    | none ↦ s
    | some p ↦ record s {
      known_peers = insert sender_id (record p { last_seen = now }) s.known_peers;
    }
  ]

  unfoldable pub dispatch : ModelAggregator W → GossipMessage W → ℕ → ModelAggregator W × List Event
  unfolding handle_model_update handle_heartbeat handle_discovery_announce
      handle_checkpoint_announce
  dispatch s (model_update m) now = handle_model_update s m
  dispatch s (heartbeat sender_id timestamp) now = (handle_heartbeat s sender_id now, [])
  dispatch s (discovery_announce m) now = handle_discovery_announce s m now
  dispatch s (checkpoint_announce m) now = handle_checkpoint_announce s m
  dispatch s (other_message sender_id timestamp) now = (s, [])

  unfoldable pub handle_incoming_message :
      ModelAggregator W → GossipMessage W → ℕ → ModelAggregator W × List Event
  unfolding validate_message dispatch
  handle_incoming_message s m now =
      if validate_message s.peer_id now m then dispatch s m now else (s, [])
