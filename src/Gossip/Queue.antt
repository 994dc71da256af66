-- ===== src/Gossip/Queue.antt =====
-- The pending updates of src/quinkgl/gossip/aggregator.py as a queue: one of each peer, within the limit.
use quinkgl_framework.Common.{
  ℕ, ◌≤◌, String, ◌≡◌, refl, ◌≢◌, Bool, true, false, ◌&&◌, Option, none, some, List, [], ◌∷◌, ◌++◌,
  arith, ltb, leb, if-elim, Option-elim, nat_eq, string_eq, pair_eq, list_eq, length, All,
  length-append,
}
use quinkgl_framework.Gossip.Messages.{
  GossipMessage, model_update, heartbeat, discovery_announce, checkpoint_announce, other_message,
  validate_message, ModelUpdateMessage,
}
use quinkgl_framework.Common.Dict.{has, lookup}
use quinkgl_framework.Gossip.Aggregator.{
  ModelUpdate, ModelAggregator, Event, handle_incoming_message, dispatch, update_of,
  handle_model_update, append_update, accept_update, reject_stale, is_far, has_update,
  handle_heartbeat, handle_discovery_announce, add_known_peer, handle_checkpoint_announce, is_mine,
}
use quinkgl_framework.Gossip.Aggregation.{
  Outcome, raised, not_applied, interrupted, applied, drain, begin_aggregation, end_aggregation,
  finish_aggregation, increment_round, stop,
}
use quinkgl_framework.Gossip.Pending.{
  Step, message, begin, halt, next_round, finish, Run, begin_run, finish_run, step, run_steps,
  started,
}

abbrev pub DistinctPeers : {W : Type 0} → List (ModelUpdate W) → Type 0
DistinctPeers [] = Unit
DistinctPeers (u ∷ us) = (has_update u.peer_id us ≡ false) × DistinctPeers us

-- The strategy does not raise.
abbrev pub succeeds : {W : Type 0} → Step W → Bool
succeeds (finish raised) = false
succeeds _ = true

module _ {W : Type 0} where
  has_update-append :
      (p : String) (us : List (ModelUpdate W)) (v : ModelUpdate W)
      → has_update p us ≡ false
      → v.peer_id ≢ p
      → has_update p (us ++ v ∷ []) ≡ false
  unfolding has_update
  has_update-append p [] v h n = ground (arith, n)
  has_update-append p (u ∷ us) v h n = ground (arith, h, has_update-append p us v)

  append-DistinctPeers :
      (us : List (ModelUpdate W)) (v : ModelUpdate W)
      → DistinctPeers us
      → has_update v.peer_id us ≡ false
      → DistinctPeers (us ++ v ∷ [])
  unfolding has_update
  append-DistinctPeers [] v d h = (refl, tt)
  append-DistinctPeers (u ∷ us) v d h = (
    has_update-append u.peer_id us v d.0 (λ e. ground (arith, h, e)),
    append-DistinctPeers us v d.1 (ground (arith, h)),
  )

  pub record IsQueue (s : ModelAggregator W) : Type 0 where
    pub distinct : DistinctPeers s.pending_updates
    pub bounded : length s.pending_updates ≤ s.max_pending_updates

  accept_update-IsQueue :
      (s : ModelAggregator W) (m : ModelUpdateMessage W)
      → IsQueue s
      → has_update m.sender_id s.pending_updates ≡ false
      → leb s.max_pending_updates (length s.pending_updates) ≡ false
      → IsQueue (accept_update s m).0
  unfolding accept_update update_of
  accept_update-IsQueue s m q new room = record {
    distinct = append-DistinctPeers s.pending_updates (update_of m) q.distinct new;
    bounded = ground (arith, room, length-append s.pending_updates (update_of m ∷ []));
  }

  handle_model_update-IsQueue :
      (s : ModelAggregator W) (m : ModelUpdateMessage W)
      → IsQueue s
      → IsQueue (handle_model_update s m).0
  unfolding handle_model_update append_update reject_stale
  handle_model_update-IsQueue s m q =
      let P : ModelAggregator W × List Event → Type 0 = (λ r. IsQueue r.0) in
      if-elim P s.running
        (λ running.
          if-elim P (is_far s.stale_round_tolerance m.round_number s.current_round)
            (λ far. record { distinct = q.distinct; bounded = q.bounded })
            (λ near.
              if-elim P (has_update m.sender_id s.pending_updates) (λ known. q)
                (λ new.
                  if-elim P (leb s.max_pending_updates (length s.pending_updates))
                    {y = accept_update s m} (λ full. q)
                    (λ room. accept_update-IsQueue s m q new room))))
        (λ stopped. q)

  dispatch-IsQueue :
      (s : ModelAggregator W) (m : GossipMessage W) (now : ℕ)
      → IsQueue s
      → IsQueue (dispatch s m now).0
  unfolding dispatch handle_heartbeat handle_discovery_announce handle_checkpoint_announce
      add_known_peer
  dispatch-IsQueue s (model_update m) now q = handle_model_update-IsQueue s m q
  dispatch-IsQueue s (heartbeat sender_id timestamp) now q =
      Option-elim (λ (t : ModelAggregator W). IsQueue t) (lookup sender_id s.known_peers)
        (λ unknown. q) (λ p known. record { distinct = q.distinct; bounded = q.bounded })
  dispatch-IsQueue s (discovery_announce m) now q =
      let P : ModelAggregator W × List Event → Type 0 = (λ r. IsQueue r.0) in
      if-elim P (is_mine m.domain s.domain && is_mine m.data_schema_hash s.data_schema_hash)
        (λ mine.
          if-elim P (has m.sender_id s.known_peers) (λ known. q)
            (λ new. record { distinct = q.distinct; bounded = q.bounded }))
        (λ other. q)
  dispatch-IsQueue s (checkpoint_announce m) now q =
      let P : ModelAggregator W × List Event → Type 0 = (λ r. IsQueue r.0) in
      if-elim P (has m.sender_id s.known_peers && s.running)
        (λ known. record { distinct = q.distinct; bounded = q.bounded }) (λ unknown. q)
  dispatch-IsQueue s (other_message sender_id timestamp) now q = q

  begin-IsQueue :
      (r : Run W) (us : List (ModelUpdate W))
      → IsQueue r.node
      → IsQueue (begin_run r (drain r.node us)).node
  unfolding drain
  begin-IsQueue r [] q = q
  begin-IsQueue r (u ∷ us) q =
      if-elim
        (λ (d : ModelAggregator W × Option (List (ModelUpdate W))). IsQueue (begin_run r d).node)
        (ltb (length (u ∷ us)) r.node.min_peers_before_aggregate) {x = (r.node, none)}
        {y = (record r.node { pending_updates = []; aggregating = true }, some (u ∷ us))} (λ few. q)
        (λ enough. record { distinct = tt; bounded = omega arith })

  finish-IsQueue :
      (r : Run W) (o : Option (List (ModelUpdate W))) (outcome : Outcome W)
      → succeeds (finish outcome) ≡ true
      → IsQueue r.node
      → IsQueue (finish_run r o outcome).node
  unfolding end_aggregation finish_aggregation
  finish-IsQueue r none outcome h q = q
  finish-IsQueue r (some batch) raised h q = absurd (cc h)
  finish-IsQueue r (some batch) interrupted h q = record {
    distinct = q.distinct;
    bounded = q.bounded;
  }
  finish-IsQueue r (some batch) not_applied h q = record {
    distinct = q.distinct;
    bounded = q.bounded;
  }
  finish-IsQueue r (some batch) (applied w) h q = record {
    distinct = q.distinct;
    bounded = q.bounded;
  }

  step-IsQueue :
      (r : Run W) (x : Step W) → succeeds x ≡ true → IsQueue r.node → IsQueue (step r x).node
  unfolding handle_incoming_message begin_aggregation stop increment_round
  step-IsQueue r (message m now) h q =
      if-elim (λ (t : ModelAggregator W × List Event). IsQueue t.0)
        (validate_message r.node.peer_id now m) (λ valid. dispatch-IsQueue r.node m now q)
        (λ invalid. q)
  step-IsQueue r begin h q =
      if-elim
        (λ (d : ModelAggregator W × Option (List (ModelUpdate W))). IsQueue (begin_run r d).node)
        r.node.aggregating {x = (r.node, none)} (λ busy. q)
        (λ idle. begin-IsQueue r r.node.pending_updates q)
  step-IsQueue r halt h q = record { distinct = q.distinct; bounded = q.bounded }
  step-IsQueue r next_round h q = record { distinct = q.distinct; bounded = q.bounded }
  step-IsQueue r (finish outcome) h q = finish-IsQueue r r.in_flight outcome h q

  steps-IsQueue :
      (r : Run W) (xs : List (Step W))
      → All (λ x. succeeds x ≡ true) xs
      → IsQueue r.node
      → IsQueue (run_steps r xs).node
  steps-IsQueue r [] h q = q
  steps-IsQueue r (x ∷ xs) h q = steps-IsQueue (step r x) xs h.1 (step-IsQueue r x h.0 q)

  -- As long as no aggregation strategy raises, the pending updates of a node that starts with
  -- none, and no aggregation running, are from distinct peers and not more than
  -- max_pending_updates, whatever messages, rounds and aggregations come.
  pub run_steps-IsQueue :
      (node : ModelAggregator W) (xs : List (Step W))
      → All (λ x. succeeds x ≡ true) xs
      → IsQueue (run_steps (started node) xs).node
  run_steps-IsQueue node xs h =
      steps-IsQueue (started node) xs h (record { distinct = tt; bounded = omega arith })
