-- ===== src/Gossip/Conservation.antt =====
-- Where the updates go that src/quinkgl/gossip/aggregator.py accepts.
use quinkgl_framework.Common.{
  ℕ, ◌≡◌, refl, sym, ap, ◌∙◌, true, false, ◌&&◌, Option, none, some, List, [], ◌∷◌, ◌++◌,
  append-nil, append_assoc, ltb, leb, if◌then◌else◌, if-elim, Option-elim, nat_eq, string_eq,
  pair_eq, list_eq, length,
}
use quinkgl_framework.Common.Dict.{is_some, has, lookup}
use quinkgl_framework.Gossip.Messages.{
  GossipMessage, model_update, heartbeat, discovery_announce, checkpoint_announce, other_message,
  validate_message, ModelUpdateMessage,
}
use quinkgl_framework.Gossip.Aggregator.{
  ModelUpdate, ModelAggregator, Event, handle_incoming_message, dispatch, handle_model_update,
  append_update, accept_update, reject_stale, is_far, has_update, handle_heartbeat,
  handle_discovery_announce, add_known_peer, handle_checkpoint_announce, is_mine,
}
use quinkgl_framework.Gossip.Aggregation.{
  Outcome, raised, not_applied, interrupted, applied, drain, begin_aggregation, end_aggregation,
  finish_aggregation, fail_aggregation, increment_round, stop,
}
use quinkgl_framework.Gossip.Pending.{
  Step, message, begin, halt, next_round, finish, Run, batch_of, batches, accepted_update,
  begin_run, finish_run, step, run_steps, started,
}

not_in_flight : {A : Type 0} (o : Option A) → is_some o ≡ false → o ≡ none
not_in_flight none h = refl
not_in_flight (some a) h = absurd (cc h)

module _ {W : Type 0} where
  -- A handler adds to the pending updates what it says it has received, and nothing else.
  pub record Adds (s : ModelAggregator W) (m : GossipMessage W) (r : ModelAggregator W × List Event)
      : Type 0 where
    pub added : r.0.pending_updates ≡ s.pending_updates ++ accepted_update m r.1
    pub busy : r.0.aggregating ≡ s.aggregating

  nothing_added : (s : ModelAggregator W) → s.pending_updates ≡ s.pending_updates ++ []
  nothing_added s = sym (append-nil s.pending_updates)

  accept_update-Adds :
      (s : ModelAggregator W) (m : ModelUpdateMessage W)
      → Adds s (model_update m) (accept_update s m)
  unfolding accept_update
  accept_update-Adds s m = record { added = refl; busy = refl }

  handle_model_update-Adds :
      (s : ModelAggregator W) (m : ModelUpdateMessage W)
      → Adds s (model_update m) (handle_model_update s m)
  unfolding handle_model_update append_update reject_stale
  handle_model_update-Adds s m =
      let P : ModelAggregator W × List Event → Type 0 = Adds s (model_update m) in
      if-elim P s.running
        (λ running.
          if-elim P (is_far s.stale_round_tolerance m.round_number s.current_round)
            (λ far. (record { added = nothing_added s; busy = refl }))
            (λ near.
              if-elim P (has_update m.sender_id s.pending_updates)
                (λ known. (record { added = nothing_added s; busy = refl }))
                (λ new.
                  if-elim P (leb s.max_pending_updates (length s.pending_updates))
                    {y = accept_update s m}
                    (λ full. (record { added = nothing_added s; busy = refl }))
                    (λ room. accept_update-Adds s m))))
        (λ stopped. (record { added = nothing_added s; busy = refl }))

  dispatch-Adds :
      (s : ModelAggregator W) (m : GossipMessage W) (now : ℕ) → Adds s m (dispatch s m now)
  unfolding dispatch handle_heartbeat handle_discovery_announce handle_checkpoint_announce
      add_known_peer
  dispatch-Adds s (model_update m) now = handle_model_update-Adds s m
  dispatch-Adds s (heartbeat sender_id timestamp) now =
      Option-elim (λ (t : ModelAggregator W). Adds s (heartbeat sender_id timestamp) (t, []))
        (lookup sender_id s.known_peers)
        (λ unknown. (record { added = nothing_added s; busy = refl }))
        (λ p known. (record { added = nothing_added s; busy = refl }))
  dispatch-Adds s (discovery_announce m) now =
      let P : ModelAggregator W × List Event → Type 0 = Adds s (discovery_announce m) in
      if-elim P (is_mine m.domain s.domain && is_mine m.data_schema_hash s.data_schema_hash)
        (λ mine.
          if-elim P (has m.sender_id s.known_peers)
            (λ known. (record { added = nothing_added s; busy = refl }))
            (λ new. (record { added = nothing_added s; busy = refl })))
        (λ other. (record { added = nothing_added s; busy = refl }))
  dispatch-Adds s (checkpoint_announce m) now =
      let P : ModelAggregator W × List Event → Type 0 = Adds s (checkpoint_announce m) in
      if-elim P (has m.sender_id s.known_peers && s.running)
        (λ known. (record { added = nothing_added s; busy = refl }))
        (λ unknown. (record { added = nothing_added s; busy = refl }))
  dispatch-Adds s (other_message sender_id timestamp) now = record {
    added = nothing_added s;
    busy = refl;
  }

  none_accepted : (m : GossipMessage W) → [] ≡ accepted_update m []
  none_accepted (model_update m) = refl
  none_accepted (heartbeat sender_id timestamp) = refl
  none_accepted (discovery_announce m) = refl
  none_accepted (checkpoint_announce m) = refl
  none_accepted (other_message sender_id timestamp) = refl

  pub handle_incoming_message-Adds :
      (s : ModelAggregator W) (m : GossipMessage W) (now : ℕ)
      → Adds s m (handle_incoming_message s m now)
  unfolding handle_incoming_message
  handle_incoming_message-Adds s m now =
      if-elim (Adds s m) (validate_message s.peer_id now m) (λ valid. dispatch-Adds s m now)
        (λ invalid. record {
          added = nothing_added s ∙ ap (λ us. s.pending_updates ++ us) (none_accepted m);
          busy = refl;
        })

  -- What has been accepted is in a batch that has ended, is being aggregated, or is pending.
  pub record Conserved (r : Run W) : Type 0 where
    pub all : r.accepted ≡ batches r.ended ++ (batch_of r.in_flight ++ r.node.pending_updates)
    pub busy : r.node.aggregating ≡ is_some r.in_flight

  message-Conserved :
      (r : Run W) (m : GossipMessage W) (now : ℕ) → Conserved r → Conserved (step r (message m now))
  message-Conserved r m now c =
      let a = handle_incoming_message-Adds r.node m now in
      let (node, events) = handle_incoming_message r.node m now in
      let new = accepted_update m events in
      record {
        all =
            ap (λ us. us ++ new) c.all
            ∙ append_assoc (batches r.ended) (batch_of r.in_flight ++ r.node.pending_updates) new
            ∙ ap (λ us. batches r.ended ++ us)
                (append_assoc (batch_of r.in_flight) r.node.pending_updates new)
            ∙ ap (λ us. batches r.ended ++ (batch_of r.in_flight ++ us)) (sym a.added);
        busy = a.busy ∙ c.busy;
      }

  -- A batch is taken only if none is in flight.
  pub record Drains (s : ModelAggregator W) (d : ModelAggregator W × Option (List (ModelUpdate W)))
      : Type 0 where
    pub kept : s.pending_updates ≡ batch_of d.1 ++ d.0.pending_updates
    pub idle : is_some d.1 ≡ true → s.aggregating ≡ false
    pub busy : d.0.aggregating ≡ (if is_some d.1 then true else s.aggregating)

  drain-Drains :
      (s : ModelAggregator W) (us : List (ModelUpdate W))
      → s.aggregating ≡ false
      → s.pending_updates ≡ us
      → Drains s (drain s us)
  unfolding drain
  drain-Drains s [] idle e = record { kept = refl; idle = λ _. idle; busy = refl }
  drain-Drains s (u ∷ us) idle e =
      if-elim (Drains s) (ltb (length (u ∷ us)) s.min_peers_before_aggregate) {x = (s, none)}
        {y = (record s { pending_updates = []; aggregating = true }, some (u ∷ us))}
        (λ few. record { kept = refl; idle = λ _. idle; busy = refl })
        (λ enough. record { kept = e ∙ sym (append-nil (u ∷ us)); idle = λ _. idle; busy = refl })

  begin_aggregation-Drains : (s : ModelAggregator W) → Drains s (begin_aggregation s)
  unfolding begin_aggregation
  begin_aggregation-Drains s =
      if-elim (Drains s) s.aggregating {x = (s, none)}
        (λ busy. record { kept = refl; idle = λ e. absurd (cc e); busy = refl })
        (λ idle. drain-Drains s s.pending_updates idle refl)

  begin_run-Conserved :
      (r : Run W) (d : ModelAggregator W × Option (List (ModelUpdate W)))
      → Drains r.node d
      → Conserved r
      → Conserved (begin_run r d)
  begin_run-Conserved r (node, none) d c = record {
    all = c.all ∙ ap (λ us. batches r.ended ++ (batch_of r.in_flight ++ us)) d.kept;
    busy = d.busy ∙ c.busy;
  }
  begin_run-Conserved r (node, some batch) d c = record {
    all =
        c.all
        ∙ ap (λ o. batches r.ended ++ (batch_of o ++ r.node.pending_updates))
            (not_in_flight r.in_flight (sym c.busy ∙ d.idle refl))
        ∙ ap (λ us. batches r.ended ++ us) d.kept;
    busy = d.busy;
  }

  batches-append :
      (es : List (Outcome W × List (ModelUpdate W))) (outcome : Outcome W)
      (batch : List (ModelUpdate W))
      → batches (es ++ (outcome, batch) ∷ []) ≡ batches es ++ batch
  batches-append [] outcome batch = append-nil batch
  batches-append (e ∷ es) outcome batch =
      ap (λ us. e.1 ++ us) (batches-append es outcome batch)
      ∙ sym (append_assoc e.1 (batches es) batch)

  taken_batch :
      (r : Run W) (outcome : Outcome W) (batch : List (ModelUpdate W))
      → r.in_flight ≡ some batch
      → batches r.ended ++ (batch_of r.in_flight ++ r.node.pending_updates)
        ≡ batches (r.ended ++ (outcome, batch) ∷ []) ++ r.node.pending_updates
  taken_batch r outcome batch e =
      ap (λ o. batches r.ended ++ (batch_of o ++ r.node.pending_updates)) e
      ∙ sym (append_assoc (batches r.ended) batch r.node.pending_updates)
      ∙ ap (λ us. us ++ r.node.pending_updates) (sym (batches-append r.ended outcome batch))

  finish-Conserved :
      (r : Run W) (o : Option (List (ModelUpdate W))) (outcome : Outcome W)
      → r.in_flight ≡ o
      → Conserved r
      → Conserved (finish_run r o outcome)
  unfolding end_aggregation finish_aggregation fail_aggregation
  finish-Conserved r none outcome e c = c
  finish-Conserved r (some batch) raised e c = record {
    all = c.all ∙ ap (λ o. batches r.ended ++ (batch_of o ++ r.node.pending_updates)) e;
    busy = refl;
  }
  finish-Conserved r (some batch) interrupted e c = record {
    all = c.all ∙ taken_batch r interrupted batch e;
    busy = refl;
  }
  finish-Conserved r (some batch) not_applied e c = record {
    all = c.all ∙ taken_batch r not_applied batch e;
    busy = refl;
  }
  finish-Conserved r (some batch) (applied w) e c = record {
    all = c.all ∙ taken_batch r (applied w) batch e;
    busy = refl;
  }

  step-Conserved : (r : Run W) (x : Step W) → Conserved r → Conserved (step r x)
  unfolding stop increment_round
  step-Conserved r (message m now) c = message-Conserved r m now c
  step-Conserved r begin c =
      begin_run-Conserved r (begin_aggregation r.node) (begin_aggregation-Drains r.node) c
  step-Conserved r halt c = record { all = c.all; busy = c.busy }
  step-Conserved r next_round c = record { all = c.all; busy = c.busy }
  step-Conserved r (finish outcome) c = finish-Conserved r r.in_flight outcome refl c

  run_steps-Conserved : (r : Run W) (xs : List (Step W)) → Conserved r → Conserved (run_steps r xs)
  run_steps-Conserved r [] c = c
  run_steps-Conserved r (x ∷ xs) c = run_steps-Conserved (step r x) xs (step-Conserved r x c)

  -- Whatever messages, rounds and aggregations come to a node that starts with no update pending
  -- and no aggregation running, in whatever order: the updates that it has accepted are, in the
  -- order of their arrival, those of the batches whose aggregation has ended without the
  -- strategy raising, then the batch that is being aggregated, then those that are pending. So
  -- none is doubled or overtaken, and one is lost only with its whole batch, if that aggregation
  -- was interrupted or its model not applied.
  pub run_steps-conserves :
      (node : ModelAggregator W) (xs : List (Step W))
      → let r = run_steps (started node) xs in
        r.accepted ≡ batches r.ended ++ (batch_of r.in_flight ++ r.node.pending_updates)
  run_steps-conserves node xs =
      (run_steps-Conserved (started node) xs (record { all = refl; busy = refl })).all
