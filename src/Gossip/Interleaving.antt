-- ===== src/Gossip/Interleaving.antt =====
-- Updates that reach the node of src/quinkgl/gossip/aggregator.py while it aggregates others.
use quinkgl_framework.Common.{
  suc, ◌+◌, ◌≤◌, ◌==◌, if◌then◌else◌, ℕ, String, ◌≡◌, refl, ap, ◌∙◌, true, false, List, [], ◌∷◌,
  ◌++◌, arith, nat_eq, string_eq, pair_eq, list_eq,
}
use quinkgl_framework.Gossip.Messages.{model_update, ModelUpdateMessage}
use quinkgl_framework.Gossip.Aggregator.{
  ModelUpdate, ModelAggregator, model_received, handle_incoming_message, update_of, has_update,
}
use quinkgl_framework.Gossip.Aggregation.{finish_aggregation, fail_aggregation}
use quinkgl_framework.Gossip.Pending.{accepted_update}
use quinkgl_framework.Gossip.Conservation.{Adds, handle_incoming_message-Adds}

module _ {W : Type 0} where
  -- How many updates are from a peer.
  unfoldable pub count_updates : String → List (ModelUpdate W) → ℕ
  count_updates p [] = 0
  count_updates p (u ∷ us) =
      let rest = count_updates p us in if u.peer_id == p then suc rest else rest

  count_updates-append :
      (p : String) (us vs : List (ModelUpdate W))
      → count_updates p (us ++ vs) ≡ count_updates p us + count_updates p vs
  unfolding count_updates
  count_updates-append p [] vs = omega arith
  count_updates-append p (u ∷ us) vs = ground (arith, count_updates-append p us vs)

  has_update-counts :
      (p : String) (us : List (ModelUpdate W)) → has_update p us ≡ true → 1 ≤ count_updates p us
  unfolding count_updates has_update
  has_update-counts p [] h = absurd (cc h)
  has_update-counts p (u ∷ us) h = ground (arith, h, has_update-counts p us)

  count_updates_self : (m : ModelUpdateMessage W) → count_updates m.sender_id (update_of m ∷ []) ≡ 1
  unfolding count_updates update_of
  count_updates_self m = ground arith

  received_last :
      (s : ModelAggregator W) (m : ModelUpdateMessage W) (now : ℕ)
      → (handle_incoming_message s (model_update m) now).1
        ≡ model_received m.sender_id m.round_number ∷ []
      → (handle_incoming_message s (model_update m) now).0.pending_updates
        ≡ s.pending_updates ++ update_of m ∷ []
  received_last s m now received =
      Adds.added (handle_incoming_message-Adds s (model_update m) now)
      ∙ ap (λ es. s.pending_updates ++ accepted_update (model_update m) es) received

  -- If an update is received from a peer with an update in the batch of an aggregation, and the
  -- strategy then raises, at least two updates of that peer are pending.
  pub fail_aggregation-duplicates :
      (s : ModelAggregator W) (batch : List (ModelUpdate W)) (m : ModelUpdateMessage W) (now : ℕ)
      → has_update m.sender_id batch ≡ true
      → (handle_incoming_message s (model_update m) now).1
        ≡ model_received m.sender_id m.round_number ∷ []
      → 2
        ≤ count_updates m.sender_id
            (fail_aggregation
              (handle_incoming_message s (model_update m) now).0
              batch).pending_updates
  unfolding fail_aggregation
  fail_aggregation-duplicates s batch m now had received =
      let p = m.sender_id in
      let after = (handle_incoming_message s (model_update m) now).0.pending_updates in
      omega (
        arith,
        count_updates-append p batch after,
        has_update-counts p batch had,
        ap (count_updates p) (received_last s m now received),
        count_updates-append p s.pending_updates (update_of m ∷ []),
        count_updates_self m,
      )

  -- An update that is received while an aggregation runs is pending when that has ended, but the
  -- event that wakes the loop is clear.
  pub finish_aggregation-forgets :
      (s : ModelAggregator W) (m : ModelUpdateMessage W) (now : ℕ) (w : W)
      → (handle_incoming_message s (model_update m) now).1
        ≡ model_received m.sender_id m.round_number ∷ []
      → let t = finish_aggregation (handle_incoming_message s (model_update m) now).0 w in
        (t.pending_updates ≡ s.pending_updates ++ update_of m ∷ []) × (t.aggregation_event ≡ false)
  unfolding finish_aggregation
  finish_aggregation-forgets s m now w received = (received_last s m now received, refl)
