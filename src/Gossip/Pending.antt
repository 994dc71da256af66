-- ===== src/Gossip/Pending.antt =====
-- Series of what happens to the node of src/quinkgl/gossip/aggregator.py: messages, and aggregations
-- that begin and end while messages arrive.
use quinkgl_framework.Common.{
  ℕ, false, Option, none, some, List, [], ◌∷◌, ◌++◌, nat_eq, string_eq, pair_eq, list_eq,
}
use quinkgl_framework.Gossip.Messages.{GossipMessage, model_update}
use quinkgl_framework.Gossip.Aggregator.{
  ModelUpdate, ModelAggregator, Event, model_received, handle_incoming_message, update_of,
}
use quinkgl_framework.Gossip.Aggregation.{
  Outcome, raised, begin_aggregation, end_aggregation, increment_round, stop,
}

pub data Step (W : Type 0) : Type 0 where
  message : GossipMessage W → ℕ → Step W
  begin halt next_round : Step W
  finish : Outcome W → Step W

-- The node, the batch that is being aggregated, and in order of their arrival the updates that
-- have been accepted, and the batches whose aggregations have ended for good, with how they ended.
pub record Run (W : Type 0) : Type 0 where
  pub node : ModelAggregator W
  pub in_flight : Option (List (ModelUpdate W))
  pub accepted : List (ModelUpdate W)
  pub ended : List (Outcome W × List (ModelUpdate W))

abbrev pub batch_of : {W : Type 0} → Option (List (ModelUpdate W)) → List (ModelUpdate W)
batch_of none = []
batch_of (some batch) = batch

abbrev pub batches : {W : Type 0} → List (Outcome W × List (ModelUpdate W)) → List (ModelUpdate W)
batches [] = []
batches (e ∷ es) = e.1 ++ batches es

module _ {W : Type 0} where
  -- The update of a message that the node says it has received.
  abbrev pub accepted_update : GossipMessage W → List Event → List (ModelUpdate W)
  accepted_update (model_update m) (model_received _ _ ∷ _) = update_of m ∷ []
  accepted_update _ _ = []

  -- The batch goes back if the strategy raises.
  abbrev pub end_batch :
      List (Outcome W × List (ModelUpdate W))
      → Outcome W
      → List (ModelUpdate W)
      → List (Outcome W × List (ModelUpdate W))
  end_batch es raised batch = es
  end_batch es outcome batch = es ++ (outcome, batch) ∷ []

  abbrev pub begin_run : Run W → ModelAggregator W × Option (List (ModelUpdate W)) → Run W
  begin_run r (node, none) = record r { node = node }
  begin_run r (node, some batch) = record r { node = node; in_flight = some batch }

  abbrev pub finish_run : Run W → Option (List (ModelUpdate W)) → Outcome W → Run W
  finish_run r none outcome = r
  finish_run r (some batch) outcome = record r {
    node = end_aggregation r.node batch outcome;
    in_flight = none;
    ended = end_batch r.ended outcome batch;
  }

  abbrev pub step : Run W → Step W → Run W
  step r (message m now) =
      let (node, events) = handle_incoming_message r.node m now in
      record r { node = node; accepted = r.accepted ++ accepted_update m events }
  step r begin = begin_run r (begin_aggregation r.node)
  step r halt = record r { node = stop r.node }
  step r next_round = record r { node = increment_round r.node }
  step r (finish outcome) = finish_run r r.in_flight outcome

  abbrev pub run_steps : Run W → List (Step W) → Run W
  run_steps r [] = r
  run_steps r (x ∷ xs) = run_steps (step r x) xs

abbrev pub started : {W : Type 0} → ModelAggregator W → Run W
started node = record {
  node = record node { pending_updates = []; aggregating = false };
  in_flight = none;
  accepted = [];
  ended = [];
}
