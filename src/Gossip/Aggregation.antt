-- ===== src/Gossip/Aggregation.antt =====
-- `_aggregate_models` of src/quinkgl/gossip/aggregator.py, in two steps: up to the call of the
-- aggregation strategy, and from its return. Messages may arrive between the two. The weights of a
-- model are set as a whole.
use quinkgl_framework.Common.{
  ℕ, ◌+◌, ◌/◌, true, false, Option, none, some, List, [], ◌∷◌, ◌++◌, ltb, leb, if◌then◌else◌,
  nat_eq, string_eq, pair_eq, list_eq, length,
}
use quinkgl_framework.Gossip.Aggregator.{ModelUpdate, ModelAggregator}

-- How an aggregation ends. The strategy raises an `Exception`; its model is applied to the node's own;
-- its model is not applied, since a step after it raises; or the aggregation is interrupted, since a
-- step before the strategy raises or the task is cancelled.
pub data Outcome (W : Type 0) : Type 0 where
  raised not_applied interrupted : Outcome W
  applied : W → Outcome W

unfoldable pub sum : List ℕ → ℕ
sum [] = 0
sum (n ∷ ns) = n + sum ns

unfoldable pub mean_count : ℕ → List ℕ → ℕ
unfolding sum
mean_count batch_size counts = elim counts [
  | [] ↦ batch_size
  | n ∷ ns ↦ sum (n ∷ ns) / length (n ∷ ns)
]

module _ {W : Type 0} where
  -- The sample counts that are not zero.
  unfoldable pub positive_counts : List (ModelUpdate W) → List ℕ
  positive_counts [] = []
  positive_counts (u ∷ us) =
      let rest = positive_counts us in if ltb 0 u.sample_count then u.sample_count ∷ rest else rest

  unfoldable pub own_sample_count : ModelAggregator W → List (ModelUpdate W) → ℕ
  unfolding positive_counts mean_count
  own_sample_count s batch =
      let mean = mean_count s.batch_size (positive_counts batch) in
      elim s.samples_trained [ none ↦ mean | some n ↦ if ltb 0 n then n else mean ]

  unfoldable pub own_update : ModelAggregator W → List (ModelUpdate W) → ModelUpdate W
  unfolding own_sample_count
  own_update s batch = record {
    peer_id = s.peer_id;
    weights = s.weights;
    sample_count = own_sample_count s batch;
    loss = none;
    accuracy = none;
    round_number = s.current_round;
  }

  unfoldable pub drain :
      ModelAggregator W → List (ModelUpdate W) → ModelAggregator W × Option (List (ModelUpdate W))
  drain s [] = (s, none)
  drain s (u ∷ us) =
      if ltb (length (u ∷ us)) s.min_peers_before_aggregate
      then (s, none)
      else (record s { pending_updates = []; aggregating = true }, some (u ∷ us))

  -- The batch that is drained, if an aggregation starts.
  unfoldable pub begin_aggregation :
      ModelAggregator W → ModelAggregator W × Option (List (ModelUpdate W))
  unfolding drain
  begin_aggregation s = if s.aggregating then (s, none) else drain s s.pending_updates

  -- The strategy has raised: the batch goes back to the front.
  unfoldable pub fail_aggregation : ModelAggregator W → List (ModelUpdate W) → ModelAggregator W
  fail_aggregation s batch = record s {
    pending_updates = batch ++ s.pending_updates;
    aggregating = false;
  }

  unfoldable pub finish_aggregation : ModelAggregator W → W → ModelAggregator W
  finish_aggregation s aggregated = record s {
    weights = aggregated;
    aggregation_event = false;
    aggregating = false;
  }

  unfoldable pub end_aggregation :
      ModelAggregator W → List (ModelUpdate W) → Outcome W → ModelAggregator W
  unfolding fail_aggregation finish_aggregation
  end_aggregation s batch raised = fail_aggregation s batch
  end_aggregation s batch interrupted = record s { aggregating = false }
  end_aggregation s batch not_applied = record s { aggregating = false }
  end_aggregation s batch (applied aggregated) = finish_aggregation s aggregated

  -- The whole method, where nothing comes between.
  unfoldable pub aggregate_models :
      (List (ModelUpdate W) → Outcome W) → ModelAggregator W → ModelAggregator W
  unfolding begin_aggregation own_update end_aggregation
  aggregate_models aggregate s =
      let (drained, batch) = begin_aggregation s in
      elim batch [
        | none ↦ drained
        | some updates ↦
            end_aggregation drained updates (aggregate (own_update drained updates ∷ updates))
      ]

  unfoldable pub increment_round : ModelAggregator W → ModelAggregator W
  increment_round s = record s { current_round = s.current_round + 1 }

  unfoldable pub stop : ModelAggregator W → ModelAggregator W
  stop s = record s { running = false }

  -- The end of `run_continuous`: a last aggregation, if enough updates are pending, then none are.
  unfoldable pub shut_down :
      (List (ModelUpdate W) → Outcome W) → ModelAggregator W → ModelAggregator W
  unfolding aggregate_models
  shut_down aggregate s =
      let halted : ModelAggregator W = record s { running = false } in
      let last =
        if leb s.min_peers_before_aggregate (length s.pending_updates)
        then aggregate_models aggregate halted
        else halted in
      record last { pending_updates = [] }
