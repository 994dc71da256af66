-- ===== src/Tests/Gossiping.antt =====
-- The theorems on the gossip loop at concrete inputs.
use quinkgl_framework.Common.{
  ℕ, zero, suc, ◌≤◌, String, ◌≡◌, refl, ap, ◌≢◌, true, false, none, some, List, [], ◌∷◌, ◌++◌,
  arith, nat_eq, string_eq, pair_eq, list_eq, length,
}
use quinkgl_framework.Common.Text.{codes}
use quinkgl_framework.Common.Dict.{Dict, lookup}
use quinkgl_framework.Consensus.{new_tracker}
use quinkgl_framework.Gossip.Messages.{ModelUpdateMessage, model_update}
use quinkgl_framework.Gossip.Aggregator.{
  ModelUpdate, ModelAggregator, model_received, handle_incoming_message, has_update, update_of,
  count_rejection, max_peer_rejection_entries,
}
use quinkgl_framework.Gossip.Aggregation.{raised, applied, fail_aggregation, finish_aggregation}
use quinkgl_framework.Gossip.Pending.{
  Step, message, begin, finish, batch_of, batches, run_steps, started,
}
use quinkgl_framework.Gossip.Conservation.{run_steps-conserves}
use quinkgl_framework.Gossip.Queue.{IsQueue, run_steps-IsQueue}
use quinkgl_framework.Gossip.Interleaving.{
  count_updates, fail_aggregation-duplicates, finish_aggregation-forgets,
}
use quinkgl_framework.Gossip.Rejections.{Repeated, count_rejection-bounded, count_rejection-newest}

abbrev node : ModelAggregator ℕ
node = record {
  peer_id = "me";
  domain = "health";
  data_schema_hash = "d";
  running = true;
  current_round = 4;
  known_peers = [];
  pending_updates = [];
  aggregating = false;
  aggregation_event = false;
  stale_round_tolerance = 10;
  max_pending_updates = 2;
  min_peers_before_aggregate = 1;
  peer_rejection_counts = [];
  consensus_tracker = new_tracker 10 1 2 50000 3 50;
  samples_trained = some 8;
  batch_size = 32;
  weights = 1;
}

abbrev update : String → ModelUpdateMessage ℕ
update sender = record {
  sender_id = sender;
  timestamp = 1000;
  weights = 9;
  sample_count = 10;
  loss = none;
  accuracy = none;
  round_number = 5;
}

-- Two updates, an aggregation that fails, another update of the first peer while it runs, and an
-- aggregation that succeeds.
abbrev events : List (Step ℕ)
events =
    message (model_update (update "a")) 1500
    ∷ begin
    ∷ message (model_update (update "a")) 1600
    ∷ finish raised
    ∷ message (model_update (update "b")) 1700
    ∷ begin
    ∷ finish (applied 5)
    ∷ []

run_steps-conserves_example :
    let r = run_steps (started node) events in
    r.accepted ≡ batches r.ended ++ (batch_of r.in_flight ++ r.node.pending_updates)
run_steps-conserves_example = run_steps-conserves node events

abbrev good_events : List (Step ℕ)
good_events =
    message (model_update (update "a")) 1500
    ∷ begin
    ∷ message (model_update (update "a")) 1600
    ∷ message (model_update (update "a")) 1650
    ∷ finish (applied 5)
    ∷ []

run_steps-IsQueue_example : IsQueue (run_steps (started node) good_events).node
run_steps-IsQueue_example =
    run_steps-IsQueue node good_events (refl, (refl, (refl, (refl, (refl, tt)))))

abbrev in_batch : List (ModelUpdate ℕ)
in_batch =
    record {
      peer_id = "a";
      weights = 9;
      sample_count = 10;
      loss = none;
      accuracy = none;
      round_number = 4;
    }
    ∷ []

in_batch_has : has_update "a" in_batch ≡ true
unfolding has_update string_eq
in_batch_has = refl

is_received :
    (handle_incoming_message node (model_update (update "a")) 1500).1 ≡ model_received "a" 5 ∷ []
unfolding handle_incoming_message string_eq
is_received = refl

fail_aggregation-duplicates_example :
    2
    ≤ count_updates "a"
        (fail_aggregation
          (handle_incoming_message node (model_update (update "a")) 1500).0
          in_batch).pending_updates
fail_aggregation-duplicates_example =
    fail_aggregation-duplicates node in_batch (update "a") 1500 in_batch_has is_received

finish_aggregation-forgets_example :
    let t =
      finish_aggregation (handle_incoming_message node (model_update (update "a")) 1500).0 5 in
    (t.pending_updates ≡ update_of (update "a") ∷ []) × (t.aggregation_event ≡ false)
finish_aggregation-forgets_example = finish_aggregation-forgets node (update "a") 1500 5 is_received

count_rejection-bounded_example :
    length (count_rejection (("a", 3) ∷ []) "b") ≤ max_peer_rejection_entries
count_rejection-bounded_example = count_rejection-bounded (("a", 3) ∷ []) "b" (omega arith)

-- Ids of growing length.
abbrev name : ℕ → String
name zero = "x"
name (suc n) = String.◌∷◌ "a" (name n)

abbrev rejected_twice : ℕ → Dict String ℕ
rejected_twice zero = []
rejected_twice (suc n) = (name n, 2) ∷ rejected_twice n

rejected_twice-Repeated : (n : ℕ) → Repeated (rejected_twice n)
rejected_twice-Repeated zero = tt
rejected_twice-Repeated (suc n) = (omega arith, rejected_twice-Repeated n)

first_code : String → ℕ
first_code s = elim (codes s) [ [] ↦ 0 | c ∷ cs ↦ c ]

differs : (n : ℕ) → "b" ≢ name n
unfolding first_code
differs zero e = absurd (omega (arith, ap first_code e))
differs (suc n) e = absurd (omega (arith, ap first_code e))

is_new : (n : ℕ) → lookup "b" (rejected_twice n) ≡ none
unfolding lookup
is_new zero = refl
is_new (suc n) = elim (string_eq.dec "b" (name n)) [
  | yes same ↦ absurd (differs n same)
  | no differ ↦ ground (arith, differ, is_new n)
]

count_rejection-newest_example : count_rejection (rejected_twice 256) "b" ≡ rejected_twice 256
count_rejection-newest_example =
    count_rejection-newest (rejected_twice 256) "b" refl (rejected_twice-Repeated 256) (is_new 256)
