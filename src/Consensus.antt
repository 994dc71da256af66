-- ===== src/Consensus.antt =====
-- `ConsensusTracker` of src/quinkgl/gossip/consensus.py. Losses, accuracies and the tolerance are
-- fixed-point numbers in millionths, and a mean is kept as a sum: the comparisons are exact where
-- the source has floats. The threshold is a fraction, and round numbers are not negative.
pub mod Votes
pub mod Verdict
pub mod Prune
use quinkgl_framework.Common.{
  ℕ, ◌+◌, ◌-◌, ◌*◌, max, String, Bool, ◌&&◌, Option, none, some, List, [], ◌∷◌, ltb, leb,
  if◌then◌else◌, nat_eq, string_eq, pair_eq, length, drop, keep,
}
use quinkgl_framework.Common.Dict.{Dict, lookup, insert, erase, has, keys, values}

pub record PeerCheckpoint : Type 0 where
  pub peer_id : String
  pub round_number : ℕ
  pub loss : ℕ
  pub accuracy : ℕ

pub record ConsensusResult : Type 0 where
  pub reached : Bool
  pub total_peers : ℕ
  pub agreeing_peers : ℕ
  pub loss_sum : ℕ
  pub accuracy_sum : ℕ
  pub checkpoint_round : ℕ

abbrev pub Ballots : Type 0
Ballots = Dict String PeerCheckpoint

pub record ConsensusTracker : Type 0 where
  pub checkpoint_interval : ℕ
  pub threshold_num : ℕ
  pub threshold_den : ℕ
  pub loss_tolerance : ℕ
  pub min_peers_for_consensus : ℕ
  pub max_round_ahead : ℕ
  pub checkpoints : Dict ℕ Ballots
  pub last_local_checkpoint_round : ℕ
  pub last_seen_checkpoint_round : ℕ

-- `__init__`; a tolerance below one millionth is raised to it.
unfoldable pub new_tracker : ℕ → ℕ → ℕ → ℕ → ℕ → ℕ → ConsensusTracker
new_tracker interval num den tolerance min_peers ahead = record {
  checkpoint_interval = interval;
  threshold_num = num;
  threshold_den = den;
  loss_tolerance = max tolerance 1;
  min_peers_for_consensus = min_peers;
  max_round_ahead = ahead;
  checkpoints = [];
  last_local_checkpoint_round = 0;
  last_seen_checkpoint_round = 0;
}

unfoldable pub should_checkpoint : ConsensusTracker → ℕ → Bool
should_checkpoint s current_round =
    leb (s.checkpoint_interval + s.last_local_checkpoint_round) current_round

-- A round number far ahead is clamped.
unfoldable pub clamp_checkpoint : ConsensusTracker → PeerCheckpoint → PeerCheckpoint
clamp_checkpoint s c =
    let max_allowed = s.last_seen_checkpoint_round + s.max_round_ahead in
    if ltb max_allowed c.round_number then record c { round_number = max_allowed } else c

-- `_checkpoints[rnd]`, made empty if it is not there.
unfoldable pub ballots_at : ConsensusTracker → ℕ → Ballots
ballots_at s rnd = elim (lookup rnd s.checkpoints) [ none ↦ [] | some ballots ↦ ballots ]

unfoldable pub store_checkpoint : ConsensusTracker → PeerCheckpoint → ConsensusTracker
unfolding ballots_at
store_checkpoint s c =
    let ballots = ballots_at s c.round_number in
    if has c.peer_id ballots
    then record s { checkpoints = insert c.round_number ballots s.checkpoints }
    else record s {
      checkpoints = insert c.round_number (insert c.peer_id c ballots) s.checkpoints;
      last_seen_checkpoint_round = max s.last_seen_checkpoint_round c.round_number;
    }

unfoldable pub record_checkpoint : ConsensusTracker → PeerCheckpoint → ConsensusTracker
unfolding clamp_checkpoint store_checkpoint
record_checkpoint s c = store_checkpoint s (clamp_checkpoint s c)

-- `max(self._checkpoints.keys())`, of a dict that is not empty.
unfoldable pub latest_round : Dict ℕ Ballots → ℕ
latest_round [] = 0
latest_round ((rnd, _) ∷ d) = max rnd (latest_round d)

unfoldable pub sum_of : (PeerCheckpoint → ℕ) → List PeerCheckpoint → ℕ
sum_of f [] = 0
sum_of f (c ∷ cs) = f c + sum_of f cs

-- `abs(c.loss - mean_loss) <= tolerance`, with the mean `total / n` multiplied out.
unfoldable pub agrees : ℕ → ℕ → ℕ → PeerCheckpoint → Bool
agrees n total tolerance c = leb ((c.loss * n - total) + (total - c.loss * n)) (tolerance * n)

unfoldable pub tally : ConsensusTracker → ℕ → List PeerCheckpoint → ConsensusResult
unfolding sum_of agrees
tally s rnd peer_list =
    let total_peers = length peer_list in
    let loss_sum = sum_of (λ c. c.loss) peer_list in
    let agreeing = length (keep (agrees total_peers loss_sum s.loss_tolerance) peer_list) in
    record {
      reached =
          leb (s.threshold_num * total_peers) (agreeing * s.threshold_den)
          && leb s.min_peers_for_consensus total_peers;
      total_peers = total_peers;
      agreeing_peers = agreeing;
      loss_sum = loss_sum;
      accuracy_sum = sum_of (λ c. c.accuracy) peer_list;
      checkpoint_round = rnd;
    }

unfoldable pub check_round : ConsensusTracker → ℕ → Option ConsensusResult
unfolding tally
check_round s rnd = elim (lookup rnd s.checkpoints) [
  | none ↦ none
  | some ballots ↦ elim ballots [ [] ↦ none | b ∷ bs ↦ some (tally s rnd (values (b ∷ bs))) ]
]

-- Of a given round, or of the latest.
unfoldable pub check_consensus : ConsensusTracker → Option ℕ → Option ConsensusResult
unfolding check_round latest_round
check_consensus s round_number = elim s.checkpoints [
  | [] ↦ none
  | c ∷ cs ↦ elim round_number [
    | none ↦ check_round s (latest_round (c ∷ cs))
    | some rnd ↦ check_round s rnd
  ]
]

-- `sorted(keys, reverse=True)`
unfoldable pub insert_desc : ℕ → List ℕ → List ℕ
insert_desc i [] = i ∷ []
insert_desc i (j ∷ js) = let rest = insert_desc i js in if leb j i then i ∷ j ∷ js else j ∷ rest

unfoldable pub sort_desc : List ℕ → List ℕ
unfolding insert_desc
sort_desc [] = []
sort_desc (i ∷ is) = insert_desc i (sort_desc is)

-- `for rnd in rounds: del checkpoints[rnd]`
unfoldable pub delete_rounds : List ℕ → Dict ℕ Ballots → Dict ℕ Ballots
delete_rounds [] d = d
delete_rounds (r ∷ rs) d = delete_rounds rs (erase r d)

unfoldable pub prune_old_checkpoints : ConsensusTracker → ℕ → ConsensusTracker
unfolding sort_desc delete_rounds
prune_old_checkpoints s keep_rounds = record s {
  checkpoints = delete_rounds (drop keep_rounds (sort_desc (keys s.checkpoints))) s.checkpoints;
}

unfoldable pub record_local_checkpoint : ConsensusTracker → ℕ → ConsensusTracker
record_local_checkpoint s round_number = record s {
  last_local_checkpoint_round = max s.last_local_checkpoint_round round_number;
}
