-- ===== src/Tests/Voting.antt =====
-- The theorems on consensus at concrete inputs.
use quinkgl_framework.Common.{
  ◌+◌, min, String, ◌≡◌, refl, none, [], ◌∷◌, ℕ_discrete, leb, if◌then◌else◌, nat_eq, string_eq,
  pair_eq,
}
use quinkgl_framework.Common.Dict.{lookup, keys, NodupKeys}
use quinkgl_framework.Consensus.{
  PeerCheckpoint, Ballots, ConsensusTracker, record_checkpoint, prune_old_checkpoints,
}
use quinkgl_framework.Consensus.Votes.{vote, voted, record_checkpoint-vote}
use quinkgl_framework.Consensus.Prune.{count_later, prune_old_checkpoints-newest}

abbrev ballot : String → PeerCheckpoint
ballot peer = record { peer_id = peer; round_number = 10; loss = 400000; accuracy = 900000 }

abbrev ballots : Ballots
ballots = ("a", ballot "a") ∷ ("b", ballot "b") ∷ ("c", ballot "c") ∷ []

-- Half of the peers must agree, and there must be three.
abbrev tracker : ConsensusTracker
tracker = record {
  checkpoint_interval = 10;
  threshold_num = 1;
  threshold_den = 2;
  loss_tolerance = 50000;
  min_peers_for_consensus = 3;
  max_round_ahead = 50;
  checkpoints = (10, ballots) ∷ [];
  last_local_checkpoint_round = 0;
  last_seen_checkpoint_round = 10;
}

-- A second vote of a peer, with another loss.
abbrev repeated : PeerCheckpoint
repeated = record { peer_id = "b"; round_number = 10; loss = 7; accuracy = 7 }

record_checkpoint-vote_example :
    vote (record_checkpoint tracker repeated) 10 "b"
    ≡ voted (vote tracker 10 "b") 10 "b" (record repeated { round_number = min 10 (10 + 50) })
record_checkpoint-vote_example = record_checkpoint-vote tracker repeated 10 "b"

-- Three rounds, of which two stay.
abbrev long : ConsensusTracker
long = record tracker { checkpoints = (10, ballots) ∷ (30, ballots) ∷ (20, ballots) ∷ [] }

long-NodupKeys : NodupKeys long.checkpoints
unfolding lookup ℕ_discrete
long-NodupKeys = (refl, (refl, (refl, tt)))

prune_old_checkpoints-newest_example :
    lookup 10 (prune_old_checkpoints long 2).checkpoints
    ≡ (if leb 2 (count_later 10 (keys long.checkpoints)) then none else lookup 10 long.checkpoints)
prune_old_checkpoints-newest_example = prune_old_checkpoints-newest long 2 10 long-NodupKeys
