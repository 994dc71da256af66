-- ===== src/Gossip/Messages.antt =====
-- The messages of src/quinkgl/gossip/protocol.py that a node handles, for weights in W. Times are whole
-- milliseconds, and rounds natural numbers.
use quinkgl_framework.Common.{
  ℕ, ◌+◌, String, Bool, false, not, Option, ltb, if◌then◌else◌, ◌==◌, nat_eq, string_eq, pair_eq,
  list_eq,
}

pub record ModelUpdateMessage (W : Type 0) : Type 0 where
  pub sender_id : String
  pub timestamp : ℕ
  pub weights : W
  pub sample_count : ℕ
  pub loss : Option ℕ
  pub accuracy : Option ℕ
  pub round_number : ℕ

-- The keys of the payload that are read.
pub record AnnouncePayload : Type 0 where
  pub sender_id : String
  pub timestamp : ℕ
  pub domain : Option String
  pub data_schema_hash : Option String
  pub model_version : Option String

pub record CheckpointAnnounceMessage : Type 0 where
  pub sender_id : String
  pub timestamp : ℕ
  pub round_number : ℕ
  pub loss : ℕ
  pub accuracy : ℕ

pub data GossipMessage (W : Type 0) : Type 0 where
  model_update : ModelUpdateMessage W → GossipMessage W
  heartbeat : String → ℕ → GossipMessage W
  discovery_announce : AnnouncePayload → GossipMessage W
  checkpoint_announce : CheckpointAnnounceMessage → GossipMessage W
  other_message : String → ℕ → GossipMessage W

module _ {W : Type 0} where
  abbrev pub sender_of : GossipMessage W → String
  sender_of (model_update m) = m.sender_id
  sender_of (heartbeat sender_id timestamp) = sender_id
  sender_of (discovery_announce m) = m.sender_id
  sender_of (checkpoint_announce m) = m.sender_id
  sender_of (other_message sender_id timestamp) = sender_id

  abbrev pub timestamp_of : GossipMessage W → ℕ
  timestamp_of (model_update m) = m.timestamp
  timestamp_of (heartbeat sender_id timestamp) = timestamp
  timestamp_of (discovery_announce m) = m.timestamp
  timestamp_of (checkpoint_announce m) = m.timestamp
  timestamp_of (other_message sender_id timestamp) = timestamp

abbrev pub max_message_age : ℕ
max_message_age = 300000

abbrev pub max_message_lead : ℕ
max_message_lead = 60000

-- `GossipProtocol.validate_message`, for a message with a sender and a time of sending.
unfoldable pub validate_message : {W : Type 0} → String → ℕ → GossipMessage W → Bool
validate_message peer_id now m =
    if sender_of m == ""
    then false
    else (if sender_of m == peer_id
        then false
        else (if ltb (timestamp_of m + max_message_age) now
            then false
            else not (ltb (now + max_message_lead) (timestamp_of m))))
