-- ===== src/Tests/Updating.antt =====
-- The theorems on direct updates at concrete inputs.
use quinkgl_framework.Common.{true, false, none, List, [], ◌∷◌, nat_eq, string_eq, pair_eq}
use quinkgl_framework.Common.Dict.{insert}
use quinkgl_framework.Transport.State.{Community, PeerInfo, CachedTransfer, ModelUpdate}
use quinkgl_framework.Updates.Replay.{Arrival, IsReplayFree, handle_all, handle_all-IsReplayFree}
use quinkgl_framework.Tests

abbrev update : ModelUpdate
update = record {
  sender_id = "a";
  weights_bytes = 5 ∷ 6 ∷ [];
  sample_count = 10;
  round_number = 3;
  data_schema_hash = "d";
  loss = 0;
  accuracy = 0;
  timestamp = 7;
  signature = 1 ∷ [];
}

-- The same update three times, once with a callback that raises.
abbrev arrivals : List Arrival
arrivals =
    ("m", (update, (1000, false)))
    ∷ ("m", (update, (2000, true)))
    ∷ ("m", (update, (3000, true)))
    ∷ []

handle_all-IsReplayFree_example : IsReplayFree (handle_all Tests.open_host Tests.idle arrivals []).1
handle_all-IsReplayFree_example = handle_all-IsReplayFree Tests.open_host Tests.idle arrivals

abbrev small : CachedTransfer
small = record Tests.cached { weights = 5 ∷ 6 ∷ [] }

abbrev receiver_info : PeerInfo
receiver_info = record {
  peer_mid = "r";
  node_id = "b";
  domain = "health";
  data_schema_hash = "d";
  model_version = "1.0.0";
  manifest_id = "";
  data_fingerprint = none;
  last_seen = 0;
}

-- The sender "ab" knows "b", which knows it under the mid "m".
abbrev sender : Community
sender = record Tests.idle { known_peers = insert "b" receiver_info [] }

abbrev receiver : Community
receiver = record Tests.idle { node_id = "b"; mid_to_node_id = insert "m" "ab" [] }
