-- ===== src/Tests/Meeting.antt =====
-- The theorems on how peers become known at concrete inputs.
use quinkgl_framework.Common.{true, [], ◌∷◌, arith, nat_eq, string_eq, pair_eq}
use quinkgl_framework.Common.Dict.{lookup}
use quinkgl_framework.Transport.State.{Community}
use quinkgl_framework.Membership.{DiscoveryAnnounce}
use quinkgl_framework.Membership.Swarm.{IsSwarm, announce, heartbeat, hear, hear-IsSwarm}
use quinkgl_framework.Tests

abbrev announcement : DiscoveryAnnounce
announcement = record {
  node_id = "a";
  domain = "health";
  data_schema_hash = "d";
  model_version = "1.0.0";
  fingerprint_json = "";
  manifest_id = "";
}

idle-IsSwarm : IsSwarm Tests.idle
unfolding lookup
idle-IsSwarm id info h = absurd (ground (arith, h))

hear-IsSwarm_example : IsSwarm (
    hear Tests.open_host
      (λ _. true)
      Tests.idle
      ((announce "m" announcement, 1000) ∷ (heartbeat "a", 2000) ∷ []))
hear-IsSwarm_example =
    hear-IsSwarm Tests.open_host (λ _. true) Tests.idle
      ((announce "m" announcement, 1000) ∷ (heartbeat "a", 2000) ∷ []) idle-IsSwarm

-- A node with a manifest, and an announcement of that manifest from another domain.
abbrev node : Community
node = record Tests.idle { manifest_hash = "h" }
