-- ===== src/Tests/Viewing.antt =====
-- The theorems on the view of peers at concrete inputs.
use quinkgl_framework.Common.{
  ℕ, ◌≤◌, String, ◌≡◌, refl, false, none, some, [], ◌∷◌, arith, nat_eq, string_eq, pair_eq, length,
}
use quinkgl_framework.Common.Dict.{lookup, insert, erase, has, NodupKeys}
use quinkgl_framework.Topology.Sampler.{
  PeerInfo, PeerSampler, oldest_from, evict_oldest_peer, add_peer, merge_view,
}
use quinkgl_framework.Topology.Sampler.Oldest.{add_peer-evicts_oldest}
use quinkgl_framework.Topology.Sampler.Merging.{AllNew, merge_view-overflows}

abbrev peer : String → ℕ → PeerInfo
peer name age = record {
  peer_id = name;
  domain = "d";
  data_schema_hash = "h";
  manifest_id = none;
  model_version = "1.0.0";
  age = age;
}

-- A full view of two peers, the second of which is older.
abbrev full : PeerSampler
full = record { view_size = 2; view = ("a", peer "a" 1) ∷ ("b", peer "b" 4) ∷ [] }

full-NodupKeys : NodupKeys full.view
unfolding lookup string_eq
full-NodupKeys = (refl, (refl, tt))

entry_a : lookup "a" full.view ≡ some (peer "a" 1)
unfolding lookup string_eq
entry_a = refl

entry_b : lookup "b" full.view ≡ some (peer "b" 4)
unfolding lookup string_eq
entry_b = refl

gone_b : has "b" (add_peer full (peer "c" 0)).view ≡ false
unfolding add_peer evict_oldest_peer oldest_from lookup erase insert string_eq
gone_b = refl

add_peer-evicts_oldest_example : 1 ≤ 4
add_peer-evicts_oldest_example =
    add_peer-evicts_oldest full (peer "c" 0) "b" "a" (peer "b" 4) (peer "a" 1) full-NodupKeys
      entry_b gone_b entry_a

new_peers : AllNew (peer "c" 0 ∷ peer "d" 0 ∷ peer "e" 0 ∷ []) full.view
unfolding lookup string_eq
new_peers = (refl, (refl, (refl, tt)), (refl, (refl, tt), (refl, tt, tt)))

merge_view-overflows_example :
    length (merge_view full (peer "c" 0 ∷ peer "d" 0 ∷ peer "e" 0 ∷ []) (some 2)).view ≡ 3
merge_view-overflows_example =
    merge_view-overflows full (peer "c" 0 ∷ peer "d" 0 ∷ peer "e" 0 ∷ []) (some 2) full-NodupKeys
      (omega arith) refl new_peers
