-- ===== src/Topology/Cyclon.antt =====
-- `CyclonTopology` of src/quinkgl/topology/cyclon.py: the shuffles that change the partial view. The
-- random choice, `random.sample`, is an argument of what uses it. The task that runs the maintenance
-- at intervals is not modelled.
pub mod Drain
use quinkgl_framework.Common.{
  ℕ, min, String, Bool, not, ◌&&◌, Option, none, some, List, [], ◌∷◌, ◌++◌, map, ◌==◌, nat_eq,
  string_eq, pair_eq, length, take, keep,
}
use quinkgl_framework.Common.Dict.{Dict, lookup, insert, has, values}
use quinkgl_framework.Topology.Sampler.{
  PeerInfo, PeerSampler, View, reset_age, add_peer, remove_peer, merge_view, increment_all_ages,
  get_oldest_peers,
}

pub record CyclonTopology : Type 0 where
  pub sampler : PeerSampler
  pub shuffle_length : ℕ
  pub my_peer_info : Option PeerInfo

-- `SelectionContext`, as far as it is read here.
pub record SelectionContext : Type 0 where
  pub my_peer_id : String
  pub my_domain : String
  pub my_data_schema_hash : String
  pub my_manifest_id : Option String
  pub known_peers : List PeerInfo

-- `random.sample(peers, k)`
abbrev pub Sample : Type 0
Sample = List PeerInfo → ℕ → List PeerInfo

-- The shuffle callback: the peer's answer, or none if it raises.
abbrev pub SendShuffle : Type 0
SendShuffle = String → List PeerInfo → Option (List PeerInfo)

-- The callback that a node sets: it sends the peers and returns none.
unfoldable pub node_send_shuffle : SendShuffle
node_send_shuffle peer_id peers = some []

abbrev pub ids_of : List PeerInfo → List String
ids_of = map (λ (p : PeerInfo). p.peer_id)

unfoldable pub others : String → View → List PeerInfo
others peer_id v = keep (λ (p : PeerInfo). not (p.peer_id == peer_id)) (values v)

-- The loops that discard the peers that were sent.
unfoldable pub discard : List String → PeerSampler → PeerSampler
unfolding remove_peer
discard [] s = s
discard (id ∷ ids) s = discard ids (remove_peer s id).0

unfoldable pub reset_peer : String → PeerSampler → PeerSampler
unfolding reset_age
reset_peer peer_id s = elim (lookup peer_id s.view) [
  | none ↦ s
  | some p ↦ record s { view = insert peer_id (reset_age p) s.view }
]

-- The copy of this node's own descriptor.
unfoldable pub own_copy : PeerInfo → PeerInfo
own_copy p = record p { manifest_id = none; age = 0 }

-- The peers of a sample that are not this node.
unfoldable pub sent_ids : Option PeerInfo → List PeerInfo → List String
sent_ids none selected = ids_of selected
sent_ids (some me) selected = keep (λ id. not (id == me.peer_id)) (ids_of selected)

-- `if remote_peers: merge_view`
unfoldable pub merge_answer : ℕ → List PeerInfo → PeerSampler → PeerSampler
merge_answer shuffle_length [] s = s
merge_answer shuffle_length (p ∷ ps) s = merge_view s (p ∷ ps) (some shuffle_length)

-- What an answer does to the view; the peer of the shuffle stays.
unfoldable pub finish_shuffle :
    CyclonTopology → String → List PeerInfo → List PeerInfo → CyclonTopology
unfolding discard reset_peer sent_ids merge_answer
finish_shuffle t peer_id selected remote_peers =
    let ids = keep (λ id. not (id == peer_id)) (sent_ids t.my_peer_info selected) in
    record t {
      sampler =
          reset_peer peer_id (merge_answer t.shuffle_length remote_peers (discard ids t.sampler));
    }

-- The peers that a shuffle picks.
unfoldable pub selection : Sample → CyclonTopology → String → List PeerInfo
unfolding others
selection sample t peer_id =
    let candidates = others peer_id t.sampler.view in
    sample candidates (min t.shuffle_length (length candidates))

unfoldable pub perform_shuffle :
    Sample → Option SendShuffle → CyclonTopology → String → CyclonTopology
unfolding selection own_copy finish_shuffle
perform_shuffle sample none t peer_id = t
perform_shuffle sample (some send_shuffle) t peer_id =
    let picked = selection sample t peer_id in
    let selected = picked ++ (elim t.my_peer_info [ none ↦ [] | some me ↦ own_copy me ∷ [] ]) in
    elim (send_shuffle peer_id selected) [
      | none ↦ t
      | some remote_peers ↦ finish_shuffle t peer_id selected remote_peers
    ]

unfoldable pub compatible : SelectionContext → List PeerInfo
compatible c =
    keep
      (λ (p : PeerInfo).
        p.domain == c.my_domain
        && (p.data_schema_hash == c.my_data_schema_hash && not (p.peer_id == c.my_peer_id)))
      c.known_peers

unfoldable pub add_peers : List PeerInfo → PeerSampler → PeerSampler
add_peers [] s = s
add_peers (p ∷ ps) s = add_peers ps (add_peer s p)

-- `select_targets`: an empty view is filled from the context.
unfoldable pub select_targets :
    Sample → CyclonTopology → SelectionContext → ℕ → CyclonTopology × List String
unfolding compatible add_peers
select_targets sample t c count =
    let s : PeerSampler = (elim t.sampler.view [
      | [] ↦ add_peers (take t.sampler.view_size (compatible c)) t.sampler
      | e ∷ v ↦ t.sampler
    ]) in
    (record t { sampler = s }, ids_of (sample (values s.view) (min count (length s.view))))

unfoldable pub on_new_peer_discovered : CyclonTopology → PeerInfo → CyclonTopology
unfolding reset_age
on_new_peer_discovered t p = record t { sampler = add_peer t.sampler (reset_age p) }

unfoldable pub on_peer_disconnected : CyclonTopology → String → CyclonTopology
on_peer_disconnected t peer_id = record t { sampler = (remove_peer t.sampler peer_id).0 }

unfoldable pub discover_all : List PeerInfo → CyclonTopology → CyclonTopology
unfolding on_new_peer_discovered
discover_all [] t = t
discover_all (p ∷ ps) t = discover_all ps (on_new_peer_discovered t p)

unfoldable pub periodic_maintenance :
    Sample → Option SendShuffle → CyclonTopology → SelectionContext → CyclonTopology
unfolding compatible discover_all perform_shuffle
periodic_maintenance sample send_shuffle t c =
    let aged : CyclonTopology = record t { sampler = increment_all_ages t.sampler } in
    elim (get_oldest_peers aged.sampler 1) [
      | [] ↦ discover_all (take aged.sampler.view_size (compatible c)) aged
      | q ∷ qs ↦ perform_shuffle sample send_shuffle aged q.peer_id
    ]

unfoldable pub should_accept_connection : SelectionContext → PeerInfo → Bool
should_accept_connection c p =
    let legacy = p.domain == c.my_domain && p.data_schema_hash == c.my_data_schema_hash in
    elim c.my_manifest_id [
      | none ↦ legacy
      | some mine ↦ elim p.manifest_id [ none ↦ legacy | some theirs ↦ theirs == mine ]
    ]

-- The receiver's side: the new state and the peers to send back.
unfoldable pub handle_incoming_shuffle :
    Sample → CyclonTopology → String → List PeerInfo → CyclonTopology × List PeerInfo
unfolding selection discard reset_peer
handle_incoming_shuffle sample t from_peer_id remote_peers =
    let response = selection sample t from_peer_id in
    let s = discard (ids_of response) t.sampler in
    (
      record t {
        sampler = reset_peer from_peer_id (merge_view s remote_peers (some t.shuffle_length));
      },
      response,
    )
