-- ===== src/Membership.antt =====
-- How `GossipLearningCommunity` of src/quinkgl/network/gossip_community.py comes to know its peers:
-- discovery, heartbeats, checkpoints and the shuffle of Cyclon. The callbacks are set, except that of
-- the shuffle, which is an argument; JSON and msgpack are arguments too.
pub mod Swarm
use quinkgl_framework.Common.{
  ℕ, ◌+◌, String, Bool, not, ◌&&◌, ◌||◌, Option, none, some, List, [], ◌∷◌, map, ltb, if◌then◌else◌,
  ◌==◌, nat_eq, string_eq, pair_eq, length, take, keep,
}
use quinkgl_framework.Common.Dict.{Dict, lookup, insert, has, values}
use quinkgl_framework.Transport.Words.{Bytes}
use quinkgl_framework.Transport.Host.{Host}
use quinkgl_framework.Transport.State.{
  Community, PeerInfo, Reason, Effect, dropped, discovered, send_heartbeat,
}

-- `DiscoveryAnnouncePayload`
pub record DiscoveryAnnounce : Type 0 where
  pub node_id : String
  pub domain : String
  pub data_schema_hash : String
  pub model_version : String
  pub fingerprint_json : String
  pub manifest_id : String

-- `_manifest_id_blocks_peer`
unfoldable pub manifest_id_blocks_peer : String → String → Bool
manifest_id_blocks_peer local_mid remote_mid =
    not (local_mid == "") && (not (remote_mid == "") && not (local_mid == remote_mid))

-- `PeerInfo.is_compatible`
unfoldable pub is_compatible : PeerInfo → String → String → String → Bool
is_compatible info domain data_schema_hash manifest_id =
    if not (manifest_id == "") && not (info.manifest_id == "")
    then info.manifest_id == manifest_id
    else info.domain == domain && info.data_schema_hash == data_schema_hash

abbrev pub max_fingerprint_bytes : ℕ
max_fingerprint_bytes = 8192

-- The fingerprint of an announcement, where `parses` tells whether `json.loads` and
-- `DataFingerprint.from_dict` accept it.
unfoldable pub announced_fingerprint : Host → (String → Bool) → DiscoveryAnnounce → Option String
announced_fingerprint host parses p =
    if p.fingerprint_json == ""
    then none
    else (if ltb max_fingerprint_bytes (length (host.utf8 p.fingerprint_json))
        then none
        else (if parses p.fingerprint_json then some p.fingerprint_json else none))

unfoldable pub update_seen : String → ℕ → Community → Community
update_seen node_id now s = elim (lookup node_id s.known_peers) [
  | none ↦ s
  | some info ↦ record s {
    known_peers = insert node_id (record info { last_seen = now }) s.known_peers;
  }
]

-- A known peer that announces itself again.
unfoldable pub refresh_peer :
    Community → PeerInfo → DiscoveryAnnounce → Option String → ℕ → Community
refresh_peer s info p fingerprint now = record s {
  known_peers =
      insert p.node_id
        (record info {
          last_seen = now;
          data_fingerprint = elim fingerprint [ none ↦ info.data_fingerprint | some f ↦ some f ];
        })
        s.known_peers;
}

unfoldable pub new_peer : String → DiscoveryAnnounce → Option String → ℕ → PeerInfo
new_peer peer_mid p fingerprint now = record {
  peer_mid = peer_mid;
  node_id = p.node_id;
  domain = p.domain;
  data_schema_hash = p.data_schema_hash;
  model_version = p.model_version;
  manifest_id = p.manifest_id;
  data_fingerprint = fingerprint;
  last_seen = now;
}

-- A peer whose announcement passed the checks.
unfoldable pub register_peer :
    Community → String → DiscoveryAnnounce → Option String → ℕ → Community × List Effect
unfolding refresh_peer new_peer
register_peer s peer_mid p fingerprint now = elim (lookup p.node_id s.known_peers) [
  | some info ↦ (refresh_peer s info p fingerprint now, [])
  | none ↦ (
    record s {
      known_peers = insert p.node_id (new_peer peer_mid p fingerprint now) s.known_peers;
      mid_to_node_id = insert peer_mid p.node_id s.mid_to_node_id;
    },
    discovered p.node_id ∷ [],
  )
]

unfoldable pub on_discovery_announce :
    Host → (String → Bool) → Community → String → DiscoveryAnnounce → ℕ → Community × List Effect
unfolding manifest_id_blocks_peer announced_fingerprint register_peer
on_discovery_announce host parses s peer_mid p now =
    if manifest_id_blocks_peer s.manifest_hash p.manifest_id
    then (s, dropped Reason.manifest_mismatch ∷ [])
    else (if not (p.domain == s.domain) || not (p.data_schema_hash == s.data_schema_hash)
        then (s, [])
        else register_peer s peer_mid p (announced_fingerprint host parses p) now)

-- The announcement of this node; its fingerprint is JSON text, or "".
unfoldable pub discovery_announce : Community → String → DiscoveryAnnounce
discovery_announce s fingerprint_json = record {
  node_id = s.node_id;
  domain = s.domain;
  data_schema_hash = s.data_schema_hash;
  model_version = s.model_version;
  fingerprint_json = fingerprint_json;
  manifest_id = s.manifest_hash;
}

-- `_announce_discovery`: one announcement for each peer of IPv8.
unfoldable pub announce_discovery :
    Community → String → List String → List (String × DiscoveryAnnounce)
unfolding discovery_announce
announce_discovery s fingerprint_json peers =
    map (λ mid. (mid, discovery_announce s fingerprint_json)) peers

-- `_send_heartbeat`
unfoldable pub send_heartbeats : Community → Community × List Effect
send_heartbeats s =
    let sequence = s.heartbeat_sequence + 1 in
    (
      record s { heartbeat_sequence = sequence },
      map (λ (info : PeerInfo). send_heartbeat info.peer_mid sequence) (values s.known_peers),
    )

unfoldable pub on_heartbeat : Community → String → ℕ → Community
unfolding update_seen
on_heartbeat s node_id now = update_seen node_id now s

-- A checkpoint: sender, round, loss, accuracy, model version.
pub record Checkpoint : Type 0 where
  pub sender_id : String
  pub round_number : ℕ
  pub loss : ℕ
  pub accuracy : ℕ
  pub model_version : String

-- The checkpoint goes on to the callback.
unfoldable pub on_checkpoint : Community → Checkpoint → ℕ → Community × Checkpoint
unfolding update_seen
on_checkpoint s p now = (update_seen p.sender_id now s, p)

unfoldable pub broadcast_checkpoint : Community → Checkpoint → List (String × Checkpoint)
broadcast_checkpoint s p = map (λ (info : PeerInfo). (info.peer_mid, p)) (values s.known_peers)

unfoldable pub get_compatible_peers : Community → List PeerInfo
get_compatible_peers s = values s.known_peers

unfoldable pub get_peer_count : Community → ℕ
get_peer_count s = length s.known_peers

-- A peer in a shuffle.
pub record SharedPeer : Type 0 where
  pub peer_id : String
  pub domain : String
  pub data_schema_hash : String
  pub model_version : String
  pub age : ℕ

unfoldable pub shared : PeerInfo → SharedPeer
shared info = record {
  peer_id = info.node_id;
  domain = info.domain;
  data_schema_hash = info.data_schema_hash;
  model_version = info.model_version;
  age = 0;
}

-- The answer to a shuffle request: what the callback returns, or eight known peers but the sender.
unfoldable pub on_shuffle_request :
    Community
    → String
    → List SharedPeer
    → Option (List SharedPeer → List SharedPeer)
    → List SharedPeer
unfolding shared
on_shuffle_request s sender_id remote_peers (some callback) = callback remote_peers
on_shuffle_request s sender_id remote_peers none = take 8 (
    map shared (keep (λ (info : PeerInfo). not (info.node_id == sender_id)) (values s.known_peers)))

-- The peer that a shuffle response makes known: it gets the address of the responder.
unfoldable pub shuffled_peer : String → SharedPeer → ℕ → PeerInfo
shuffled_peer peer_mid p now = record {
  peer_mid = peer_mid;
  node_id = p.peer_id;
  domain = p.domain;
  data_schema_hash = p.data_schema_hash;
  model_version = p.model_version;
  manifest_id = "";
  data_fingerprint = none;
  last_seen = now;
}

-- The loop of `on_shuffle_response`, with a callback for shuffles.
unfoldable pub on_shuffle_response :
    Community → String → List SharedPeer → ℕ → Community × List Effect
unfolding shuffled_peer
on_shuffle_response s peer_mid [] now = (s, [])
on_shuffle_response s peer_mid (p ∷ ps) now =
    let added : Community = record s {
      known_peers = insert p.peer_id (shuffled_peer peer_mid p now) s.known_peers;
    } in
    let (s', effects) = on_shuffle_response s peer_mid ps now in
    let (s'', effects') = on_shuffle_response added peer_mid ps now in
    if has p.peer_id s.known_peers then (s', effects) else (s'', discovered p.peer_id ∷ effects')

-- The request of `send_shuffle`, and the receiver's mid; the call returns no peers.
unfoldable pub send_shuffle : Community → String → Bytes → Option (String × Bytes)
send_shuffle s target peers_bytes = elim (lookup target s.known_peers) [
  | none ↦ none
  | some info ↦ some (info.peer_mid, peers_bytes)
]
