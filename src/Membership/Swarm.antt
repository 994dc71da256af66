-- ===== src/Membership/Swarm.antt =====
-- Which peers become known: the gate of discovery against `is_compatible`, and the shuffle.
use quinkgl_framework.Common.{
  ℕ, String, ◌≡◌, refl, ap, subst, ◌∙◌, ◌≢◌, Bool, true, false, not, ◌&&◌, ◌||◌, Option, none, some,
  List, [], ◌∷◌, arith, if-elim, Option-elim, ◌==◌, nat_eq, string_eq, pair_eq,
}
use quinkgl_framework.Common.Dict.{
  Dict, lookup, insert, has, is_some, lookup-insert, lookup-insert_self,
}
use quinkgl_framework.Transport.Host.{Host}
use quinkgl_framework.Transport.State.{Community, PeerInfo, Effect}
use quinkgl_framework.Membership.{
  DiscoveryAnnounce, manifest_id_blocks_peer, is_compatible, announced_fingerprint, update_seen,
  refresh_peer, new_peer, register_peer, on_discovery_announce, on_heartbeat, SharedPeer,
  shuffled_peer, on_shuffle_response, on_checkpoint, Checkpoint,
}

-- The announcement passes the two gates.
abbrev pub passes_gates : Community → DiscoveryAnnounce → Bool
passes_gates s p =
    not (manifest_id_blocks_peer s.manifest_hash p.manifest_id)
    && (p.domain == s.domain && p.data_schema_hash == s.data_schema_hash)

-- The peer fits the swarm of the node.
abbrev pub Fits : Community → PeerInfo → Type 0
Fits s info = is_compatible info s.domain s.data_schema_hash s.manifest_hash ≡ true

-- All known peers fit.
abbrev pub IsSwarm : Community → Type 0
IsSwarm s = (id : String) (info : PeerInfo) → lookup id s.known_peers ≡ some info → Fits s info

new_peer-Fits :
    (s : Community) (mid : String) (p : DiscoveryAnnounce) (fingerprint : Option String) (now : ℕ)
    → passes_gates s p ≡ true
    → Fits s (new_peer mid p fingerprint now)
unfolding is_compatible manifest_id_blocks_peer new_peer
new_peer-Fits s mid p fingerprint now pass = ground (arith, pass)

insert-IsSwarm :
    (s : Community) (d : Dict String PeerInfo) (id : String) (info : PeerInfo)
    → ((i : String) (x : PeerInfo) → lookup i d ≡ some x → Fits s x)
    → Fits s info
    → (i : String) (x : PeerInfo) → lookup i (insert id info d) ≡ some x
    → Fits s x
insert-IsSwarm s d id info v fits i x h = elim (string_eq.dec i id) [
  | yes q ↦ subst (Fits s) (ground (arith, h, q, lookup-insert i id info d)) fits
  | no n ↦ v i x (ground (arith, h, n, lookup-insert i id info d))
]

update_seen-IsSwarm :
    (s : Community) (id : String) (now : ℕ) → IsSwarm s → IsSwarm (update_seen id now s)
unfolding update_seen is_compatible
update_seen-IsSwarm s id now v =
    Option-elim IsSwarm (lookup id s.known_peers) (λ _. v)
      (λ info h.
        insert-IsSwarm s s.known_peers id (record info { last_seen = now }) v (v id info h))

register_peer-IsSwarm :
    (s : Community) (mid : String) (p : DiscoveryAnnounce) (fingerprint : Option String) (now : ℕ)
    → passes_gates s p ≡ true
    → IsSwarm s
    → IsSwarm (register_peer s mid p fingerprint now).0
unfolding register_peer refresh_peer is_compatible
register_peer-IsSwarm s mid p fingerprint now pass v =
    Option-elim (λ (r : Community × List Effect). IsSwarm r.0) (lookup p.node_id s.known_peers)
      (λ _.
        insert-IsSwarm s s.known_peers p.node_id (new_peer mid p fingerprint now) v
          (new_peer-Fits s mid p fingerprint now pass))
      (λ info h. insert-IsSwarm s s.known_peers p.node_id _ v (v p.node_id info h))

announce-IsSwarm :
    (host : Host) (parses : String → Bool) (s : Community) (mid : String) (p : DiscoveryAnnounce)
    (now : ℕ)
    → IsSwarm s
    → IsSwarm (on_discovery_announce host parses s mid p now).0
unfolding on_discovery_announce
announce-IsSwarm host parses s mid p now v =
    let P : Community × List Effect → Type 0 = (λ r. IsSwarm r.0) in
    if-elim P (manifest_id_blocks_peer s.manifest_hash p.manifest_id) (λ _. v)
      (λ free.
        if-elim P (not (p.domain == s.domain) || not (p.data_schema_hash == s.data_schema_hash))
          (λ _. v)
          (λ same.
            register_peer-IsSwarm s mid p (announced_fingerprint host parses p) now
              (ground (arith, free, same)) v))

-- What a node hears from others.
pub data Message : Type 0 where
  announce : String → DiscoveryAnnounce → Message
  heartbeat : String → Message
  checkpoint : Checkpoint → Message

unfoldable pub hear : Host → (String → Bool) → Community → List (Message × ℕ) → Community
unfolding on_discovery_announce on_heartbeat on_checkpoint
hear host parses s [] = s
hear host parses s ((announce mid p, now) ∷ ms) =
    hear host parses (on_discovery_announce host parses s mid p now).0 ms
hear host parses s ((heartbeat id, now) ∷ ms) = hear host parses (on_heartbeat s id now) ms
hear host parses s ((checkpoint p, now) ∷ ms) = hear host parses (on_checkpoint s p now).0 ms

-- If all known peers are compatible with the node, they are so after any announcements,
-- heartbeats and checkpoints.
pub hear-IsSwarm :
    (host : Host) (parses : String → Bool) (s : Community) (ms : List (Message × ℕ))
    → IsSwarm s
    → IsSwarm (hear host parses s ms)
unfolding hear on_heartbeat on_checkpoint
hear-IsSwarm host parses s [] v = v
hear-IsSwarm host parses s ((announce mid p, now) ∷ ms) v =
    hear-IsSwarm host parses (on_discovery_announce host parses s mid p now).0 ms
      (announce-IsSwarm host parses s mid p now v)
hear-IsSwarm host parses s ((heartbeat id, now) ∷ ms) v =
    hear-IsSwarm host parses (update_seen id now s) ms (update_seen-IsSwarm s id now v)
hear-IsSwarm host parses s ((checkpoint p, now) ∷ ms) v =
    hear-IsSwarm host parses (update_seen p.sender_id now s) ms
      (update_seen-IsSwarm s p.sender_id now v)

register_peer-has :
    (s : Community) (mid : String) (p : DiscoveryAnnounce) (fingerprint : Option String) (now : ℕ)
    → has p.node_id (register_peer s mid p fingerprint now).0.known_peers ≡ true
unfolding register_peer refresh_peer
register_peer-has s mid p fingerprint now =
    Option-elim (λ (r : Community × List Effect). has p.node_id r.0.known_peers ≡ true)
      (lookup p.node_id s.known_peers)
      (λ _.
        ap is_some (lookup-insert_self p.node_id (new_peer mid p fingerprint now) s.known_peers))
      (λ info h. ap is_some (lookup-insert_self p.node_id _ s.known_peers))

-- Registers exactly.
pub on_discovery_announce-registers :
    (host : Host) (parses : String → Bool) (s : Community) (mid : String) (p : DiscoveryAnnounce)
    (now : ℕ)
    → has p.node_id (on_discovery_announce host parses s mid p now).0.known_peers
      ≡ (has p.node_id s.known_peers || passes_gates s p)
unfolding on_discovery_announce
on_discovery_announce-registers host parses s mid p now =
    let P : Community × List Effect → Type 0 =
      (λ r. has p.node_id r.0.known_peers ≡ (has p.node_id s.known_peers || passes_gates s p)) in
    if-elim P (manifest_id_blocks_peer s.manifest_hash p.manifest_id)
      (λ blocked. ground (arith, blocked))
      (λ free.
        if-elim P (not (p.domain == s.domain) || not (p.data_schema_hash == s.data_schema_hash))
          (λ differ. ground (arith, free, differ))
          (λ same.
            register_peer-has s mid p (announced_fingerprint host parses p) now
            ∙ ground (arith, free, same)))

-- An announcement from another domain with the manifest of this node, which has one, is ignored,
-- although is_compatible says that its peer is compatible.
pub same_manifest_ignored :
    (host : Host) (parses : String → Bool) (s : Community) (mid : String) (p : DiscoveryAnnounce)
    (fingerprint : Option String) (now : ℕ)
    → s.manifest_hash ≢ ""
    → p.manifest_id ≡ s.manifest_hash
    → p.domain ≢ s.domain
    → Fits s (new_peer mid p fingerprint now)
      × (on_discovery_announce host parses s mid p now ≡ (s, []))
unfolding on_discovery_announce manifest_id_blocks_peer is_compatible new_peer
same_manifest_ignored host parses s mid p fingerprint now real same other = (
  ground (arith, real, same),
  if-elim (λ (r : Community × List Effect). r ≡ (s, []))
      (manifest_id_blocks_peer s.manifest_hash p.manifest_id)
      (λ blocked. absurd (ground (arith, real, same, blocked)))
      (λ _.
        if-elim (λ (r : Community × List Effect). r ≡ (s, []))
          (not (p.domain == s.domain) || not (p.data_schema_hash == s.data_schema_hash)) (λ _. refl)
          (λ equal. absurd (ground (arith, other, equal)))),
)

-- A shuffle response that lists an unknown peer of another domain makes it known under the
-- address of the responder, although it is not compatible.
pub on_shuffle_response-unchecked :
    (s : Community) (mid : String) (p : SharedPeer) (now : ℕ)
    → lookup p.peer_id s.known_peers ≡ none
    → p.domain ≢ s.domain
    → let info = shuffled_peer mid p now in
      (lookup p.peer_id (on_shuffle_response s mid (p ∷ []) now).0.known_peers ≡ some info)
      × ((info.peer_mid ≡ mid)
          × (is_compatible info s.domain s.data_schema_hash s.manifest_hash ≡ false))
unfolding on_shuffle_response shuffled_peer is_compatible
on_shuffle_response-unchecked s mid p now unknown other = (
  if-elim
      (λ (r : Community × List Effect).
        lookup p.peer_id r.0.known_peers ≡ some (shuffled_peer mid p now))
      (has p.peer_id s.known_peers) (λ known. absurd (ground (arith, known, unknown)))
      (λ _. lookup-insert_self p.peer_id (shuffled_peer mid p now) s.known_peers),
  (refl, ground (arith, other)),
)
