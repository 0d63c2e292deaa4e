-- ===== src/Node/LinkState/Own.antt =====
-- `broadcast_lsa` and `cleanup_stale_lsas` of crates/node/src/node.rs, where no lock is held.
use swarm_mesh.Prelude.{
  ℕ, ◌+◌, ◌%◌, ◌^◌, ◌<◌, true, none, some, Bytes, ◌≡◌, refl, ap, ◌∙◌, map, nat_key, if◌then◌else◌,
  leb, arith, IsIn, ◌↔◌,
}
use swarm_mesh.HashMap.{get, retain, IsMap}
use swarm_mesh.HashMap.Laws.{get-insert_self, get-retain, kept}
use swarm_mesh.Mesh.Message.{link_state, LinkStatePayload}
use swarm_mesh.Mesh.Peer.{PeerInfo}
use swarm_mesh.Node.Secure.{IsSecure, established-IsSecure, neighbor_addresses-IsSecure}
use swarm_mesh.Node.LinkState.Echo.{pushed-IsIn}
use swarm_mesh.Node.World.{Env, unicast_socket, World, done, none_held, ◌>>=◌, set_link_state_db}
use swarm_mesh.Node.World.Runs.{if_free}
use swarm_mesh.Node.Send.{neighbor_addresses, get_neighbor_addresses, send_to_all_neighbors}
use swarm_mesh.Node.LinkState.{
  is_newer, is_fresh_lsa, established, get_established_neighbors, bump_sequence, generate_lsa,
  store_lsa, broadcast_lsa, cleanup_stale_lsas,
}
use swarm_mesh.Node.LinkState.Flood.{packet_to, push_all, send_each-run}

module _ {Hs Ts : Type 0} where
  -- The advertisement of the node for its present sessions.
  abbrev pub own_lsa : World Hs Ts → LinkStatePayload
  own_lsa w = record {
    node_id = w.id;
    sequence = (w.lsa_sequence + 1) % 2 ^ 64;
    timestamp = w.unix_now;
    neighbors = established w.session_db;
  }

  generate_lsa-own :
      (w : World Hs Ts) → w.held ≡ none_held → generate_lsa w ≡ done (own_lsa w) (bump_sequence w)
  unfolding generate_lsa get_established_neighbors ◌>>=◌
  generate_lsa-own = if_free (λ w. generate_lsa w ≡ done (own_lsa w) (bump_sequence w)) (λ w. refl)

  -- Where no lock is held, `cleanup_stale_lsas` returns. An advertisement stays if and only if its
  -- timestamp is at most 180 seconds old, those of the future among them.
  pub cleanup_stale_lsas_lem :
      (w : World Hs Ts) (id : ℕ) (p : LinkStatePayload)
      → w.held ≡ none_held
      → IsMap w.link_state_db
      → get id w.link_state_db ≡ some p
      → (v : World Hs Ts) × (cleanup_stale_lsas w ≡ done tt v)
        × (get id v.link_state_db ≡ (if leb w.unix_now (p.timestamp + 180) then some p else none))
  unfolding cleanup_stale_lsas ◌>>=◌
  cleanup_stale_lsas_lem w id p free d g =
      let v = set_link_state_db (retain (is_fresh_lsa w.unix_now) w.link_state_db) w in
      let found : get id v.link_state_db
          ≡ (if is_fresh_lsa w.unix_now (id, p) then some p else none) =
        get-retain _ id w.link_state_db d ∙ ap (kept (is_fresh_lsa w.unix_now) id) g in
      (
        v,
        if_free
            (λ w.
              cleanup_stale_lsas w
              ≡ done tt (set_link_state_db (retain (is_fresh_lsa w.unix_now) w.link_state_db) w))
            (λ w. refl) w free,
        found ∙ ground arith,
      )

-- An advertisement replaces the one before it, unless its sequence number has wrapped to 0.
is_newer-next :
    (p q : LinkStatePayload) (n : ℕ)
    → n + 1 < 2 ^ 64
    → q.sequence ≡ n
    → p.sequence ≡ (n + 1) % 2 ^ 64
    → is_newer p (some q) ≡ true
unfolding is_newer
is_newer-next p q n lt e f = ground arith

module _ {P F Hs Ts : Type 0} (env : Env P F Hs Ts) where
  -- The node after it has advertised itself: a packet for each neighbour.
  abbrev pub advertised : World Hs Ts → World Hs Ts
  advertised w = record (store_lsa w.id (own_lsa w) (bump_sequence w)) {
    sent =
        push_all
          (map (packet_to (link_state (own_lsa w))) (neighbor_addresses w.peer_db w.session_db))
          w.sent;
  }

  pub broadcast_lsa-advertised :
      (b : Bytes) (w : World Hs Ts)
      → w.held ≡ none_held
      → env.serialize (link_state (own_lsa w)) ≡ some b
      → broadcast_lsa env w ≡ done tt (advertised w)
  unfolding broadcast_lsa generate_lsa get_established_neighbors send_to_all_neighbors
      get_neighbor_addresses ◌>>=◌
  broadcast_lsa-advertised b =
      if_free
        (λ w.
          env.serialize (link_state (own_lsa w)) ≡ some b
          → broadcast_lsa env w ≡ done tt (advertised w))
        (λ w s. rw (
          send_each-run env _ s (neighbor_addresses w.peer_db w.session_db)
            (store_lsa w.id (own_lsa w) (bump_sequence (record w { held = none_held })))))

  -- Where no lock is held, advertisements can be serialized and the sequence number does not wrap,
  -- `broadcast_lsa` returns. The advertisement has the id of the node, the next sequence number and
  -- the present time, and it names exactly those with whom there is a session in transport mode. It
  -- is stored as the node's own entry, a packet with it goes to each peer with such a session, and
  -- whoever has an advertisement of the node with the sequence number before accepts it.
  pub broadcast_lsa_lem :
      (w : World Hs Ts) (b : Bytes) (q : LinkStatePayload)
      → w.held ≡ none_held
      → IsMap w.session_db
      → env.serialize (link_state (own_lsa w)) ≡ some b
      → w.lsa_sequence + 1 < 2 ^ 64
      → q.sequence ≡ w.lsa_sequence
      → (v : World Hs Ts) × (broadcast_lsa env w ≡ done tt v)
        × (lsa : LinkStatePayload) × (get w.id v.link_state_db ≡ some lsa)
        × (lsa.node_id ≡ w.id)
        × (lsa.sequence ≡ w.lsa_sequence + 1)
        × (lsa.timestamp ≡ w.unix_now)
        × ((id : ℕ) → IsIn id lsa.neighbors ↔ IsSecure id w.session_db)
        × ((id : ℕ) (info : PeerInfo)
            → get id w.peer_db ≡ some info
            → IsSecure id w.session_db
            → IsIn
                (record {
                  message = link_state lsa;
                  dest = record { ip = info.addr.ip; port = info.port };
                  socket = unicast_socket;
                })
                v.sent)
        × (is_newer lsa (some q) ≡ true)
  broadcast_lsa_lem w b q free d s lt e = (
    advertised w,
    broadcast_lsa-advertised b w free s,
    own_lsa w,
    get-insert_self w.id (own_lsa w) w.link_state_db,
    refl,
    omega (arith, lt),
    refl,
    λ id. established-IsSecure id w.session_db d,
    λ id info g h.
        pushed-IsIn (packet_to (link_state (own_lsa w))) (id, info.port, info.addr)
          (neighbor_addresses w.peer_db w.session_db) w.sent
          (neighbor_addresses-IsSecure id info w.peer_db w.session_db g h),
    is_newer-next (own_lsa w) q w.lsa_sequence lt e refl,
  )
