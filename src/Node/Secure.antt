-- ===== src/Node/Secure.antt =====
-- Sessions in transport mode (crates/mesh/src/peer.rs), and what the functions of
-- crates/node/src/node.rs that pick the peers with such a session select.
use swarm_mesh.Prelude.{
  true, false, Option, none, some, some-injective, ◌≡◌, ◌↔◌, refl, sym, ap, ◌∙◌, Option-cases, inl,
  inr, nat_key, IsIn, IsIn-filter_map, Bool-cases,
}
use swarm_mesh.HashMap.{Map, get, IsMap}
use swarm_mesh.HashMap.Laws.{get-eq_some, IsIn-get}
use swarm_mesh.Mesh.Message.{NodeId}
use swarm_mesh.Mesh.Peer.{
  PeerInfo, PeerSession, NoiseState, expecting_initiator, handshaking, transport, transitioning,
  is_transport,
}
use swarm_mesh.Node.Send.{neighbor, neighbor_addresses}
use swarm_mesh.Node.Ping.{has_transport}
use swarm_mesh.Node.LinkState.{established, if_transport}

module _ {Hs Ts : Type 0} where
  -- There is a session of this id, and its handshake is finished.
  abbrev pub IsSecure : NodeId → Map NodeId (PeerSession Hs Ts) → Type 0
  IsSecure id sessions = (ts : Ts) × (get id sessions ≡ some (record { noise = transport ts }))

  is_transport-some :
      (s : PeerSession Hs Ts)
      → is_transport s.noise ≡ true
      → (ts : Ts) × (s ≡ record { noise = transport ts })
  is_transport-some s t = noise-some s.noise t
    where
      noise-some :
          (n : NoiseState Hs Ts)
          → is_transport n ≡ true
          → (ts : Ts) × (◌≡◌ {A = PeerSession Hs Ts}
              (record { noise = n })
              (record { noise = transport ts }))
      noise-some (transport ts) t = (ts, refl)
      noise-some expecting_initiator t = absurd cc
      noise-some (handshaking st) t = absurd cc
      noise-some transitioning t = absurd cc

  pub has_transport-IsSecure :
      (id : NodeId) (sessions : Map NodeId (PeerSession Hs Ts))
      → (has_transport id sessions ≡ true) ↔ IsSecure id sessions
  unfolding has_transport
  has_transport-IsSecure id sessions = (
    λ t. elim (Option-cases (get id sessions)) [
      | inl g ↦ let bad : false ≡ true = sym (rw (g, has_transport) refl) ∙ t in absurd cc
      | inr (s, g) ↦
          let (ts, e) = is_transport-some s (sym (rw (g, has_transport) refl) ∙ t) in
          (ts, g ∙ ap some e)
    ],
    λ (ts, g). rw (g, has_transport) refl,
  )

  -- The peers that an advertisement names.
  pub established-IsSecure :
      (id : NodeId) (sessions : Map NodeId (PeerSession Hs Ts))
      → IsMap sessions
      → IsIn id (established sessions) ↔ IsSecure id sessions
  unfolding established
  established-IsSecure id sessions d = (
    λ i.
        let ((k, s), j, q) = (IsIn-filter_map if_transport sessions id).0 i in
        elim (Bool-cases (is_transport s.noise)) [
          | inl t ↦
              let (ts, e) = is_transport-some s t in
              let same : k ≡ id = some-injective k id (sym (rw (t) refl) ∙ q) in
              (ts, ap (λ x. get x sessions) (sym same) ∙ IsIn-get k s sessions d j ∙ ap some e)
          | inr t ↦
              let bad : ◌≡◌ {A = Option NodeId} none (some id) = sym (rw (t) refl) ∙ q in absurd cc
        ],
    λ (ts, g).
        (IsIn-filter_map if_transport sessions id).1
          ((id, record { noise = transport ts }), get-eq_some id _ sessions g, refl),
  )

  -- A packet for all neighbours goes to each peer with such a session.
  pub neighbor_addresses-IsSecure :
      (id : NodeId) (info : PeerInfo) (peers : Map NodeId PeerInfo)
      (sessions : Map NodeId (PeerSession Hs Ts))
      → get id peers ≡ some info
      → IsSecure id sessions
      → IsIn (id, info.port, info.addr) (neighbor_addresses peers sessions)
  unfolding neighbor_addresses neighbor
  neighbor_addresses-IsSecure id info peers sessions g (ts, h) =
      (IsIn-filter_map (neighbor sessions) peers (id, info.port, info.addr)).1
        ((id, info), get-eq_some id info peers g, rw (h, neighbor) refl)
