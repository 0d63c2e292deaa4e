-- ===== src/Node/Typed/Sends.antt =====
-- The types of what crates/node/src/node.rs sends, and of what its handlers share.
use swarm_mesh.Prelude.{
  ℕ, ◌^◌, ◌<◌, List, [], ◌∷◌, none, some, ◌≡◌, refl, sym, ◌∙◌, subst, some-injective, All,
  Option-cases, Bool-cases, inl, inr, nat_key, pair_key, arith,
}
use swarm_mesh.HashMap.{Map, get}
use swarm_mesh.Mesh.Message.{NodeId, Message, link_state, LinkStatePayload}
use swarm_mesh.Mesh.Peer.{SocketAddr, PeerInfo, PeerSession, is_transport}
use swarm_mesh.Node.World.{
  Env, Socket, unicast_socket, multicast_socket, World, M, Lock, peer_lock, session_lock, ping_lock,
  lsa_sequence_lock, link_state_lock, with_lock, gets, ◌>>=◌,
}
use swarm_mesh.Node.World.Keeps.{
  Any, Keeps, Keeps-pure, Keeps-gets, Keeps-bind, Keeps-then, Keeps-modify, Keeps-if,
  Keeps-with_lock, Keeps-with_session_lock,
}
use swarm_mesh.Node.Send.{
  neighbor, neighbor_addresses, get_neighbor_addresses, send_message, send_unicast_message,
  send_multicast_message, send_each, send_to_all_neighbors,
}
use swarm_mesh.Node.LinkState.{
  if_transport, established, bump_sequence, get_established_neighbors, generate_lsa, broadcast_lsa,
  is_fresh_lsa, accept_lsa, is_newer, flood_each, flood_lsa_except_sender, handle_lsa,
  cleanup_stale_lsas,
}
use swarm_mesh.Node.Typed.{
  Ids, IsOther, IsPeer, IsSession, IsLsa, IsTypedLsa, IsTypedMessage, IsTyped,
}
use swarm_mesh.Node.Typed.Tables.{IsTable-insert, IsTable-retain, All-filter_map}

module _ {Hs Ts : Type 0} (ids : Ids) where
  -- A run keeps the types, and what it returns satisfies `R`.
  abbrev pub KeepsTyped : {A : Type 0} → (A → Type 0) → M Hs Ts A → Type 0
  KeepsTyped R m = Keeps (IsTyped ids) (IsTyped ids) R m

module _ {Hs Ts A : Type 0} (ids : Ids) {R : A → Type 0} where
  pub typed_lock :
      (l : Lock) (m : M Hs Ts A) → KeepsTyped ids R m → KeepsTyped ids R (with_lock l m)
  typed_lock peer_lock m k = Keeps-with_lock peer_lock m (λ h. refl) (λ w h e q. q) (λ w q. q) k
  typed_lock session_lock m k =
      Keeps-with_session_lock (IsTyped ids) m (λ w q. q) (λ w q e. q) (λ w h q. q) k
  typed_lock ping_lock m k = Keeps-with_lock ping_lock m (λ h. refl) (λ w h e q. q) (λ w q. q) k
  typed_lock link_state_lock m k =
      Keeps-with_lock link_state_lock m (λ h. refl) (λ w h e q. q) (λ w q. q) k
  typed_lock lsa_sequence_lock m k =
      Keeps-with_lock lsa_sequence_lock m (λ h. refl) (λ w h e q. q) (λ w q. q) k

module _ {Hs Ts A : Type 0} (ids : Ids) where
  -- Any value may be read.
  pub typed_gets : (f : World Hs Ts → A) → KeepsTyped ids Any (gets f)
  typed_gets f = Keeps-gets f (λ w q. tt)

module _ {P F Hs Ts : Type 0} (env : Env P F Hs Ts) (ids : Ids) where
  typed_send_message :
      (msg : Message) (addr : SocketAddr) (socket : Socket)
      → IsTypedMessage ids msg
      → KeepsTyped ids Any (send_message env msg addr socket)
  unfolding send_message ◌>>=◌
  typed_send_message msg addr socket t = record {
    at = λ w (a, b, c, d, e, f, g). elim (Option-cases (env.serialize msg)) [
      | inl z ↦ rw (z, send_message) (tt, (a, b, c, d, e, f, g), refl)
      | inr (bytes, z) ↦ rw (z, send_message) (tt, (a, b, c, d, e, f, (t, g)), refl)
    ];
  }

  pub typed_send_unicast :
      (msg : Message) (port : ℕ) (addr : SocketAddr)
      → IsTypedMessage ids msg
      → KeepsTyped ids Any (send_unicast_message env msg port addr)
  unfolding send_unicast_message
  typed_send_unicast msg port addr t = typed_send_message msg _ unicast_socket t

  pub typed_send_multicast :
      (msg : Message) (addr : SocketAddr)
      → IsTypedMessage ids msg
      → KeepsTyped ids Any (send_multicast_message env msg addr)
  unfolding send_multicast_message
  typed_send_multicast msg addr t = typed_send_message msg addr multicast_socket t

  typed_send_each :
      (msg : Message) (xs : List (NodeId × ℕ × SocketAddr))
      → IsTypedMessage ids msg
      → KeepsTyped ids Any (send_each env msg xs)
  unfolding send_each
  typed_send_each msg [] t = Keeps-pure tt tt
  typed_send_each msg ((id, port, addr) ∷ xs) t =
      Keeps-then _ _ (typed_send_unicast msg port addr t) (typed_send_each msg xs t)

-- The neighbours are other nodes.
abbrev pub AreOthers : Ids → List (NodeId × ℕ × SocketAddr) → Type 0
AreOthers ids xs = All (λ x. IsOther ids x.0) xs

module _ {Hs Ts : Type 0} (ids : Ids) where
  neighbor-IsOther :
      (sessions : Map NodeId (PeerSession Hs Ts)) (e : NodeId × PeerInfo)
      (n : NodeId × ℕ × SocketAddr)
      → IsPeer ids e
      → neighbor sessions e ≡ some n
      → IsOther ids n.0
  unfolding neighbor
  neighbor-IsOther sessions (id, info) n p e = elim (Option-cases (get id sessions)) [
    | inl g ↦ let bad : none ≡ some n = sym (rw (g, neighbor) refl) ∙ e in absurd cc
    | inr (s, g) ↦ elim (Bool-cases (is_transport s.noise)) [
      | inl b ↦
          let same : (id, info.port, info.addr) ≡ n =
            some-injective _ n (sym (rw (g, neighbor, b) refl) ∙ e) in
          subst (λ x. IsOther ids x.0) same p.0
      | inr b ↦ let bad : none ≡ some n = sym (rw (g, neighbor, b) refl) ∙ e in absurd cc
    ]
  ]

  pub typed_neighbors : KeepsTyped {Hs = Hs} {Ts = Ts} ids (AreOthers ids) get_neighbor_addresses
  unfolding get_neighbor_addresses neighbor_addresses
  typed_neighbors = typed_lock ids peer_lock _ (
      typed_lock ids session_lock _ (
        Keeps-gets _ λ w q.
          All-filter_map (IsPeer ids) _ (neighbor w.session_db) w.peer_db
            (neighbor-IsOther w.session_db) q.2.1))

  if_transport-IsKnown :
      (e : NodeId × PeerSession Hs Ts) (id : NodeId)
      → IsSession ids e
      → if_transport e ≡ some id
      → ids.IsKnown id
  if_transport-IsKnown (n, s) id p e = elim (Bool-cases (is_transport s.noise)) [
    | inl b ↦ subst ids.IsKnown (some-injective n id (sym (rw b refl) ∙ e)) p.0
    | inr b ↦ let bad : none ≡ some id = sym (rw b refl) ∙ e in absurd cc
  ]

  typed_generate :
      KeepsTyped {Hs = Hs} {Ts = Ts} ids
        (λ lsa. (lsa.node_id ≡ ids.own) × IsTypedLsa ids lsa)
        generate_lsa
  unfolding generate_lsa get_established_neighbors established
  typed_generate =
      Keeps-bind {R = λ n. n < 2 ^ 64} _ _
        (typed_lock ids lsa_sequence_lock _ (
          Keeps-then _ _
            (Keeps-modify bump_sequence
              λ w (a, b, c, d, e, f, g). ((a, (omega arith, b.1), c, d, e, f, g), refl))
            (Keeps-gets _ (λ w q. q.1.0))))
        λ sequence s.
          Keeps-bind {R = λ ns. All ids.IsKnown ns} _ _
            (typed_lock ids session_lock _ (
              Keeps-gets _ λ w q.
                All-filter_map (IsSession ids) ids.IsKnown if_transport w.session_db
                  if_transport-IsKnown q.3.1))
            λ neighbors ns.
              Keeps-bind {R = λ id. (id ≡ ids.own) × ids.IsSource id} _ _
                (Keeps-gets _ (λ w q. (q.0.0, subst ids.IsSource (sym q.0.0) ids.own_source)))
                λ id i.
                  Keeps-bind _ _ (typed_gets ids _) λ timestamp _. Keeps-pure _ (i.0, (i.1, s, ns))

  typed_accept :
      (p : LinkStatePayload)
      → IsTypedLsa ids p
      → KeepsTyped {Hs = Hs} {Ts = Ts} ids Any (accept_lsa p)
  unfolding accept_lsa ◌>>=◌
  typed_accept p t = record {
    at = λ w (a, b, c, d, e, f, g). elim (Bool-cases (is_newer p (get p.node_id w.link_state_db))) [
      | inl z ↦ rw z (
        tt,
        (a, b, c, d, e, IsTable-insert (IsLsa ids) p.node_id p w.link_state_db (refl, t) f, g),
        refl,
      )
      | inr z ↦ rw z (tt, (a, b, c, d, e, f, g), refl)
    ];
  }

  pub typed_cleanup : KeepsTyped {Hs = Hs} {Ts = Ts} ids Any cleanup_stale_lsas
  unfolding cleanup_stale_lsas
  typed_cleanup = typed_lock ids link_state_lock _ (
      Keeps-modify _ λ w (a, b, c, d, e, f, g). (
        (a, b, c, d, e, IsTable-retain (IsLsa ids) (is_fresh_lsa w.unix_now) w.link_state_db f, g),
        refl,
      ))

module _ {P F Hs Ts : Type 0} (env : Env P F Hs Ts) (ids : Ids) where
  pub typed_broadcast : KeepsTyped ids Any (broadcast_lsa env)
  unfolding broadcast_lsa send_to_all_neighbors
  typed_broadcast = Keeps-bind _ _ (typed_generate ids) λ lsa t.
      Keeps-bind {R = λ id. id ≡ ids.own} _ _ (Keeps-gets _ (λ w q. q.0.0)) λ id i.
        Keeps-then {R = Any} _ _
          (typed_lock ids link_state_lock _ (
            Keeps-modify _ λ w (a, b, c, d, e, f, g). (
              (
                a,
                b,
                c,
                d,
                e,
                IsTable-insert (IsLsa ids) id lsa w.link_state_db (t.0 ∙ sym i, t.1) f,
                g,
              ),
              refl,
            )))
          (Keeps-bind _ _ (typed_neighbors ids)
            λ xs _. typed_send_each env ids (link_state lsa) xs t.1)

  typed_flood_each :
      (msg : Message) (sender : SocketAddr) (xs : List (NodeId × ℕ × SocketAddr))
      → IsTypedMessage ids msg
      → KeepsTyped ids Any (flood_each env msg sender xs)
  unfolding flood_each
  typed_flood_each msg sender [] t = Keeps-pure tt tt
  typed_flood_each msg sender ((id, port, addr) ∷ xs) t =
      Keeps-then {R = Any} _ _
        (Keeps-if _ _ _ (Keeps-pure tt tt)
          (Keeps-bind _ _ (typed_send_unicast env ids msg port addr t) (λ _ _. Keeps-pure tt tt)))
        (typed_flood_each msg sender xs t)

  pub typed_handle_lsa :
      (p : LinkStatePayload) (src : SocketAddr)
      → IsTypedLsa ids p
      → KeepsTyped ids Any (handle_lsa env p src)
  unfolding handle_lsa flood_lsa_except_sender
  typed_handle_lsa p src t =
      Keeps-bind _ _ (typed_lock ids link_state_lock _ (typed_accept ids p t)) λ b _.
        Keeps-then {R = Any} _ _
          (Keeps-if b _ _
            (Keeps-bind _ _ (typed_neighbors ids) λ xs _. typed_flood_each (link_state p) src xs t)
            (Keeps-pure tt tt))
          (Keeps-pure _ tt)
