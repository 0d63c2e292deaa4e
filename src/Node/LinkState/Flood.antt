-- ===== src/Node/LinkState/Flood.antt =====
-- Which packets the flooding of crates/node/src/node.rs sends.
use swarm_mesh.Prelude.{
  ℕ, Bool, true, false, List, [], ◌∷◌, none, some, Bytes, ok, ◌≡◌, refl, ap, ◌∙◌, map, filter_by,
  not, ◌==◌, if◌then◌else◌, Option-cases, Bool-cases, inl, inr, nat_key, arith,
}
use swarm_mesh.HashMap.{get}
use swarm_mesh.Mesh.Message.{NodeId, Message, link_state, LinkStatePayload}
use swarm_mesh.Mesh.Peer.{SocketAddr, addr_key}
use swarm_mesh.Node.World.Runs.{is_held-none_held, with_lock-done, bind-done}
use swarm_mesh.Node.World.{
  link_state_lock, with_lock, Env, Packet, unicast_socket, World, none_held, done, ◌>>=◌,
}
use swarm_mesh.Node.Send.{
  neighbor_addresses, get_neighbor_addresses, send_message, send_unicast_message, after_send,
  send_each,
}
use swarm_mesh.Node.LinkState.{
  store_lsa, is_newer, accept_lsa, flood_each, flood_lsa_except_sender, handle_lsa,
}

-- The packet for a neighbour.
abbrev pub packet_to : Message → NodeId × ℕ × SocketAddr → Packet
packet_to msg (id, port, addr) = record {
  message = msg;
  dest = record addr { port = port };
  socket = unicast_socket;
}

-- Sent in order; the last one stands first.
abbrev pub push_all : List Packet → List Packet → List Packet
push_all [] sent = sent
push_all (p ∷ ps) sent = push_all ps (p ∷ sent)

-- The neighbours other than the sender, by the address that is known of them.
abbrev pub others : SocketAddr → List (NodeId × ℕ × SocketAddr) → List (NodeId × ℕ × SocketAddr)
others src = filter_by (λ n. not (n.2 == src))

module _ {Hs Ts : Type 0} where
  pub get_neighbor_addresses-run :
      (w : World Hs Ts)
      → w.held ≡ none_held
      → get_neighbor_addresses w ≡ done (neighbor_addresses w.peer_db w.session_db) w
  unfolding get_neighbor_addresses ◌>>=◌
  get_neighbor_addresses-run w free = rw (ap (λ h. h.peer) free, ap (λ h. h.session) free)

module _ {P F Hs Ts : Type 0} (env : Env P F Hs Ts) (msg : Message) {b : Bytes}
    (serialized : env.serialize msg ≡ some b) where
  send_unicast_message-run :
      (port : ℕ) (addr : SocketAddr) (w : World Hs Ts)
      → let p = packet_to msg (w.id, port, addr) in
        send_unicast_message env msg port addr w
        ≡ done (after_send (env.delivery w.sent p)) (record w { sent = p ∷ w.sent })
  unfolding send_unicast_message send_message
  send_unicast_message-run port addr w = rw (serialized, send_message)

  pub send_each-run :
      (xs : List (NodeId × ℕ × SocketAddr)) (w : World Hs Ts)
      → send_each env msg xs w
        ≡ done tt (record w { sent = push_all (map (packet_to msg) xs) w.sent })
  unfolding send_each ◌>>=◌
  send_each-run [] w = refl
  send_each-run ((id, port, addr) ∷ xs) w =
      rw (send_unicast_message-run port addr w) (send_each-run xs _)

  pub flood_each-run :
      (src : SocketAddr) (xs : List (NodeId × ℕ × SocketAddr)) (w : World Hs Ts)
      → flood_each env msg src xs w
        ≡ done tt (record w { sent = push_all (map (packet_to msg) (others src xs)) w.sent })
  unfolding flood_each ◌>>=◌
  flood_each-run src [] w = refl
  flood_each-run src ((id, port, addr) ∷ xs) w = elim (Bool-cases (addr == src)) [
    | inl e ↦ rw e (flood_each-run src xs w)
    | inr e ↦ rw (e, send_unicast_message-run port addr w) (flood_each-run src xs _)
  ]

module _ {P F Hs Ts : Type 0} (env : Env P F Hs Ts) where
  flood_each-unserialized :
      (msg : Message) (src : SocketAddr) (xs : List (NodeId × ℕ × SocketAddr)) (w : World Hs Ts)
      → env.serialize msg ≡ none
      → flood_each env msg src xs w ≡ done tt w
  unfolding flood_each send_unicast_message send_message ◌>>=◌
  flood_each-unserialized msg src [] w e = refl
  flood_each-unserialized msg src ((id, port, addr) ∷ xs) w e = elim (Bool-cases (addr == src)) [
    | inl q ↦ rw q (flood_each-unserialized msg src xs w e)
    | inr q ↦ rw (q, e, send_message) (flood_each-unserialized msg src xs w e)
  ]

  -- The packets that flooding sends, the last one first.
  abbrev pub flooded : Message → SocketAddr → World Hs Ts → List Packet
  flooded msg src w = elim (env.serialize msg) [
    | none ↦ w.sent
    | some b ↦
        push_all (map (packet_to msg) (others src (neighbor_addresses w.peer_db w.session_db)))
          w.sent
  ]

  flood_each-flooded :
      (msg : Message) (src : SocketAddr) (w : World Hs Ts)
      → flood_each env msg src (neighbor_addresses w.peer_db w.session_db) w
        ≡ done tt (record w { sent = flooded msg src w })
  flood_each-flooded msg src w = elim (Option-cases (env.serialize msg)) [
    | inl e ↦ rw (e, flooded) (flood_each-unserialized msg src _ w e)
    | inr (b, e) ↦ rw (e, flooded) (flood_each-run env msg e src _ w)
  ]

  flood_lsa_except_sender-flooded :
      (p : LinkStatePayload) (src : SocketAddr) (w : World Hs Ts)
      → w.held ≡ none_held
      → flood_lsa_except_sender env p src w
        ≡ done tt (record w { sent = flooded (link_state p) src w })
  unfolding flood_lsa_except_sender
  flood_lsa_except_sender-flooded p src w free =
      bind-done get_neighbor_addresses _ w w _ (get_neighbor_addresses-run w free)
      ∙ flood_each-flooded (link_state p) src w

  accept_lsa-by :
      (b : Bool) (p : LinkStatePayload) (w : World Hs Ts)
      → is_newer p (get p.node_id w.link_state_db) ≡ b
      → accept_lsa p w ≡ (if b then done true (store_lsa p.node_id p w) else done false w)
  unfolding accept_lsa
  accept_lsa-by b p w e = rw e (ground arith)

  pub handle_lsa-newer :
      (p : LinkStatePayload) (src : SocketAddr) (w : World Hs Ts)
      → w.held ≡ none_held
      → is_newer p (get p.node_id w.link_state_db) ≡ true
      → handle_lsa env p src w
        ≡ done (ok tt) (record (store_lsa p.node_id p w) { sent = flooded (link_state p) src w })
  unfolding handle_lsa ◌>>=◌
  handle_lsa-newer p src w free n =
      bind-done (with_lock link_state_lock (accept_lsa p)) _ w (store_lsa p.node_id p w) true (
        with_lock-done link_state_lock (accept_lsa p) w _ true
          (is_held-none_held link_state_lock w.held free) (accept_lsa-by true p _ n))
      ∙ bind-done (flood_lsa_except_sender env p src) _ (store_lsa p.node_id p w) _ tt
          (flood_lsa_except_sender-flooded p src (store_lsa p.node_id p w) free)

  pub handle_lsa-older :
      (p : LinkStatePayload) (src : SocketAddr) (w : World Hs Ts)
      → w.held ≡ none_held
      → is_newer p (get p.node_id w.link_state_db) ≡ false
      → handle_lsa env p src w ≡ done (ok tt) w
  unfolding handle_lsa ◌>>=◌
  handle_lsa-older p src w free n =
      bind-done (with_lock link_state_lock (accept_lsa p)) _ w w false (
        with_lock-done link_state_lock (accept_lsa p) w _ false
          (is_held-none_held link_state_lock w.held free) (accept_lsa-by false p _ n))
