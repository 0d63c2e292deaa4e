-- ===== src/Node/Receive/Ignored.antt =====
-- Datagrams that `receive` of crates/node/src/node.rs ignores.
use swarm_mesh.Prelude.{
  ℕ, true, Option, none, some, ◌≡◌, ◌≢◌, refl, sym, ap, ◌∙◌, ◌⊎◌, inl, inr, nat_eqb, nat_eqb_iff,
  Option-cases, take, arith,
}
use swarm_mesh.Mesh.Message.{
  NodeId, Message, hello, handshake, ping, pong, link_state, encrypted_data, HelloPayload,
}
use swarm_mesh.Mesh.Peer.{SocketAddr}
use swarm_mesh.Node.World.{Env, Socket, multicast_socket, unicast_socket, World, done, ◌>>=◌}
use swarm_mesh.Node.Receive.{Datagram, accept, decode, dispatch, receive}

-- The node that a message names as its sender, or as the origin of an advertisement.
abbrev pub sender : Message → Option NodeId
sender (hello p) = some p.node_id
sender (handshake p) = some p.node_id
sender (ping p) = some p.node_id
sender (pong p) = some p.node_id
sender (link_state p) = some p.node_id
sender (encrypted_data bytes) = none

accept-hello :
    (m : Option Message) (msg : Message)
    → accept multicast_socket m ≡ some msg
    → (p : HelloPayload) × (m ≡ some (hello p)) × (msg ≡ hello p)
accept-hello (some (hello p)) msg e = (p, refl, cc)
accept-hello (some (handshake p)) msg e = absurd (ground arith)
accept-hello (some (ping p)) msg e = absurd (ground arith)
accept-hello (some (pong p)) msg e = absurd (ground arith)
accept-hello (some (link_state p)) msg e = absurd (ground arith)
accept-hello (some (encrypted_data p)) msg e = absurd (ground arith)
accept-hello none msg e = absurd (ground arith)

accept-some :
    (s : Socket) (m : Option Message) (msg : Message)
    → accept s m ≡ some msg
    → (m ≡ some msg) × (s ≡ multicast_socket → (p : HelloPayload) × (msg ≡ hello p))
accept-some multicast_socket m msg e =
    let (p, e₁, e₂) = accept-hello m msg e in (e₁ ∙ ap some (sym e₂), λ _. (p, e₂))
accept-some unicast_socket m msg e = (e, λ q. absurd (ground arith))

is_own : (id own : ℕ) → (some id ≡ none) ⊎ (some id ≡ some own) → nat_eqb id own ≡ true
is_own id own (inl e) = absurd (ground arith)
is_own id own (inr e) = (nat_eqb_iff id own).1 cc

module _ {P F Hs Ts : Type 0} (env : Env P F Hs Ts) where
  dispatch-own :
      (msg : Message) (src : SocketAddr) (w : World Hs Ts)
      → (sender msg ≡ none) ⊎ (sender msg ≡ some w.id)
      → dispatch env msg src w ≡ done tt w
  unfolding dispatch ◌>>=◌
  dispatch-own (encrypted_data bytes) src w s = refl
  dispatch-own (hello p) src w s = rw (is_own p.node_id w.id s) refl
  dispatch-own (handshake p) src w s = rw (is_own p.node_id w.id s) refl
  dispatch-own (ping p) src w s = rw (is_own p.node_id w.id s) refl
  dispatch-own (pong p) src w s = rw (is_own p.node_id w.id s) refl
  dispatch-own (link_state p) src w s = rw (is_own p.node_id w.id s) refl

  -- A datagram that is no message, encrypted data, a message of this node itself, and anything but
  -- a Hello on the multicast socket: `receive` returns, and the node does not change. This holds
  -- whatever locks are held.
  pub receive-ignored :
      (d : Datagram) (w : World Hs Ts)
      → ((msg : Message)
          → env.deserialize (take 1500 d.bytes) ≡ some msg
          → (sender msg ≡ none)
            ⊎ (sender msg ≡ some w.id)
            ⊎ ((d.socket ≡ multicast_socket) × ((p : HelloPayload) → msg ≢ hello p)))
      → receive env d w ≡ done tt w
  unfolding receive decode ◌>>=◌
  receive-ignored d w h = elim (Option-cases (decode env d)) [
    | inl e ↦ rw (e, receive) refl
    | inr (msg, e) ↦
        let (found, is_hello) = accept-some d.socket _ msg e in
        rw (e, receive)
          (elim (h msg found) [
            | inl none_named ↦ dispatch-own msg d.src w (inl none_named)
            | inr (inl own) ↦ dispatch-own msg d.src w (inr own)
            | inr (inr (multicast, no_hello)) ↦
                let (p, q) = is_hello multicast in absurd (no_hello p q)
          ])
  ]
