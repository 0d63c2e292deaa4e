-- ===== src/Node/Receive.antt =====
-- crates/node/src/node.rs: one round of the loop of `receive`.
pub mod Ignored
use swarm_mesh.Prelude.{
  ℕ, Option, none, some, Bytes, Result, ok, err, nat_eqb, if◌then◌else◌, nat_key, take,
}
use swarm_mesh.HashMap.{contains_key, modify_or_insert}
use swarm_mesh.Mesh.Message.{
  Message, hello, handshake, ping, pong, link_state, encrypted_data, HelloPayload, Failure,
}
use swarm_mesh.Mesh.Peer.{SocketAddr, new_peer, update_peer}
use swarm_mesh.Node.World.{
  Socket, multicast_socket, unicast_socket, Env, peer_lock, session_lock, M, pure, gets, modify,
  with_lock, ◌>>=◌, ◌>>◌, set_peer_db,
}
use swarm_mesh.Node.Send.{send_unicast_message}
use swarm_mesh.Node.LinkState.{handle_lsa}
use swarm_mesh.Node.Ping.{handle_ping, handle_pong}
use swarm_mesh.Node.Handshake.{handle_hello, handle_handshake}

-- What `recv_from` returns, on either socket.
pub record Datagram : Type 0 where
  pub socket : Socket
  pub bytes : Bytes
  pub src : SocketAddr

-- Only Hello is taken from the multicast socket.
abbrev pub accept : Socket → Option Message → Option Message
accept multicast_socket (some (hello p)) = some (hello p)
accept multicast_socket _ = none
accept unicast_socket msg = msg

module _ {P F Hs Ts : Type 0} (env : Env P F Hs Ts) where
  -- A datagram fills at most the buffer of 1500 bytes.
  unfoldable pub decode : Datagram → Option Message
  decode d = accept d.socket (env.deserialize (take 1500 d.bytes))

  -- Send what a handler returned. An error is logged.
  unfoldable pub reply :
      {E : Type 0} → Result E (Option Message) → ℕ → SocketAddr → M Hs Ts (Unit {0})
  reply (ok (some msg)) port src = send_unicast_message env msg port src >> pure tt
  reply (ok none) port src = pure tt
  reply (err e) port src = pure tt

  unfoldable pub reply_pong :
      Result Failure (Option (ℕ × Message)) → SocketAddr → M Hs Ts (Unit {0})
  reply_pong (ok (some (port, msg))) src = send_unicast_message env msg port src >> pure tt
  reply_pong (ok none) src = pure tt
  reply_pong (err e) src = pure tt

  -- A Hello of another node: a peer with a session is noted, any other is greeted.
  unfoldable pub on_hello : HelloPayload → SocketAddr → M Hs Ts (Unit {0})
  on_hello p src = do
    known ← with_lock session_lock (gets (λ w. contains_key p.node_id w.session_db))
    if known
        then with_lock peer_lock (
            modify (λ w.
              set_peer_db
                (modify_or_insert p.node_id (update_peer w.now src p.unicast_port)
                  (new_peer w.now src p.unicast_port) w.peer_db)
                w))
        else (do r ← handle_hello env p src; reply r p.unicast_port src)

  abbrev pub unless_own : ℕ → M Hs Ts (Unit {0}) → M Hs Ts (Unit {0})
  unless_own id m w = if nat_eqb id w.id then pure tt w else m w

  unfoldable pub dispatch : Message → SocketAddr → M Hs Ts (Unit {0})
  dispatch (ping p) src = unless_own p.node_id do r ← handle_ping p; reply_pong r src
  dispatch (pong p) src = unless_own p.node_id (handle_pong env p >> pure tt)
  dispatch (hello p) src = unless_own p.node_id (on_hello p src)
  dispatch (handshake p) src =
      unless_own p.node_id do r ← handle_handshake env p src; reply r p.unicast_port src
  dispatch (link_state p) src = unless_own p.node_id (handle_lsa env p src >> pure tt)
  dispatch (encrypted_data bytes) src = pure tt

  unfoldable pub receive : Datagram → M Hs Ts (Unit {0})
  receive d = elim (decode d) [ none ↦ pure tt | some msg ↦ dispatch msg d.src ]
