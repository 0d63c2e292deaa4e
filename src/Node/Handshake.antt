-- ===== src/Node/Handshake.antt =====
-- crates/node/src/node.rs: `handle_hello` and `handle_handshake`.
pub mod Deadlock
pub mod Roles
pub mod Responds
pub mod Wedge
pub mod Exchange
use swarm_mesh.Prelude.{
  ℕ, Bool, List, [], ◌∷◌, Option, none, some, Bytes, Result, ok, err, ltb, if◌then◌else◌, nat_key,
}
use swarm_mesh.HashMap.{get, contains_key, insert}
use swarm_mesh.Mesh.Message.{
  NodeId, Message, handshake, HelloPayload, HandshakePayload, Failure, snow_error,
  unsolicited_handshake, unable_to_read, unable_to_write, error_converting, unexpected_noise_state,
  MeshError, other,
}
use swarm_mesh.Mesh.Peer.{
  SocketAddr, NoiseState, expecting_initiator, handshaking, transport, transitioning, PeerSession,
}
use swarm_mesh.Noise.{Snow, start_handshake, build_responder}
use swarm_mesh.Node.World.{
  Env, Lock, session_lock, World, Outcome, panicked, M, pure, gets, modify, panic, with_lock, ◌>>=◌,
  ◌>>◌, set_session_db,
}
use swarm_mesh.Node.LinkState.{broadcast_lsa}

module _ {Hs Ts : Type 0} where
  -- `peer_session.noise = state`, and the insertion of a new session.
  abbrev pub set_noise : NodeId → NoiseState Hs Ts → World Hs Ts → World Hs Ts
  set_noise id state w = set_session_db (insert id (record { noise = state }) w.session_db) w

  -- The handshake message that this node sends.
  abbrev pub handshake_message : Bytes → World Hs Ts → Message
  handshake_message msg w =
      handshake (record { msg = msg; node_id = w.id; unicast_port = w.unicast_port })

module _ {P F Hs Ts : Type 0} (env : Env P F Hs Ts) where
  unfoldable pub initiate :
      NodeId → Result Failure (Hs × Bytes) → M Hs Ts (Result MeshError (Option Message))
  initiate peer (err e) = pure (err (other e))
  initiate peer (ok (st, msg)) = do
    with_lock session_lock (modify (set_noise peer (handshaking st)))
    gets (λ w. ok (some (handshake_message msg w)))

  unfoldable pub handle_hello :
      HelloPayload → SocketAddr → M Hs Ts (Result MeshError (Option Message))
  handle_hello payload src w =
      if ltb w.id payload.node_id
      then (with_lock session_lock (modify (set_noise payload.node_id expecting_initiator))
            >> pure (ok none))
          w
      else elim (start_handshake env.snow w.static_keys w.network_key) [
        | none ↦ panic w
        | some r ↦ initiate payload.node_id r w
      ]

  -- Conversion to transport mode, which ends the handshake. The session stays locked.
  unfoldable pub finish : NodeId → Hs → Option Message → M Hs Ts (Result Failure (Option Message))
  finish peer st reply = elim (env.snow.into_transport_mode st) [
    | none ↦ pure (err error_converting)
    | some ts ↦ do modify (set_noise peer (transport ts)); broadcast_lsa env; pure (ok reply)
  ]

  -- The branch of the match for `ExpectingInitiator`.
  unfoldable pub respond : NodeId → Bytes → M Hs Ts (Result Failure (Option Message))
  respond peer msg w = elim (build_responder env.snow w.static_keys w.network_key) [
    | err e ↦ pure (err e) w
    | ok st ↦ elim (env.snow.read_message st msg 1024) [
      | none ↦ pure (err snow_error) w
      | some st₁ ↦ elim (env.snow.write_message st₁ [] 1024) [
        | none ↦ pure (err snow_error) w
        | some (st₂, out) ↦
            (do
              modify (set_noise peer (handshaking st₂))
              gets (λ v. ok (some (handshake_message out v))))
              w
      ]
    ]
  ]

  -- The branch of the match for `Handshaking`.
  unfoldable pub proceed : NodeId → Bytes → Hs → M Hs Ts (Result Failure (Option Message))
  proceed peer msg st w = elim (env.snow.read_message st msg 1024) [
    | none ↦ pure (err unable_to_read) w
    | some st₁ ↦
        if env.snow.is_handshake_finished st₁
        then finish peer st₁ none w
        else elim (env.snow.write_message st₁ [] 1024) [
          | none ↦ pure (err unable_to_write) w
          | some (st₂, out) ↦
              if env.snow.is_handshake_finished st₂
              then finish peer st₂ (some (handshake_message out w)) w
              else (do
                modify (set_noise peer (handshaking st₂))
                gets (λ v. ok (some (handshake_message out v))))
                  w
        ]
  ]

  -- The match on the state that `mem::replace` took out.
  unfoldable pub advance :
      NodeId → Bytes → NoiseState Hs Ts → M Hs Ts (Result Failure (Option Message))
  advance peer msg expecting_initiator = respond peer msg
  advance peer msg (handshaking st) = proceed peer msg st
  advance peer msg (transport ts) =
      modify (set_noise peer (transport ts)) >> pure (err unexpected_noise_state)
  advance peer msg transitioning =
      modify (set_noise peer transitioning) >> pure (err unexpected_noise_state)

  -- From `get_mut` on; `none` would be the panic of its `unwrap`.
  unfoldable pub with_session : NodeId → Bytes → M Hs Ts (Result Failure (Option Message))
  with_session peer msg w = elim (get peer w.session_db) [
    | none ↦ panic w
    | some s ↦ (modify (set_noise peer transitioning) >> advance peer msg s.noise) w
  ]

  -- The guard of `session_db` lives to the end of the function.
  unfoldable pub handle_handshake :
      HandshakePayload → SocketAddr → M Hs Ts (Result Failure (Option Message))
  handle_handshake payload src = with_lock session_lock λ w.
      if contains_key payload.node_id w.session_db
      then with_session payload.node_id payload.msg w
      else if ltb w.id payload.node_id
      then (modify (set_noise payload.node_id expecting_initiator)
            >> with_session payload.node_id payload.msg)
          w
      else pure (err (unsolicited_handshake payload.node_id)) w
