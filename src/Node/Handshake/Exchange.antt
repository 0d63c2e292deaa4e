-- ===== src/Node/Handshake/Exchange.antt =====
-- A whole handshake between two nodes, by `handle_hello` and `handle_handshake` of
-- crates/node/src/node.rs.
use swarm_mesh.Prelude.{◌<◌, true, [], none, some, Bytes, ok, ◌≡◌, refl, nat_key, arith}
use swarm_mesh.HashMap.{get}
use swarm_mesh.HashMap.Laws.{get-insert_self}
use swarm_mesh.Mesh.Message.{handshake, HelloPayload, HandshakePayload}
use swarm_mesh.Mesh.Peer.{SocketAddr, handshaking, transport}
use swarm_mesh.Noise.{start_handshake, build_responder}
use swarm_mesh.Node.World.{Env, World, done, stuck, none_held}
use swarm_mesh.Node.Handshake.{set_noise, handle_hello, handle_handshake}
use swarm_mesh.Node.Handshake.Roles.{hello-greater}
use swarm_mesh.Node.Handshake.Responds.{handle_handshake-responds}
use swarm_mesh.Node.Handshake.Deadlock.{completes, secured, handle_handshake-stuck}

module _ {P F Hs Ts : Type 0} (env : Env P F Hs Ts) where
  -- What a node sends about itself.
  abbrev pub hello_by : World Hs Ts → HelloPayload
  hello_by w = record { node_id = w.id; unicast_port = w.unicast_port }

  abbrev pub handshake_by : World Hs Ts → Bytes → HandshakePayload
  handshake_by w msg = record { msg = msg; node_id = w.id; unicast_port = w.unicast_port }

  -- Two nodes hold no lock, the one with the lesser id has no session with the other, and snow does
  -- each step of the three messages. Then the Hello of the lesser one is answered by the first
  -- message, and the first message by the second. The node with the greater id never gets out of
  -- the second one: it has the session in transport mode and holds the lock of the sessions, and
  -- the third message is not sent, so that the other node stays in the handshake.
  pub handle_hello-handle_handshake :
      (a b : World Hs Ts) (src_a src_b : SocketAddr) (i r r₁ r₂ : Hs) (m₁ m₂ : Bytes) (ts : Ts)
      → a.held ≡ none_held
      → b.held ≡ none_held
      → b.id < a.id
      → get a.id b.session_db ≡ none
      → start_handshake env.snow a.static_keys a.network_key ≡ some (ok (i, m₁))
      → build_responder env.snow b.static_keys b.network_key ≡ ok r
      → env.snow.read_message r m₁ 1024 ≡ some r₁
      → env.snow.write_message r₁ [] 1024 ≡ some (r₂, m₂)
      → completes env i m₂ ≡ some ts
      → (a₁ : World Hs Ts) × (a₂ : World Hs Ts) × (b₁ : World Hs Ts) × (handle_hello env
            (hello_by b)
            src_b
            a
          ≡ done (ok (some (handshake (handshake_by a m₁)))) a₁)
        × (handle_handshake env (handshake_by a m₁) src_a b
            ≡ done (ok (some (handshake (handshake_by b m₂)))) b₁)
        × (handle_handshake env (handshake_by b m₂) src_b a₁ ≡ stuck a₂)
        × (get b.id a₂.session_db ≡ some (record { noise = transport ts }))
        × (a₂.held.session ≡ true)
        × (a₂.sent ≡ a.sent)
        × (get a.id b₁.session_db ≡ some (record { noise = handshaking r₂ }))
  handle_hello-handle_handshake a b src_a src_b i r r₁ r₂ m₁ m₂ ts free_a free_b lt g s br rd wr c =
      let a₁ : World Hs Ts = set_noise b.id (handshaking i) a in
      let (b₁, answered, free, waiting) =
        handle_handshake-responds env (handshake_by a m₁) src_a b r r₁ r₂ m₂ free_b g lt br rd wr in
      let (run, sent, secure, locked) =
        handle_handshake-stuck env a₁ (handshake_by b m₂) src_b i ts free_a
          (get-insert_self b.id _ a.session_db) c in
      (
        a₁,
        secured env (handshake_by b m₂) ts a₁,
        b₁,
        hello-greater env (hello_by b) src_b i m₁ a free_a (ground arith) s,
        answered,
        run,
        secure,
        locked,
        refl,
        waiting,
      )
