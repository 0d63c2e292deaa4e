-- ===== src/Node/Handshake/Roles.antt =====
-- Who initiates a handshake (`handle_hello`), and how the other side answers (`handle_handshake` of
-- crates/node/src/node.rs).
use swarm_mesh.Prelude.{
  ℕ, ◌<◌, ◌≤◌, true, false, Option, none, some, Bytes, Result, ok, ltb, ◌≡◌, ◌≢◌, ◌⊎◌, inl, inr,
  nat_key, Bool-cases, arith,
}
use swarm_mesh.HashMap.{get}
use swarm_mesh.HashMap.Laws.{get-insert_self}
use swarm_mesh.Mesh.Message.{Message, HelloPayload, MeshError}
use swarm_mesh.Mesh.Peer.{SocketAddr, expecting_initiator, handshaking}
use swarm_mesh.Noise.{start_handshake}
use swarm_mesh.Node.World.{Env, World, Outcome, done, none_held, ◌>>=◌}
use swarm_mesh.Node.World.Runs.{if_free}
use swarm_mesh.Node.Handshake.{set_noise, handshake_message, initiate, handle_hello}

module _ {P F Hs Ts : Type 0} (env : Env P F Hs Ts) where
  -- A Hello that is not answered: the session waits for the first handshake message.
  abbrev pub IsWaiting : ℕ → Outcome Hs Ts (Result MeshError (Option Message)) → Type 0
  IsWaiting peer o =
      (v : World Hs Ts) × (o ≡ done (ok none) v)
      × (get peer v.session_db ≡ some (record { noise = expecting_initiator }))

  -- A Hello that is answered by the first handshake message.
  abbrev pub IsInitiating :
      ℕ → Hs → Bytes → Outcome Hs Ts (Result MeshError (Option Message)) → Type 0
  IsInitiating peer st msg o =
      (v : World Hs Ts) × (o ≡ done (ok (some (handshake_message msg v))) v)
      × (get peer v.session_db ≡ some (record { noise = handshaking st }))

  hello-lesser :
      (h : HelloPayload) (src : SocketAddr) (w : World Hs Ts)
      → w.held ≡ none_held
      → ltb w.id h.node_id ≡ true
      → handle_hello env h src w ≡ done (ok none) (set_noise h.node_id expecting_initiator w)
  unfolding handle_hello ◌>>=◌
  hello-lesser h src =
      if_free
        (λ w.
          ltb w.id h.node_id ≡ true
          → handle_hello env h src w ≡ done (ok none) (set_noise h.node_id expecting_initiator w))
        (λ w e. rw e)

  pub hello-greater :
      (h : HelloPayload) (src : SocketAddr) (st : Hs) (msg : Bytes) (w : World Hs Ts)
      → w.held ≡ none_held
      → ltb w.id h.node_id ≡ false
      → start_handshake env.snow w.static_keys w.network_key ≡ some (ok (st, msg))
      → handle_hello env h src w
        ≡ done (ok (some (handshake_message msg w))) (set_noise h.node_id (handshaking st) w)
  unfolding handle_hello initiate ◌>>=◌
  hello-greater h src st msg =
      if_free
        (λ w.
          ltb w.id h.node_id ≡ false
          → start_handshake env.snow w.static_keys w.network_key ≡ some (ok (st, msg))
          → handle_hello env h src w
            ≡ done (ok (some (handshake_message msg w))) (set_noise h.node_id (handshaking st) w))
        (λ w e s. rw (e, s, handle_hello))

  hello-IsWaiting :
      (h : HelloPayload) (src : SocketAddr) (w : World Hs Ts)
      → w.held ≡ none_held
      → w.id < h.node_id
      → IsWaiting h.node_id (handle_hello env h src w)
  hello-IsWaiting h src w free lt = (
    set_noise h.node_id expecting_initiator w,
    hello-lesser h src w free (ground arith),
    get-insert_self h.node_id _ w.session_db,
  )

  hello-IsInitiating :
      (h : HelloPayload) (src : SocketAddr) (w : World Hs Ts) (st : Hs) (msg : Bytes)
      → w.held ≡ none_held
      → h.node_id ≤ w.id
      → start_handshake env.snow w.static_keys w.network_key ≡ some (ok (st, msg))
      → IsInitiating h.node_id st msg (handle_hello env h src w)
  hello-IsInitiating h src w st msg free ge s = (
    set_noise h.node_id (handshaking st) w,
    hello-greater h src st msg w free (ground arith) s,
    get-insert_self h.node_id _ w.session_db,
  )

  -- Two nodes with different ids that hold no lock and can start handshakes hear each other's Hello:
  -- exactly the one with the greater id initiates, and the other one waits for it.
  pub handle_hello-roles :
      (w₁ w₂ : World Hs Ts) (h₁ h₂ : HelloPayload) (src₁ src₂ : SocketAddr) (st₁ st₂ : Hs)
      (msg₁ msg₂ : Bytes)
      → w₁.held ≡ none_held
      → w₂.held ≡ none_held
      → w₁.id ≢ w₂.id
      → h₁.node_id ≡ w₁.id
      → h₂.node_id ≡ w₂.id
      → start_handshake env.snow w₁.static_keys w₁.network_key ≡ some (ok (st₁, msg₁))
      → start_handshake env.snow w₂.static_keys w₂.network_key ≡ some (ok (st₂, msg₂))
      → ((w₁.id < w₂.id)
          × IsWaiting h₂.node_id (handle_hello env h₂ src₂ w₁)
          × IsInitiating h₁.node_id st₂ msg₂ (handle_hello env h₁ src₁ w₂))
        ⊎ ((w₂.id < w₁.id)
            × IsWaiting h₁.node_id (handle_hello env h₁ src₁ w₂)
            × IsInitiating h₂.node_id st₁ msg₁ (handle_hello env h₂ src₂ w₁))
  handle_hello-roles w₁ w₂ h₁ h₂ src₁ src₂ st₁ st₂ msg₁ msg₂ f₁ f₂ ne e₁ e₂ s₁ s₂ =
      elim (Bool-cases (ltb w₁.id w₂.id)) [
        | inl q ↦
            let lt : w₁.id < w₂.id = ground arith in
            inl (
              lt,
              hello-IsWaiting h₂ src₂ w₁ f₁ (omega (arith, lt, e₂)),
              hello-IsInitiating h₁ src₁ w₂ st₂ msg₂ f₂ (omega (arith, lt, e₁)) s₂,
            )
        | inr q ↦
            let lt : w₂.id < w₁.id = ground arith in
            inr (
              lt,
              hello-IsWaiting h₁ src₁ w₂ f₂ (omega (arith, lt, e₁)),
              hello-IsInitiating h₂ src₂ w₁ st₁ msg₁ f₁ (omega (arith, lt, e₂)) s₁,
            )
      ]
