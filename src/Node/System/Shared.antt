-- ===== src/Node/System/Shared.antt =====
-- The invariant of Quiet, kept by what the handlers of crates/node/src/node.rs share.
use swarm_mesh.Prelude.{
  ℕ, true, false, [], ◌≡◌, refl, subst, sym, nat_key, Option-cases, Bool-cases, inl, inr,
}
use swarm_mesh.HashMap.{get}
use swarm_mesh.Mesh.Message.{Message, LinkStatePayload}
use swarm_mesh.Mesh.Peer.{SocketAddr}
use swarm_mesh.Node.World.{
  Env, Socket, unicast_socket, multicast_socket, World, M, Held, Lock, peer_lock, session_lock,
  lsa_sequence_lock, link_state_lock, with_lock, gets, acquire, ◌>>=◌,
}
use swarm_mesh.Node.World.Keeps.{
  Any, Keeps, IsLockFree, Keeps-pure, Keeps-gets, Keeps-bind, Keeps-then, Keeps-modify, Keeps-if,
  Keeps-with_lock, Keeps-with_session_lock,
}
use swarm_mesh.Node.Send.{
  get_neighbor_addresses, send_message, send_unicast_message, send_multicast_message, send_each,
  send_to_all_neighbors,
}
use swarm_mesh.Node.LinkState.{
  bump_sequence, get_established_neighbors, generate_lsa, broadcast_lsa, accept_lsa, is_newer,
  flood_each, flood_lsa_except_sender, handle_lsa, cleanup_stale_lsas,
}
use swarm_mesh.Node.System.Quiet.{
  IsDiscovery, NoTransport, IsQuiet, IsQuietInside, neighbor_addresses-NoTransport,
}

module _ {Hs Ts : Type 0} where
  -- A run keeps the invariant, and what it returns satisfies `R`.
  abbrev pub KeepsQuiet : {A : Type 0} → (A → Type 0) → M Hs Ts A → Type 0
  KeepsQuiet R m = Keeps IsQuiet IsQuiet R m

  pub IsQuiet-IsLockFree : IsLockFree {Hs = Hs} {Ts = Ts} IsQuiet
  IsQuiet-IsLockFree w h e (sent, inl n) = (sent, inl n)
  IsQuiet-IsLockFree w h e (sent, inr l) = (sent, inr (subst (λ b. b ≡ true) (sym e) l))

  enter :
      (w : World Hs Ts)
      → IsQuiet w
      → w.held.session ≡ false
      → IsQuietInside (record w { held = acquire session_lock w.held })
  enter w (sent, inl n) e = (sent, n, refl)
  enter w (sent, inr l) e = cc

  leave : (w : World Hs Ts) (h : Held) → IsQuietInside w → IsQuiet (record w { held = h })
  leave w h q = (q.0, inl q.1)

module _ {Hs Ts A : Type 0} {R : A → Type 0} where
  pub quiet_lock :
      (l : Lock) (m : M Hs Ts A)
      → ((h : Held) → (acquire l h).session ≡ h.session)
      → KeepsQuiet R m
      → KeepsQuiet R (with_lock l m)
  quiet_lock l m same k = Keeps-with_lock l m same IsQuiet-IsLockFree (λ w p. p) k

  pub quiet_session_lock :
      (m : M Hs Ts A) → Keeps IsQuietInside IsQuiet R m → KeepsQuiet R (with_lock session_lock m)
  quiet_session_lock m k = Keeps-with_session_lock IsQuietInside m (λ w p. p) enter leave k

  -- What is read under the lock of the sessions.
  pub quiet_read :
      (f : World Hs Ts → A)
      → ((w : World Hs Ts) → NoTransport w.session_db → R (f w))
      → KeepsQuiet R (with_lock session_lock (gets f))
  quiet_read f r = quiet_session_lock (gets f) (Keeps-gets f (λ w p. r w p.1))

module _ {P F Hs Ts : Type 0} (env : Env P F Hs Ts) where
  quiet_send_message :
      (msg : Message) (addr : SocketAddr) (socket : Socket)
      → IsDiscovery msg
      → KeepsQuiet Any (send_message env msg addr socket)
  unfolding send_message ◌>>=◌
  quiet_send_message msg addr socket d = record {
    at = λ w p. elim (Option-cases (env.serialize msg)) [
      | inl e ↦ rw (e, send_message) (tt, p, refl)
      | inr (b, e) ↦ rw (e, send_message) (tt, ((d, p.0), p.1), refl)
    ];
  }

  pub quiet_send_unicast :
      (msg : Message) (port : ℕ) (addr : SocketAddr)
      → IsDiscovery msg
      → KeepsQuiet Any (send_unicast_message env msg port addr)
  unfolding send_unicast_message
  quiet_send_unicast msg port addr d = quiet_send_message msg _ unicast_socket d

  pub quiet_send_multicast :
      (msg : Message) (addr : SocketAddr)
      → IsDiscovery msg
      → KeepsQuiet Any (send_multicast_message env msg addr)
  unfolding send_multicast_message
  quiet_send_multicast msg addr d = quiet_send_message msg addr multicast_socket d

module _ {Hs Ts : Type 0} where
  -- Nobody is a neighbour.
  pub quiet_neighbors : KeepsQuiet {Hs = Hs} {Ts = Ts} (λ xs. xs ≡ []) get_neighbor_addresses
  unfolding get_neighbor_addresses
  quiet_neighbors =
      quiet_lock peer_lock _ (λ h. refl)
        (quiet_read _ (λ w n. neighbor_addresses-NoTransport w.peer_db w.session_db n))

  quiet_generate : KeepsQuiet {Hs = Hs} {Ts = Ts} Any generate_lsa
  unfolding generate_lsa get_established_neighbors
  quiet_generate =
      Keeps-bind _ _
        (quiet_lock lsa_sequence_lock _ (λ h. refl)
          (Keeps-then _ _ (Keeps-modify bump_sequence (λ w p. (p, refl)))
            (Keeps-gets {R = Any} _ (λ w p. tt))))
        λ sequence _. Keeps-bind _ _ (quiet_read {R = Any} _ (λ w n. tt)) λ neighbors _.
          Keeps-bind _ _ (Keeps-gets {R = Any} _ (λ w p. tt)) λ id _.
            Keeps-bind _ _ (Keeps-gets {R = Any} _ (λ w p. tt)) λ timestamp _. Keeps-pure _ tt

  quiet_accept : (p : LinkStatePayload) → KeepsQuiet {Hs = Hs} {Ts = Ts} Any (accept_lsa p)
  unfolding accept_lsa ◌>>=◌
  quiet_accept p = record {
    at = λ w q. elim (Bool-cases (is_newer p (get p.node_id w.link_state_db))) [
      | inl e ↦ rw e (tt, q, refl)
      | inr e ↦ rw e (tt, q, refl)
    ];
  }

  pub quiet_cleanup : KeepsQuiet {Hs = Hs} {Ts = Ts} Any cleanup_stale_lsas
  unfolding cleanup_stale_lsas
  quiet_cleanup = quiet_lock link_state_lock _ (λ h. refl) (Keeps-modify _ (λ w p. (p, refl)))

module _ {P F Hs Ts : Type 0} (env : Env P F Hs Ts) where
  quiet_send_to_all : (msg : Message) → KeepsQuiet Any (send_to_all_neighbors env msg)
  unfolding send_to_all_neighbors send_each
  quiet_send_to_all msg = Keeps-bind _ _ quiet_neighbors (λ xs e. rw e (Keeps-pure tt tt))

  pub quiet_broadcast : KeepsQuiet Any (broadcast_lsa env)
  unfolding broadcast_lsa
  quiet_broadcast = Keeps-bind _ _ quiet_generate λ lsa _.
      Keeps-bind _ _ (Keeps-gets {R = Any} _ (λ w p. tt)) λ id _.
        Keeps-then _ _
          (quiet_lock link_state_lock _ (λ h. refl) (Keeps-modify _ (λ w p. (p, refl))))
          (quiet_send_to_all _)

  quiet_flood :
      (p : LinkStatePayload) (src : SocketAddr) → KeepsQuiet Any (flood_lsa_except_sender env p src)
  unfolding flood_lsa_except_sender flood_each
  quiet_flood p src = Keeps-bind _ _ quiet_neighbors (λ xs e. rw e (Keeps-pure tt tt))

  pub quiet_handle_lsa :
      (p : LinkStatePayload) (src : SocketAddr) → KeepsQuiet Any (handle_lsa env p src)
  unfolding handle_lsa
  quiet_handle_lsa p src =
      Keeps-bind _ _ (quiet_lock link_state_lock _ (λ h. refl) (quiet_accept p)) λ b _.
        Keeps-then _ _ (Keeps-if {R = Any} b _ _ (quiet_flood p src) (Keeps-pure tt tt))
          (Keeps-pure _ tt)
