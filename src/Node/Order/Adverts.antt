-- ===== src/Node/Order/Adverts.antt =====
-- The order of the locks in the advertisements of crates/node/src/node.rs.
use swarm_mesh.Prelude.{
  ℕ, true, false, List, [], ◌∷◌, ◌≡◌, refl, Bool-cases, inl, inr, nat_key, pair_key,
}
use swarm_mesh.HashMap.{get}
use swarm_mesh.Mesh.Message.{NodeId, Message, LinkStatePayload}
use swarm_mesh.Mesh.Peer.{SocketAddr}
use swarm_mesh.Node.World.{
  Env, Held, none_held, is_held, session_lock, link_state_lock, lsa_sequence_lock, with_lock,
  modify, gets, ◌>>◌,
}
use swarm_mesh.Node.World.Keeps.{Any}
use swarm_mesh.Node.Order.{is_after}
use swarm_mesh.Node.Order.Climbs.{
  Climbs, Climbs-pure, Climbs-gets, Climbs-if, Climbs-lock, Climbs-self, Climbs-modify, Climbs-bind,
}
use swarm_mesh.Node.Send.{send_to_all_neighbors}
use swarm_mesh.Node.LinkState.{
  bump_sequence, get_established_neighbors, generate_lsa, broadcast_lsa, accept_lsa, is_newer,
  flood_each, flood_lsa_except_sender, handle_lsa, cleanup_stale_lsas,
}
use swarm_mesh.Node.Order.Parts.{Starts, Climbs-unicast, Climbs-neighbors, Climbs-send_each}

module _ {Hs Ts : Type 0} where
  pub Climbs-cleanup : Starts {Hs = Hs} {Ts = Ts} cleanup_stale_lsas
  unfolding cleanup_stale_lsas
  Climbs-cleanup =
      Climbs-lock none_held link_state_lock _ refl refl
        (Climbs-modify _ _ (λ w. refl) (λ w h. refl))

  Climbs-bump :
      (own : Held)
      → is_after lsa_sequence_lock own ≡ true
      → is_held lsa_sequence_lock own ≡ false
      → Climbs {Hs = Hs} {Ts = Ts} Any own
          (with_lock lsa_sequence_lock (modify bump_sequence >> gets (λ w. w.lsa_sequence)))
  Climbs-bump own after free = Climbs-lock own lsa_sequence_lock _ after free (
      Climbs-bind _ _ _ (Climbs-modify _ bump_sequence (λ w. refl) (λ w h. refl))
        (λ u _. Climbs-gets _ _ (λ w h. refl) (λ w. tt)))

  Climbs-generate : Starts {Hs = Hs} {Ts = Ts} generate_lsa
  unfolding generate_lsa get_established_neighbors
  Climbs-generate = Climbs-bind none_held _ _ (Climbs-bump none_held refl refl) λ sequence _.
      Climbs-bind {R = Any} none_held _ _
        (Climbs-lock none_held session_lock _ refl refl (Climbs-gets _ _ (λ w h. refl) (λ w. tt)))
        λ neighbors _.
          Climbs-bind {R = Any} none_held _ _ (Climbs-gets _ _ (λ w h. refl) (λ w. tt)) λ id _.
            Climbs-bind {R = Any} none_held _ _ (Climbs-gets _ _ (λ w h. refl) (λ w. tt))
              λ timestamp _. Climbs-pure _ _ tt

  -- In the scope of the lock of the sessions it does not return.
  Climbs-generate_self :
      (own : Held)
      → is_after lsa_sequence_lock own ≡ true
      → is_held lsa_sequence_lock own ≡ false
      → is_held session_lock own ≡ true
      → Climbs {Hs = Hs} {Ts = Ts} (λ lsa. ⊥) own generate_lsa
  unfolding generate_lsa get_established_neighbors
  Climbs-generate_self own after free held =
      Climbs-bind own _ _ (Climbs-bump own after free) λ sequence _.
        Climbs-bind {R = λ ns. ⊥} own _ _ (Climbs-self own session_lock _ held)
          (λ neighbors never. elim never [ ])

  Climbs-accept :
      (own : Held) (p : LinkStatePayload) → Climbs {Hs = Hs} {Ts = Ts} Any own (accept_lsa p)
  unfolding accept_lsa
  Climbs-accept own p = record {
    at = λ w theirs q. elim (Bool-cases (is_newer p (get p.node_id w.link_state_db))) [
      | inl e ↦ rw e (tt, q, refl, refl)
      | inr e ↦ rw e (tt, q, refl, refl)
    ];
  }

module _ {P F Hs Ts : Type 0} (env : Env P F Hs Ts) where
  pub Climbs-broadcast_lsa : Starts (broadcast_lsa env)
  unfolding broadcast_lsa send_to_all_neighbors
  Climbs-broadcast_lsa = Climbs-bind none_held _ _ Climbs-generate λ lsa _.
      Climbs-bind {R = Any} none_held _ _ (Climbs-gets _ _ (λ w h. refl) (λ w. tt)) λ id _.
        Climbs-bind {R = Any} none_held _ _
          (Climbs-lock none_held link_state_lock _ refl refl
            (Climbs-modify _ _ (λ w. refl) (λ w h. refl)))
          λ u _. Climbs-bind none_held _ _ Climbs-neighbors (λ xs _. Climbs-send_each env _ xs)

  pub Climbs-broadcast_self :
      (T : Unit {0} → Type 0) (own : Held)
      → is_after lsa_sequence_lock own ≡ true
      → is_held lsa_sequence_lock own ≡ false
      → is_held session_lock own ≡ true
      → Climbs T own (broadcast_lsa env)
  unfolding broadcast_lsa
  Climbs-broadcast_self T own after free held =
      Climbs-bind own _ _ (Climbs-generate_self own after free held) (λ lsa never. elim never [ ])

  Climbs-flood_each :
      (msg : Message) (sender : SocketAddr) (xs : List (NodeId × ℕ × SocketAddr))
      → Starts (flood_each env msg sender xs)
  unfolding flood_each
  Climbs-flood_each msg sender [] = Climbs-pure none_held tt tt
  Climbs-flood_each msg sender ((id, port, addr) ∷ xs) =
      Climbs-bind {R = Any} none_held _ _
        (Climbs-if none_held _ _ _ (Climbs-pure none_held tt tt) (
          Climbs-bind none_held _ _ (Climbs-unicast env none_held msg port addr)
            (λ r _. Climbs-pure none_held tt tt)))
        (λ u _. Climbs-flood_each msg sender xs)

  pub Climbs-handle_lsa : (p : LinkStatePayload) (src : SocketAddr) → Starts (handle_lsa env p src)
  unfolding handle_lsa flood_lsa_except_sender
  Climbs-handle_lsa p src =
      Climbs-bind none_held _ _
        (Climbs-lock none_held link_state_lock _ refl refl (Climbs-accept _ p))
        λ b _.
          Climbs-bind {R = Any} none_held _ _
            (Climbs-if none_held b _ _
              (Climbs-bind none_held _ _ Climbs-neighbors (λ xs _. Climbs-flood_each _ src xs))
              (Climbs-pure none_held tt tt))
            (λ u _. Climbs-pure none_held _ tt)
