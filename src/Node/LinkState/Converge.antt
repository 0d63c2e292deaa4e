-- ===== src/Node/LinkState/Converge.antt =====
-- Agreement of two nodes on the link state of an origin (`handle_lsa` of crates/node/src/node.rs).
use swarm_mesh.Prelude.{
  ℕ, false, List, Option, none, some, ◌≡◌, sym, ap, subst, ◌∙◌, ◌↔◌, ◌⊎◌, inl, inr, nat_key, IsIn,
  map, arith,
}
use swarm_mesh.HashMap.{get}
use swarm_mesh.Mesh.Message.{LinkStatePayload}
use swarm_mesh.Mesh.Peer.{SocketAddr}
use swarm_mesh.Node.World.{Env, World, none_held, done}
use swarm_mesh.Node.LinkState.{is_newer}
use swarm_mesh.Node.LinkState.Merge.{IsFrom, handle_each, handle_each-newest}

-- Two advertisements of one origin with one sequence number and timestamp are the same.
abbrev pub IsUnambiguous : List LinkStatePayload → Type 0
IsUnambiguous ps =
    (p q : LinkStatePayload)
    → IsIn p ps
    → IsIn q ps
    → p.node_id ≡ q.node_id
    → p.sequence ≡ q.sequence
    → p.timestamp ≡ q.timestamp
    → p ≡ q

is_newer-tie :
    (p q : LinkStatePayload)
    → is_newer p (some q) ≡ false
    → is_newer q (some p) ≡ false
    → (p.sequence ≡ q.sequence) × (p.timestamp ≡ q.timestamp)
unfolding is_newer
is_newer-tie p q a b = (ground arith, ground arith)

-- Two entries that no advertisement of `ps` would replace, each empty or one of `ps`, are equal.
agree :
    (ps : List LinkStatePayload) (id : ℕ) (a b : Option LinkStatePayload)
    → IsUnambiguous ps
    → ((q : LinkStatePayload) → IsIn q ps → q.node_id ≡ id → is_newer q a ≡ false)
    → ((q : LinkStatePayload) → IsIn q ps → q.node_id ≡ id → is_newer q b ≡ false)
    → (a ≡ none) ⊎ IsFrom id ps a
    → (b ≡ none) ⊎ IsFrom id ps b
    → a ≡ b
unfolding is_newer
agree ps id a b u ka kb (inl e) (inl f) = e ∙ sym f
agree ps id a b u ka kb (inl e) (inr (q, i, o, f)) = absurd (ground (arith, ka q i o))
agree ps id a b u ka kb (inr (p, i, o, e)) (inl f) = absurd (ground (arith, kb p i o))
agree ps id a b u ka kb (inr (p, i, o, e)) (inr (q, j, r, f)) =
    let (s, t) =
      is_newer-tie p q (subst (λ x. is_newer p x ≡ false) f (kb p i o))
        (subst (λ x. is_newer q x ≡ false) e (ka q j r)) in
    e ∙ ap some (u p q i j (o ∙ sym r) s t) ∙ sym f

module _ {P F Hs Ts : Type 0} (env : Env P F Hs Ts) where
  -- Two nodes that hold no lock and know nothing of an origin, and that hear the same
  -- advertisements, each in its own order, with repetitions and by other paths, both take them
  -- all in, and then have the same entry for that origin, if no two of the advertisements of one
  -- origin share a sequence number and a timestamp but differ.
  pub handle_each-agree :
      (xs ys : List (LinkStatePayload × SocketAddr)) (w₁ w₂ : World Hs Ts) (id : ℕ)
      → w₁.held ≡ none_held
      → w₂.held ≡ none_held
      → get id w₁.link_state_db ≡ none
      → get id w₂.link_state_db ≡ none
      → ((q : LinkStatePayload) → IsIn q (map (λ x. x.0) xs) ↔ IsIn q (map (λ x. x.0) ys))
      → IsUnambiguous (map (λ x. x.0) xs)
      → (v₁ : World Hs Ts) × (v₂ : World Hs Ts) × (handle_each env xs w₁ ≡ done tt v₁)
        × (handle_each env ys w₂ ≡ done tt v₂)
        × (get id v₁.link_state_db ≡ get id v₂.link_state_db)
  handle_each-agree xs ys w₁ w₂ id f₁ f₂ n₁ n₂ same u =
      let (v₁, run₁, h₁, b₁, s₁) = handle_each-newest env xs w₁ f₁ in
      let (v₂, run₂, h₂, b₂, s₂) = handle_each-newest env ys w₂ f₂ in
      (
        v₁,
        v₂,
        run₁,
        run₂,
        agree (map (λ x. x.0) xs) id _ _ u
            (λ q i o. subst (λ j. is_newer q (get j v₁.link_state_db) ≡ false) o (b₁ q i))
            (λ q i o.
              subst (λ j. is_newer q (get j v₂.link_state_db) ≡ false) o (b₂ q ((same q).0 i)))
            (elim (s₁ id) [ inl e ↦ inl (e ∙ n₁) | inr f ↦ inr f ])
            (elim (s₂ id) [
              | inl e ↦ inl (e ∙ n₂)
              | inr (q, i, o, e) ↦ inr (q, (same q).1 i, o, e)
            ]),
      )
