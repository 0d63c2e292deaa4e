-- ===== src/Node/LinkState/Merge.antt =====
-- What `handle_lsa` of crates/node/src/node.rs leaves in the link state database after a sequence
-- of advertisements.
use swarm_mesh.Prelude.{
  ℕ, true, false, List, [], ◌∷◌, Option, none, some, ok, ◌≡◌, refl, sym, ap, subst, ◌∙◌, ◌⊎◌, inl,
  inr, Bool-cases, nat_eqb_iff, if◌then◌else◌, nat_key, nat_eqb, IsIn, map, arith,
}
use swarm_mesh.HashMap.{Map, get, insert}
use swarm_mesh.HashMap.Laws.{get-insert}
use swarm_mesh.Mesh.Message.{NodeId, LinkStatePayload}
use swarm_mesh.Mesh.Peer.{SocketAddr}
use swarm_mesh.Node.World.{Env, World, none_held, done, M, pure, ◌>>◌}
use swarm_mesh.Node.World.Runs.{bind-done}
use swarm_mesh.Node.LinkState.{is_newer, handle_lsa}
use swarm_mesh.Node.LinkState.Flood.{handle_lsa-newer, handle_lsa-older}

-- What the code stores, on the database alone.
pub merge : LinkStatePayload → Map NodeId LinkStatePayload → Map NodeId LinkStatePayload
merge p m = if is_newer p (get p.node_id m) then insert p.node_id p m else m

-- Nothing supersedes itself, and what does not supersede an entry does not supersede a newer one.
is_newer_trans :
    (p q : LinkStatePayload) (o : Option LinkStatePayload)
    → is_newer p o ≡ false
    → is_newer q o ≡ true
    → is_newer p (some q) ≡ false
unfolding is_newer
is_newer_trans p q none e n = ground arith
is_newer_trans p q (some l) e n = ground arith

is_newer_refl : (p : LinkStatePayload) → is_newer p (some p) ≡ false
unfolding is_newer
is_newer_refl p = ground arith

get-merge :
    (p : LinkStatePayload) (id : ℕ) (m : Map NodeId LinkStatePayload)
    → get id (merge p m) ≡ (
        if is_newer p (get p.node_id m)
        then (if nat_eqb p.node_id id then some p else get id m)
        else get id m)
unfolding merge
get-merge p id m = elim (Bool-cases (is_newer p (get p.node_id m))) [
  | inl e ↦ rw e (get-insert p.node_id id p m)
  | inr e ↦ rw e
]

merge-bound :
    (p q : LinkStatePayload) (m : Map NodeId LinkStatePayload)
    → is_newer q (get q.node_id m) ≡ false
    → is_newer q (get q.node_id (merge p m)) ≡ false
merge-bound p q m e = elim (Bool-cases (is_newer p (get p.node_id m))) [
  | inl n ↦ elim (Bool-cases (nat_eqb p.node_id q.node_id)) [
    | inl i ↦
        rw (get-merge p q.node_id m, n, i)
          (is_newer_trans q p (get p.node_id m) (rw ((nat_eqb_iff p.node_id q.node_id).0 i) e) n)
    | inr i ↦ rw (get-merge p q.node_id m, n, i) e
  ]
  | inr n ↦ rw (get-merge p q.node_id m, n) e
]

merge_self :
    (p : LinkStatePayload) (m : Map NodeId LinkStatePayload)
    → is_newer p (get p.node_id (merge p m)) ≡ false
merge_self p m = elim (Bool-cases (is_newer p (get p.node_id m))) [
  | inl n ↦
      rw (get-merge p p.node_id m, n, (nat_eqb_iff p.node_id p.node_id).1 refl) (is_newer_refl p)
  | inr n ↦ rw (get-merge p p.node_id m, n) n
]

pub merge_all : List LinkStatePayload → Map NodeId LinkStatePayload → Map NodeId LinkStatePayload
merge_all [] m = m
merge_all (p ∷ ps) m = merge_all ps (merge p m)

merge_all-kept :
    (q : LinkStatePayload) (ps : List LinkStatePayload) (m : Map NodeId LinkStatePayload)
    → is_newer q (get q.node_id m) ≡ false
    → is_newer q (get q.node_id (merge_all ps m)) ≡ false
unfolding merge_all
merge_all-kept q [] m e = e
merge_all-kept q (p ∷ ps) m e = merge_all-kept q ps (merge p m) (merge-bound p q m e)

merge_all-bound :
    (q : LinkStatePayload) (ps : List LinkStatePayload) (m : Map NodeId LinkStatePayload)
    → IsIn q ps
    → is_newer q (get q.node_id (merge_all ps m)) ≡ false
unfolding merge_all
merge_all-bound q [] m i = elim i [ ]
merge_all-bound q (p ∷ ps) m (inl e) =
    subst (λ r. is_newer r (get r.node_id (merge_all ps (merge p m))) ≡ false) (sym e)
      (merge_all-kept p ps (merge p m) (merge_self p m))
merge_all-bound q (p ∷ ps) m (inr i) = merge_all-bound q ps (merge p m) i

-- The entry of `id` is one of `ps`.
abbrev pub IsFrom : ℕ → List LinkStatePayload → Option LinkStatePayload → Type 0
IsFrom id ps o = (q : LinkStatePayload) × IsIn q ps × (q.node_id ≡ id) × (o ≡ some q)

merge-source :
    (p : LinkStatePayload) (id : ℕ) (m : Map NodeId LinkStatePayload)
    → (get id (merge p m) ≡ get id m) ⊎ ((p.node_id ≡ id) × (get id (merge p m) ≡ some p))
merge-source p id m = elim (Bool-cases (is_newer p (get p.node_id m))) [
  | inl n ↦ elim (Bool-cases (nat_eqb p.node_id id)) [
    | inl i ↦ inr ((nat_eqb_iff p.node_id id).0 i, rw (get-merge p id m, n, i))
    | inr i ↦ inl (rw (get-merge p id m, n, i))
  ]
  | inr n ↦ inl (rw (get-merge p id m, n))
]

merge_all-source :
    (id : ℕ) (ps : List LinkStatePayload) (m : Map NodeId LinkStatePayload)
    → (get id (merge_all ps m) ≡ get id m) ⊎ IsFrom id ps (get id (merge_all ps m))
unfolding merge_all
merge_all-source id [] m = inl refl
merge_all-source id (p ∷ ps) m = elim (merge_all-source id ps (merge p m)) [
  | inr (q, i, e, s) ↦ inr (q, inr i, e, s)
  | inl s ↦ elim (merge-source p id m) [
    | inl t ↦ inl (s ∙ t)
    | inr (e, t) ↦ inr (p, inl refl, e, s ∙ t)
  ]
]

module _ {P F Hs Ts : Type 0} (env : Env P F Hs Ts) where
  -- The advertisements that arrive at a node, each with the address that it comes from.
  unfoldable pub handle_each : List (LinkStatePayload × SocketAddr) → M Hs Ts (Unit {0})
  handle_each [] = pure tt
  handle_each ((p, src) ∷ rest) = do handle_lsa env p src; handle_each rest

  handle_lsa-merge :
      (p : LinkStatePayload) (src : SocketAddr) (w : World Hs Ts)
      → w.held ≡ none_held
      → (v : World Hs Ts) × (handle_lsa env p src w ≡ done (ok tt) v)
        × (v.held ≡ none_held)
        × (v.link_state_db ≡ merge p w.link_state_db)
  unfolding merge
  handle_lsa-merge p src w free = elim (Bool-cases (is_newer p (get p.node_id w.link_state_db))) [
    | inl n ↦ (_, handle_lsa-newer env p src w free n, free, rw (n, merge))
    | inr n ↦ (w, handle_lsa-older env p src w free n, free, rw (n, merge))
  ]

  handle_each-merge_all :
      (xs : List (LinkStatePayload × SocketAddr)) (w : World Hs Ts)
      → w.held ≡ none_held
      → (v : World Hs Ts) × (handle_each xs w ≡ done tt v)
        × (v.held ≡ none_held)
        × (v.link_state_db ≡ merge_all (map (λ x. x.0) xs) w.link_state_db)
  unfolding merge_all handle_each pure
  handle_each-merge_all [] w free = (w, refl, free, refl)
  handle_each-merge_all ((p, src) ∷ xs) w free =
      let (u, run, held, db) = handle_lsa-merge p src w free in
      let (v, run', held', db') = handle_each-merge_all xs u held in
      (
        v,
        bind-done (handle_lsa env p src) _ w u (ok tt) run ∙ run',
        held',
        db' ∙ ap (merge_all (map (λ x. x.0) xs)) db,
      )

  -- A node that holds no lock takes in any sequence of advertisements to its end. Afterwards none
  -- of them would still be accepted, and the entry of each origin is the one it had before or one
  -- of those advertisements, by that origin.
  pub handle_each-newest :
      (xs : List (LinkStatePayload × SocketAddr)) (w : World Hs Ts)
      → w.held ≡ none_held
      → (v : World Hs Ts) × (handle_each xs w ≡ done tt v)
        × (v.held ≡ none_held)
        × ((q : LinkStatePayload)
            → IsIn q (map (λ x. x.0) xs)
            → is_newer q (get q.node_id v.link_state_db) ≡ false)
        × ((id : ℕ)
            → (get id v.link_state_db ≡ get id w.link_state_db)
              ⊎ IsFrom id (map (λ x. x.0) xs) (get id v.link_state_db))
  handle_each-newest xs w free =
      let (v, run, held, db) = handle_each-merge_all xs w free in
      (
        v,
        run,
        held,
        (λ q i. rw db (merge_all-bound q _ w.link_state_db i)),
        (λ id. rw db (merge_all-source id _ w.link_state_db)),
      )
