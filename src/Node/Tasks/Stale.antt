-- ===== src/Node/Tasks/Stale.antt =====
-- `remove_stale_peers` of crates/node/src/node.rs: it calls `broadcast_lsa`, which locks
-- `session_db`, with the guards of `peer_db` and `session_db` alive.
use swarm_mesh.Prelude.{
  ℕ, ◌+◌, ◌<◌, ◌≤◌, true, List, [], ◌∷◌, Option, none, some, some-injective, ◌≡◌, refl, sym, ap,
  subst, ◌∙◌, nat_key, IsIn, IsIn-filter_map, Bool-cases, inl, inr, arith,
}
use swarm_mesh.HashMap.{Map, get, remove, IsMap}
use swarm_mesh.HashMap.Laws.{get-remove, get-eq_some, IsIn-get}
use swarm_mesh.Mesh.Peer.{PeerInfo}
use swarm_mesh.Node.World.{
  Env, World, none_held, stuck, peer_lock, session_lock, acquire, ◌>>=◌, set_peer_db,
  set_session_db,
}
use swarm_mesh.Node.World.Runs.{if_free}
use swarm_mesh.Node.LinkState.{bump_sequence}
use swarm_mesh.Node.Handshake.Deadlock.{broadcast_lsa-stuck}
use swarm_mesh.Node.Tasks.{
  if_stale, stale_peers, remove_each, remove_peers, remove_if_any, remove_stale_peers,
}

IsIn-split :
    {A : Type 0} (a : A) (xs : List A) → IsIn a xs → (x : A) × (ys : List A) × (xs ≡ x ∷ ys)
IsIn-split a [] i = absurd i
IsIn-split a (x ∷ xs) i = (x, xs, refl)

module _ {V : Type 0} where
  get-remove_each-none :
      (k : ℕ) (ids : List ℕ) (m : Map ℕ V) → get k m ≡ none → get k (remove_each ids m) ≡ none
  unfolding remove_each
  get-remove_each-none k [] m g = g
  get-remove_each-none k (id ∷ ids) m g =
      get-remove_each-none k ids (remove id m) (get-remove id k m ∙ ground (arith, g))

  get-remove_each :
      (k : ℕ) (ids : List ℕ) (m : Map ℕ V) → IsIn k ids → get k (remove_each ids m) ≡ none
  unfolding remove_each
  get-remove_each k [] m i = absurd i
  get-remove_each k (id ∷ ids) m (inl e) =
      get-remove_each-none k ids (remove id m)
        (get-remove id k m ∙ rw ((nat_key.agrees_iff id k).1 (sym e)) refl)
  get-remove_each k (id ∷ ids) m (inr i) = get-remove_each k ids (remove id m) i

  get-remove_each-other :
      (k : ℕ) (ids : List ℕ) (m : Map ℕ V) → (IsIn k ids → ⊥) → get k (remove_each ids m) ≡ get k m
  unfolding remove_each
  get-remove_each-other k [] m h = refl
  get-remove_each-other k (id ∷ ids) m h =
      get-remove_each-other k ids (remove id m) (λ i. h (inr i))
      ∙ get-remove id k m
      ∙ elim (Bool-cases (nat_key.agrees id k)) [
        | inl q ↦ absurd (h (inl (sym ((nat_key.agrees_iff id k).0 q))))
        | inr q ↦ rw (q) refl
      ]

if_stale-late :
    (now id : ℕ) (info : PeerInfo)
    → info.last_seen + 60000000000 < now
    → if_stale now (id, info) ≡ some id
if_stale-late now id info l = ground arith

if_stale-fresh :
    (now id : ℕ) (info : PeerInfo)
    → now ≤ info.last_seen + 60000000000
    → if_stale now (id, info) ≡ none
if_stale-fresh now id info l = ground arith

if_stale-id : (now k j : ℕ) (info : PeerInfo) → if_stale now (k, info) ≡ some j → k ≡ j
if_stale-id now k j info q = ground arith

stale_peers-IsIn :
    (now : ℕ) (peers : Map ℕ PeerInfo) (id : ℕ) (info : PeerInfo)
    → get id peers ≡ some info
    → info.last_seen + 60000000000 < now
    → IsIn id (stale_peers now peers)
unfolding stale_peers
stale_peers-IsIn now peers id info g l =
    (IsIn-filter_map (if_stale now) peers id).1
      ((id, info), get-eq_some id info peers g, if_stale-late now id info l)

IsIn-stale_peers :
    (now : ℕ) (peers : Map ℕ PeerInfo) (id : ℕ) (info : PeerInfo)
    → IsMap peers
    → get id peers ≡ some info
    → now ≤ info.last_seen + 60000000000
    → IsIn id (stale_peers now peers)
    → ⊥
unfolding stale_peers
IsIn-stale_peers now peers id info d g l i =
    let ((k, other), j, q) = (IsIn-filter_map (if_stale now) peers id).0 i in
    let same : k ≡ id = if_stale-id now k id other q in
    let found : some other ≡ some info =
      sym (IsIn-get k other peers d j) ∙ ap (λ x. get x peers) same ∙ g in
    let fresh : if_stale now (k, other) ≡ none =
      if_stale-fresh now k other
        (subst (λ o. now ≤ o.last_seen + 60000000000) (sym (some-injective other info found)) l) in
    let bad : ◌≡◌ {A = Option ℕ} none (some id) = sym fresh ∙ q in absurd cc

module _ {P F Hs Ts : Type 0} (env : Env P F Hs Ts) where
  -- The peers and their sessions are gone, both locks are held.
  abbrev pub removed : List ℕ → World Hs Ts → World Hs Ts
  removed ids w = bump_sequence (
      set_session_db (remove_each ids w.session_db) (
        set_peer_db (remove_each ids w.peer_db)
          (record w { held = acquire session_lock (acquire peer_lock w.held) })))

  remove_peers-stuck :
      (w : World Hs Ts) (ids : List ℕ)
      → w.held ≡ none_held
      → remove_peers env ids w ≡ stuck (removed ids w)
  unfolding remove_peers ◌>>=◌
  remove_peers-stuck w ids =
      if_free (λ w. remove_peers env ids w ≡ stuck (removed ids w))
        (λ w. rw (
          broadcast_lsa-stuck env
            (set_session_db (remove_each ids w.session_db) (
              set_peer_db (remove_each ids w.peer_db)
                (record w { held = acquire session_lock (acquire peer_lock none_held) })))
            refl refl))
        w

  pub remove_stale_peers-removed :
      (w : World Hs Ts) (id : ℕ) (ids : List ℕ)
      → w.held ≡ none_held
      → stale_peers w.now w.peer_db ≡ id ∷ ids
      → remove_stale_peers env w ≡ stuck (removed (id ∷ ids) w)
  unfolding remove_stale_peers ◌>>=◌ remove_if_any
  remove_stale_peers-removed w id ids =
      if_free
        (λ w.
          stale_peers w.now w.peer_db ≡ id ∷ ids
          → remove_stale_peers env w ≡ stuck (removed (id ∷ ids) w))
        (λ w e. rw (e) (remove_peers-stuck (record w { held = none_held }) (id ∷ ids) refl)) w

  -- Where no lock is held and a peer was last seen more than 60 seconds ago, `remove_stale_peers`
  -- never returns: the peers that were last seen more than 60 seconds ago and their sessions are
  -- gone, the other peers and their sessions are as before, nothing is sent, and it waits for the
  -- lock of the sessions, which it holds along with the lock of the peers.
  pub remove_stale_peers-stuck :
      (w : World Hs Ts) (id : ℕ) (info : PeerInfo)
      → w.held ≡ none_held
      → IsMap w.peer_db
      → get id w.peer_db ≡ some info
      → info.last_seen + 60000000000 < w.now
      → (v : World Hs Ts) × (remove_stale_peers env w ≡ stuck v)
        × ((k : ℕ) (i : PeerInfo)
            → get k w.peer_db ≡ some i
            → i.last_seen + 60000000000 < w.now
            → (get k v.peer_db ≡ none) × (get k v.session_db ≡ none))
        × ((k : ℕ) (i : PeerInfo)
            → get k w.peer_db ≡ some i
            → w.now ≤ i.last_seen + 60000000000
            → (get k v.peer_db ≡ some i) × (get k v.session_db ≡ get k w.session_db))
        × (v.sent ≡ w.sent)
        × (v.held.peer ≡ true)
        × (v.held.session ≡ true)
  remove_stale_peers-stuck w id info free d g late =
      let stale = stale_peers w.now w.peer_db in
      let (first, rest, e) =
        IsIn-split id stale (stale_peers-IsIn w.now w.peer_db id info g late) in
      (
        removed (first ∷ rest) w,
        remove_stale_peers-removed w first rest free e,
        λ k i h l.
            let gone : IsIn k (first ∷ rest) =
              subst (IsIn k) e (stale_peers-IsIn w.now w.peer_db k i h l) in
            (
              get-remove_each k (first ∷ rest) w.peer_db gone,
              get-remove_each k (first ∷ rest) w.session_db gone,
            ),
        λ k i h l.
            let kept : IsIn k (first ∷ rest) → ⊥ =
              λ j. IsIn-stale_peers w.now w.peer_db k i d h l (subst (IsIn k) (sym e) j) in
            (
              get-remove_each-other k (first ∷ rest) w.peer_db kept ∙ h,
              get-remove_each-other k (first ∷ rest) w.session_db kept,
            ),
        refl,
        refl,
        refl,
      )
