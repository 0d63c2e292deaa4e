-- ===== src/Node/Metrics/Reported.antt =====
-- Which peers a round of `update_metrics` of crates/node/src/node.rs counts.
use swarm_mesh.Prelude.{
  ℕ, suc, ◌≢◌, ◌↔◌, sym, subst, some-injective, map, List, All, IsIn, Option, Option-cases,
  Bool-cases, inl, inr, [], ◌∷◌, none, some, ◌≡◌, refl, ap, ◌∙◌, nat_key, text_key, texts_key,
  length, IsIn-filter_map,
}
use swarm_mesh.HashMap.{Map, get, IsMap}
use swarm_mesh.HashMap.Laws.{get-eq_some, IsIn-get}
use swarm_mesh.Mesh.Message.{NodeId}
use swarm_mesh.Mesh.Peer.{PeerInfo, PeerSession, transport, is_transport}
use swarm_mesh.Mesh.Rtt.{RttStats}
use swarm_mesh.Node.Ping.{has_transport}
use swarm_mesh.Node.Secure.{IsSecure, has_transport-IsSecure}
use swarm_mesh.Node.Metrics.{connected_peer}
use swarm_mesh.Node.Metrics.Reports.{connected}
use swarm_mesh.Node.Metrics.Connected.{AreDistinct}

-- No id stands there twice.
abbrev pub AreDifferent : List NodeId → Type 0
AreDifferent [] = Unit {0}
AreDifferent (k ∷ ks) = All (λ j. j ≢ k) ks × AreDifferent ks

IsIn-map :
    {A B : Type 0} (f : A → B) (xs : List A) (b : B)
    → IsIn b (map f xs) ↔ ((a : A) × IsIn a xs × (f a ≡ b))
IsIn-map f [] b = (λ i. absurd i, λ (a, i, e). absurd i)
IsIn-map f (x ∷ xs) b = (
  λ i. elim i [
    | inl e ↦ (x, inl refl, sym e)
    | inr j ↦ let (a, k, e) = (IsIn-map f xs b).0 j in (a, inr k, e)
  ],
  λ (a, i, e). elim i [
    | inl q ↦ inl (sym e ∙ ap f q)
    | inr j ↦ inr ((IsIn-map f xs b).1 (a, j, e))
  ],
)

pub length-map : {A B : Type 0} (f : A → B) (xs : List A) → length (map f xs) ≡ length xs
length-map f [] = refl
length-map f (x ∷ xs) = ap suc (length-map f xs)

All-map :
    {A B : Type 0} (f : A → B) (P : B → Type 0) (xs : List A)
    → All (λ a. P (f a)) xs
    → All P (map f xs)
All-map f P [] h = tt
All-map f P (x ∷ xs) h = (h.0, All-map f P xs h.1)

pub AreDifferent-map :
    (ps : List (NodeId × ℕ × RttStats)) → AreDistinct ps → AreDifferent (map (λ p. p.0) ps)
AreDifferent-map [] d = tt
AreDifferent-map (p ∷ ps) d = (All-map (λ q. q.0) (λ j. j ≢ p.0) ps d.0, AreDifferent-map ps d.1)

-- A peer with a session in transport mode and round trip statistics.
abbrev pub IsReported :
    {Hs Ts : Type 0} → Map NodeId (PeerSession Hs Ts) → Map NodeId PeerInfo → NodeId → Type 0
IsReported sessions peers k =
    (i : PeerInfo) × (s : RttStats) × (get k peers ≡ some i)
    × IsSecure k sessions
    × (i.rtt_stats ≡ some s)

module _ {Hs Ts : Type 0} where
  pub connected_peer-transport :
      (sessions : Map NodeId (PeerSession Hs Ts)) (id : NodeId) (info : PeerInfo) (ts : Ts)
      (stats : RttStats)
      → get id sessions ≡ some (record { noise = transport ts })
      → info.rtt_stats ≡ some stats
      → connected_peer sessions (id, info) ≡ some (id, info.addr.ip, stats)
  unfolding connected_peer
  connected_peer-transport sessions id info ts stats g h = rw (g, connected_peer, h) refl

  connected_peer-IsReported :
      (sessions : Map NodeId (PeerSession Hs Ts)) (id : NodeId) (info : PeerInfo)
      (p : NodeId × ℕ × RttStats)
      → connected_peer sessions (id, info) ≡ some p
      → IsSecure id sessions
        × ((stats : RttStats) × (info.rtt_stats ≡ some stats) × (p ≡ (id, info.addr.ip, stats)))
  unfolding connected_peer has_transport
  connected_peer-IsReported sessions id info p e = elim (Option-cases (get id sessions)) [
    | inl g ↦
        let bad : ◌≡◌ {A = Option (NodeId × ℕ × RttStats)} none (some p) =
          sym (rw (g, connected_peer) refl) ∙ e in
        absurd cc
    | inr (s, g) ↦ elim (Bool-cases (is_transport s.noise)) [
      | inr t ↦
          let bad : ◌≡◌ {A = Option (NodeId × ℕ × RttStats)} none (some p) =
            sym (rw (g, connected_peer, t) refl) ∙ e in
          absurd cc
      | inl t ↦ elim (Option-cases info.rtt_stats) [
        | inl h ↦
            let bad : ◌≡◌ {A = Option (NodeId × ℕ × RttStats)} none (some p) =
              sym (rw (g, connected_peer, t, h) refl) ∙ e in
            absurd cc
        | inr (stats, h) ↦
            let same : some (id, info.addr.ip, stats) ≡ some p =
              sym (rw (g, connected_peer, t, h) refl) ∙ e in
            (
              (has_transport-IsSecure id sessions).0 (rw (g, has_transport) t),
              (stats, h, sym (some-injective (id, info.addr.ip, stats) p same)),
            )
      ]
    ]
  ]

  -- The ids of the peers that a round reports.
  abbrev pub reported_ids : Map NodeId (PeerSession Hs Ts) → Map NodeId PeerInfo → List NodeId
  reported_ids sessions peers = map (λ p. p.0) (connected sessions peers)

  pub reported_ids-IsReported :
      (sessions : Map NodeId (PeerSession Hs Ts)) (peers : Map NodeId PeerInfo) (k : NodeId)
      → IsMap peers
      → IsIn k (reported_ids sessions peers) ↔ IsReported sessions peers k
  reported_ids-IsReported sessions peers k d = (
    λ i.
        let (p, j, e) = (IsIn-map (λ p. p.0) (connected sessions peers) k).0 i in
        let ((id, info), l, q) = (IsIn-filter_map (connected_peer sessions) peers p).0 j in
        let (secure, (stats, st, same)) = connected_peer-IsReported sessions id info p q in
        let is_k : id ≡ k = sym (ap (λ r. r.0) same) ∙ e in
        subst (IsReported sessions peers) is_k
          (info, stats, IsIn-get id info peers d l, secure, st),
    λ (info, stats, g, (ts, h), st). (IsIn-map (λ p. p.0) (connected sessions peers) k).1 (
      (k, info.addr.ip, stats),
      (IsIn-filter_map (connected_peer sessions) peers (k, info.addr.ip, stats)).1 (
        (k, info),
        get-eq_some k info peers g,
        connected_peer-transport sessions k info ts stats h st,
      ),
      refl,
    ),
  )
