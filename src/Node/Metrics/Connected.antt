-- ===== src/Node/Metrics/Connected.antt =====
-- The peers that a round of `update_metrics` of crates/node/src/node.rs reports, and their gauges.
use swarm_mesh.Prelude.{
  ℕ, ◌+◌, ◌%◌, ◌^◌, ◌≤◌, ◌<◌, List, [], ◌∷◌, none, some, some-injective, Text, ◌≡◌, ◌≢◌, refl, sym,
  ap, ◌∙◌, ◌==◌, ◌⊎◌, nat_key, text_key, texts_key, length, All, All-IsIn, All-of_IsIn, IsIn,
  IsIn-filter_map, Bool-cases, Option-cases, inl, inr, arith,
}
use swarm_mesh.HashMap.{Map, get, IsMap}
use swarm_mesh.HashMap.Laws.{IsIn-get}
use swarm_mesh.Service.Numbers.{to_string_injective}
use swarm_mesh.Mesh.Message.{NodeId}
use swarm_mesh.Mesh.Peer.{PeerInfo, PeerSession, is_transport}
use swarm_mesh.Mesh.Rtt.{RttStats}
use swarm_mesh.Node.Metrics.{Host, labels_of, connected_peer}
use swarm_mesh.Node.Metrics.Shown.{Shown, reading_of, shown_after, counted}
use swarm_mesh.Node.Metrics.Reports.{connected}

-- The keys are `u32`.
abbrev pub IsBounded : Map NodeId PeerInfo → Type 0
IsBounded = All (λ p. p.0 < 2 ^ 32)

abbrev pub AreBounded : List (NodeId × ℕ × RttStats) → Type 0
AreBounded = All (λ p. p.0 < 2 ^ 32)

abbrev pub AreDistinct : List (NodeId × ℕ × RttStats) → Type 0
AreDistinct [] = Unit
AreDistinct (p ∷ ps) = All (λ q. q.0 ≢ p.0) ps × AreDistinct ps

second : List Text → Text
second (a ∷ b ∷ rest) = b
second _ = []

pub counted-length :
    (n : ℕ) (ps : List (NodeId × ℕ × RttStats))
    → n + length ps < 2 ^ 64
    → counted n ps ≡ n + length ps
unfolding counted
counted-length n [] h = omega (arith, h)
counted-length n (p ∷ ps) h =
    let wrap : (n + 1) % 2 ^ 64 ≡ n + 1 = omega (arith, h) in
    ap (λ k. counted k ps) wrap ∙ counted-length (n + 1) ps (omega (arith, h)) ∙ omega arith

module _ {F G R : Type 0} (host : Host F G R) (own : NodeId) (local_ip : Text) where
  remote_ids :
      (i j : NodeId) (s t : Text)
      → i < 2 ^ 32
      → j < 2 ^ 32
      → labels_of host own i local_ip s ≡ labels_of host own j local_ip t
      → i ≡ j
  unfolding second
  remote_ids i j s t a b e = to_string_injective i j a b (ap second e)

  pub shown_after-other :
      (r : NodeId) (remote_ip : Text) (ps : List (NodeId × ℕ × RttStats)) (old : Shown F)
      → r < 2 ^ 32
      → AreBounded ps
      → All (λ p. p.0 ≢ r) ps
      → shown_after host own local_ip (labels_of host own r local_ip remote_ip) ps old ≡ old
  unfolding shown_after
  shown_after-other r remote_ip [] old a b h = refl
  shown_after-other r remote_ip ((id, ip, stats) ∷ ps) old a b h =
      let ks = labels_of host own r local_ip remote_ip in
      let labels = labels_of host own id local_ip (host.ip_to_string ip) in
      elim (Bool-cases (labels == ks)) [
        | inl q ↦
            elim (h.0 (
              remote_ids id r (host.ip_to_string ip) remote_ip b.0 a
                ((texts_key.agrees_iff labels ks).0 q))) [ ]
        | inr q ↦ rw (q) (shown_after-other r remote_ip ps old a b.1 h.1)
      ]

  pub shown_after-own :
      (id : NodeId) (ip : ℕ) (stats : RttStats) (ps : List (NodeId × ℕ × RttStats)) (old : Shown F)
      → id < 2 ^ 32
      → AreBounded ps
      → AreDistinct ps
      → IsIn (id, ip, stats) ps
      → shown_after host own local_ip (labels_of host own id local_ip (host.ip_to_string ip)) ps old
        ≡ reading_of host stats old
  unfolding shown_after
  shown_after-own id ip stats [] old a b d i = elim i [ ]
  shown_after-own id ip stats ((j, jp, st) ∷ ps) old a b d (inl e) =
      let ks = labels_of host own id local_ip (host.ip_to_string ip) in
      let same : labels_of host own j local_ip (host.ip_to_string jp) ≡ ks =
        ap (λ p. labels_of host own p.0 local_ip (host.ip_to_string p.1)) (sym e) in
      rw ((texts_key.agrees_iff _ ks).1 same) (
        shown_after-other id (host.ip_to_string ip) ps _ a b.1 (rw (ap (λ p. p.0) e) d.0)
        ∙ ap (λ p. reading_of host p.2 old) (sym e))
  shown_after-own id ip stats ((j, jp, st) ∷ ps) old a b d (inr i) =
      let ks = labels_of host own id local_ip (host.ip_to_string ip) in
      let labels = labels_of host own j local_ip (host.ip_to_string jp) in
      elim (Bool-cases (labels == ks)) [
        | inl q ↦
            let same =
              remote_ids j id (host.ip_to_string jp) (host.ip_to_string ip) b.0 a
                ((texts_key.agrees_iff labels ks).0 q) in
            elim (All-IsIn (λ p. p.0 ≢ j) ps d.0 i (sym same)) [ ]
        | inr q ↦ rw (q) (shown_after-own id ip stats ps old a b.1 d.1 i)
      ]

module _ {Hs Ts : Type 0} (sessions : Map NodeId (PeerSession Hs Ts)) where
  connected_peer-cases :
      (id : NodeId) (info : PeerInfo)
      → (connected_peer sessions (id, info) ≡ none)
        ⊎ ((stats : RttStats) × (connected_peer sessions (id, info)
              ≡ some (id, info.addr.ip, stats)))
  unfolding connected_peer
  connected_peer-cases id info = elim (Option-cases (get id sessions)) [
    | inl g ↦ inl (rw (g, connected_peer) refl)
    | inr (s, g) ↦ elim (Bool-cases (is_transport s.noise)) [
      | inl t ↦ elim (Option-cases info.rtt_stats) [
        | inl h ↦ inl (rw (g, connected_peer, t, h) refl)
        | inr (stats, h) ↦ inr (stats, rw (g, connected_peer, t, h) refl)
      ]
      | inr t ↦ inl (rw (g, connected_peer, t) refl)
    ]
  ]

  connected_peer-id :
      (e : NodeId × PeerInfo) (p : NodeId × ℕ × RttStats)
      → connected_peer sessions e ≡ some p
      → e.0 ≡ p.0
  connected_peer-id (id, info) p q = elim (connected_peer-cases id info) [
    | inl h ↦ cc
    | inr (stats, h) ↦ ap (λ r. r.0) (some-injective (id, info.addr.ip, stats) p (sym h ∙ q))
  ]

  pub connected-AreBounded :
      (peers : Map NodeId PeerInfo) → IsBounded peers → AreBounded (connected sessions peers)
  connected-AreBounded peers b = All-of_IsIn _ λ p i.
      let (e, j, q) = (IsIn-filter_map (connected_peer sessions) peers p).0 i in
      rw (sym (connected_peer-id e p q)) (All-IsIn (λ x. x.0 < 2 ^ 32) peers b j)

  pub connected-other :
      (id : NodeId) (peers : Map NodeId PeerInfo)
      → IsMap peers
      → get id peers ≡ none
      → All (λ q. q.0 ≢ id) (connected sessions peers)
  connected-other id peers d g = All-of_IsIn _ λ p i same.
      let ((k, info), j, q) = (IsIn-filter_map (connected_peer sessions) peers p).0 i in
      let found : get id peers ≡ some info =
        ap (λ x. get x peers) (sym (connected_peer-id (k, info) p q ∙ same))
        ∙ IsIn-get k info peers d j in
      cc

  pub connected-AreDistinct :
      (peers : Map NodeId PeerInfo) → IsMap peers → AreDistinct (connected sessions peers)
  connected-AreDistinct [] d = tt
  connected-AreDistinct (e ∷ peers) d = elim (Option-cases (connected_peer sessions e)) [
    | inl q ↦ rw (q) (connected-AreDistinct peers d.1)
    | inr (p, q) ↦ rw (q) (
      rw (sym (connected_peer-id e p q)) (connected-other e.0 peers d.1 d.0),
      connected-AreDistinct peers d.1,
    )
  ]

  pub length-connected :
      (peers : Map NodeId PeerInfo) → length (connected sessions peers) ≤ length peers
  length-connected [] = omega arith
  length-connected (e ∷ peers) = elim (Option-cases (connected_peer sessions e)) [
    | inl q ↦ rw (q) (omega (arith, length-connected peers))
    | inr (p, q) ↦ rw (q) (omega (arith, length-connected peers))
  ]
