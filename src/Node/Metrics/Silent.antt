-- ===== src/Node/Metrics/Silent.antt =====
-- What `update_metrics` of crates/node/src/node.rs reports while a node runs.
use swarm_mesh.Prelude.{
  false, List, [], ◌∷◌, none, some, ok, err, Text, ◌≡◌, refl, ap, ◌∙◌, ◌⊎◌, inl, inr, ◌==◌, nat_key,
  text_key, texts_key, Bool-cases, Option-cases,
}
use swarm_mesh.HashMap.{Map, get}
use swarm_mesh.Decimal.{to_string}
use swarm_mesh.Mesh.Message.{NodeId}
use swarm_mesh.Mesh.Peer.{SocketAddr, PeerInfo, PeerSession}
use swarm_mesh.Node.Gauges.{GaugeLaws}
use swarm_mesh.Node.World.{World, done, stuck, pure, peer_lock, session_lock, acquire}
use swarm_mesh.Node.World.Runs.{with_lock-done, with_lock-held, with_lock-stuck}
use swarm_mesh.Node.System.Quiet.{NoTransport, IsQuiet, get-NoTransport}
use swarm_mesh.Node.Metrics.{Host, Metrics, no_local_addr, connected_peer, update_metrics}
use swarm_mesh.Node.Metrics.Shown.{shown, shown_total, IsReady, shown_after, counted}
use swarm_mesh.Node.Metrics.Reports.{connected, update_metrics_lem}

module _ {Hs Ts : Type 0} (sessions : Map NodeId (PeerSession Hs Ts)) where
  connected_peer-NoTransport :
      (e : NodeId × PeerInfo) → NoTransport sessions → connected_peer sessions e ≡ none
  unfolding connected_peer
  connected_peer-NoTransport (id, info) h = elim (Option-cases (get id sessions)) [
    | inl g ↦ rw (g, connected_peer) refl
    | inr (s, g) ↦ rw (g, connected_peer, get-NoTransport id s sessions h g) refl
  ]

  connected-NoTransport :
      (peers : Map NodeId PeerInfo) → NoTransport sessions → connected sessions peers ≡ []
  connected-NoTransport [] h = refl
  connected-NoTransport (e ∷ peers) h =
      rw (connected_peer-NoTransport e h) (connected-NoTransport peers h)

module _ {F G R Hs Ts : Type 0} (host : Host F G R) where
  update_metrics-held :
      (m : Metrics G R) (w : World Hs Ts)
      → (update_metrics host m w ≡ stuck w)
        ⊎ ((update_metrics host m w ≡ stuck (record w { held = acquire peer_lock w.held }))
            ⊎ ((w.held.peer ≡ false) × (w.held.session ≡ false)))
  unfolding update_metrics
  update_metrics-held m w = elim (Bool-cases w.held.peer) [
    | inl p ↦ inl (with_lock-held peer_lock _ w p)
    | inr p ↦ elim (Bool-cases w.held.session) [
      | inl s ↦ inr (
          inl (
            with_lock-stuck peer_lock _ w _ p
              (with_lock-held session_lock _ (record w { held = acquire peer_lock w.held }) s)))
      | inr s ↦ inr (inr (p, s))
    ]
  ]

module _ {F G R Hs Ts : Type 0} (host : Host F G R) (laws : GaugeLaws host.gauges) where
  -- The round returns, and the tables are as before, but for the number of peers.
  abbrev pub IsUnreported : Metrics G R → World Hs Ts → Metrics G R → Type 0
  IsUnreported m w n =
      (update_metrics host m w ≡ done (ok n) w)
      × IsReady host n
      × ((ks : List Text) → shown host n ks ≡ shown host m ks)
      × ((ks : List Text)
          → (shown_total host n ks ≡ shown_total host m ks)
            ⊎ (shown_total host n ks ≡ some (host.f64.from_usize 0)))

  unreported :
      (m : Metrics G R) (addr : SocketAddr) (w : World Hs Ts)
      → host.local_addr ≡ some addr
      → IsReady host m
      → w.held.peer ≡ false
      → w.held.session ≡ false
      → NoTransport w.session_db
      → (n : Metrics G R) × IsUnreported m w n
  unfolding shown_after counted
  unreported m addr w a r p s h =
      let local_ip = host.ip_to_string addr.ip in
      let labels = to_string w.id ∷ local_ip ∷ to_string w.unicast_port ∷ [] in
      let no_peers = connected-NoTransport w.session_db w.peer_db h in
      let (n, e, ready, sh, t) = update_metrics_lem host laws m addr w a r p s in
      (
        n,
        (
          e,
          ready,
          λ ks. sh ks ∙ ap (λ ps. shown_after host w.id local_ip ks ps (shown host m ks)) no_peers,
          λ ks. elim (Bool-cases (labels == ks)) [
            | inl q ↦
                inr (t ks ∙ rw (q) (ap (λ ps. some (host.f64.from_usize (counted 0 ps))) no_peers))
            | inr q ↦ inl (t ks ∙ rw (q) refl)
          ],
        ),
      )

  failed :
      (m : Metrics G R) (w : World Hs Ts)
      → host.local_addr ≡ none
      → w.held.peer ≡ false
      → w.held.session ≡ false
      → update_metrics host m w ≡ done (err no_local_addr) w
  unfolding update_metrics pure
  failed m w a p s =
      let outer = acquire peer_lock w.held in
      with_lock-done peer_lock _ w (record w { held = outer }) (err no_local_addr) p
        (with_lock-done session_lock _ (record w { held = outer })
          (record w { held = acquire session_lock outer }) (err no_local_addr) s (rw (a) refl))

  -- The ways in which a round ends in a quiet world.
  pub update_metrics-quiet :
      (m : Metrics G R) (w : World Hs Ts)
      → IsReady host m
      → IsQuiet w
      → (update_metrics host m w ≡ stuck w)
        ⊎ ((update_metrics host m w ≡ stuck (record w { held = acquire peer_lock w.held }))
            ⊎ ((update_metrics host m w ≡ done (err no_local_addr) w)
                ⊎ ((n : Metrics G R) × IsUnreported m w n)))
  update_metrics-quiet m w r q = elim (update_metrics-held host m w) [
    | inl e ↦ inl e
    | inr (inl e) ↦ inr (inl e)
    | inr (inr (p, s)) ↦ elim q.1 [
      | inr locked ↦ absurd cc
      | inl h ↦ elim (Option-cases host.local_addr) [
        | inl a ↦ inr (inr (inl (failed m w a p s)))
        | inr (addr, a) ↦ inr (inr (inr (unreported m addr w a r p s h)))
      ]
    ]
  ]
