-- ===== src/Node/Metrics/Reports.antt =====
-- A round of `update_metrics` of crates/node/src/node.rs.
use swarm_mesh.Prelude.{
  ℕ, ◌+◌, ◌%◌, ◌^◌, false, List, [], ◌∷◌, some, ok, Text, ◌≡◌, refl, sym, ap, ◌∙◌, if◌then◌else◌,
  ◌==◌, text_key, texts_key, filter_map, Option-cases, inl, inr,
}
use swarm_mesh.HashMap.{Map}
use swarm_mesh.Decimal.{to_string}
use swarm_mesh.Mesh.Message.{NodeId}
use swarm_mesh.Mesh.Peer.{SocketAddr, PeerInfo, PeerSession}
use swarm_mesh.Mesh.Rtt.{RttStats}
use swarm_mesh.Node.Gauges.{GaugeLaws}
use swarm_mesh.Node.World.{World, done, pure, peer_lock, session_lock, acquire}
use swarm_mesh.Node.World.Runs.{with_lock-done}
use swarm_mesh.Node.Metrics.{
  Host, Metrics, update_connected_peers_count, connected_peer, report_peers, report, update_metrics,
}
use swarm_mesh.Node.Metrics.Shown.{
  shown, shown_total, IsReady, shown_after, counted, update_peer_rtt_lem,
}

module _ {Hs Ts : Type 0} where
  -- The peers that a round reports.
  abbrev pub connected :
      Map NodeId (PeerSession Hs Ts) → Map NodeId PeerInfo → List (NodeId × ℕ × RttStats)
  connected sessions peers = filter_map (connected_peer sessions) peers

module _ {F G R Hs Ts : Type 0} (host : Host F G R) (laws : GaugeLaws host.gauges) where
  report_peers_lem :
      (own : NodeId) (local_ip : Text) (sessions : Map NodeId (PeerSession Hs Ts))
      (peers : Map NodeId PeerInfo) (count : ℕ) (m : Metrics G R)
      → IsReady host m
      → (n : Metrics G R) × (report_peers host own local_ip sessions peers count m
          ≡ some (counted count (connected sessions peers), n))
        × IsReady host n
        × ((ks : List Text)
            → shown host n ks
              ≡ shown_after host own local_ip ks (connected sessions peers) (shown host m ks))
        × ((ks : List Text) → shown_total host n ks ≡ shown_total host m ks)
  unfolding report_peers shown_after counted
  report_peers_lem own local_ip sessions [] count m r = (m, refl, r, λ ks. refl, λ ks. refl)
  report_peers_lem own local_ip sessions (peer ∷ peers) count m r =
      elim (Option-cases (connected_peer sessions peer)) [
        | inl q ↦
            let (n, e, r, s, t) = report_peers_lem own local_ip sessions peers count m r in
            (n, rw (q, report_peers) e, r, λ ks. rw (q) (s ks), t)
        | inr ((id, ip, stats), q) ↦
            let (m₁, e₁, r₁, s₁, t₁) =
              update_peer_rtt_lem host laws own id local_ip (host.ip_to_string ip) stats m r in
            let (n, e, r, s, t) =
              report_peers_lem own local_ip sessions peers ((count + 1) % 2 ^ 64) m₁ r₁ in
            (
              n,
              rw (q, report_peers) (rw (e₁) e),
              r,
              λ ks.
                  rw (q) (
                    s ks
                    ∙ ap (shown_after host own local_ip ks (connected sessions peers)) (s₁ ks)),
              λ ks. t ks ∙ t₁ ks,
            )
      ]

  report_lem :
      (own : NodeId) (port : ℕ) (local_ip : Text) (sessions : Map NodeId (PeerSession Hs Ts))
      (peers : Map NodeId PeerInfo) (m : Metrics G R)
      → IsReady host m
      → (n : Metrics G R) × (report host own port local_ip sessions peers m ≡ some n)
        × IsReady host n
        × ((ks : List Text)
            → shown host n ks
              ≡ shown_after host own local_ip ks (connected sessions peers) (shown host m ks))
        × ((ks : List Text)
            → shown_total host n ks ≡ (
                if to_string own ∷ local_ip ∷ to_string port ∷ [] == ks
                then some (host.f64.from_usize (counted 0 (connected sessions peers)))
                else shown_total host m ks))
  unfolding report update_connected_peers_count
  report_lem own port local_ip sessions peers m r =
      let (n, e, (a, b, c, d, f), s, t) = report_peers_lem own local_ip sessions peers 0 m r in
      let (g, q, l, v) =
        laws.set_lem (to_string own ∷ local_ip ∷ to_string port ∷ [])
          (host.f64.from_usize (counted 0 (connected sessions peers))) n.connected_peers_total
          (sym f) in
      (
        record n { connected_peers_total = g },
        rw (e) (rw (q) refl),
        (a, b, c, d, l ∙ f),
        s,
        λ ks.
            v ks
            ∙ ap
                (λ x.
                  if to_string own ∷ local_ip ∷ to_string port ∷ [] == ks
                  then some (host.f64.from_usize (counted 0 (connected sessions peers)))
                  else x)
                (t ks),
      )

  update_metrics-done :
      (m n : Metrics G R) (addr : SocketAddr) (w : World Hs Ts)
      → host.local_addr ≡ some addr
      → report host w.id w.unicast_port (host.ip_to_string addr.ip) w.session_db w.peer_db m
        ≡ some n
      → w.held.peer ≡ false
      → w.held.session ≡ false
      → update_metrics host m w ≡ done (ok n) w
  unfolding update_metrics pure
  update_metrics-done m n addr w a e f g =
      let outer = acquire peer_lock w.held in
      with_lock-done peer_lock _ w (record w { held = outer }) (ok n) f
        (with_lock-done session_lock _ (record w { held = outer })
          (record w { held = acquire session_lock outer }) (ok n) g (rw (a) (rw (e) refl)))

  -- What a round does where neither lock is held.
  pub update_metrics_lem :
      (m : Metrics G R) (addr : SocketAddr) (w : World Hs Ts)
      → host.local_addr ≡ some addr
      → IsReady host m
      → w.held.peer ≡ false
      → w.held.session ≡ false
      → (n : Metrics G R) × (update_metrics host m w ≡ done (ok n) w)
        × IsReady host n
        × ((ks : List Text)
            → shown host n ks
              ≡ shown_after host w.id
                  (host.ip_to_string addr.ip)
                  ks
                  (connected w.session_db w.peer_db)
                  (shown host m ks))
        × ((ks : List Text)
            → shown_total host n ks ≡ (
                if to_string w.id ∷ host.ip_to_string addr.ip ∷ to_string w.unicast_port ∷ [] == ks
                then some (host.f64.from_usize (counted 0 (connected w.session_db w.peer_db)))
                else shown_total host m ks))
  update_metrics_lem m addr w a r f g =
      let (n, e, r, s, t) =
        report_lem w.id w.unicast_port (host.ip_to_string addr.ip) w.session_db w.peer_db m r in
      (n, update_metrics-done m n addr w a e f g, r, s, t)
