-- ===== src/Node/Metrics/Exact.antt =====
-- The gauges after a round of `update_metrics` of crates/node/src/node.rs: those of the connected
-- peers, and all others.
use swarm_mesh.Prelude.{
  ℕ, ◌↔◌, sym, List, IsIn, Option-cases, inl, inr, ◌^◌, ◌<◌, false, [], ◌∷◌, none, some, ok, Text,
  ◌≡◌, refl, ap, ◌∙◌, nat_key, text_key, texts_key, length, All-IsIn, IsIn-filter_map, arith,
}
use swarm_mesh.HashMap.{get, IsMap}
use swarm_mesh.HashMap.Laws.{get-eq_some}
use swarm_mesh.Decimal.{to_string}
use swarm_mesh.Mesh.Message.{NodeId}
use swarm_mesh.Mesh.Peer.{SocketAddr, PeerInfo, transport}
use swarm_mesh.Mesh.Rtt.{RttStats}
use swarm_mesh.Node.Gauges.{GaugeLaws}
use swarm_mesh.Node.World.{World, done}
use swarm_mesh.Node.Metrics.{Host, Metrics, labels_of, connected_peer, update_metrics}
use swarm_mesh.Node.Metrics.Shown.{shown, IsReady, counted}
use swarm_mesh.Node.Metrics.Reports.{connected, update_metrics_lem}
use swarm_mesh.Node.Metrics.Connected.{
  IsBounded, shown_after-other, shown_after-own, counted-length, connected-AreBounded,
  connected-other, connected-AreDistinct, length-connected,
}
use swarm_mesh.Node.Metrics.Reported.{
  AreDifferent, length-map, AreDifferent-map, IsReported, connected_peer-transport, reported_ids,
  reported_ids-IsReported,
}

module _ {F G R Hs Ts : Type 0} (host : Host F G R) (laws : GaugeLaws host.gauges) where
  -- If the address of the socket can be read and the tables are as `Metrics::new` makes them, a
  -- round in a world with neither lock held returns and changes nothing but the tables. The gauge of
  -- the node has the number of the peers with a session in transport mode and round trip
  -- statistics, and the gauges of each such peer have its statistics, 1000 times the seconds: the
  -- least, the greatest and the average one, and the current one if there is one.
  pub update_metrics-exact :
      (m : Metrics G R) (w : World Hs Ts) (addr : SocketAddr) (id : NodeId) (info : PeerInfo)
      (ts : Ts) (stats : RttStats)
      → host.local_addr ≡ some addr
      → IsReady host m
      → w.held.peer ≡ false
      → w.held.session ≡ false
      → IsMap w.peer_db
      → IsBounded w.peer_db
      → length w.peer_db < 2 ^ 64
      → get id w.peer_db ≡ some info
      → get id w.session_db ≡ some (record { noise = transport ts })
      → info.rtt_stats ≡ some stats
      → let local_ip = host.ip_to_string addr.ip in
        let labels =
          to_string w.id ∷ to_string id ∷ local_ip ∷ host.ip_to_string info.addr.ip ∷ [] in
        let ms : ℕ → F = λ d. host.f64.mul (host.f64.as_secs_f64 d) (host.f64.lit 1000 0) in
        (n : Metrics G R) × (ids : List NodeId) × (update_metrics host m w ≡ done (ok n) w)
        × IsReady host n
        × AreDifferent ids
        × ((k : NodeId) → IsIn k ids ↔ IsReported w.session_db w.peer_db k)
        × (host.gauges.value
              (to_string w.id ∷ local_ip ∷ to_string w.unicast_port ∷ [])
              n.connected_peers_total
            ≡ some (host.f64.from_usize (length ids)))
        × (host.gauges.value labels n.peer_rtt_min ≡ some (ms stats.min_rtt))
        × (host.gauges.value labels n.peer_rtt_max ≡ some (ms stats.max_rtt))
        × (host.gauges.value labels n.peer_rtt_avg ≡ some (ms stats.avg_rtt))
        × (host.gauges.value labels n.peer_rtt_current ≡ (elim stats.current_rtt [
          | none ↦ host.gauges.value labels m.peer_rtt_current
          | some d ↦ some (ms d)
        ]))
  update_metrics-exact m w addr id info ts stats a r f g d b len p s st =
      let conn = connected w.session_db w.peer_db in
      let local_ip = host.ip_to_string addr.ip in
      let labels = to_string w.id ∷ local_ip ∷ to_string w.unicast_port ∷ [] in
      let (n, e, ready, sh, t) = update_metrics_lem host laws m addr w a r f g in
      let member = get-eq_some id info w.peer_db p in
      let reported =
        (IsIn-filter_map (connected_peer w.session_db) w.peer_db (id, info.addr.ip, stats)).1
          ((id, info), member, connected_peer-transport w.session_db id info ts stats s st) in
      let bounded = connected-AreBounded w.session_db w.peer_db b in
      let count : counted 0 conn ≡ length conn =
        counted-length 0 conn (omega (arith, length-connected w.session_db w.peer_db, len))
        ∙ omega arith in
      let reading =
        sh _
        ∙ shown_after-own host w.id local_ip id info.addr.ip stats conn _
            (All-IsIn (λ x. x.0 < 2 ^ 32) w.peer_db b member) bounded
            (connected-AreDistinct w.session_db w.peer_db d) reported in
      (
        n,
        reported_ids w.session_db w.peer_db,
        e,
        ready,
        AreDifferent-map conn (connected-AreDistinct w.session_db w.peer_db d),
        λ k. reported_ids-IsReported w.session_db w.peer_db k d,
        t labels
            ∙ rw ((texts_key.agrees_iff labels labels).1 refl)
                (ap (λ k. some (host.f64.from_usize k)) (count ∙ sym (length-map (λ p. p.0) conn))),
        ap (λ r. r.min) reading,
        ap (λ r. r.max) reading,
        ap (λ r. r.avg) reading,
        ap (λ r. r.current) reading ∙ elim (Option-cases stats.current_rtt) [
          | inl c ↦ rw (c) refl
          | inr (x, c) ↦ rw (c) refl
        ],
      )

  -- If the address of the socket can be read, the tables are as `Metrics::new` makes them and
  -- neither lock is held, a round leaves the gauges of every id as they are that is no longer in
  -- the table of peers.
  pub update_metrics-other :
      (m : Metrics G R) (w : World Hs Ts) (addr : SocketAddr) (id : NodeId) (remote_ip : Text)
      → host.local_addr ≡ some addr
      → IsReady host m
      → w.held.peer ≡ false
      → w.held.session ≡ false
      → IsMap w.peer_db
      → IsBounded w.peer_db
      → id < 2 ^ 32
      → get id w.peer_db ≡ none
      → (n : Metrics G R) × (update_metrics host m w ≡ done (ok n) w)
        × (shown host n (labels_of host w.id id (host.ip_to_string addr.ip) remote_ip)
            ≡ shown host m (labels_of host w.id id (host.ip_to_string addr.ip) remote_ip))
  update_metrics-other m w addr id remote_ip a r f g d b lt p =
      let (n, e, ready, sh, t) = update_metrics_lem host laws m addr w a r f g in
      (
        n,
        e,
        sh _
            ∙ shown_after-other host w.id (host.ip_to_string addr.ip) id remote_ip
                (connected w.session_db w.peer_db) _ lt
                (connected-AreBounded w.session_db w.peer_db b)
                (connected-other w.session_db id w.peer_db d p),
      )
