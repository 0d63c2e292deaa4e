-- ===== src/Node/Metrics/New.antt =====
-- `Metrics::new` of crates/node/src/metrics.rs.
use swarm_mesh.Prelude.{
  false, List, [], ◌∷◌, none, some, Text, literal, ◌≡◌, refl, ◌∙◌, text_eqb, text_key,
}
use swarm_mesh.Node.Gauges.{GaugeLaws, is_listed}
use swarm_mesh.Node.Metrics.{Host, Metrics, new_metrics, peer_labels, node_labels}
use swarm_mesh.Node.Metrics.Shown.{shown, shown_total, IsReady}

abbrev pub metric_names : List Text
metric_names =
    literal "mesh_connected_peers_total"
    ∷ literal "mesh_peer_rtt_avg_milliseconds"
    ∷ literal "mesh_peer_rtt_max_milliseconds"
    ∷ literal "mesh_peer_rtt_min_milliseconds"
    ∷ literal "mesh_peer_rtt_current_milliseconds"
    ∷ []

module _ {F G R : Type 0} (host : Host F G R) (laws : GaugeLaws host.gauges) where
  -- `register` of a table, when the names in the registry and that of the table are known.
  register_one :
      (g : G) (r : R) (name : Text) (names : List Text)
      → host.gauges.name_of g ≡ name
      → host.gauges.names r ≡ names
      → is_listed name names ≡ false
      → (s : R) × (host.gauges.register g r ≡ some s) × (host.gauges.names s ≡ name ∷ names)
  register_one g r name names e f h =
      let (s, q, n) = laws.register_lem g r (rw (e, f) h) in (s, q, n ∙ rw (e, f) refl)

  -- `Metrics::new` succeeds. Its tables have the labels that the updates give values for, they are
  -- empty, and the registry has all five.
  pub new_metrics-IsReady :
      (m : Metrics G R) × (new_metrics host ≡ some m)
      × IsReady host m
      × (host.gauges.names m.registry ≡ metric_names)
      × ((ks : List Text)
          → (shown host m ks ≡ record { current = none; min = none; max = none; avg = none })
            × (shown_total host m ks ≡ none))
  unfolding new_metrics text_key text_eqb
  new_metrics-IsReady =
      let (g₁, e₁, n₁, c₁, v₁) =
        laws.new_gauge_lem (literal "mesh_peer_rtt_current_milliseconds")
          (literal "Current RTT to peer in milliseconds") peer_labels refl in
      let (g₂, e₂, n₂, c₂, v₂) =
        laws.new_gauge_lem (literal "mesh_peer_rtt_min_milliseconds")
          (literal "Minimum RTT to peer in milliseconds") peer_labels refl in
      let (g₃, e₃, n₃, c₃, v₃) =
        laws.new_gauge_lem (literal "mesh_peer_rtt_max_milliseconds")
          (literal "Maximum RTT to peer in milliseconds") peer_labels refl in
      let (g₄, e₄, n₄, c₄, v₄) =
        laws.new_gauge_lem (literal "mesh_peer_rtt_avg_milliseconds")
          (literal "Average RTT to peer in milliseconds") peer_labels refl in
      let (g₅, e₅, n₅, c₅, v₅) =
        laws.new_gauge_lem (literal "mesh_connected_peers_total")
          (literal "Total number of connected peers for this node") node_labels refl in
      let (r₁, q₁, s₁) =
        register_one g₁ host.gauges.new_registry _ [] n₁ laws.new_registry_lem refl in
      let (r₂, q₂, s₂) = register_one g₂ r₁ _ _ n₂ s₁ refl in
      let (r₃, q₃, s₃) = register_one g₃ r₂ _ _ n₃ s₂ refl in
      let (r₄, q₄, s₄) = register_one g₄ r₃ _ _ n₄ s₃ refl in
      let (r₅, q₅, s₅) = register_one g₅ r₄ _ _ n₅ s₄ refl in
      (
        record {
          registry = r₅;
          peer_rtt_current = g₁;
          peer_rtt_min = g₂;
          peer_rtt_max = g₃;
          peer_rtt_avg = g₄;
          connected_peers_total = g₅;
        },
        rw (e₁) (
            rw (e₂)
              (rw (e₃) (rw (e₄) (rw (e₅) (rw (q₁) (rw (q₂) (rw (q₃) (rw (q₄) (rw (q₅) refl))))))))),
        (c₁, c₂, c₃, c₄, c₅),
        s₅,
        λ ks. (rw (v₁ ks, v₂ ks, v₃ ks, v₄ ks) refl, v₅ ks),
      )
