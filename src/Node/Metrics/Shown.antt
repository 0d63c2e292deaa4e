-- ===== src/Node/Metrics/Shown.antt =====
-- What the tables of crates/node/src/metrics.rs have for some label values, and how the operations
-- change it, with the documented behaviour of the library.
use swarm_mesh.Prelude.{
  ℕ, ◌+◌, ◌%◌, ◌^◌, List, [], ◌∷◌, Option, none, some, Text, ◌≡◌, refl, ◌∙◌, if◌then◌else◌, ◌==◌,
  texts_key, length, sym, Bool-cases, inl, inr,
}
use swarm_mesh.Mesh.Message.{NodeId}
use swarm_mesh.Mesh.Rtt.{RttStats}
use swarm_mesh.Node.Gauges.{GaugeLaws}
use swarm_mesh.Node.Metrics.{Host, Metrics, milliseconds, labels_of, set_if_some, update_peer_rtt}

-- The round trip times that the tables have for some label values.
pub record Shown (F : Type 0) : Type 0 where
  pub current : Option F
  pub min : Option F
  pub max : Option F
  pub avg : Option F

module _ {F G R : Type 0} (host : Host F G R) where
  abbrev pub shown : Metrics G R → List Text → Shown F
  shown m ks = record {
    current = host.gauges.value ks m.peer_rtt_current;
    min = host.gauges.value ks m.peer_rtt_min;
    max = host.gauges.value ks m.peer_rtt_max;
    avg = host.gauges.value ks m.peer_rtt_avg;
  }

  abbrev pub shown_total : Metrics G R → List Text → Option F
  shown_total m ks = host.gauges.value ks m.connected_peers_total

  -- 1000 times the seconds.
  abbrev pub in_milliseconds : ℕ → F
  in_milliseconds d = host.f64.mul (host.f64.as_secs_f64 d) (host.f64.lit 1000 0)

  abbrev pub latest : Option ℕ → Option F → Option F
  latest none old = old
  latest (some d) old = some (in_milliseconds d)

  -- The statistics in milliseconds. Without a current value, that of before stays.
  abbrev pub reading_of : RttStats → Shown F → Shown F
  reading_of stats old = record {
    current = latest stats.current_rtt old.current;
    min = some (in_milliseconds stats.min_rtt);
    max = some (in_milliseconds stats.max_rtt);
    avg = some (in_milliseconds stats.avg_rtt);
  }

  -- The tables have the labels that the program gives values for.
  abbrev pub IsReady : Metrics G R → Type 0
  IsReady m =
      (host.gauges.label_count m.peer_rtt_current ≡ 4)
      × (host.gauges.label_count m.peer_rtt_min ≡ 4)
      × (host.gauges.label_count m.peer_rtt_max ≡ 4)
      × (host.gauges.label_count m.peer_rtt_avg ≡ 4)
      × (host.gauges.label_count m.connected_peers_total ≡ 3)

  -- What the tables have after the readings of some peers.
  unfoldable pub shown_after :
      NodeId → Text → List Text → List (NodeId × ℕ × RttStats) → Shown F → Shown F
  shown_after own local_ip ks [] old = old
  shown_after own local_ip ks ((id, ip, stats) ∷ ps) old = shown_after own local_ip ks ps (
      if labels_of host own id local_ip (host.ip_to_string ip) == ks
      then reading_of stats old
      else old)

-- `connected_count` after some peers.
unfoldable pub counted : ℕ → List (NodeId × ℕ × RttStats) → ℕ
counted n [] = n
counted n (p ∷ ps) = counted ((n + 1) % 2 ^ 64) ps

module _ {F G R : Type 0} (host : Host F G R) (laws : GaugeLaws host.gauges) where
  set_if_some_lem :
      (labels : List Text) (d : Option ℕ) (g : G)
      → length labels ≡ host.gauges.label_count g
      → (h : G) × (set_if_some host labels d g ≡ some h)
        × (host.gauges.label_count h ≡ host.gauges.label_count g)
        × ((ks : List Text)
            → host.gauges.value ks h ≡ (
                if labels == ks
                then latest host d (host.gauges.value ks g)
                else host.gauges.value ks g))
  set_if_some_lem labels none g e = (
    g,
    refl,
    refl,
    λ ks. elim (Bool-cases (labels == ks)) [ inl q ↦ rw q refl | inr q ↦ rw q refl ],
  )
  set_if_some_lem labels (some d) g e = laws.set_lem labels (milliseconds host d) g e

  pub update_peer_rtt_lem :
      (own id : NodeId) (local_ip remote_ip : Text) (stats : RttStats) (m : Metrics G R)
      → IsReady host m
      → (n : Metrics G R) × (update_peer_rtt host own id local_ip remote_ip stats m ≡ some n)
        × IsReady host n
        × ((ks : List Text)
            → shown host n ks ≡ (
                if labels_of host own id local_ip remote_ip == ks
                then reading_of host stats (shown host m ks)
                else shown host m ks))
        × ((ks : List Text) → shown_total host n ks ≡ shown_total host m ks)
  unfolding update_peer_rtt
  update_peer_rtt_lem own id local_ip remote_ip stats m (a, b, c, d, e) =
      let labels = labels_of host own id local_ip remote_ip in
      let (g₁, q₁, l₁, v₁) = set_if_some_lem labels stats.current_rtt m.peer_rtt_current (sym a) in
      let (g₂, q₂, l₂, v₂) =
        laws.set_lem labels (milliseconds host stats.min_rtt) m.peer_rtt_min (sym b) in
      let (g₃, q₃, l₃, v₃) =
        laws.set_lem labels (milliseconds host stats.max_rtt) m.peer_rtt_max (sym c) in
      let (g₄, q₄, l₄, v₄) =
        laws.set_lem labels (milliseconds host stats.avg_rtt) m.peer_rtt_avg (sym d) in
      (
        record m { peer_rtt_current = g₁; peer_rtt_min = g₂; peer_rtt_max = g₃; peer_rtt_avg = g₄ },
        rw (q₁, q₂, q₃, q₄) refl,
        (l₁ ∙ a, l₂ ∙ b, l₃ ∙ c, l₄ ∙ d, e),
        λ ks. elim (Bool-cases (labels == ks)) [
          | inl q ↦ rw (v₁ ks, v₂ ks, v₃ ks, v₄ ks, q) refl
          | inr q ↦ rw (v₁ ks, v₂ ks, v₃ ks, v₄ ks, q) refl
        ],
        λ ks. refl,
      )
