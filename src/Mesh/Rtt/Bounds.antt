-- ===== src/Mesh/Rtt/Bounds.antt =====
-- What the statistics of crates/mesh/src/rtt.rs say of the measurements that went in.
use swarm_mesh.Prelude.{ℕ, ◌%◌, ◌^◌, ◌≤◌, ◌≡◌, refl, List, [], ◌∷◌, some, arith, length, All, IsIn}
use swarm_mesh.Mesh.Rtt.{Floats, RttStats, duration_max, default_stats, update}

module _ {F : Type 0} (f64 : Floats F) where
  -- The statistics after some measurements, the last one first.
  pub stats_of : List ℕ → RttStats
  stats_of [] = default_stats
  stats_of (r ∷ rs) = update f64 r (stats_of rs)

  pub record IsSummary (s : RttStats) (rs : List ℕ) : Type 0 where
    pub at_least_min : All (λ r. s.min_rtt ≤ r) rs
    pub at_most_max : All (λ r. r ≤ s.max_rtt) rs
    pub min_measured : IsIn s.min_rtt rs
    pub max_measured : IsIn s.max_rtt rs
    pub counted : s.sample_count ≡ length rs % 2 ^ 32

  All-le : (a b : ℕ) (rs : List ℕ) → a ≤ b → All (λ r. b ≤ r) rs → All (λ r. a ≤ r) rs
  All-le a b [] h k = tt
  All-le a b (r ∷ rs) h k = (omega arith, All-le a b rs h k.1)

  All-ge : (a b : ℕ) (rs : List ℕ) → b ≤ a → All (λ r. r ≤ b) rs → All (λ r. r ≤ a) rs
  All-ge a b [] h k = tt
  All-ge a b (r ∷ rs) h k = (omega arith, All-ge a b rs h k.1)

  at_least_min : (rs : List ℕ) → All (λ r. (stats_of rs).min_rtt ≤ r) rs
  unfolding stats_of update
  at_least_min [] = tt
  at_least_min (r ∷ rs) = (
    ground arith,
    All-le (stats_of (r ∷ rs)).min_rtt (stats_of rs).min_rtt rs (ground arith) (at_least_min rs),
  )

  at_most_max : (rs : List ℕ) → All (λ r. r ≤ (stats_of rs).max_rtt) rs
  unfolding stats_of update
  at_most_max [] = tt
  at_most_max (r ∷ rs) = (
    ground arith,
    All-ge (stats_of (r ∷ rs)).max_rtt (stats_of rs).max_rtt rs (ground arith) (at_most_max rs),
  )

  sample_count-stats_of : (rs : List ℕ) → (stats_of rs).sample_count ≡ length rs % 2 ^ 32
  unfolding stats_of update default_stats
  sample_count-stats_of [] = refl
  sample_count-stats_of (r ∷ rs) = omega (arith, sample_count-stats_of rs)

  min_measured :
      (r : ℕ) (rs : List ℕ)
      → All (λ x. x ≤ duration_max) (r ∷ rs)
      → IsIn (stats_of (r ∷ rs)).min_rtt (r ∷ rs)
  unfolding stats_of update default_stats
  min_measured r [] h = ground arith
  min_measured r (q ∷ rs) h = ground (arith, min_measured q rs h.1)

  max_measured : (r : ℕ) (rs : List ℕ) → IsIn (stats_of (r ∷ rs)).max_rtt (r ∷ rs)
  unfolding stats_of update default_stats
  max_measured r [] = ground arith
  max_measured r (q ∷ rs) = ground (arith, max_measured q rs)

  -- After at least one measurement, all of them representable, the statistics hold the last one as
  -- the current one, the least and the greatest of them, each of which was measured, and their
  -- number modulo 2 ^ 32.
  pub stats_of-IsSummary :
      (r : ℕ) (rs : List ℕ)
      → All (λ x. x ≤ duration_max) (r ∷ rs)
      → ((stats_of (r ∷ rs)).current_rtt ≡ some r) × IsSummary (stats_of (r ∷ rs)) (r ∷ rs)
  unfolding stats_of update
  stats_of-IsSummary r rs h = (
    refl,
    record {
      at_least_min = at_least_min (r ∷ rs);
      at_most_max = at_most_max (r ∷ rs);
      min_measured = min_measured r rs h;
      max_measured = max_measured r rs;
      counted = sample_count-stats_of (r ∷ rs);
    },
  )
