-- ===== src/Mesh/Rtt/Updates.antt =====
-- One more measurement in the statistics of crates/mesh/src/rtt.rs.
use swarm_mesh.Prelude.{
  ℕ, ◌+◌, ◌%◌, ◌^◌, ◌≤◌, ◌<◌, ◌≡◌, ◌⊎◌, Option, none, some, refl, arith, nat_eqb, if◌then◌else◌,
}
use swarm_mesh.Mesh.Rtt.{Floats, RttStats, duration_max, default_stats, moving_average, update}

module _ {F : Type 0} (f64 : Floats F) where
  -- 7/8 of the average and 1/8 of the measurement, in floating point.
  abbrev pub smoothed : ℕ → ℕ → ℕ
  smoothed avg rtt = f64.from_secs_f64 (
      f64.add (f64.mul (f64.as_secs_f64 avg) (f64.sub (f64.lit 1 0) (f64.lit 125 3)))
        (f64.mul (f64.as_secs_f64 rtt) (f64.lit 125 3)))

  -- The statistics have the measurement besides what they had.
  abbrev pub IsUpdated : ℕ → Option RttStats → RttStats → Type 0
  IsUpdated rtt none s =
      (s.current_rtt ≡ some rtt)
      × (s.min_rtt ≡ rtt)
      × (s.max_rtt ≡ rtt)
      × (s.avg_rtt ≡ rtt)
      × (s.sample_count ≡ 1)
  IsUpdated rtt (some o) s =
      (s.current_rtt ≡ some rtt)
      × (((rtt < o.min_rtt) × (s.min_rtt ≡ rtt)) ⊎ ((o.min_rtt ≤ rtt) × (s.min_rtt ≡ o.min_rtt)))
      × (((o.max_rtt < rtt) × (s.max_rtt ≡ rtt)) ⊎ ((rtt ≤ o.max_rtt) × (s.max_rtt ≡ o.max_rtt)))
      × (s.avg_rtt
          ≡ (if nat_eqb ((o.sample_count + 1) % 2 ^ 32) 1 then rtt else smoothed o.avg_rtt rtt))
      × (s.sample_count ≡ (o.sample_count + 1) % 2 ^ 32)

  pub first_update-IsUpdated :
      (rtt : ℕ) → rtt ≤ duration_max → IsUpdated rtt none (update f64 rtt default_stats)
  unfolding update default_stats
  first_update-IsUpdated rtt h = (refl, ground arith, ground arith, refl, refl)

  pub next_update-IsUpdated : (rtt : ℕ) (o : RttStats) → IsUpdated rtt (some o) (update f64 rtt o)
  unfolding update moving_average
  next_update-IsUpdated rtt o = (refl, ground arith, ground arith, refl, refl)
