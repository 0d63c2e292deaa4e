-- ===== src/Mesh/Rtt.antt =====
-- crates/mesh/src/rtt.rs. Durations are numbers of nanoseconds. Floating point is the record
-- `Floats`, a parameter. `sample_count` wraps, as in a release build.
pub mod Bounds
pub mod Updates
use swarm_mesh.Prelude.{ℕ, ◌+◌, ◌*◌, ◌-◌, ◌%◌, ◌^◌, Option, none, some, ltb, nat_eqb, if◌then◌else◌}

-- `f64` with the operations that the program uses. `lit m k` is the literal m / 10 ^ k.
pub record Floats (F : Type 0) : Type 0 where
  pub lit : ℕ → ℕ → F
  pub add : F → F → F
  pub sub : F → F → F
  pub mul : F → F → F
  pub as_secs_f64 : ℕ → F
  pub from_secs_f64 : F → ℕ
  pub from_usize : ℕ → F

pub record RttStats : Type 0 where
  pub current_rtt : Option ℕ
  pub avg_rtt : ℕ
  pub min_rtt : ℕ
  pub max_rtt : ℕ
  pub sample_count : ℕ

-- `Duration::MAX`: u64::MAX seconds and 999_999_999 nanoseconds.
abbrev pub duration_max : ℕ
duration_max = (2 ^ 64 - 1) * 1000000000 + 999999999

unfoldable pub default_stats : RttStats
default_stats = record {
  current_rtt = none;
  avg_rtt = 0;
  min_rtt = duration_max;
  max_rtt = 0;
  sample_count = 0;
}

module _ {F : Type 0} (f64 : Floats F) where
  -- The exponential moving average, with ALPHA = 0.125.
  unfoldable pub moving_average : ℕ → ℕ → ℕ
  moving_average avg rtt =
      let alpha = f64.lit 125 3 in
      let old = f64.as_secs_f64 avg in
      let new = f64.as_secs_f64 rtt in
      f64.from_secs_f64 (f64.add (f64.mul old (f64.sub (f64.lit 1 0) alpha)) (f64.mul new alpha))

  unfoldable pub update : ℕ → RttStats → RttStats
  update rtt s =
      let count = (s.sample_count + 1) % 2 ^ 32 in
      record {
        current_rtt = some rtt;
        avg_rtt = if nat_eqb count 1 then rtt else moving_average s.avg_rtt rtt;
        min_rtt = if ltb rtt s.min_rtt then rtt else s.min_rtt;
        max_rtt = if ltb s.max_rtt rtt then rtt else s.max_rtt;
        sample_count = count;
      }
