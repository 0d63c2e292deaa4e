-- ===== src/App/Started.antt =====
-- What holds of a node that apps/node/src/main.rs has started, for as long as it runs.
use swarm_mesh.Prelude.{
  ℕ, List, none, some, some-injective, Result, ok, err, Text, ◌≡◌, sym, subst, ◌∙◌, ◌⊎◌, inl, inr,
}
use swarm_mesh.Node.World.{Env, Node, World, Outcome, done, stuck, panicked}
use swarm_mesh.Node.System.{Step}
use swarm_mesh.Node.System.Quiet.{OnlyDiscovery, IsQuiet}
use swarm_mesh.Node.System.Silence.{Step-IsQuiet}
use swarm_mesh.Node.Gauges.{GaugeLaws}
use swarm_mesh.Node.Metrics.{Host, Metrics, MetricsError, new_metrics, update_metrics}
use swarm_mesh.Node.Metrics.Shown.{shown, shown_total, IsReady}
use swarm_mesh.Node.Metrics.New.{new_metrics-IsReady}
use swarm_mesh.Node.Metrics.Silent.{update_metrics-quiet}
use swarm_mesh.App.Init.{init_node-new_node}
use swarm_mesh.App.{System, init_node, world_of}

module _ {P F G R Hs Ts : Type 0} (env : Env P F Hs Ts) (host : Host F G R) where
  -- A node since it was started, with its metrics. Its tasks take steps, and so does the task that
  -- collects the metrics.
  pub data Life (start : World Hs Ts) : World Hs Ts → Metrics G R → Type 0 where
    started : {m : Metrics G R} → new_metrics host ≡ some m → Life start start m
    steps : {w v : World Hs Ts} {m : Metrics G R} → Life start w m → Step env w v → Life start v m
    collects :
        {w v : World Hs Ts} {m n : Metrics G R}
        → Life start w m
        → update_metrics host m w ≡ done (ok n) v
        → Life start v n
    complains :
        {w v : World Hs Ts} {m : Metrics G R} {e : MetricsError}
        → Life start w m
        → update_metrics host m w ≡ done (err e) v
        → Life start v m
    waits :
        {w v : World Hs Ts} {m : Metrics G R}
        → Life start w m
        → update_metrics host m w ≡ stuck v
        → Life start v m
    crashes :
        {w v : World Hs Ts} {m : Metrics G R}
        → Life start w m
        → update_metrics host m w ≡ panicked v
        → Life start v m

  -- No round trip time is shown for any labels, and no number of connected peers but 0.
  abbrev pub IsBlank : Metrics G R → Type 0
  IsBlank m =
      ((ks : List Text)
        → shown host m ks ≡ record { current = none; min = none; max = none; avg = none })
      × ((ks : List Text)
          → (shown_total host m ks ≡ none) ⊎ (shown_total host m ks ≡ some (host.f64.from_usize 0)))

module _ {P F G R Hs Ts : Type 0} (env : Env P F Hs Ts) (host : Host F G R)
    (laws : GaugeLaws host.gauges) where
  -- What holds of a node and its metrics at any time.
  abbrev IsSound : World Hs Ts → Metrics G R → Type 0
  IsSound w m = IsQuiet w × IsReady host m × IsBlank env host m

  abbrev EndsSound : Metrics G R → Outcome Hs Ts (Result MetricsError (Metrics G R)) → Type 0
  EndsSound m (done (ok n) v) = IsSound v n
  EndsSound m (done (err e) v) = IsSound v m
  EndsSound m (stuck v) = IsSound v m
  EndsSound m (panicked v) = IsSound v m

  update_metrics-EndsSound :
      (w : World Hs Ts) (m : Metrics G R) → IsSound w m → EndsSound m (update_metrics host m w)
  update_metrics-EndsSound w m (i, r, b) = elim (update_metrics-quiet host laws m w r i) [
    | inl e ↦ subst (EndsSound m) (sym e) (i, r, b)
    | inr (inl e) ↦ subst (EndsSound m) (sym e) (i, r, b)
    | inr (inr (inl e)) ↦ subst (EndsSound m) (sym e) (i, r, b)
    | inr (inr (inr (n, (e, ready, sh, t)))) ↦ subst (EndsSound m) (sym e) (
      i,
      ready,
      (
        λ ks. sh ks ∙ b.0 ks,
        λ ks. elim (t ks) [
          | inl same ↦ rw (same) (b.1 ks)
          | inr none_connected ↦ inr none_connected
        ],
      ),
    )
  ]

  Life-IsSound :
      {start w : World Hs Ts} {m : Metrics G R}
      → Life env host start w m
      → IsQuiet start
      → IsSound w m
  Life-IsSound {start} {w} {m} (started q) quiet =
      let (n, e, r, names, b) = new_metrics-IsReady host laws in
      let same : n ≡ m = some-injective n m (sym e ∙ q) in
      subst (λ x. IsSound start x) same (quiet, r, (λ ks. (b ks).0, λ ks. inl (b ks).1))
  Life-IsSound (steps l s) quiet =
      let (i, r, b) = Life-IsSound l quiet in (Step-IsQuiet env s i, r, b)
  Life-IsSound (collects {w} {v} {m} l q) quiet =
      subst (EndsSound m) q (update_metrics-EndsSound w m (Life-IsSound l quiet))
  Life-IsSound (complains {w} {v} {m} l q) quiet =
      subst (EndsSound m) q (update_metrics-EndsSound w m (Life-IsSound l quiet))
  Life-IsSound (waits {w} {v} {m} l q) quiet =
      subst (EndsSound m) q (update_metrics-EndsSound w m (Life-IsSound l quiet))
  Life-IsSound (crashes {w} {v} {m} l q) quiet =
      subst (EndsSound m) q (update_metrics-EndsSound w m (Life-IsSound l quiet))

  -- A node that `init_node` makes, at any time, whatever arrives and in whatever order its tasks
  -- run: it has sent nothing but Hello and handshake messages, and its metrics show no round
  -- trip time for any labels and no number of connected peers but 0.
  pub init_node-IsBlank :
      (system : System P) (now unix_now : ℕ) (n : Node Hs Ts) {w : World Hs Ts} {m : Metrics G R}
      → init_node env.snow system ≡ ok n
      → Life env host (world_of now unix_now n) w m
      → OnlyDiscovery w.sent × IsBlank env host m
  init_node-IsBlank system now unix_now n q life =
      let (keys, addr, ip, same) = init_node-new_node env.snow system n q in
      let quiet : IsQuiet (world_of now unix_now n) = rw (same) (tt, inl tt) in
      let (i, r, b) = Life-IsSound life quiet in (i.0, b)
