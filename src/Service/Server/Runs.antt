-- ===== src/Service/Server/Runs.antt =====
-- Runs of the server of apps/mesh-registry/src/main.rs: requests and rounds of the clean-up, one
-- after another, with a clock that does not run backwards.
use swarm_mesh.Prelude.{
  ℕ, ◌+◌, ◌≤◌, ◌<◌, List, [], ◌∷◌, ◌++◌, ◌≡◌, refl, sym, subst, ◌⊎◌, inl, inr, length, IsIn,
  Bool-cases, ltb, arith,
}
use swarm_mesh.Registry.{NodeEntry, Registry, add, purge}
use swarm_mesh.Registry.Purge.{IsHeap, add-IsHeap, purge_lem}
use swarm_mesh.Service.{NodeRegistration, cleanup_stale_nodes}
use swarm_mesh.Service.Prometheus.{Prometheus}
use swarm_mesh.Service.Register.{node_of}
use swarm_mesh.Service.Server.{Request, Axum, App, Event, received, cleanup_due, serve_event}
use swarm_mesh.Service.Server.Requests.{AxumLaws, Registers, handle-Registers, handle-IsHarmless}

-- At some instant up to `u` the time to live of the entry is over, and each entry of the registry
-- is alive.
abbrev pub IsExpired : NodeEntry → Registry → ℕ → Type 0
IsExpired x r u =
    (c : ℕ) × (x.seen + r.ttl ≤ c)
    × (c ≤ u)
    × ((y : NodeEntry) → IsIn y r.nodes → c < y.seen + r.ttl)

module _ {J F : Type 0} where
  -- The event lies between two instants, and so do all readings of the clock in it.
  abbrev pub IsDue : ℕ → Event J F → ℕ → Type 0
  IsDue t (received p now q) u = (t ≤ now) × (now ≤ u)
  IsDue t (cleanup_due clock) u =
      (t ≤ clock 0) × ((i : ℕ) → clock i ≤ clock (i + 1)) × ((i : ℕ) → clock i ≤ u)

  -- The events lie one after another between two instants.
  abbrev pub IsOnward : ℕ → List (Event J F) → ℕ → Type 0
  IsOnward t [] u = t ≤ u
  IsOnward t (e ∷ es) u = (v : ℕ) × IsDue t e v × IsOnward v es u

  IsDue-le : (t : ℕ) (e : Event J F) (u : ℕ) → IsDue t e u → t ≤ u
  IsDue-le t (received p now q) u due = omega (arith, due)
  IsDue-le t (cleanup_due clock) u (early, mono, late) = omega (arith, early, late 0)

  pub IsOnward-le : (t : ℕ) (es : List (Event J F)) (u : ℕ) → IsOnward t es u → t ≤ u
  IsOnward-le t [] u on = on
  IsOnward-le t (e ∷ es) u (v, due, on) = omega (arith, IsDue-le t e v due, IsOnward-le v es u on)

  pub IsOnward-append :
      (t : ℕ) (ds bs : List (Event J F)) (u : ℕ)
      → IsOnward t (ds ++ bs) u
      → (v : ℕ) × IsOnward t ds v × IsOnward v bs u
  IsOnward-append t [] bs u on = (t, omega arith, on)
  IsOnward-append t (e ∷ ds) bs u (v, due, on) =
      let (w, before, behind) = IsOnward-append v ds bs u on in (w, (v, due, before), behind)

  -- The id was registered at the instant `t`, with what the registration says.
  abbrev pub Registered : Axum → List (Event J F) → ℕ → ℕ → NodeRegistration → Type 0
  Registered axum es id t g =
      (p : Prometheus J F) × (q : Request) × IsIn (received p t q) es × Registers axum q id g

module _ {J F : Type 0} {axum : Axum} (laws : AxumLaws axum) where
  -- The entry stands for this event.
  abbrev pub IsFrom : NodeEntry → Event J F → Type 0
  IsFrom x e =
      (p : Prometheus J F) × (q : Request) × (g : NodeRegistration) × (e ≡ received p x.seen q)
      × Registers axum q x.node.id g
      × (x.node ≡ node_of x.node.id g)

  -- What an event that ends by `u` does to the registry.
  pub record Effect (e : Event J F) (r s : Registry) (u : ℕ) : Type 0 where
    pub heap : IsHeap s
    pub ttl : s.ttl ≡ r.ttl
    pub source : (x : NodeEntry) → IsIn x s.nodes → IsIn x r.nodes ⊎ IsFrom x e
    pub fate : (x : NodeEntry) → IsIn x r.nodes → IsIn x s.nodes ⊎ IsExpired x s u

  Effect-none : (e : Event J F) (r : Registry) (u : ℕ) → IsHeap r → Effect e r r u
  Effect-none e r u h = record { heap = h; ttl = refl; source = λ x i. inl i; fate = λ x i. inl i }

  Effect-add :
      (p : Prometheus J F) (now : ℕ) (q : Request) (r : Registry) (u id : ℕ) (g : NodeRegistration)
      → IsHeap r
      → Registers axum q id g
      → Effect (received p now q) r (add now (node_of id g) r) u
  unfolding add
  Effect-add p now q r u id g h reg =
      let (heap, found) = add-IsHeap now (node_of id g) r h in
      record {
        heap = heap;
        ttl = refl;
        source = λ x i. elim ((found x).0 i) [
          | inl e ↦
              inr (subst (λ y. IsFrom y (received p now q)) (sym e) (p, q, g, refl, reg, refl))
          | inr j ↦ inl j
        ];
        fate = λ x i. inl ((found x).1 (inr i));
      }

  Effect-purge :
      (clock : ℕ → ℕ) (r : Registry) (t u : ℕ)
      → IsHeap r
      → IsDue {J = J} {F = F} t (cleanup_due clock) u
      → Effect (cleanup_due clock) r (cleanup_stale_nodes clock r) u
  unfolding cleanup_stale_nodes purge
  Effect-purge clock r t u h (early, onward, late) =
      let (c, first, last, heap, found) = purge_lem clock r onward h in
      record {
        heap = heap;
        ttl = refl;
        source = λ x i. inl ((found x).0 i).0;
        fate = λ x i. elim (Bool-cases (ltb c (x.seen + r.ttl))) [
          | inl alive ↦ inl ((found x).1 (i, ground arith))
          | inr over ↦ inr (
            c,
            ground arith,
            omega (arith, last, late (length r.nodes)),
            λ y j. ((found y).0 j).1,
          )
        ];
      }

  pub serve_event-Effect :
      (e : Event J F) (app : App) (t u : ℕ)
      → IsHeap app.registry
      → IsDue t e u
      → Effect e app.registry (serve_event axum e app).registry u
  unfolding serve_event
  serve_event-Effect (received p now q) app t u h due = elim (handle-IsHarmless laws p now q app) [
    | inl same ↦
        subst (λ x. Effect (received p now q) app.registry x.registry u) (sym same)
          (Effect-none (received p now q) app.registry u h)
    | inr (id, g, reg) ↦
        subst (λ x. Effect (received p now q) app.registry x.1.registry u)
          (sym (handle-Registers laws p now q app id g reg))
          (Effect-add p now q app.registry u id g h reg)
  ]
  serve_event-Effect (cleanup_due clock) app t u h due = Effect-purge clock app.registry t u h due

  pub serve_event-Registers :
      (p : Prometheus J F) (now : ℕ) (q : Request) (app : App) (id : ℕ) (g : NodeRegistration)
      → IsHeap app.registry
      → Registers axum q id g
      → IsIn
          (record { node = node_of id g; seen = now })
          (serve_event axum (received p now q) app).registry.nodes
  unfolding serve_event
  serve_event-Registers p now q app id g h reg =
      subst (λ x. IsIn (record { node = node_of id g; seen = now }) x.1.registry.nodes)
        (sym (handle-Registers laws p now q app id g reg))
        (((add-IsHeap now (node_of id g) app.registry h).1 _).1 (inl refl))

-- After a round of the clean-up the entries are those that were alive when it began.
pub cleanup_stale_nodes-alive :
    (clock : ℕ → ℕ) (r : Registry) (x : NodeEntry)
    → IsHeap r
    → ((i : ℕ) → clock i ≤ clock (i + 1))
    → IsIn x (cleanup_stale_nodes clock r).nodes
    → IsIn x r.nodes × (clock 0 < x.seen + r.ttl)
unfolding cleanup_stale_nodes
cleanup_stale_nodes-alive clock r x h onward i =
    let (c, first, last, heap, found) = purge_lem clock r onward h in
    let (before, alive) = (found x).0 i in (before, omega (arith, first, alive))
