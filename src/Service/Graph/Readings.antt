-- ===== src/Service/Graph/Readings.antt =====
-- What the readings of apps/mesh-registry/src/main.rs make of the entry for an edge.
use swarm_mesh.Prelude.{
  List, [], ◌∷◌, Option, none, some, Text, ◌≡◌, refl, ap, ◌∙◌, inl, inr, Bool-cases, Option-cases,
  text_eqb, text_key, ◌==◌, if◌then◌else◌, filter_map, ◌⊎◌, ◌++◌, literal, cons?,
}
use swarm_mesh.HashMap.{Map, get}
use swarm_mesh.HashMap.Laws.{get-modify_or_insert}
use swarm_mesh.Service.Prometheus.{PrometheusResult, EdgeDetail, Prometheus}
use swarm_mesh.Service.Graph.{
  unwrap_or, edge_key, set_detail, new_detail, add_reading, add_readings, reading, current_metric,
  avg_metric,
}
use swarm_mesh.Service.Graph.Errors.{results}

infixl 5 ◌>>=◌
abbrev ◌>>=◌ : {A B : Type 0} → Option A → (A → Option B) → Option B
none >>= f = none
some a >>= f = f a

module _ {F : Type 0} where
  -- The last value of the readings for a key, or the one before them.
  unfoldable pub newest : Text → Option F → List (Text × Text × F) → Option F
  newest key old [] = old
  newest key old ((s, t, v) ∷ xs) = newest key (if edge_key s t == key then some v else old) xs

  set_detail-current :
      (v : F) (d : EdgeDetail F) → set_detail current_metric v d ≡ record d { rtt_current = some v }
  unfolding set_detail text_key text_eqb
  set_detail-current v d = refl

  set_detail-avg : (v : F) (d : EdgeDetail F) → set_detail avg_metric v d ≡ record d { rtt_avg = v }
  unfolding set_detail text_key text_eqb
  set_detail-avg v d = refl

module _ {J F : Type 0} (p : Prometheus J F) where
  -- The entry for a last current and a last average value.
  abbrev pub detail_of : Option F → Option F → Option (EdgeDetail F)
  detail_of none none = none
  detail_of none (some a) = some (record { rtt_current = none; rtt_avg = a })
  detail_of (some c) none = some (record { rtt_current = some c; rtt_avg = p.zero })
  detail_of (some c) (some a) = some (record { rtt_current = some c; rtt_avg = a })

  add_reading-get :
      (metric key s t : Text) (v : F) (m : Map Text (EdgeDetail F))
      → get key (add_reading p metric (s, t, v) m) ≡ (
          if edge_key s t == key
          then some (set_detail metric v (unwrap_or (new_detail p) (get key m)))
          else get key m)
  unfolding add_reading
  add_reading-get metric key s t v m = elim (Bool-cases (edge_key s t == key)) [
    | inl q ↦
        let same : edge_key s t ≡ key = (text_key.agrees_iff (edge_key s t) key).0 q in
        elim (Option-cases (get key m)) [
          | inl h ↦
              rw
                (
                  get-modify_or_insert (edge_key s t) key (set_detail metric v)
                      (set_detail metric v (new_detail p)) m,
                  q,
                  ap (λ k. get k m) same ∙ h,
                  h,
                )
                refl
          | inr (d, h) ↦
              rw
                (
                  get-modify_or_insert (edge_key s t) key (set_detail metric v)
                      (set_detail metric v (new_detail p)) m,
                  q,
                  ap (λ k. get k m) same ∙ h,
                  h,
                )
                refl
        ]
    | inr q ↦
        rw
          (
            get-modify_or_insert (edge_key s t) key (set_detail metric v)
                (set_detail metric v (new_detail p)) m,
            q,
          )
          refl
  ]

  updated-current :
      (v : F) (c a : Option F)
      → some (set_detail current_metric v (unwrap_or (new_detail p) (detail_of c a)))
        ≡ detail_of (some v) a
  unfolding new_detail
  updated-current v none none = ap some (set_detail-current v _)
  updated-current v none (some a) = ap some (set_detail-current v _)
  updated-current v (some c) none = ap some (set_detail-current v _)
  updated-current v (some c) (some a) = ap some (set_detail-current v _)

  updated-avg :
      (v : F) (c a : Option F)
      → some (set_detail avg_metric v (unwrap_or (new_detail p) (detail_of c a)))
        ≡ detail_of c (some v)
  unfolding new_detail
  updated-avg v none none = ap some (set_detail-avg v _)
  updated-avg v none (some a) = ap some (set_detail-avg v _)
  updated-avg v (some c) none = ap some (set_detail-avg v _)
  updated-avg v (some c) (some a) = ap some (set_detail-avg v _)

  pub readings-current :
      (key : Text) (c a : Option F) (xs : List (Text × Text × F)) (m : Map Text (EdgeDetail F))
      → get key m ≡ detail_of c a
      → get key (add_readings p current_metric xs m) ≡ detail_of (newest key c xs) a
  unfolding add_readings newest
  readings-current key c a [] m h = h
  readings-current key c a ((s, t, v) ∷ xs) m h =
      readings-current key (if edge_key s t == key then some v else c) a xs _ (
        add_reading-get current_metric key s t v m ∙ elim (Bool-cases (edge_key s t == key)) [
          | inl q ↦ rw (q, h) (updated-current v c a)
          | inr q ↦ rw (q) h
        ])

  pub readings-avg :
      (key : Text) (c a : Option F) (xs : List (Text × Text × F)) (m : Map Text (EdgeDetail F))
      → get key m ≡ detail_of c a
      → get key (add_readings p avg_metric xs m) ≡ detail_of c (newest key a xs)
  unfolding add_readings newest
  readings-avg key c a [] m h = h
  readings-avg key c a ((s, t, v) ∷ xs) m h =
      readings-avg key c (if edge_key s t == key then some v else a) xs _ (
        add_reading-get avg_metric key s t v m ∙ elim (Bool-cases (edge_key s t == key)) [
          | inl q ↦ rw (q, h) (updated-avg v c a)
          | inr q ↦ rw (q) h
        ])

  pub detail_of-some :
      (c a : Option F)
      → ((x : F) × (c ≡ some x)) ⊎ ((x : F) × (a ≡ some x))
      → detail_of c a ≡ some (record { rtt_current = c; rtt_avg = unwrap_or p.zero a })
  detail_of-some none none (inl (x, e)) = absurd cc
  detail_of-some none none (inr (x, e)) = absurd cc
  detail_of-some none (some a) any = refl
  detail_of-some (some c) none any = refl
  detail_of-some (some c) (some a) any = refl

  -- A result for two ids, with a number, has the ids as labels and the number as value.
  abbrev pub said : PrometheusResult J → Option (Text × Text × F)
  said r = get (literal "local_node_id") r.metric >>= λ s.
      get (literal "remote_node_id") r.metric >>= λ t.
      p.as_str r.value.1 >>= λ text. p.parse_f64 text >>= λ v. some (s, t, v)

  reading_lem : (r : PrometheusResult J) → reading p r ≡ said r
  unfolding reading
  reading_lem r = elim (Option-cases (get (literal "local_node_id") r.metric)) [
    | inl a ↦ rw (a, reading) refl
    | inr (s, a) ↦ elim (Option-cases (get (literal "remote_node_id") r.metric)) [
      | inl b ↦ rw (a, b, reading) refl
      | inr (t, b) ↦ elim (Option-cases (p.as_str r.value.1)) [
        | inl c ↦ rw (a, b, c, reading) refl
        | inr (text, c) ↦ elim (Option-cases (p.parse_f64 text)) [
          | inl d ↦ rw (a, b, c, d, reading) refl
          | inr (v, d) ↦ rw (a, b, c, d, reading) refl
        ]
      ]
    ]
  ]

  pub reading-said :
      (rs : List (PrometheusResult J)) → filter_map (reading p) rs ≡ filter_map said rs
  reading-said [] = refl
  reading-said (r ∷ rs) = rw (reading_lem r) (ap (cons? (said r)) (reading-said rs))

  -- The last number that the answer to a query has from the one id to the other, if any.
  abbrev pub last_said : Text → Text → Text → Text → Option F
  last_said endpoint query s t =
      newest (edge_key s t) none
        (filter_map said (results (p.answer (endpoint ++ literal "/api/v1/query") query)))
