-- ===== src/Node/Gauges.antt =====
-- What crates/node/src/metrics.rs uses of the `prometheus` library: tables of gauges (type `G`) that
-- label values select from, and the registry (type `R`). The registry holds clones that share
-- the values of the tables, so only the tables are updated.
use swarm_mesh.Prelude.{
  ℕ, Bool, true, false, ◌&&◌, ◌||◌, not, List, [], ◌∷◌, Option, none, some, Text, ◌≡◌, leb, nat_eqb,
  if◌then◌else◌, ◌==◌, text_key, texts_key, length,
}

-- Whether the list has the text.
abbrev pub is_listed : Text → List Text → Bool
is_listed t [] = false
is_listed t (x ∷ xs) = let rest = is_listed t xs in x == t || rest

abbrev pub are_distinct : List Text → Bool
are_distinct [] = true
are_distinct (x ∷ xs) = let rest = are_distinct xs in not (is_listed x xs) && rest

abbrev pub are_small : Text → Bool
are_small [] = true
are_small (c ∷ cs) = let rest = are_small cs in (nat_eqb c 95 || leb 97 c && leb c 122) && rest

-- A name of small letters and underscores, at least one of them.
abbrev pub is_plain : Text → Bool
is_plain [] = false
is_plain (c ∷ cs) = are_small (c ∷ cs)

abbrev pub is_filled : Text → Bool
is_filled [] = false
is_filled (c ∷ cs) = true

abbrev pub are_plain : List Text → Bool
are_plain [] = true
are_plain (t ∷ ts) = let rest = are_plain ts in is_plain t && rest

pub record Gauges (F G R : Type 0) : Type 0 where
  -- `Registry::new`, and the names of the tables in a registry.
  pub new_registry : R
  pub names : R → List Text
  -- `GaugeVec::new` with a name, a help text and the names of the labels.
  pub new_gauge : Text → Text → List Text → Option G
  pub name_of : G → Text
  pub label_count : G → ℕ
  -- `Registry::register`
  pub register : G → R → Option R
  -- `with_label_values(..).set(..)`; `none` is the panic of the first.
  pub set : List Text → F → G → Option G
  -- What the table has for some label values.
  pub value : List Text → G → Option F

-- The documented behaviour.
pub record GaugeLaws {F G R : Type 0} (gauges : Gauges F G R) : Type 0 where
  pub new_registry_lem : gauges.names gauges.new_registry ≡ []
  -- A table with plain names, distinct labels and a help text is made, and it is empty.
  pub new_gauge_lem :
      (name help : Text) (labels : List Text)
      → is_plain name && (is_filled help && (are_plain labels && are_distinct labels)) ≡ true
      → (g : G) × (gauges.new_gauge name help labels ≡ some g)
        × (gauges.name_of g ≡ name)
        × (gauges.label_count g ≡ length labels)
        × ((ks : List Text) → gauges.value ks g ≡ none)
  -- A table is registered if no other has its name.
  pub register_lem :
      (g : G) (r : R)
      → is_listed (gauges.name_of g) (gauges.names r) ≡ false
      → (s : R) × (gauges.register g r ≡ some s)
        × (gauges.names s ≡ gauges.name_of g ∷ gauges.names r)
  -- With as many label values as labels, the one gauge that they select is set.
  pub set_lem :
      (labels : List Text) (v : F) (g : G)
      → length labels ≡ gauges.label_count g
      → (h : G) × (gauges.set labels v g ≡ some h)
        × (gauges.label_count h ≡ gauges.label_count g)
        × ((ks : List Text)
            → gauges.value ks h ≡ (if labels == ks then some v else gauges.value ks g))
