-- ===== src/Registry.antt =====
-- crates/registry/src/lib.rs. Instants and durations are numbers of nanoseconds; an instant minus a
-- duration is compared by moving the duration to the other side, so nothing stops at 0. The heap,
-- whose order of elements is reversed, hands out the entry with the least `seen` first: it is the
-- list of its entries in that order. Which of two entries with one `seen` comes first, the library
-- leaves open; here it is the one pushed first.
pub mod Purge
pub mod Latest
pub mod Ledger
use swarm_mesh.Prelude.{
  ℕ, ◌+◌, Bool, true, false, List, [], ◌∷◌, Option, none, some, Text, ltb, leb, if◌then◌else◌,
  nat_key, map,
}
use swarm_mesh.HashMap.{Map, modify_or_insert}
use swarm_mesh.Mesh.Message.{NodeId}

pub record Node : Type 0 where
  pub id : NodeId
  pub ip : Text
  pub metrics_port : ℕ

pub record NodeEntry : Type 0 where
  pub node : Node
  pub seen : ℕ

pub record Registry : Type 0 where
  pub ttl : ℕ
  pub nodes : List NodeEntry

-- `Registry::new`
unfoldable pub new : ℕ → Registry
new ttl = record { ttl = ttl; nodes = [] }

-- `BinaryHeap::push`
unfoldable pub push : NodeEntry → List NodeEntry → List NodeEntry
push e [] = e ∷ []
push e (x ∷ xs) = if ltb e.seen x.seen then e ∷ x ∷ xs else x ∷ push e xs

-- `Registry::add`, when `Instant::now()` reads `now`.
unfoldable pub add : ℕ → Node → Registry → Registry
add now node r = record r { nodes = push (record { node = node; seen = now }) r.nodes }

-- The closure of `and_modify`.
abbrev pub later : NodeEntry → NodeEntry → NodeEntry
later cur e = if ltb e.seen cur.seen then cur else e

-- The loop of `Registry::nodes`, whose result is the list of the map's values.
unfoldable pub latest : List NodeEntry → Map NodeId NodeEntry → Map NodeId NodeEntry
latest [] m = m
latest (cur ∷ rest) m = latest rest (modify_or_insert cur.node.id (later cur) cur m)

-- `Registry::nodes`
unfoldable pub active_nodes : Registry → List NodeEntry
unfolding latest
active_nodes r = map (λ e. e.1) (latest r.nodes [])

abbrev pub expired : ℕ → ℕ → NodeEntry → Bool
expired ttl now e = leb (e.seen + ttl) now

-- The loop of `Registry::purge`. The clock is read anew for each entry that is looked at.
unfoldable pub purge_from : ℕ → (ℕ → ℕ) → ℕ → List NodeEntry → List NodeEntry
purge_from ttl clock i [] = []
purge_from ttl clock i (e ∷ es) =
    let rest = purge_from ttl clock (i + 1) es in if expired ttl (clock i) e then rest else e ∷ es

-- `Registry::purge`
unfoldable pub purge : (ℕ → ℕ) → Registry → Registry
unfolding purge_from
purge clock r = record r { nodes = purge_from r.ttl clock 0 r.nodes }
