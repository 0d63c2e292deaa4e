-- ===== src/Witnesses/Dashboards.antt =====
-- The metrics of a node, with tables of gauges that are maps.
use swarm_mesh.Prelude.{
  literal, IsIn, ◌↔◌, ℕ, true, ◌&&◌, [], ◌∷◌, List, some, none, ok, Text, ◌≡◌, refl, nat_eqb,
  nat_eqb_iff, if◌then◌else◌, length, arith, Bool-cases, inl, inr, subst, sym, ◌∙◌, some-injective,
  nat_key, text_key, texts_key,
}
use swarm_mesh.HashMap.{Map, get, insert}
use swarm_mesh.HashMap.Laws.{get-insert}
use swarm_mesh.Decimal.{to_string}
use swarm_mesh.Mesh.Message.{Message, hello, handshake}
use swarm_mesh.Mesh.Peer.{SocketAddr, PeerInfo, transport}
use swarm_mesh.Mesh.Rtt.{RttStats}
use swarm_mesh.Noise.{Keypair, noise_params}
use swarm_mesh.Node.Gauges.{
  is_listed, are_distinct, is_plain, is_filled, are_plain, Gauges, GaugeLaws,
}
use swarm_mesh.Node.World.{World, Node, done, new_state, new_node}
use swarm_mesh.Node.System.{round, hello_due, left, round-Step, next, here}
use swarm_mesh.Node.System.Quiet.{OnlyDiscovery}
use swarm_mesh.Node.Metrics.{Host, Metrics, labels_of, update_metrics}
use swarm_mesh.Node.Metrics.Shown.{shown, IsReady}
use swarm_mesh.Node.Metrics.New.{new_metrics-IsReady}
use swarm_mesh.Node.Metrics.Reported.{AreDifferent, IsReported}
use swarm_mesh.Node.Metrics.Exact.{update_metrics-exact, update_metrics-other}
use swarm_mesh.Node.Typed.{Ids, machine_ids, IsPort, IsTypedMessage, IsTyped}
use swarm_mesh.Node.Typed.Rounds.{IsTypedEnv}
use swarm_mesh.App.Typed.{init_node-IsTyped}
use swarm_mesh.App.Init.{Succeed, init_node_lem}
use swarm_mesh.App.{
  udp_socket, set_reuse_address, set_reuse_port, set_nonblocking, from_std, parse_socket_addr,
  parse_ipv4, join_multicast, bind, connect, System, perform, create_multicast_socket, get_local_ip,
  init_node, world_of, network_key,
}
use swarm_mesh.App.Started.{started, steps, IsBlank, init_node-IsBlank}
use swarm_mesh.Witnesses.Toy.{toy_snow, toy, toy_floats, hello_addr, unicast_addr, world, session}

record Table : Type 0 where
  name : Text
  label_count : ℕ
  values : Map (List Text) ℕ

abbrev toy_gauges : Gauges ℕ Table (List Text)
toy_gauges = record {
  new_registry = [];
  names = λ r. r;
  new_gauge = λ name help labels.
      if is_plain name && (is_filled help && (are_plain labels && are_distinct labels))
      then some (record { name = name; label_count = length labels; values = [] })
      else none;
  name_of = λ g. g.name;
  label_count = λ g. g.label_count;
  register = λ g r. if is_listed g.name r then none else some (g.name ∷ r);
  set = λ labels v g.
      if nat_eqb (length labels) g.label_count
      then some (record g { values = insert labels v g.values })
      else none;
  value = λ ks g. get ks g.values;
}

toy_laws : GaugeLaws toy_gauges
unfolding get
toy_laws = record {
  new_registry_lem = refl;
  new_gauge_lem = λ name help labels h. (
    record { name = name; label_count = length labels; values = [] },
    rw (h) refl,
    refl,
    refl,
    λ ks. refl,
  );
  register_lem = λ g r h. (g.name ∷ r, rw (h) refl, refl);
  set_lem = λ labels v g h. (
    record g { values = insert labels v g.values },
    rw ((nat_eqb_iff (length labels) g.label_count).1 h) refl,
    refl,
    λ ks. get-insert labels ks v g.values,
  );
}

abbrev toy_host : Host ℕ Table (List Text)
toy_host = record {
  f64 = toy_floats;
  gauges = toy_gauges;
  local_addr = some unicast_addr;
  ip_to_string = λ ip. to_string ip;
}

abbrev empty_table : ℕ → Table
empty_table n = record { name = []; label_count = n; values = [] }

abbrev tables : Metrics Table (List Text)
tables = record {
  registry = [];
  peer_rtt_current = empty_table 4;
  peer_rtt_min = empty_table 4;
  peer_rtt_max = empty_table 4;
  peer_rtt_avg = empty_table 4;
  connected_peers_total = empty_table 3;
}

abbrev stats : RttStats
stats = record { current_rtt = some 4; avg_rtt = 3; min_rtt = 2; max_rtt = 5; sample_count = 6 }

abbrev measured : PeerInfo
measured = record { last_seen = 0; addr = hello_addr; port = 5000; rtt_stats = some stats }

abbrev busy : World ℕ ℕ
busy = world (new_state ((7, measured) ∷ []) ((7, session (transport 3)) ∷ []) [] [])

abbrev busy_labels : List Text
busy_labels = to_string 5 ∷ to_string 7 ∷ to_string 100 ∷ to_string 100 ∷ []

update_metrics-exact_example :
    (n : Metrics Table (List Text)) × (ids : List ℕ) × (update_metrics toy_host tables busy
      ≡ done (ok n) busy)
    × IsReady toy_host n
    × AreDifferent ids
    × ((k : ℕ) → IsIn k ids ↔ IsReported busy.session_db busy.peer_db k)
    × (toy_gauges.value (to_string 5 ∷ to_string 100 ∷ to_string 4000 ∷ []) n.connected_peers_total
        ≡ some (toy_floats.from_usize (length ids)))
    × (toy_gauges.value busy_labels n.peer_rtt_min
        ≡ some (toy_floats.mul (toy_floats.as_secs_f64 2) (toy_floats.lit 1000 0)))
    × (toy_gauges.value busy_labels n.peer_rtt_max
        ≡ some (toy_floats.mul (toy_floats.as_secs_f64 5) (toy_floats.lit 1000 0)))
    × (toy_gauges.value busy_labels n.peer_rtt_avg
        ≡ some (toy_floats.mul (toy_floats.as_secs_f64 3) (toy_floats.lit 1000 0)))
    × (toy_gauges.value busy_labels n.peer_rtt_current
        ≡ some (toy_floats.mul (toy_floats.as_secs_f64 4) (toy_floats.lit 1000 0)))
unfolding get
update_metrics-exact_example =
    update_metrics-exact toy_host toy_laws tables busy unicast_addr 7 measured 3 stats refl
      (refl, refl, refl, refl, refl) refl refl (refl, tt) (omega arith, tt) (omega arith) refl refl
      refl

update_metrics-other_example :
    (n : Metrics Table (List Text)) × (update_metrics toy_host tables busy ≡ done (ok n) busy)
    × (shown toy_host n (labels_of toy_host 5 9 (to_string 100) (to_string 100))
        ≡ shown toy_host tables (labels_of toy_host 5 9 (to_string 100) (to_string 100)))
unfolding get
update_metrics-other_example =
    update_metrics-other toy_host toy_laws tables busy unicast_addr 9 (to_string 100) refl
      (refl, refl, refl, refl, refl) refl refl (refl, tt) (omega arith, tt) (omega arith) refl

abbrev pub toy_system : System ℕ
toy_system = record {
  random = 5;
  generate_keypair = λ p. some (record { private_key = []; public_key = [] });
  succeeds = λ c. true;
  unicast_local_addr = some unicast_addr;
  outward_local_addr = some hello_addr;
  ip_to_string = λ ip. [];
}

abbrev pub fresh : Node ℕ ℕ
fresh =
    new_node 5 network_key (record { private_key = []; public_key = [] }) 5000
      (new_state [] [] [] []) []

abbrev birth : World ℕ ℕ
birth = world_of 0 0 fresh

-- After a Hello of its own.
abbrev greeted : World ℕ ℕ
greeted = left (round toy (hello_due hello_addr) birth)

init_node-IsBlank_example :
    OnlyDiscovery greeted.sent × IsBlank toy toy_host (new_metrics-IsReady toy_host toy_laws).0
unfolding init_node create_multicast_socket perform get_local_ip noise_params
init_node-IsBlank_example = init_node-IsBlank toy toy_host toy_laws toy_system 0 0 fresh refl (
    steps (started (new_metrics-IsReady toy_host toy_laws).1)
      (round-Step toy (hello_due hello_addr) birth _ refl))

abbrev five : Ids
five = machine_ids 5 (omega arith)

some-IsTypedMessage :
    (n msg : Message) → some n ≡ some msg → IsTypedMessage five n → IsTypedMessage five msg
some-IsTypedMessage n msg e t = subst (IsTypedMessage five) (some-injective n msg e) t

toy-IsTypedEnv : IsTypedEnv toy five
toy-IsTypedEnv [] msg e = absurd cc
toy-IsTypedEnv (b ∷ bs) msg e = elim (Bool-cases (nat_eqb b 0)) [
  | inl z ↦
      some-IsTypedMessage (hello (record { node_id = 7; unicast_port = 5000 })) msg
        (sym (rw z refl) ∙ e) (omega arith, omega arith)
  | inr z ↦
      some-IsTypedMessage (handshake (record { msg = bs; node_id = 7; unicast_port = 5000 })) msg
        (sym (rw z refl) ∙ e) (omega arith, omega arith)
]

local_port : (addr : SocketAddr) → some unicast_addr ≡ some addr → IsPort addr.port
local_port addr e = subst (λ a. IsPort a.port) (some-injective unicast_addr addr e) (omega arith)

init_node-IsTyped_example : IsTyped five greeted
unfolding init_node create_multicast_socket perform get_local_ip noise_params
init_node-IsTyped_example =
    init_node-IsTyped toy toy_system 0 0 fresh refl (omega arith) local_port toy-IsTypedEnv
      (next here (round-Step toy (hello_due hello_addr) birth _ refl))

init_node_lem_example : (init_node toy_snow toy_system ≡ ok fresh) ↔ (
    (p : ℕ) × (keys : Keypair) × (addr : SocketAddr) × (out : SocketAddr) × (noise_params toy_snow
      ≡ ok p)
    × (toy_system.generate_keypair p ≡ some keys)
    × Succeed toy_system (
        udp_socket
        ∷ set_reuse_address
        ∷ set_reuse_port
        ∷ parse_socket_addr (literal "0.0.0.0:9999")
        ∷ bind (literal "0.0.0.0:9999")
        ∷ parse_ipv4 (literal "224.0.0.1")
        ∷ join_multicast (literal "224.0.0.1")
        ∷ set_nonblocking
        ∷ from_std
        ∷ [])
    × Succeed toy_system (bind (literal "0.0.0.0:0") ∷ [])
    × Succeed toy_system (bind (literal "0.0.0.0:0") ∷ connect (literal "8.8.8.8:80") ∷ [])
    × (toy_system.unicast_local_addr ≡ some addr)
    × (toy_system.outward_local_addr ≡ some out)
    × (fresh ≡ record fresh { static_keys = keys; unicast_port = addr.port }))
init_node_lem_example = init_node_lem toy_snow toy_system fresh
