-- ===== src/App/Typed.antt =====
-- The types of a node that apps/node/src/main.rs has made, in every state that it reaches.
use swarm_mesh.Prelude.{ℕ, some, ok, ◌≡◌, refl, sym, subst, arith}
use swarm_mesh.Mesh.Peer.{SocketAddr}
use swarm_mesh.Node.World.{Env, Node, World}
use swarm_mesh.Node.System.{Reach}
use swarm_mesh.Node.Typed.{machine_ids, IsPort, IsId, IsTyped}
use swarm_mesh.Node.Typed.Rounds.{IsTypedEnv, Reach-IsTyped}
use swarm_mesh.App.{System, init_node, world_of}
use swarm_mesh.App.Init.{init_node_lem}

module _ {P F Hs Ts : Type 0} (env : Env P F Hs Ts) (system : System P) where
  world_of-IsTyped :
      (now unix_now : ℕ) (n : Node Hs Ts)
      → init_node env.snow system ≡ ok n
      → (id : IsId system.random)
      → ((addr : SocketAddr) → system.unicast_local_addr ≡ some addr → IsPort addr.port)
      → IsTyped (machine_ids system.random id) (world_of now unix_now n)
  world_of-IsTyped now unix_now n made id port =
      let (_, _, addr, _, _, _, _, _, _, local, _, same) =
        (init_node_lem env.snow system n).0 made in
      subst (λ m. IsTyped (machine_ids system.random id) (world_of now unix_now m)) (sym same)
        (
          (refl, (id, port addr local)),
          (omega arith, omega arith),
          (tt, tt),
          (tt, tt),
          (tt, tt),
          (tt, tt),
          tt,
        )

  -- The random id of a node that init_node made and the port of its socket are in range, and so are
  -- the ids, ports and sequence numbers of every message that `deserialize` returns. Then in every
  -- state that the node reaches, whatever arrives and in whatever order its tasks run: the ids, ports
  -- and sequence numbers of all that it has sent are in range, and so are its counters, the keys of
  -- its tables, the unicast ports and the numbers of measurements of its peers, and the sequence
  -- numbers of its pings and of the advertisements; no table has two entries for one key; peers, sessions and outstanding pings are
  -- of other nodes than itself; and each advertisement is stored under the id of the node it is of.
  -- Nothing is said of times and durations, and of the addresses that messages come from.
  pub init_node-IsTyped :
      (now unix_now : ℕ) (n : Node Hs Ts) {v : World Hs Ts}
      → init_node env.snow system ≡ ok n
      → (id : IsId system.random)
      → ((addr : SocketAddr) → system.unicast_local_addr ≡ some addr → IsPort addr.port)
      → IsTypedEnv env (machine_ids system.random id)
      → Reach env (world_of now unix_now n) v
      → IsTyped (machine_ids system.random id) v
  init_node-IsTyped now unix_now n made id port typed reach =
      Reach-IsTyped env (machine_ids system.random id) typed reach
        (world_of-IsTyped now unix_now n made id port)
