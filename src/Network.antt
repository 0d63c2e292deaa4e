-- ===== src/Network.antt =====
-- A mesh: several nodes of apps/node/src/main.rs, each with the state and the rounds of
-- crates/node/src/node.rs, and a network between them. The network delivers bytes that a node has
-- sent, to any node, on either socket and from any address, any number of times, in any order, or
-- never. The nodes take their rounds in any order.
pub mod Real
use swarm_mesh.Prelude.{ℕ, ◌<◌, some, Bytes, ◌≡◌, IsIn, nat_eqb, take, if◌then◌else◌}
use swarm_mesh.Mesh.Message.{Message}
use swarm_mesh.Node.World.{Env, Packet, World}
use swarm_mesh.Node.Receive.{Datagram}
use swarm_mesh.Node.System.{Event, arrives, round, left}

module _ {Hs Ts : Type 0} where
  -- The nodes are numbered from zero. One of them has another state.
  abbrev pub replace : ℕ → World Hs Ts → (ℕ → World Hs Ts) → ℕ → World Hs Ts
  replace i w mesh j = if nat_eqb i j then w else mesh j

module _ {P F Hs Ts : Type 0} (count : ℕ) (envs : ℕ → Env P F Hs Ts) where
  -- One of the nodes has sent these bytes.
  abbrev pub WasSent : (ℕ → World Hs Ts) → Bytes → Type 0
  WasSent mesh b =
      (j : ℕ) × (p : Packet) × (j < count)
      × IsIn p (mesh j).sent
      × ((envs j).serialize p.message ≡ some b)

  -- What arrives was sent.
  abbrev pub CanHappen : (ℕ → World Hs Ts) → Event → Type 0
  CanHappen mesh (arrives d) = WasSent mesh d.bytes
  CanHappen mesh _ = Unit {0}

  pub data Step (mesh next : ℕ → World Hs Ts) : Type 0 where
    acts :
        (i : ℕ) (e : Event)
        → i < count
        → CanHappen mesh e
        → next ≡ replace i (left (round (envs i) e (mesh i))) mesh
        → Step mesh next

  pub data Reach (start : ℕ → World Hs Ts) : (ℕ → World Hs Ts) → Type 0 where
    here : Reach start start
    more : {mesh next : ℕ → World Hs Ts} → Reach start mesh → Step mesh next → Reach start next

  -- `deserialize` undoes `serialize`, but that it may fail on what the buffer cuts off.
  abbrev pub IsCodec : Type 0
  IsCodec =
      (i j : ℕ) (m k : Message) (b : Bytes)
      → (envs j).serialize m ≡ some b
      → (envs i).deserialize (take 1500 b) ≡ some k
      → k ≡ m
