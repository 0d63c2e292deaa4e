-- ===== src/Network/Real.antt =====
-- Whom the nodes of a mesh (apps/node/src/main.rs, crates/node/src/node.rs) get to know.
use swarm_mesh.Prelude.{
  ℕ, ◌<◌, some, ok, ◌≡◌, refl, sym, ◌∙◌, subst, All, All-IsIn, All-of_IsIn, Bool-cases, inl, inr,
  nat_eqb, nat_eqb_iff, take, arith,
}
use swarm_mesh.Mesh.Message.{Message, hello, handshake, ping, pong, link_state, encrypted_data}
use swarm_mesh.Node.World.{Env, Node, World}
use swarm_mesh.Node.Receive.{decode}
use swarm_mesh.Node.System.{
  Event, arrives, hello_due, ping_due, monitor_due, lsa_refresh_due, lsa_cleanup_due, time_passes,
  sockets_fail, round, left, round-Step,
}
use swarm_mesh.Node.System.Quiet.{IsDiscovery, OnlyDiscovery, IsQuiet}
use swarm_mesh.Node.System.Silence.{Step-IsQuiet}
use swarm_mesh.Node.Typed.{
  Ids, IsOther, IsPeer, IsSession, IsLsa, IsTypedMessage, IsTypedPacket, IsTyped,
}
use swarm_mesh.Node.Typed.Rounds.{IsTypedEvent, accept-source, round-IsTyped}
use swarm_mesh.App.{System, init_node, world_of}
use swarm_mesh.App.Init.{init_node_lem}
use swarm_mesh.Network.{CanHappen, Step, acts, Reach, here, more, IsCodec}

module _ {Hs Ts : Type 0} (count : ℕ) (nodes : ℕ → Node Hs Ts) where
  -- The id is that of a node of the mesh; and the port is that node's.
  abbrev pub IsOfNode : ℕ → Type 0
  IsOfNode id = (j : ℕ) × (j < count) × (id ≡ (nodes j).id)

  abbrev pub IsAtNode : ℕ → ℕ → Type 0
  IsAtNode id port = (j : ℕ) × (j < count) × (id ≡ (nodes j).id) × (port ≡ (nodes j).unicast_port)

  -- What a node may know: the nodes of the mesh, and no advertisement but its own.
  abbrev pub mesh_ids : ℕ → Ids
  mesh_ids i = record {
    own = (nodes i).id;
    IsKnown = IsOfNode;
    IsAt = IsAtNode;
    IsSource = λ id. id ≡ (nodes i).id;
    at_known = λ id port t. (t.0, t.1, t.2);
    own_source = refl;
  }

  abbrev IsOfMesh : ℕ → World Hs Ts → Type 0
  IsOfMesh i w = IsTyped (mesh_ids i) w × IsQuiet w

  -- The peers and the sessions of the node are other nodes of the mesh, the ports of its peers are
  -- theirs, it has no advertisement but its own, and it has sent nothing but Hello and handshake
  -- messages.
  abbrev pub IsReal : ℕ → World Hs Ts → Type 0
  IsReal i w =
      All (λ e. IsOther (mesh_ids i) e.0 × (mesh_ids i).IsAt e.0 e.1.port) w.peer_db
      × All (IsSession (mesh_ids i)) w.session_db
      × All (λ e. e.0 ≡ (nodes i).id) w.link_state_db
      × OnlyDiscovery w.sent

  IsOfMesh-IsReal : (i : ℕ) (w : World Hs Ts) → IsOfMesh i w → IsReal i w
  IsOfMesh-IsReal i w (typed, quiet) = (
    All-of_IsIn w.peer_db λ e j.
        let (other, at, counted) = All-IsIn (IsPeer (mesh_ids i)) w.peer_db typed.2.1 j in
        (other, at),
    typed.3.1,
    All-of_IsIn w.link_state_db λ e j.
        let (same, (source, sequence, neighbors)) =
          All-IsIn (IsLsa (mesh_ids i)) w.link_state_db typed.5.1 j in
        sym same ∙ source,
    quiet.0,
  )

  -- The predicates of one node hold for another of what discovery sends.
  IsTypedMessage-any :
      (i j : ℕ) (m : Message)
      → IsDiscovery m
      → IsTypedMessage (mesh_ids j) m
      → IsTypedMessage (mesh_ids i) m
  IsTypedMessage-any i j (hello p) d t = t
  IsTypedMessage-any i j (handshake p) d t = t
  IsTypedMessage-any i j (ping p) d t = absurd d
  IsTypedMessage-any i j (pong p) d t = absurd d
  IsTypedMessage-any i j (link_state p) d t = absurd d
  IsTypedMessage-any i j (encrypted_data b) d t = absurd d

module _ {P F Hs Ts : Type 0} (count : ℕ) (envs : ℕ → Env P F Hs Ts) (codec : IsCodec count envs)
    (nodes : ℕ → Node Hs Ts) where
  abbrev AllOfMesh : (ℕ → World Hs Ts) → Type 0
  AllOfMesh mesh = (i : ℕ) → i < count → IsOfMesh count nodes i (mesh i)

  event-IsTyped :
      (mesh : ℕ → World Hs Ts) (i : ℕ) (e : Event)
      → AllOfMesh mesh
      → CanHappen count envs mesh e
      → IsTypedEvent (envs i) (mesh_ids count nodes i) e
  unfolding decode
  event-IsTyped mesh i (arrives d) all (j, p, lt, sent, written) = λ msg e.
      let (typed, quiet) = all j lt in
      let read : (envs i).deserialize (take 1500 d.bytes) ≡ some msg =
        accept-source d.socket ((envs i).deserialize (take 1500 d.bytes)) msg e in
      subst (IsTypedMessage (mesh_ids count nodes i))
        (sym (codec i j p.message msg d.bytes written read))
        (IsTypedMessage-any count nodes i j p.message
          (All-IsIn (λ x. IsDiscovery x.message) (mesh j).sent quiet.0 sent)
          (All-IsIn (IsTypedPacket (mesh_ids count nodes j)) (mesh j).sent typed.6 sent))
  event-IsTyped mesh i (hello_due addr) all can = tt
  event-IsTyped mesh i ping_due all can = tt
  event-IsTyped mesh i monitor_due all can = tt
  event-IsTyped mesh i lsa_refresh_due all can = tt
  event-IsTyped mesh i sockets_fail all can = tt
  event-IsTyped mesh i lsa_cleanup_due all can = tt
  event-IsTyped mesh i (time_passes ns s) all can = tt

  round-IsOfMesh :
      (mesh : ℕ → World Hs Ts) (i : ℕ) (e : Event)
      → i < count
      → AllOfMesh mesh
      → CanHappen count envs mesh e
      → IsOfMesh count nodes i (left (round (envs i) e (mesh i)))
  round-IsOfMesh mesh i e lt all can =
      let (typed, quiet) = all i lt in
      (
        round-IsTyped (envs i) (mesh_ids count nodes i) e (mesh i) (event-IsTyped mesh i e all can)
            typed,
        Step-IsQuiet (envs i) (round-Step (envs i) e (mesh i) (round (envs i) e (mesh i)) refl)
            quiet,
      )

  Step-AllOfMesh :
      {mesh next : ℕ → World Hs Ts} → Step count envs mesh next → AllOfMesh mesh → AllOfMesh next
  Step-AllOfMesh {mesh} {next} (acts i e lt can same) all = λ j below.
      subst (λ m. IsOfMesh count nodes j (m j)) (sym same)
        (elim (Bool-cases (nat_eqb i j)) [
          | inl q ↦ rw q (
              subst (λ k. IsOfMesh count nodes k (left (round (envs i) e (mesh i))))
                ((nat_eqb_iff i j).0 q) (round-IsOfMesh mesh i e lt all can))
          | inr q ↦ rw q (all j below)
        ])

  Reach-AllOfMesh :
      {start mesh : ℕ → World Hs Ts}
      → Reach count envs start mesh
      → AllOfMesh start
      → AllOfMesh mesh
  Reach-AllOfMesh here all = all
  Reach-AllOfMesh (more r s) all = Step-AllOfMesh s (Reach-AllOfMesh r all)

module _ {P F Hs Ts : Type 0} (count : ℕ) (envs : ℕ → Env P F Hs Ts) (codec : IsCodec count envs)
    (systems : ℕ → System P) (nodes : ℕ → Node Hs Ts) (now unix_now : ℕ → ℕ)
    (made : (i : ℕ) → i < count → init_node (envs i).snow (systems i) ≡ ok (nodes i)) where
  -- Each node as init_node has made it.
  abbrev pub start : ℕ → World Hs Ts
  start i = world_of (now i) (unix_now i) (nodes i)

  start-AllOfMesh : AllOfMesh count envs codec nodes start
  start-AllOfMesh i lt =
      let (_, keys, addr, _, _, _, _, _, _, _, _, same) =
        (init_node_lem (envs i).snow (systems i) (nodes i)).0 (made i lt) in
      let ids = mesh_ids count nodes i in
      subst
        (λ n.
          n.id ≡ ids.own
          → ids.IsAt ids.own n.unicast_port
          → IsTyped ids (world_of (now i) (unix_now i) n)
            × IsQuiet (world_of (now i) (unix_now i) n))
        (sym same)
        (λ own at. (
          ((own, at), (omega arith, omega arith), (tt, tt), (tt, tt), (tt, tt), (tt, tt), tt),
          (tt, inl tt),
        ))
        refl (i, lt, refl, refl)

  -- Nodes that init_node made run their tasks in any order, and the network loses, repeats, reorders and
  -- misdirects what they send, but makes up nothing. Then for each node, in every state of the
  -- mesh: its peers and its sessions are other nodes of the mesh, the ports of its peers are
  -- theirs, it has no advertisement but its own, and it has sent nothing but Hello and handshake
  -- messages.
  pub Reach-IsReal :
      {mesh : ℕ → World Hs Ts} (i : ℕ)
      → i < count
      → Reach count envs start mesh
      → IsReal count nodes i (mesh i)
  Reach-IsReal {mesh} i lt r =
      IsOfMesh-IsReal count nodes i (mesh i)
        (Reach-AllOfMesh count envs codec nodes r start-AllOfMesh i lt)
