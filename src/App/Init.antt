-- ===== src/App/Init.antt =====
-- When `init_node` of apps/node/src/main.rs makes a node, and which.
use swarm_mesh.Prelude.{
  true, List, [], ◌∷◌, Option, none, some, ok-injective, literal, Result, ok, err, Text, ◌≡◌, ◌↔◌,
  refl, sym, ap, ◌∙◌, All, Bool-cases, inl, inr,
}
use swarm_mesh.Decimal.{to_string, digits}
use swarm_mesh.Noise.{Snow, Keypair, noise_params}
use swarm_mesh.Mesh.Peer.{SocketAddr}
use swarm_mesh.Node.World.{Node, new_state, new_node}
use swarm_mesh.Mesh.Message.{Failure}
use swarm_mesh.App.{
  udp_socket, set_reuse_address, set_reuse_port, set_nonblocking, from_std, parse_socket_addr,
  parse_ipv4, join_multicast, call_failed, System, InitError, Call, network_key, multicast_calls,
  perform, create_multicast_socket, get_local_ip, checked_params, or_fail, no_keypair,
  no_local_addr, bind, connect, init_node, ◌>>=◌,
}

-- A result that is reached passed through each step.
bind-ok :
    {A B : Type 0} (m : Result InitError A) (f : A → Result InitError B) (b : B)
    → (m >>= f) ≡ ok b
    → (a : A) × (m ≡ ok a) × (f a ≡ ok b)
bind-ok (err e) f b q = absurd cc
bind-ok (ok a) f b q = (a, refl, q)

or_fail-ok : {A : Type 0} (e : InitError) (o : Option A) (a : A) → or_fail e o ≡ ok a → o ≡ some a
or_fail-ok e none a q = absurd cc
or_fail-ok e (some b) a q = ap some (ok-injective b a q)

checked_params-ok :
    {P Hs Ts : Type 0} (snow : Snow P Hs Ts) (system : System P) (r : Result Failure P) (p : P)
    → checked_params snow system r ≡ ok p
    → r ≡ ok p
checked_params-ok snow system (err e) p q = absurd cc
checked_params-ok snow system (ok x) p q = ap ok (ok-injective x p q)

module _ {P : Type 0} (system : System P) where
  -- All calls succeed.
  abbrev pub Succeed : List Call → Type 0
  Succeed = All (λ c. system.succeeds c ≡ true)

  perform-ok : (cs : List Call) (u : Unit {0}) → perform system cs ≡ ok u → Succeed cs
  unfolding perform
  perform-ok [] u q = tt
  perform-ok (c ∷ cs) u q = elim (Bool-cases (system.succeeds c)) [
    | inl e ↦ (e, perform-ok cs u (sym (rw (e) refl) ∙ q))
    | inr e ↦
        let bad : ◌≡◌ {A = Result InitError (Unit {0})} (err (call_failed c)) (ok u) =
          sym (rw (e) refl) ∙ q in
        absurd cc
  ]

  Succeed-perform : (cs : List Call) → Succeed cs → perform system cs ≡ ok tt
  unfolding perform
  Succeed-perform [] all = refl
  Succeed-perform (c ∷ cs) (e, all) = rw (e) (Succeed-perform cs all)

module _ {P Hs Ts : Type 0} (snow : Snow P Hs Ts) (system : System P) where
  -- `init_node` makes a node if and only if every step succeeds: snow parses the parameters and
  -- generates keys; the multicast socket is made, set up and bound to 0.0.0.0:9999 and joins 224.0.0.1;
  -- the unicast socket is bound to any port, and the socket that finds the local address to another,
  -- and is connected to 8.8.8.8:80; and both local addresses can be read. The node then has the random
  -- id, the keys, the port of the unicast socket, the address of the other one and empty tables.
  pub init_node_lem :
      (n : Node Hs Ts)
      → (init_node snow system ≡ ok n) ↔ (
          (p : P) × (keys : Keypair) × (addr : SocketAddr) × (out : SocketAddr) × (noise_params snow
            ≡ ok p)
          × (system.generate_keypair p ≡ some keys)
          × Succeed system (
              udp_socket
              ∷ set_reuse_address
              ∷ set_reuse_port
              ∷ parse_socket_addr (literal "0.0.0.0:9999")
              ∷ bind (literal "0.0.0.0:9999")
              ∷ parse_ipv4 (literal "224.0.0.1")
              ∷ join_multicast (literal "224.0.0.1")
              ∷ set_nonblocking
              ∷ from_std
              ∷ [])
          × Succeed system (bind (literal "0.0.0.0:0") ∷ [])
          × Succeed system (bind (literal "0.0.0.0:0") ∷ connect (literal "8.8.8.8:80") ∷ [])
          × (system.unicast_local_addr ≡ some addr)
          × (system.outward_local_addr ≡ some out)
          × (n ≡ record {
            id = system.random;
            network_key = network_key;
            static_keys = keys;
            unicast_port = addr.port;
            state = record { peer_db = []; session_db = []; ping_db = []; link_state_db = [] };
            lsa_sequence = 0;
            ip = system.ip_to_string out.ip;
          }))
  unfolding init_node create_multicast_socket get_local_ip to_string digits
  init_node_lem n = (
    λ q.
        let (p, q₁, r₁) = bind-ok (checked_params snow system (noise_params snow)) _ n q in
        let (keys, q₂, r₂) = bind-ok (or_fail no_keypair (system.generate_keypair p)) _ n r₁ in
        let (u, q₃, r₃) = bind-ok (create_multicast_socket system) _ n r₂ in
        let (v, q₄, r₄) = bind-ok (perform system (bind (literal "0.0.0.0:0") ∷ [])) _ n r₃ in
        let (addr, q₅, r₅) = bind-ok (or_fail no_local_addr system.unicast_local_addr) _ n r₄ in
        let (ip, q₆, r₆) = bind-ok (get_local_ip system) _ n r₅ in
        let (t, q₇, r₇) =
          bind-ok
            (perform system (bind (literal "0.0.0.0:0") ∷ connect (literal "8.8.8.8:80") ∷ [])) _ ip
            q₆ in
        let (out, q₈, r₈) = bind-ok (or_fail no_local_addr system.outward_local_addr) _ ip r₇ in
        (
          p,
          keys,
          addr,
          out,
          checked_params-ok snow system (noise_params snow) p q₁,
          or_fail-ok no_keypair (system.generate_keypair p) keys q₂,
          perform-ok system multicast_calls u q₃,
          perform-ok system (bind (literal "0.0.0.0:0") ∷ []) v q₄,
          perform-ok system (bind (literal "0.0.0.0:0") ∷ connect (literal "8.8.8.8:80") ∷ []) t q₇,
          or_fail-ok no_local_addr system.unicast_local_addr addr q₅,
          or_fail-ok no_local_addr system.outward_local_addr out q₈,
          sym (ok-injective _ _ r₆)
              ∙ ap (new_node system.random network_key keys addr.port (new_state [] [] [] []))
                  (sym (ok-injective _ _ r₈)),
        ),
    λ (p, keys, addr, out, a, b, c₁, c₂, c₃, d, e, f). rw (a) (
        rw (b) (
          rw (Succeed-perform system multicast_calls c₁) (
            rw (Succeed-perform system (bind (literal "0.0.0.0:0") ∷ []) c₂) (
              rw (d) (
                rw
                  (Succeed-perform system
                    (bind (literal "0.0.0.0:0") ∷ connect (literal "8.8.8.8:80") ∷ []) c₃)
                  (rw (e) (ap ok (sym f)))))))),
  )

  pub init_node-new_node :
      (n : Node Hs Ts)
      → init_node snow system ≡ ok n
      → (keys : Keypair) × (addr : SocketAddr) × (ip : Text) × (n
          ≡ new_node system.random network_key keys addr.port (new_state [] [] [] []) ip)
  init_node-new_node n q =
      let (p, keys, addr, out, a, b, c₁, c₂, c₃, d, e, f) = (init_node_lem n).0 q in
      (keys, addr, system.ip_to_string out.ip, f)
