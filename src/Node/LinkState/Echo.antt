-- ===== src/Node/LinkState/Echo.antt =====
-- Where an advertisement goes that `handle_lsa` of crates/node/src/node.rs accepts.
use swarm_mesh.Prelude.{
  ℕ, true, List, [], ◌∷◌, some, Bytes, ok, ◌≡◌, ◌≢◌, ap, subst, inl, inr, map, nat_key, IsIn,
  IsIn-filter_by, arith,
}
use swarm_mesh.HashMap.{get}
use swarm_mesh.HashMap.Laws.{get-insert_self}
use swarm_mesh.Mesh.Message.{link_state, LinkStatePayload}
use swarm_mesh.Mesh.Peer.{SocketAddr, addr_key}
use swarm_mesh.Node.World.{Env, Packet, unicast_socket, World, done, none_held}
use swarm_mesh.Node.Send.{neighbor_addresses}
use swarm_mesh.Node.LinkState.{is_newer, handle_lsa}
use swarm_mesh.Node.LinkState.Flood.{packet_to, push_all, others, flooded, handle_lsa-newer}

IsIn-push_all : (x : Packet) (ps sent : List Packet) → IsIn x sent → IsIn x (push_all ps sent)
IsIn-push_all x [] sent i = i
IsIn-push_all x (p ∷ ps) sent i = IsIn-push_all x ps (p ∷ sent) (inr i)

pub pushed-IsIn :
    {A : Type 0} (f : A → Packet) (a : A) (xs : List A) (sent : List Packet)
    → IsIn a xs
    → IsIn (f a) (push_all (map f xs) sent)
pushed-IsIn f a [] sent i = elim i [ ]
pushed-IsIn f a (x ∷ xs) sent (inl e) = IsIn-push_all (f a) (map f xs) (f x ∷ sent) (inl (ap f e))
pushed-IsIn f a (x ∷ xs) sent (inr i) = pushed-IsIn f a xs (f x ∷ sent) i

module _ {P F Hs Ts : Type 0} (env : Env P F Hs Ts) where
  -- Where no lock is held and advertisements can be serialized, one that is newer than the entry of
  -- its origin is stored, and goes to every neighbour whose recorded address is not the address
  -- that it came from.
  pub handle_lsa-reaches :
      (p : LinkStatePayload) (src : SocketAddr) (w : World Hs Ts) (b : Bytes) (id port : ℕ)
      (addr : SocketAddr)
      → w.held ≡ none_held
      → env.serialize (link_state p) ≡ some b
      → is_newer p (get p.node_id w.link_state_db) ≡ true
      → IsIn (id, port, addr) (neighbor_addresses w.peer_db w.session_db)
      → addr ≢ src
      → (v : World Hs Ts) × (handle_lsa env p src w ≡ done (ok tt) v)
        × (get p.node_id v.link_state_db ≡ some p)
        × IsIn (packet_to (link_state p) (id, port, addr)) v.sent
  handle_lsa-reaches p src w b id port addr free s n i ne =
      let xs = neighbor_addresses w.peer_db w.session_db in
      (
        _,
        handle_lsa-newer env p src w free n,
        get-insert_self p.node_id p w.link_state_db,
        rw (s, flooded)
            (pushed-IsIn (packet_to (link_state p)) (id, port, addr) (others src xs) w.sent
              ((IsIn-filter_by _ xs (id, port, addr)).1
                (i, ground (arith, addr_key.agrees_iff addr src)))),
      )

  -- The advertisement goes back to the neighbour that sent it, if the address recorded of that
  -- neighbour has another port than its unicast port, from which it sends advertisements. The
  -- recorded address is the source of a Hello, which leaves from the multicast socket.
  pub handle_lsa-echo :
      (p : LinkStatePayload) (src : SocketAddr) (w : World Hs Ts) (b : Bytes) (id : ℕ)
      (addr : SocketAddr)
      → w.held ≡ none_held
      → env.serialize (link_state p) ≡ some b
      → is_newer p (get p.node_id w.link_state_db) ≡ true
      → IsIn (id, src.port, addr) (neighbor_addresses w.peer_db w.session_db)
      → addr.ip ≡ src.ip
      → addr.port ≢ src.port
      → (v : World Hs Ts) × (handle_lsa env p src w ≡ done (ok tt) v)
        × IsIn (record { message = link_state p; dest = src; socket = unicast_socket }) v.sent
  handle_lsa-echo p src w b id addr free s n i ip port =
      let (v, run, found, sent) =
        handle_lsa-reaches p src w b id src.port addr free s n i (λ e. port (ap (λ a. a.port) e)) in
      (
        v,
        run,
        subst
            (λ k.
              IsIn
                (record {
                  message = link_state p;
                  dest = record { ip = k; port = src.port };
                  socket = unicast_socket;
                })
                v.sent)
            ip sent,
      )
