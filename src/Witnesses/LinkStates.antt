-- ===== src/Witnesses/LinkStates.antt =====
-- Advertisements between a node and its neighbour 7.
use swarm_mesh.Prelude.{
  ℕ, true, false, List, [], ◌∷◌, some, ok, ◌≡◌, refl, sym, ◌∙◌, ◌↔◌, ◌⊎◌, inl, inr, ap, map,
  nat_key, IsIn, arith,
}
use swarm_mesh.HashMap.{get}
use swarm_mesh.Mesh.Message.{link_state, LinkStatePayload}
use swarm_mesh.Mesh.Peer.{SocketAddr, PeerInfo}
use swarm_mesh.Node.Secure.{IsSecure}
use swarm_mesh.Node.World.{unicast_socket, World, done, none_held}
use swarm_mesh.Node.Send.{neighbor, neighbor_addresses}
use swarm_mesh.Node.LinkState.{is_newer, handle_lsa, broadcast_lsa}
use swarm_mesh.Node.LinkState.Flood.{packet_to}
use swarm_mesh.Node.LinkState.Echo.{handle_lsa-reaches, handle_lsa-echo}
use swarm_mesh.Node.LinkState.Own.{broadcast_lsa_lem}
use swarm_mesh.Node.LinkState.Merge.{IsFrom, handle_each, handle_each-newest}
use swarm_mesh.Node.LinkState.Converge.{IsUnambiguous, handle_each-agree}
use swarm_mesh.Witnesses.Toy.{toy, start, secure, lsa, hello_addr, unicast_addr}

abbrev heard : List (LinkStatePayload × SocketAddr)
heard = (lsa 9 1 500, unicast_addr) ∷ (lsa 9 2 510, unicast_addr) ∷ []

abbrev heard_late : List (LinkStatePayload × SocketAddr)
heard_late =
    (lsa 9 2 510, hello_addr) ∷ (lsa 9 1 500, hello_addr) ∷ (lsa 9 2 510, unicast_addr) ∷ []

handle_each-newest_example :
    (v : World ℕ ℕ) × (handle_each toy heard secure ≡ done tt v)
    × (v.held ≡ none_held)
    × ((q : LinkStatePayload)
        → IsIn q (lsa 9 1 500 ∷ lsa 9 2 510 ∷ [])
        → is_newer q (get q.node_id v.link_state_db) ≡ false)
    × ((id : ℕ)
        → (get id v.link_state_db ≡ get id secure.link_state_db)
          ⊎ IsFrom id (lsa 9 1 500 ∷ lsa 9 2 510 ∷ []) (get id v.link_state_db))
handle_each-newest_example = handle_each-newest toy heard secure refl

heard-IsUnambiguous : IsUnambiguous (lsa 9 1 500 ∷ lsa 9 2 510 ∷ [])
heard-IsUnambiguous p q (inl e) (inl f) a b c = e ∙ sym f
heard-IsUnambiguous p q (inl e) (inr (inl f)) a b c =
    absurd (omega (arith, ap (λ x. x.sequence) e, ap (λ x. x.sequence) f, b))
heard-IsUnambiguous p q (inr (inl e)) (inl f) a b c =
    absurd (omega (arith, ap (λ x. x.sequence) e, ap (λ x. x.sequence) f, b))
heard-IsUnambiguous p q (inr (inl e)) (inr (inl f)) a b c = e ∙ sym f
heard-IsUnambiguous p q i (inr (inr f)) a b c = absurd f
heard-IsUnambiguous p q (inr (inr e)) j a b c = absurd e

same_heard :
    (q : LinkStatePayload) → IsIn q (map (λ x. x.0) heard) ↔ IsIn q (map (λ x. x.0) heard_late)
same_heard q = ground arith

handle_each-agree_example :
    (v₁ : World ℕ ℕ) × (v₂ : World ℕ ℕ) × (handle_each toy heard start ≡ done tt v₁)
    × (handle_each toy heard_late secure ≡ done tt v₂)
    × (get 9 v₁.link_state_db ≡ get 9 v₂.link_state_db)
unfolding get
handle_each-agree_example =
    handle_each-agree toy heard heard_late start secure 9 refl refl refl refl same_heard
      heard-IsUnambiguous

handle_lsa-reaches_example :
    (v : World ℕ ℕ) × (handle_lsa toy (lsa 9 1 500) unicast_addr secure ≡ done (ok tt) v)
    × (get 9 v.link_state_db ≡ some (lsa 9 1 500))
    × IsIn (packet_to (link_state (lsa 9 1 500)) (7, 5000, hello_addr)) v.sent
unfolding get is_newer neighbor_addresses neighbor
handle_lsa-reaches_example =
    handle_lsa-reaches toy (lsa 9 1 500) unicast_addr secure [] 7 5000 hello_addr refl refl refl
      (inl refl) (λ e. omega (arith, ap (λ a. a.port) e))

-- The advertisement of node 7 goes back to it.
handle_lsa-echo_example :
    (v : World ℕ ℕ) × (handle_lsa toy (lsa 7 1 500) unicast_addr secure ≡ done (ok tt) v)
    × IsIn
        (record {
          message = link_state (lsa 7 1 500);
          dest = unicast_addr;
          socket = unicast_socket;
        })
        v.sent
unfolding get is_newer neighbor_addresses neighbor
handle_lsa-echo_example =
    handle_lsa-echo toy (lsa 7 1 500) unicast_addr secure [] 7 hello_addr refl refl refl (inl refl)
      refl (λ e. omega (arith, e))

broadcast_lsa_lem_example :
    (v : World ℕ ℕ) × (broadcast_lsa toy secure ≡ done tt v)
    × (sent : LinkStatePayload) × (get 5 v.link_state_db ≡ some sent)
    × (sent.node_id ≡ 5)
    × (sent.sequence ≡ 1)
    × (sent.timestamp ≡ 1000)
    × ((id : ℕ) → IsIn id sent.neighbors ↔ IsSecure id secure.session_db)
    × ((id : ℕ) (info : PeerInfo)
        → get id secure.peer_db ≡ some info
        → IsSecure id secure.session_db
        → IsIn
            (record {
              message = link_state sent;
              dest = record { ip = info.addr.ip; port = info.port };
              socket = unicast_socket;
            })
            v.sent)
    × (is_newer sent (some (lsa 5 0 900)) ≡ true)
unfolding get
broadcast_lsa_lem_example =
    broadcast_lsa_lem toy secure [] (lsa 5 0 900) refl (refl, tt) refl (omega arith) refl
