-- ===== src/Node/System/Quiet.antt =====
-- The invariant that no session in transport mode is ever seen and that nothing but Hello and
-- handshake messages is sent, for the parts that the handlers share.
use swarm_mesh.Prelude.{
  true, false, List, [], ◌∷◌, none, some, ◌≡◌, refl, nat_key, All, All-IsIn, Option-cases,
  Bool-cases, inl, inr, ◌⊎◌,
}
use swarm_mesh.HashMap.{Map, get, insert, remove}
use swarm_mesh.HashMap.Laws.{get-eq_some}
use swarm_mesh.Mesh.Message.{NodeId, Message, hello, handshake}
use swarm_mesh.Mesh.Peer.{PeerInfo, PeerSession, is_transport}
use swarm_mesh.Node.World.{Packet, World}
use swarm_mesh.Node.Send.{neighbor, neighbor_addresses}
use swarm_mesh.Node.Ping.{has_transport}
use swarm_mesh.Node.Tasks.{remove_each}

-- The two messages that set up a session.
abbrev pub IsDiscovery : Message → Type 0
IsDiscovery (hello p) = Unit
IsDiscovery (handshake p) = Unit
IsDiscovery _ = ⊥

abbrev pub OnlyDiscovery : List Packet → Type 0
OnlyDiscovery = All (λ p. IsDiscovery p.message)

module _ {Hs Ts : Type 0} where
  abbrev pub NoTransport : Map NodeId (PeerSession Hs Ts) → Type 0
  NoTransport = All (λ e. is_transport e.1.noise ≡ false)

  -- Whoever can look at the sessions finds none in transport mode.
  abbrev pub IsQuiet : World Hs Ts → Type 0
  IsQuiet w = OnlyDiscovery w.sent × (NoTransport w.session_db ⊎ (w.held.session ≡ true))

  -- The same inside the lock of the sessions.
  abbrev pub IsQuietInside : World Hs Ts → Type 0
  IsQuietInside w = OnlyDiscovery w.sent × NoTransport w.session_db × (w.held.session ≡ true)

  pub NoTransport-insert :
      (k : NodeId) (s : PeerSession Hs Ts) (m : Map NodeId (PeerSession Hs Ts))
      → is_transport s.noise ≡ false
      → NoTransport m
      → NoTransport (insert k s m)
  unfolding insert
  NoTransport-insert k s [] e n = (e, tt)
  NoTransport-insert k s ((j, t) ∷ m) e n = elim (Bool-cases (nat_key.agrees j k)) [
    | inl q ↦ rw q (e, n.1)
    | inr q ↦ rw q (n.0, NoTransport-insert k s m e n.1)
  ]

  NoTransport-remove :
      (k : NodeId) (m : Map NodeId (PeerSession Hs Ts)) → NoTransport m → NoTransport (remove k m)
  unfolding remove
  NoTransport-remove k [] n = tt
  NoTransport-remove k ((j, t) ∷ m) n = elim (Bool-cases (nat_key.agrees j k)) [
    | inl q ↦ rw q (NoTransport-remove k m n.1)
    | inr q ↦ rw q (n.0, NoTransport-remove k m n.1)
  ]

  pub NoTransport-remove_each :
      (ks : List NodeId) (m : Map NodeId (PeerSession Hs Ts))
      → NoTransport m
      → NoTransport (remove_each ks m)
  unfolding remove_each
  NoTransport-remove_each [] m n = n
  NoTransport-remove_each (k ∷ ks) m n = NoTransport-remove_each ks _ (NoTransport-remove k m n)

  pub get-NoTransport :
      (k : NodeId) (s : PeerSession Hs Ts) (m : Map NodeId (PeerSession Hs Ts))
      → NoTransport m
      → get k m ≡ some s
      → is_transport s.noise ≡ false
  get-NoTransport k s m n g =
      All-IsIn (λ e. is_transport e.1.noise ≡ false) m n (get-eq_some k s m g)

  neighbor-NoTransport :
      (m : Map NodeId (PeerSession Hs Ts)) (e : NodeId × PeerInfo)
      → NoTransport m
      → neighbor m e ≡ none
  unfolding neighbor
  neighbor-NoTransport m (id, info) n = elim (Option-cases (get id m)) [
    | inl g ↦ rw (g, neighbor)
    | inr (s, g) ↦ rw (g, neighbor, get-NoTransport id s m n g)
  ]

  pub neighbor_addresses-NoTransport :
      (peers : Map NodeId PeerInfo) (m : Map NodeId (PeerSession Hs Ts))
      → NoTransport m
      → neighbor_addresses peers m ≡ []
  unfolding neighbor_addresses
  neighbor_addresses-NoTransport [] m n = refl
  neighbor_addresses-NoTransport (e ∷ peers) m n =
      rw (neighbor-NoTransport m e n) (neighbor_addresses-NoTransport peers m n)

  pub has_transport-NoTransport :
      (id : NodeId) (m : Map NodeId (PeerSession Hs Ts))
      → NoTransport m
      → has_transport id m ≡ false
  unfolding has_transport
  has_transport-NoTransport id m n = elim (Option-cases (get id m)) [
    | inl g ↦ rw (g, has_transport)
    | inr (s, g) ↦ rw (g, has_transport, get-NoTransport id s m n g)
  ]
