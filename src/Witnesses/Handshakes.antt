-- ===== src/Witnesses/Handshakes.antt =====
-- Handshakes, and whole nodes.
use swarm_mesh.Prelude.{ℕ, true, false, List, [], ◌∷◌, some, err, ◌≡◌, refl, ◌⊎◌, inl, nat_key}
use swarm_mesh.HashMap.{get, contains_key, insert, modify_or_insert}
use swarm_mesh.Mesh.Message.{unexpected_noise_state}
use swarm_mesh.Mesh.Peer.{transport}
use swarm_mesh.Node.World.{World, none_held, done, stuck, panicked, ◌>>=◌}
use swarm_mesh.Noise.{build_responder}
use swarm_mesh.Node.Send.{send_unicast_message, get_neighbor_addresses}
use swarm_mesh.Node.LinkState.{broadcast_lsa, generate_lsa, get_established_neighbors}
use swarm_mesh.Node.Ping.{clean_stale_pings}
use swarm_mesh.Node.Tasks.{ping_peers}
use swarm_mesh.Node.Handshake.{
  handle_hello, handle_handshake, with_session, advance, respond, proceed, finish,
}
use swarm_mesh.Node.Handshake.Deadlock.{completes, secured, handle_handshake-stuck}
use swarm_mesh.Node.Handshake.Wedge.{handle_handshake-settled}
use swarm_mesh.Node.Receive.{receive, decode, dispatch, on_hello, reply}
use swarm_mesh.Node.System.{
  round, Event, arrives, sockets_fail, ping_due, lsa_refresh_due, after, after-Reach,
}
use swarm_mesh.Node.System.Quiet.{IsQuiet}
use swarm_mesh.Node.System.Completes.{completes_or_removes}
use swarm_mesh.Node.System.Terminates.{round_lem}
use swarm_mesh.Node.System.Leaked.{IsDeafSince, Reach-IsDeafSince}
use swarm_mesh.Node.System.Silence.{Reach-IsQuiet}
use swarm_mesh.Witnesses.Toy.{
  toy, start, halfway, third, secure, session, datagram, greeting, unicast_addr,
}

-- Node 7 greets, and the whole handshake follows; the last event is the first of the list.
abbrev handshake_events : List Event
handshake_events =
    ping_due
    ∷ lsa_refresh_due
    ∷ arrives (datagram (1 ∷ 2 ∷ []))
    ∷ arrives (datagram (1 ∷ 0 ∷ []))
    ∷ arrives greeting
    ∷ []

Reach-IsQuiet_example : IsQuiet (after toy handshake_events start)
Reach-IsQuiet_example = Reach-IsQuiet toy (after-Reach toy handshake_events start) (tt, inl tt)

handle_handshake-stuck_example :
    (handle_handshake toy third unicast_addr halfway ≡ stuck (secured toy third 3 halfway))
    × ((secured toy third 3 halfway).sent ≡ [])
    × (get 7 (secured toy third 3 halfway).session_db ≡ some (session (transport 3)))
    × ((secured toy third 3 halfway).held.session ≡ true)
unfolding get completes
handle_handshake-stuck_example =
    handle_handshake-stuck toy halfway third unicast_addr 2 3 refl refl refl

handle_handshake-settled_example :
    (v : World ℕ ℕ) × (handle_handshake toy third unicast_addr secure
      ≡ done (err unexpected_noise_state) v)
    × (v.held ≡ secure.held)
    × (v.sent ≡ [])
    × (get 7 v.session_db ≡ some (session (transport 3)))
unfolding get
handle_handshake-settled_example =
    handle_handshake-settled toy third unicast_addr (transport 3) secure refl tt refl

-- The run above ends with the lock of the sessions held for ever.
handshake_events-stuck : (after toy handshake_events start).held.session ≡ true
unfolding after round receive decode dispatch on_hello reply handle_hello handle_handshake
    with_session advance respond proceed finish build_responder get contains_key insert
    modify_or_insert send_unicast_message broadcast_lsa generate_lsa get_established_neighbors
    ping_peers clean_stale_pings get_neighbor_addresses ◌>>=◌
handshake_events-stuck = refl

-- The third message of the handshake arrives, and it hangs the node.
round_lem_example :
    ((completes_or_removes toy (arrives (datagram (1 ∷ 2 ∷ []))) halfway ≡ true)
      × ((v : World ℕ ℕ) × (round toy (arrives (datagram (1 ∷ 2 ∷ []))) halfway ≡ stuck v)
          × (v.held.session ≡ true)))
    ⊎ ((completes_or_removes toy (arrives (datagram (1 ∷ 2 ∷ []))) halfway ≡ false)
        × (((v : World ℕ ℕ) × (round toy (arrives (datagram (1 ∷ 2 ∷ []))) halfway ≡ done tt v)
              × (v.held ≡ none_held))
            ⊎ ((arrives (datagram (1 ∷ 2 ∷ [])) ≡ sockets_fail)
                × (round toy (arrives (datagram (1 ∷ 2 ∷ []))) halfway ≡ panicked halfway))))
round_lem_example = round_lem toy 0 refl (arrives (datagram (1 ∷ 2 ∷ []))) halfway refl

completes-halfway : completes_or_removes toy (arrives (datagram (1 ∷ 2 ∷ []))) halfway ≡ true
unfolding decode get completes
completes-halfway = refl

-- After the handshake that hung the node.
Reach-IsDeafSince_example :
    IsDeafSince
      (secured toy third 3 halfway)
      (after toy handshake_events (secured toy third 3 halfway))
Reach-IsDeafSince_example =
    Reach-IsDeafSince toy (secured toy third 3 halfway)
      (after toy handshake_events (secured toy third 3 halfway)) refl
      (after-Reach toy handshake_events (secured toy third 3 halfway))
