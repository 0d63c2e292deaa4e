-- ===== src/Node/Order.antt =====
-- The order in which the tasks of crates/node/src/node.rs take locks while they hold others: the peers,
-- the sessions, the pings, the sequence number, the advertisements.
pub mod Climbs
pub mod Parts
pub mod Adverts
pub mod Handshakes
pub mod Rounds
use swarm_mesh.Prelude.{ℕ, Bool, true, false, ◌||◌, ◌&&◌, not, ltb, ◌≡◌}
use swarm_mesh.Node.World.{
  Lock, peer_lock, session_lock, ping_lock, link_state_lock, lsa_sequence_lock, Held, is_held,
  World,
}

abbrev pub rank : Lock → ℕ
rank peer_lock = 0
rank session_lock = 1
rank ping_lock = 2
rank lsa_sequence_lock = 3
rank link_state_lock = 4

-- The locks of the one and of the other.
abbrev pub join : Held → Held → Held
join g h = record {
  peer = g.peer || h.peer;
  session = g.session || h.session;
  ping = g.ping || h.ping;
  link_state = g.link_state || h.link_state;
  lsa_sequence = g.lsa_sequence || h.lsa_sequence;
}

abbrev pub implies : Bool → Bool → Bool
implies a b = not a || b

-- The lock comes after each of these in the order.
abbrev pub is_after : Lock → Held → Bool
is_after k h =
    implies h.peer (ltb 0 (rank k))
    && (implies h.session (ltb 1 (rank k))
        && (implies h.ping (ltb 2 (rank k))
            && (implies h.lsa_sequence (ltb 3 (rank k)) && implies h.link_state (ltb 4 (rank k)))))

-- Blocked with the locks `mine` of its own at a lock of `theirs` that comes after all of `mine`.
abbrev pub IsOrdered : {Hs Ts : Type 0} → Held → World Hs Ts → Type 0
IsOrdered theirs v =
    (k : Lock) × (mine : Held) × (v.held ≡ join mine theirs)
    × (is_held k theirs ≡ true)
    × (is_after k mine ≡ true)
