-- ===== src/Service.antt =====
-- ClientNetworkCore/Service.h and Service.cpp: the sessions that a service keeps, and the handshake of
-- a UDP session. Sessions and endpoints are numbers. What a session factory returns is an argument,
-- `none` for null. Each method runs as one step, under the service's lock.
pub mod Sets
pub mod Handshake
mod Tests
use jam_client_prototype.Prelude.{
  ℕ, ◌+◌, ◌-◌, Option, none, some, List, [], ◌∷◌, ◌==◌, if◌then◌else◌,
}
use jam_client_prototype.ReliableUdp.{assign, find, erase}
unfoldable pub use jam_client_prototype.Prelude.Maps.{member}
use jam_client_prototype.SendBuffer.{Outcome, ok, crash, assert_crash, ◌>>=◌, ◌>>◌}

pub record Service : Type 0 where
  pub tcp_sessions : List ℕ
  pub udp_sessions : List ℕ
  pub pending_udp_sessions : List (ℕ × ℕ)
  pub tcp_session_count : ℕ
  pub udp_session_count : ℕ
  -- the endpoint that each UDP session was given
  pub remote_endpoint : ℕ → ℕ

unfoldable pub create_service : Service
create_service = record {
  tcp_sessions = [];
  udp_sessions = [];
  pending_udp_sessions = [];
  tcp_session_count = 0;
  udp_session_count = 0;
  remote_endpoint = λ _. 0;
}

-- `Set`: its elements, each once.
unfoldable pub insert : ℕ → List ℕ → List ℕ
unfolding member
insert x ys = if member x ys then ys else x ∷ ys

unfoldable pub remove : ℕ → List ℕ → List ℕ
remove x [] = []
remove x (y ∷ ys) = if y == x then remove x ys else y ∷ remove x ys

unfoldable pub add_tcp_session : ℕ → Service → Service
unfolding insert
add_tcp_session x s = record s {
  tcp_session_count = s.tcp_session_count + 1;
  tcp_sessions = insert x s.tcp_sessions;
}

unfoldable pub release_tcp_session : ℕ → Service → Outcome Service
unfolding member remove
release_tcp_session x s = do
  assert_crash (member x s.tcp_sessions)
  ok (record s {
    tcp_sessions = remove x s.tcp_sessions;
    tcp_session_count = s.tcp_session_count - 1;
  })

unfoldable pub add_udp_session : ℕ → Service → Service
unfolding insert
add_udp_session x s = record s {
  udp_session_count = s.udp_session_count + 1;
  udp_sessions = insert x s.udp_sessions;
}

unfoldable pub release_udp_session : ℕ → Service → Outcome Service
unfolding member remove
release_udp_session x s = do
  assert_crash (member x s.udp_sessions)
  ok (record s {
    udp_sessions = remove x s.udp_sessions;
    udp_session_count = s.udp_session_count - 1;
  })

unfoldable pub complete_udp_handshake : ℕ → Service → Service
unfolding find erase add_udp_session
complete_udp_handshake from s = elim (find from s.pending_udp_sessions) [
  | none ↦ s
  | some x ↦
      let added = add_udp_session x s in
      record added { pending_udp_sessions = erase from added.pending_udp_sessions }
]

-- The first loop of `FindOrCreateUdpSession`.
unfoldable pub find_session : (ℕ → ℕ) → ℕ → List ℕ → Option ℕ
find_session endpoint from [] = none
find_session endpoint from (x ∷ xs) =
    if endpoint x == from then some x else find_session endpoint from xs

-- A new session is given its endpoint, waits for its handshake, and `ProcessConnect` completes that.
unfoldable pub adopt : ℕ → ℕ → Service → Service
unfolding assign complete_udp_handshake
adopt from x s = complete_udp_handshake from (record s {
  remote_endpoint = λ y. if y == x then from else s.remote_endpoint y;
  pending_udp_sessions = assign from x s.pending_udp_sessions;
})

unfoldable pub find_or_create_udp_session : ℕ → Option ℕ → Service → Option ℕ × Service
unfolding find_session find adopt
find_or_create_udp_session from created s =
    elim (find_session s.remote_endpoint from s.udp_sessions) [
      | some x ↦ (some x, s)
      | none ↦ elim (find from s.pending_udp_sessions) [
        | some x ↦ (some x, s)
        | none ↦ elim created [ none ↦ (none, s) | some x ↦ (some x, adopt from x s) ]
      ]
    ]
