-- ===== src/Network/Sync/Stalls.antt =====
-- crates/network/src/sync.rs: the stalled state.
use velochain.Prelude.{◌≡◌, refl, some, List, [], ◌∷◌, All, arith}
use velochain.Network.Sync.{
  SyncEngine, stalled, on_peer_status, poll_header_requests, drain_import_ready, ban_peer,
}
use velochain.Network.Sync.Bodies.{poll_body_requests, verify_chain}
use velochain.Network.Sync.Timeouts.{
  Call, step, run, tick, status_call, head_call, poll_headers_call, poll_bodies_call, verify_call,
  drain_call, tick_call, headers_call, bodies_call, ban_call,
}

-- What a node does by itself, and what peers announce: all calls but data from peers and a new
-- local head.
abbrev pub IsOwn : Call → Type 0
IsOwn (head_call head) = ⊥
IsOwn (headers_call hs) = ⊥
IsOwn (bodies_call hashes) = ⊥
IsOwn _ = Unit

pub record IsStalled (e : SyncEngine) : Type 0 where
  pub stuck : e.state ≡ stalled
  pub bare : e.headers ≡ []

step-IsStalled :
    (e : SyncEngine) (c : Call)
    → IsOwn c
    → IsStalled e
    → (e' : SyncEngine) × (step e c ≡ some e') × IsStalled e'
unfolding step on_peer_status poll_header_requests poll_body_requests verify_chain
    drain_import_ready ban_peer tick
step-IsStalled e (status_call peer best hash) own v =
    (on_peer_status e peer best hash, refl, ground (arith, v))
step-IsStalled e poll_headers_call own v = ((poll_header_requests e).0, refl, ground (arith, v))
step-IsStalled e poll_bodies_call own v = (e, simp (v.stuck, poll_body_requests) refl, v)
step-IsStalled e verify_call own v = ((verify_chain e).0, refl, ground (arith, v))
step-IsStalled e drain_call own v =
    ((drain_import_ready e).0, refl, record { stuck = v.stuck; bare = v.bare })
step-IsStalled e tick_call own v = ((tick e).0, refl, ground (arith, v))
step-IsStalled e (ban_call peer) own v = (ban_peer e peer, refl, ground (arith, v))
step-IsStalled e (head_call head) own v = elim own [ ]
step-IsStalled e (headers_call hs) own v = elim own [ ]
step-IsStalled e (bodies_call hashes) own v = elim own [ ]

-- A stalled engine asks for nothing.
IsStalled-polls :
    (e : SyncEngine)
    → IsStalled e
    → ((poll_header_requests e).1 ≡ []) × (poll_body_requests e ≡ some (e, []))
unfolding poll_header_requests poll_body_requests
IsStalled-polls e v =
    (simp (v.stuck, poll_header_requests) refl, simp (v.stuck, poll_body_requests) refl)

-- From a stalled engine without headers every sequence of announcements of peers, polls, checks,
-- drains, ticks and bans returns and leads to a stalled engine without headers, on which a poll for
-- headers and a poll for bodies ask for nothing.
pub run-IsStalled :
    (e : SyncEngine) (calls : List Call)
    → IsStalled e
    → All IsOwn calls
    → (e' : SyncEngine) × (run e calls ≡ some e')
      × IsStalled e'
      × ((poll_header_requests e').1 ≡ [])
      × (poll_body_requests e' ≡ some (e', []))
unfolding run
run-IsStalled e [] v own =
    let (no_headers, no_bodies) = IsStalled-polls e v in (e, refl, v, no_headers, no_bodies)
run-IsStalled e (c ∷ calls) v own =
    let (e', stepped, stays) = step-IsStalled e c own.0 v in
    let (e'', ran, still, no_headers, no_bodies) = run-IsStalled e' calls stays own.1 in
    (e'', rw (stepped, run) ran, still, no_headers, no_bodies)
