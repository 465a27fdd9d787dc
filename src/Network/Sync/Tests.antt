-- ===== src/Network/Sync/Tests.antt =====
-- Examples.
use velochain.Prelude.{
  ℕ, All, ◌≤◌, ◌+◌, ◌≡◌, ◌↔◌, refl, arith, true, false, some, List, [], ◌∷◌, length, ◌-◌, ◌*◌, ◌%◌,
  u64_mod,
}
use velochain.Map.{lookup}
use velochain.Network.Sync.{
  downloading_bodies, Sent, SyncEngine, SyncConfig, SyncTarget, new, on_peer_status,
  poll_header_requests, range_verified,
}
use velochain.Network.Sync.Coverage.{AreFirstMissing, concat, asked_of, poll_body_requests-Covers}
use velochain.Network.Sync.Bodies.{
  pending_bodies, missing_bodies, poll_body_requests, verify_chain, first_key,
}
use velochain.Network.Sync.Timeouts.{
  Call, status_call, poll_headers_call, poll_bodies_call, tick_call, headers_call, bodies_call,
  verify_call, run, step, tick, retry_all, timed_out,
}
use velochain.Network.Sync.Requests.{IsNext, IsFull, AreRanges, poll_header_requests-AreRanges}
use velochain.Network.Sync.Verified.{IsChain, handed_on, verify_chain_iff}
use velochain.Network.Sync.Limits.{run-IsSound}
use velochain.Network.Sync.Limits.Polls.{IsSound}
use velochain.Network.Sync.Stalls.{IsStalled, run-IsStalled}

abbrev config : SyncConfig
config = record {
  headers_per_request = 4;
  bodies_per_request = 2;
  request_timeout_ticks = 3;
  max_retries = 2;
  max_header_requests = 2;
  max_body_requests = 2;
}

abbrev target : SyncTarget
target = record { best_block = 10; best_hash = 77; peer_id = 1 }

-- Ready to ask for the blocks from 1 to 10.
abbrev aimed : SyncEngine
unfolding new on_peer_status
aimed = on_peer_status (new 0 config) 1 10 77

-- Blocks 1 to 4 are there, 5 to 8 are asked for already, and the target is at 10.
abbrev aimed_further : SyncEngine
unfolding new on_peer_status
aimed_further = record aimed {
  headers =
      (
        4,
        record {
          number = 4;
          hash = 14;
          parent_hash = 13;
          body_downloaded = true;
          verified = false;
        },
      )
      ∷ [];
  header_requests =
      (
        1,
        record {
          asked = record { start = 5; count = 4 };
          peer_id = 1;
          created_tick = 0;
          retries = 0;
        },
      )
      ∷ [];
}

poll_header_requests-AreRanges_example :
    (from : ℕ) × IsNext aimed_further from
    × AreRanges from 10 4 (poll_header_requests aimed_further).1
    × IsFull (2 - 1) from 10 (poll_header_requests aimed_further).1
unfolding new on_peer_status lookup
poll_header_requests-AreRanges_example =
    poll_header_requests-AreRanges aimed_further target refl refl (omega arith) (omega arith)
      (refl, tt) (tt, tt)

-- The two headers of blocks 1 and 2.
abbrev two_headers : SyncEngine
unfolding new
two_headers = record (new 0 config) {
  headers =
      (
        1,
        record { number = 1; hash = 11; parent_hash = 0; body_downloaded = true; verified = false },
      )
      ∷ (
        2,
        record {
          number = 2;
          hash = 12;
          parent_hash = 11;
          body_downloaded = true;
          verified = false;
        },
      )
      ∷ [];
}

verify_chain_iff_example :
    (verify_chain two_headers ≡ (handed_on two_headers 1, range_verified 1 2)) ↔ (
      IsChain two_headers.headers
      × (first_key two_headers.headers ≡ some 1)
      × (2 + 1 ≡ 1 + length two_headers.headers))
unfolding new
verify_chain_iff_example = verify_chain_iff two_headers 1 2 ((omega arith, tt), (tt, tt))

abbrev downloads : List Call
downloads =
    status_call 1 10 77
    ∷ poll_headers_call
    ∷ headers_call ((1, 11, 0) ∷ (2, 12, 11) ∷ [])
    ∷ poll_headers_call
    ∷ tick_call
    ∷ poll_bodies_call
    ∷ bodies_call (11 ∷ 12 ∷ [])
    ∷ verify_call
    ∷ []

run-IsSound_example : (e : SyncEngine) × (run (new 0 config) downloads ≡ some e) × IsSound config e
run-IsSound_example = run-IsSound config 0 downloads (omega arith)

-- A status and a tick with no poll between them: the engine is stalled before it asked for anything.
abbrev idle : SyncEngine
unfolding new on_peer_status tick
idle = (tick aimed).0

test_idle : run (new 0 config) (status_call 1 10 77 ∷ tick_call ∷ []) ≡ some idle
unfolding new on_peer_status tick run step
test_idle = refl

idle-IsStalled : IsStalled idle
unfolding new on_peer_status tick retry_all timed_out
idle-IsStalled = record { stuck = refl; bare = refl }

run-IsStalled_example :
    (e : SyncEngine) × (run idle (status_call 2 20 88 ∷ poll_headers_call ∷ tick_call ∷ [])
      ≡ some e)
    × IsStalled e
    × ((poll_header_requests e).1 ≡ [])
    × (poll_body_requests e ≡ some (e, []))
unfolding new on_peer_status tick
run-IsStalled_example =
    run-IsStalled idle (status_call 2 20 88 ∷ poll_headers_call ∷ tick_call ∷ []) idle-IsStalled
      (tt, (tt, (tt, tt)))

-- Three bodies are missing, and the first of them is asked for already.
abbrev hungry : SyncEngine
unfolding new
hungry = record (new 0 config) {
  state = downloading_bodies;
  headers =
      (
        1,
        record {
          number = 1;
          hash = 11;
          parent_hash = 0;
          body_downloaded = false;
          verified = false;
        },
      )
      ∷ (
        2,
        record {
          number = 2;
          hash = 12;
          parent_hash = 11;
          body_downloaded = false;
          verified = false;
        },
      )
      ∷ (
        3,
        record {
          number = 3;
          hash = 13;
          parent_hash = 12;
          body_downloaded = false;
          verified = false;
        },
      )
      ∷ [];
  body_requests = (1, record { asked = 11 ∷ []; peer_id = 1; created_tick = 0; retries = 0 }) ∷ [];
}

test_pending : pending_bodies hungry ≡ 11 ∷ 12 ∷ []
unfolding new missing_bodies
test_pending = refl

poll_body_requests-Covers_example :
    (r : SyncEngine × List (Sent (List ℕ))) × (poll_body_requests hungry ≡ some r)
    × AreFirstMissing (((2 - 1) * 2) % u64_mod) hungry.headers (concat (asked_of r.1))
    × All (λ hashes. length hashes ≤ 2) (asked_of r.1)
unfolding new
poll_body_requests-Covers_example = poll_body_requests-Covers hungry (omega arith) refl
