-- ===== src/Network/Sync/Timeouts.antt =====
-- crates/network/src/sync.rs: the tick with its timeouts, and sequences of calls on the engine.
use velochain.Prelude.{
  ℕ, ◌+◌, ◌%◌, ◌^◌, Bool, true, false, ◌&&◌, Option, none, some, List, [], ◌∷◌, ◌++◌, ltb, not,
  if◌then◌else◌, add64, sub64,
}
use velochain.Map.{Map, lookup, insert, remove}
use velochain.Network.Sync.{
  stalled, Request, HeaderRange, SyncResult, sync_error, timeout, max_retries_exceeded, SyncConfig,
  SyncEngine, is_synced, is_empty, on_peer_status, update_local_head, poll_header_requests,
  on_headers_received, drain_import_ready, ban_peer,
}
use velochain.Network.Sync.Bodies.{poll_body_requests, on_bodies_received, verify_chain}

-- What the loops over the timed-out requests change.
pub record Retries (A : Type 0) : Type 0 where
  pub requests : Map (Request A)
  pub next_id : ℕ
  pub results : List SyncResult

module _ {A : Type 0} where
  abbrev pub is_timed_out : ℕ → SyncConfig → Request A → Bool
  is_timed_out now config r = ltb config.request_timeout_ticks (sub64 now r.created_tick)

  unfoldable pub timed_out : ℕ → SyncConfig → Map (Request A) → List ℕ
  timed_out now config [] = []
  timed_out now config ((id, r) ∷ rs) =
      if is_timed_out now config r then id ∷ timed_out now config rs else timed_out now config rs

  abbrev pub retried : ℕ → Request A → Request A
  retried now r = record r { created_tick = now; retries = (r.retries + 1) % 2 ^ 32 }

  abbrev pub retry_found : ℕ → SyncConfig → ℕ → Request A → Retries A → Retries A
  retry_found now config id r s =
      if ltb config.max_retries ((r.retries + 1) % 2 ^ 32)
      then record s {
        requests = remove id s.requests;
        results = s.results ++ sync_error (max_retries_exceeded id) ∷ [];
      }
      else record {
        requests = insert s.next_id (retried now r) (remove id s.requests);
        next_id = add64 s.next_id 1;
        results = s.results ++ sync_error (timeout id) ∷ [];
      }

  abbrev pub retry : ℕ → SyncConfig → ℕ → Retries A → Retries A
  retry now config id s = elim (lookup id s.requests) [
    | none ↦ s
    | some r ↦ retry_found now config id r s
  ]

  unfoldable pub retry_all : ℕ → SyncConfig → List ℕ → Retries A → Retries A
  retry_all now config [] s = s
  retry_all now config (id ∷ ids) s = retry_all now config ids (retry now config id s)

abbrev pub is_target_set : SyncEngine → Bool
is_target_set e = elim e.target [ none ↦ false | some _ ↦ true ]

abbrev pub detect_stall : SyncEngine → SyncEngine
detect_stall e =
    if not (is_synced e.state)
      && is_empty e.header_requests
      && is_empty e.body_requests
      && is_empty e.headers
      && is_target_set e
    then record e { state = stalled }
    else e

abbrev pub retry_headers : SyncEngine → Retries HeaderRange
retry_headers e =
    retry_all e.current_tick e.config (timed_out e.current_tick e.config e.header_requests)
      (record { requests = e.header_requests; next_id = e.next_request_id; results = [] })

abbrev pub retry_bodies : SyncEngine → Retries HeaderRange → Retries (List ℕ)
retry_bodies e h =
    retry_all e.current_tick e.config (timed_out e.current_tick e.config e.body_requests)
      (record { requests = e.body_requests; next_id = h.next_id; results = h.results })

abbrev pub with_retries : SyncEngine → Retries HeaderRange → Retries (List ℕ) → SyncEngine
with_retries e h b = record e {
  header_requests = h.requests;
  body_requests = b.requests;
  next_request_id = b.next_id;
}

abbrev pub clocked : SyncEngine → SyncEngine
clocked e = record e { current_tick = add64 e.current_tick 1 }

unfoldable pub tick : SyncEngine → SyncEngine × List SyncResult
tick e =
    let now = clocked e in
    let h = retry_headers now in
    let b = retry_bodies now h in (detect_stall (with_retries now h b), b.results)

pub data Call : Type 0 where
  status_call : ℕ → ℕ → ℕ → Call
  head_call : ℕ → Call
  poll_headers_call poll_bodies_call verify_call drain_call tick_call : Call
  headers_call : List (ℕ × ℕ × ℕ) → Call
  bodies_call : List ℕ → Call
  ban_call : ℕ → Call

abbrev pub state_after : {R : Type 0} → Option (SyncEngine × R) → Option SyncEngine
state_after none = none
state_after (some (e, r)) = some e

-- `none` is a panic.
unfoldable pub step : SyncEngine → Call → Option SyncEngine
step e (status_call peer best hash) = some (on_peer_status e peer best hash)
step e (head_call head) = some (update_local_head e head)
step e poll_headers_call = some (poll_header_requests e).0
step e poll_bodies_call = state_after (poll_body_requests e)
step e verify_call = some (verify_chain e).0
step e drain_call = some (drain_import_ready e).0
step e tick_call = some (tick e).0
step e (headers_call hs) = some (on_headers_received e hs).0
step e (bodies_call hashes) = some (on_bodies_received e hashes).0
step e (ban_call peer) = some (ban_peer e peer)

unfoldable pub run : SyncEngine → List Call → Option SyncEngine
run e [] = some e
run e (c ∷ cs) = elim (step e c) [ none ↦ none | some e' ↦ run e' cs ]
