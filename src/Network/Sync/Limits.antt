-- ===== src/Network/Sync/Limits.antt =====
-- crates/network/src/sync.rs: the limits on the pending requests, and the order of the headers, after any
-- sequence of calls.
pub mod Polls
mod Ticks
use velochain.Prelude.{
  ℕ, zero, suc, ◌+◌, ◌-◌, ◌*◌, ◌%◌, ◌≤◌, ◌<◌, ◌≡◌, refl, ap, sym, subst, ◌∙◌, Bool, true, false,
  Option, none, some, List, [], ◌∷◌, ltb, if◌then◌else◌, length, take, arith, saturating_sub, add64,
  length-take, u64_mod, Bool-cases, Option-cases, inl, inr, not, ◌==◌,
}
use velochain.Map.{
  Map, lookup, insert, remove, keep, update_all, contains_key, length-insert, length-remove-present,
  length-keep-le,
}
use velochain.Map.Ordered.{
  IsSorted, keep-IsSorted, insert_ordered, insert_ordered-IsSorted, update_all-IsSorted, Above,
}
use velochain.Primitives.Bytes.{drop}
use velochain.Network.Sync.{
  SyncConfig, SyncEngine, SyncTarget, SyncedHeader, Request, Sent, HeaderRange, new, on_peer_status,
  update_local_head, is_reached, request_headers, poll_header_requests, start_of,
  with_header_request, count_from, store_headers, on_headers_received, drain_import_ready, ban_peer,
  is_downloading_headers, is_downloading_bodies, new_header, after_headers, received, fresh,
}
use velochain.Network.Sync.Bodies.{
  chunks_on, chunks, request_bodies, with_body_request, body_request, after_bodies, matched,
  are_all_in, poll_body_requests, pending_bodies, free_body_requests, missing_bodies, mark_body,
  mark_bodies, on_bodies_received, verify_chain, verify_from, verified_header, broken_at, first_key,
}
use velochain.Network.Sync.Timeouts.{
  Retries, retry, retry_all, retry_found, tick, clocked, retry_headers, retry_bodies, detect_stall,
  with_retries, Call, step, run, status_call, head_call, poll_headers_call, poll_bodies_call,
  verify_call, drain_call, tick_call, headers_call, bodies_call, ban_call, timed_out, retried,
  state_after,
}
use velochain.Network.Sync.Limits.Polls.{IsSound, poll_headers-IsSound, poll_bodies-IsSound}
use velochain.Network.Sync.Limits.Ticks.{tick-IsSound}

store_headers-IsSorted :
    (hs : List (ℕ × ℕ × ℕ)) (m : Map SyncedHeader) → IsSorted m → IsSorted (store_headers hs m)
unfolding store_headers
store_headers-IsSorted [] m s = s
store_headers-IsSorted ((number, hash, parent) ∷ hs) m s =
    store_headers-IsSorted hs
      (if contains_key number m then m else insert_ordered number (new_header number hash parent) m)
      (ground (arith, insert_ordered-IsSorted number (new_header number hash parent) m s))

mark_body-Above : (hash b : ℕ) (m : Map SyncedHeader) → Above b m → Above b (mark_body hash m).0
unfolding mark_body
mark_body-Above hash b [] a = tt
mark_body-Above hash b ((n, h) ∷ m) a = ground (arith, mark_body-Above hash b m a.1)

mark_body-IsSorted : (hash : ℕ) (m : Map SyncedHeader) → IsSorted m → IsSorted (mark_body hash m).0
unfolding mark_body
mark_body-IsSorted hash [] s = tt
mark_body-IsSorted hash ((n, h) ∷ m) s =
    ground (arith, mark_body-Above hash n m s.0, mark_body-IsSorted hash m s.1)

mark_bodies-IsSorted :
    (hashes : List ℕ) (m : Map SyncedHeader) → IsSorted m → IsSorted (mark_bodies hashes m).0
unfolding mark_bodies
mark_bodies-IsSorted [] m s = s
mark_bodies-IsSorted (hash ∷ hashes) m s =
    mark_bodies-IsSorted hashes (mark_body hash m).0 (mark_body-IsSorted hash m s)

after_headers-IsSound :
    (c : SyncConfig) (e : SyncEngine) → IsSound c e → IsSound c (after_headers e)
after_headers-IsSound c e v = ground (arith, v)

after_bodies-IsSound : (c : SyncConfig) (e : SyncEngine) → IsSound c e → IsSound c (after_bodies e)
after_bodies-IsSound c e v = ground (arith, v)

drain-IsSound : (c : SyncConfig) (e : SyncEngine) → IsSound c e → IsSound c (drain_import_ready e).0
unfolding drain_import_ready
drain-IsSound c e v = record {
  same = v.same;
  few_headers = v.few_headers;
  few_bodies = v.few_bodies;
  in_order = v.in_order;
}

headers-IsSound :
    (c : SyncConfig) (e : SyncEngine) (hs : List (ℕ × ℕ × ℕ))
    → IsSound c e
    → IsSound c (on_headers_received e hs).0
unfolding on_headers_received
headers-IsSound c e [] v = v
headers-IsSound c e ((number, hash, parent) ∷ hs) v =
    let p = λ (id : ℕ) (r : Request HeaderRange). not (r.asked.start == number) in
    let few = length-keep-le p e.header_requests in
    let in_order = store_headers-IsSorted ((number, hash, parent) ∷ hs) e.headers v.in_order in
    after_headers-IsSound c (received e number ((number, hash, parent) ∷ hs)) (record {
      same = v.same;
      few_headers = omega (arith, few, v.few_headers);
      few_bodies = v.few_bodies;
      in_order = in_order;
    })

bodies-IsSound :
    (c : SyncConfig) (e : SyncEngine) (hashes : List ℕ)
    → IsSound c e
    → IsSound c (on_bodies_received e hashes).0
unfolding on_bodies_received
bodies-IsSound c e hashes v =
    let p = λ (id : ℕ) (r : Request (List ℕ)). not (are_all_in hashes r.asked) in
    after_bodies-IsSound c (matched e hashes) (record {
      same = v.same;
      few_headers = v.few_headers;
      few_bodies = omega (arith, length-keep-le p e.body_requests, v.few_bodies);
      in_order = mark_bodies-IsSorted hashes e.headers v.in_order;
    })

verify-IsSound : (c : SyncConfig) (e : SyncEngine) → IsSound c e → IsSound c (verify_chain e).0
unfolding verify_chain
verify-IsSound c e v = elim (Option-cases (first_key e.headers)) [
  | inl nobody ↦ rw (nobody, verify_chain) v
  | inr (k, starts) ↦ elim (Option-cases (broken_at e.headers)) [
    | inl whole ↦
        rw (starts, whole, verify_chain, verify_from)
          (record {
            same = v.same;
            few_headers = v.few_headers;
            few_bodies = v.few_bodies;
            in_order = update_all-IsSorted verified_header e.headers v.in_order;
          })
    | inr (n, broken) ↦ rw (starts, broken, verify_chain, verify_from) v
  ]
]

head-IsSound :
    (c : SyncConfig) (e : SyncEngine) (head : ℕ)
    → IsSound c e
    → IsSound c (update_local_head e head)
unfolding update_local_head
head-IsSound c e head v = ground (arith, v, keep-IsSorted (λ n _. ltb head n) e.headers v.in_order)

status-IsSound :
    (c : SyncConfig) (e : SyncEngine) (peer best hash : ℕ)
    → IsSound c e
    → IsSound c (on_peer_status e peer best hash)
unfolding on_peer_status
status-IsSound c e peer best hash v = ground (arith, v)

ban-IsSound :
    (c : SyncConfig) (e : SyncEngine) (peer : ℕ) → IsSound c e → IsSound c (ban_peer e peer)
unfolding ban_peer
ban-IsSound c e peer v = ground (arith, v)

step-IsSound :
    (c : SyncConfig) (e : SyncEngine) (call : Call)
    → 0 < c.bodies_per_request
    → IsSound c e
    → (e' : SyncEngine) × (step e call ≡ some e') × IsSound c e'
unfolding step
step-IsSound c e (status_call peer best hash) size v =
    (on_peer_status e peer best hash, refl, status-IsSound c e peer best hash v)
step-IsSound c e (head_call head) size v = (update_local_head e head, refl, head-IsSound c e head v)
step-IsSound c e poll_headers_call size v =
    ((poll_header_requests e).0, refl, poll_headers-IsSound c e v)
step-IsSound c e poll_bodies_call size v =
    let (r, polled, sound) = poll_bodies-IsSound c e size v in
    (r.0, ap (λ p. state_after p) polled, sound)
step-IsSound c e verify_call size v = ((verify_chain e).0, refl, verify-IsSound c e v)
step-IsSound c e drain_call size v = ((drain_import_ready e).0, refl, drain-IsSound c e v)
step-IsSound c e tick_call size v = ((tick e).0, refl, tick-IsSound c e v)
step-IsSound c e (headers_call hs) size v =
    ((on_headers_received e hs).0, refl, headers-IsSound c e hs v)
step-IsSound c e (bodies_call hashes) size v =
    ((on_bodies_received e hashes).0, refl, bodies-IsSound c e hashes v)
step-IsSound c e (ban_call peer) size v = (ban_peer e peer, refl, ban-IsSound c e peer v)

run-IsSound_from :
    (c : SyncConfig) (e : SyncEngine) (calls : List Call)
    → 0 < c.bodies_per_request
    → IsSound c e
    → (e' : SyncEngine) × (run e calls ≡ some e') × IsSound c e'
unfolding run
run-IsSound_from c e [] size v = (e, refl, v)
run-IsSound_from c e (call ∷ calls) size v =
    let (e', stepped, sound) = step-IsSound c e call size v in
    let (e'', ran, result) = run-IsSound_from c e' calls size sound in
    (e'', rw (stepped, run) ran, result)

-- With a positive number of bodies per request no sequence of calls on a new engine panics, and
-- after each of them at most the configured numbers of header and body requests are pending, timed
-- out and repeated requests included, and the headers are in the order of their numbers.
pub run-IsSound :
    (c : SyncConfig) (head : ℕ) (calls : List Call)
    → 0 < c.bodies_per_request
    → (e : SyncEngine) × (run (new head c) calls ≡ some e) × IsSound c e
unfolding new
run-IsSound c head calls size =
    run-IsSound_from c (new head c) calls size
      (record { same = refl; few_headers = omega arith; few_bodies = omega arith; in_order = tt })
