-- ===== src/Network/Sync/Limits/Ticks.antt =====
-- crates/network/src/sync.rs: the retries of a tick keep the limits on the pending requests.
use velochain.Prelude.{
  ℕ, ◌≤◌, ◌≡◌, refl, sym, subst, List, [], ◌∷◌, length, arith, Option-cases, inl, inr,
}
use velochain.Map.{lookup, remove, length-remove-present}
use velochain.Network.Sync.{SyncConfig, SyncEngine}
use velochain.Network.Sync.Timeouts.{
  Retries, retry, retry_all, retry_found, tick, clocked, retry_headers, retry_bodies, detect_stall,
  with_retries, timed_out, retried,
}
use velochain.Network.Sync.Limits.Polls.{IsSound, length-insert-le}

retry-few :
    {A : Type 0} (now : ℕ) (c : SyncConfig) (id n : ℕ) (s : Retries A)
    → length s.requests ≤ n
    → length (retry now c id s).requests ≤ n
retry-few now c id n s h = elim (Option-cases (lookup id s.requests)) [
  | inl gone ↦
      let same : retry now c id s ≡ s = rw (gone, retry) refl in
      subst (λ s'. length s'.requests ≤ n) (sym same) h
  | inr (r, found) ↦
      let same : retry now c id s ≡ retry_found now c id r s = rw (found, retry) refl in
      subst (λ s'. length s'.requests ≤ n) (sym same)
        (ground (
          arith,
          h,
          length-remove-present id r s.requests found,
          length-insert-le s.next_id (retried now r) (remove id s.requests),
        ))
]

retry_all-few :
    {A : Type 0} (now : ℕ) (c : SyncConfig) (ids : List ℕ) (n : ℕ) (s : Retries A)
    → length s.requests ≤ n
    → length (retry_all now c ids s).requests ≤ n
unfolding retry_all
retry_all-few now c [] n s h = h
retry_all-few now c (id ∷ ids) n s h =
    retry_all-few now c ids n (retry now c id s) (retry-few now c id n s h)

detect_stall-IsSound : (c : SyncConfig) (e : SyncEngine) → IsSound c e → IsSound c (detect_stall e)
detect_stall-IsSound c e v = ground (arith, v)

pub tick-IsSound : (c : SyncConfig) (e : SyncEngine) → IsSound c e → IsSound c (tick e).0
unfolding tick
tick-IsSound c e v =
    let now = clocked e in
    let h = retry_headers now in
    let b = retry_bodies now h in
    detect_stall-IsSound c (with_retries now h b) (record {
      same = v.same;
      few_headers =
          retry_all-few now.current_tick e.config
            (timed_out now.current_tick e.config e.header_requests) c.max_header_requests
            (record { requests = e.header_requests; next_id = e.next_request_id; results = [] })
            v.few_headers;
      few_bodies =
          retry_all-few now.current_tick e.config
            (timed_out now.current_tick e.config e.body_requests) c.max_body_requests
            (record { requests = e.body_requests; next_id = h.next_id; results = h.results })
            v.few_bodies;
      in_order = v.in_order;
    })
