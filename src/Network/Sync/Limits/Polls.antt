-- ===== src/Network/Sync/Limits/Polls.antt =====
-- crates/network/src/sync.rs: the polls keep the limits on the pending requests.
use velochain.Prelude.{
  ℕ, zero, suc, ◌+◌, ◌-◌, ◌*◌, ◌%◌, ◌≤◌, ◌<◌, ◌≡◌, refl, ap, ◌∙◌, false, some, List, [], ◌∷◌, ltb,
  length, arith, saturating_sub, add64, length-take, u64_mod, Bool-cases, Option-cases, inl, inr,
  not, ◌==◌,
}
use velochain.Map.{Map, insert, length-insert}
use velochain.Map.Ordered.{IsSorted}
use velochain.Primitives.Bytes.{drop}
use velochain.Network.Sync.{
  SyncConfig, SyncEngine, SyncTarget, Sent, request_headers, poll_header_requests, start_of,
  with_header_request, count_from, is_downloading_headers, is_downloading_bodies, fresh,
}
use velochain.Network.Sync.Bodies.{
  chunks_on, chunks, request_bodies, with_body_request, body_request, poll_body_requests,
  pending_bodies, free_body_requests, missing_bodies,
}

-- At most the configured numbers of requests are pending, and the headers are in order.
pub record IsSound (c : SyncConfig) (e : SyncEngine) : Type 0 where
  pub same : e.config ≡ c
  pub few_headers : length e.header_requests ≤ c.max_header_requests
  pub few_bodies : length e.body_requests ≤ c.max_body_requests
  pub in_order : IsSorted e.headers

pub length-insert-le :
    {V : Type 0} → (k : ℕ) (v : V) (m : Map V) → length (insert k v m) ≤ suc (length m)
length-insert-le k v m = ground (arith, length-insert k v m)

request_headers-grows :
    (rounds : ℕ) (e : SyncEngine) (t : SyncTarget) (start : ℕ)
    → ((request_headers rounds e t start).0.config ≡ e.config)
      × ((request_headers rounds e t start).0.headers ≡ e.headers)
      × ((request_headers rounds e t start).0.body_requests ≡ e.body_requests)
      × (length (request_headers rounds e t start).0.header_requests
          ≤ length e.header_requests + rounds)
unfolding request_headers
request_headers-grows zero e t start = (refl, refl, refl, omega arith)
request_headers-grows (suc rounds) e t start = elim (Bool-cases (ltb t.best_block start)) [
  | inl over ↦ rw over (refl, refl, refl, omega arith)
  | inr within ↦
      let e' = with_header_request e t start in
      let rest = request_headers-grows rounds e' t (add64 start (count_from e t start)) in
      rw within (
        rest.0,
        rest.1,
        rest.2,
        omega (
          arith,
          rest.3,
          length-insert-le e.next_request_id
              (fresh e t (record { start = start; count = count_from e t start }))
              e.header_requests,
        ),
      )
]

pub poll_headers-IsSound :
    (c : SyncConfig) (e : SyncEngine) → IsSound c e → IsSound c (poll_header_requests e).0
unfolding poll_header_requests
poll_headers-IsSound c e v = elim (Bool-cases (not (is_downloading_headers e.state))) [
  | inl idle ↦ rw (idle, poll_header_requests) v
  | inr busy ↦ elim (Option-cases e.target) [
    | inl nobody ↦ rw (busy, nobody, poll_header_requests) v
    | inr (t, target) ↦
        let room = saturating_sub e.config.max_header_requests (length e.header_requests) in
        let grown = request_headers-grows room e t (start_of e) in
        rw (busy, target, poll_header_requests)
          (record {
            same = grown.0 ∙ v.same;
            few_headers =
                omega (arith, grown.3, v.few_headers, ap (λ k. k.max_header_requests) v.same);
            few_bodies = rw grown.2 v.few_bodies;
            in_order = rw grown.1 v.in_order;
          })
  ]
]

length-drop-le : (n : ℕ) (xs : List ℕ) → length (drop n xs) ≤ length xs - n
length-drop-le zero xs = omega arith
length-drop-le (suc n) [] = omega arith
length-drop-le (suc n) (x ∷ xs) = omega (arith, length-drop-le n xs)

-- A list of at most `n` times the size falls into at most `n` pieces.
length-chunks-le :
    (rounds size n : ℕ) (xs : List ℕ)
    → 0 < size
    → length xs ≤ n * size
    → length (chunks_on rounds size xs) ≤ n
unfolding chunks_on
length-chunks-le zero size n xs some_size h = omega arith
length-chunks-le (suc rounds) size n [] some_size h = omega arith
length-chunks-le (suc rounds) size zero (x ∷ xs) some_size h = omega (arith, h)
length-chunks-le (suc rounds) size (suc n) (x ∷ xs) some_size h =
    let shorter : length (drop size (x ∷ xs)) ≤ n * size =
      omega (arith, length-drop-le size (x ∷ xs), h) in
    omega (arith, length-chunks-le rounds size n (drop size (x ∷ xs)) some_size shorter)

request_bodies-grows :
    (e : SyncEngine) (cs : List (List ℕ))
    → ((request_bodies e cs).0.config ≡ e.config)
      × ((request_bodies e cs).0.headers ≡ e.headers)
      × ((request_bodies e cs).0.header_requests ≡ e.header_requests)
      × (length (request_bodies e cs).0.body_requests ≤ length e.body_requests + length cs)
unfolding request_bodies
request_bodies-grows e [] = (refl, refl, refl, omega arith)
request_bodies-grows e (hashes ∷ rest) =
    let next = request_bodies-grows (with_body_request e hashes) rest in
    (
      next.0,
      next.1,
      next.2,
      omega (
        arith,
        next.3,
        length-insert-le e.next_request_id (body_request e hashes) e.body_requests,
      ),
    )

-- A number wraps only to a smaller word.
wrapped-le : (n : ℕ) → n % u64_mod ≤ n
wrapped-le n = omega arith

pub poll_bodies-IsSound :
    (c : SyncConfig) (e : SyncEngine)
    → 0 < c.bodies_per_request
    → IsSound c e
    → (r : SyncEngine × List (Sent (List ℕ))) × (poll_body_requests e ≡ some r) × IsSound c r.0
unfolding poll_body_requests chunks
poll_bodies-IsSound c e size v = elim (Bool-cases (not (is_downloading_bodies e.state))) [
  | inl idle ↦ rw (idle, poll_body_requests) ((e, []), refl, v)
  | inr busy ↦
      let per = e.config.bodies_per_request in
      let positive : (per == 0) ≡ false =
        ground (arith, size, ap (λ k. k.bodies_per_request) v.same) in
      let cs = chunks_on (length (pending_bodies e)) per (pending_bodies e) in
      let grown = request_bodies-grows e cs in
      let few : length cs ≤ free_body_requests e =
        length-chunks-le (length (pending_bodies e)) per (free_body_requests e) (pending_bodies e)
          (ground (arith, size, ap (λ k. k.bodies_per_request) v.same))
          (omega (
            arith,
            wrapped-le (free_body_requests e * per),
            length-take ((free_body_requests e * per) % u64_mod) (missing_bodies e.headers),
          )) in
      (
        request_bodies e cs,
        rw (busy, positive, poll_body_requests) refl,
        record {
          same = grown.0 ∙ v.same;
          few_headers = rw grown.2 v.few_headers;
          few_bodies =
              omega (arith, grown.3, few, v.few_bodies, ap (λ k. k.max_body_requests) v.same);
          in_order = rw grown.1 v.in_order;
        },
      )
]
