-- ===== src/Network/Sync/Requests.antt =====
-- The ranges of headers that are asked for.
use velochain.Prelude.{
  ℕ, zero, suc, ◌+◌, ◌-◌, ◌≤◌, ◌<◌, ◌≡◌, refl, true, some, List, [], ◌∷◌, ◌⊎◌, arith, ltb, length,
  add64, u64_mod, Bool-cases, Option-cases, inl, inr, min, max, subst,
}
use velochain.Map.{Map, lookup, Unique}
use velochain.Map.Ordered.{IsSorted, last_key, last_key_bound, lookup-last_key, last_key-none}
use velochain.Network.Sync.{
  SyncTarget, SyncedHeader, Request, HeaderRange, SyncEngine, Sent, request_headers,
  with_header_request, count_from, poll_header_requests, start_of, is_downloading_headers,
  downloading_headers, highest_requested, or_zero,
}

-- One past the last block of a request, on 64 bits.
abbrev pub end_of : Request HeaderRange → ℕ
end_of r = add64 r.asked.start r.asked.count

-- The least block above the local head that is not below any downloaded header nor below the end of
-- any pending request, so that it is one of these bounds.
pub record IsNext (e : SyncEngine) (from : ℕ) : Type 0 where
  pub above_head : e.local_head < from
  pub past_requests :
      (id : ℕ) (r : Request HeaderRange) → lookup id e.header_requests ≡ some r → end_of r ≤ from
  pub past_headers : (n : ℕ) (h : SyncedHeader) → lookup n e.headers ≡ some h → n ≤ from
  pub reached :
      (from ≡ e.local_head + 1)
      ⊎ ((id : ℕ) × (r : Request HeaderRange) × (lookup id e.header_requests ≡ some r)
          × (from ≡ end_of r))
      ⊎ ((h : SyncedHeader) × (lookup from e.headers ≡ some h))

highest_requested-le :
    (rs : Map (Request HeaderRange)) (id : ℕ) (r : Request HeaderRange)
    → lookup id rs ≡ some r
    → end_of r ≤ highest_requested rs
unfolding highest_requested lookup
highest_requested-le [] id r e = absurd cc
highest_requested-le ((j, q) ∷ rs) id r e = ground (arith, highest_requested-le rs id r)

highest_requested-reached :
    (rs : Map (Request HeaderRange))
    → Unique rs
    → 0 < highest_requested rs
    → (id : ℕ) × (r : Request HeaderRange) × (lookup id rs ≡ some r)
      × (highest_requested rs ≡ end_of r)
unfolding highest_requested lookup
highest_requested-reached [] u positive = absurd (omega (arith, positive))
highest_requested-reached ((j, q) ∷ rs) u positive =
    elim (Bool-cases (ltb (end_of q) (highest_requested rs))) [
      | inr first ↦ (j, q, ground arith, ground (arith, first))
      | inl later ↦
          let (id, r, found, same) = highest_requested-reached rs u.1 (ground (arith, later)) in
          (id, r, ground (arith, found, u.0), ground (arith, later, same))
    ]

start_of-reached :
    (e : SyncEngine)
    → add64 e.local_head 1 ≡ e.local_head + 1
    → Unique e.header_requests
    → (start_of e ≡ e.local_head + 1)
      ⊎ ((id : ℕ) × (r : Request HeaderRange) × (lookup id e.header_requests ≡ some r)
          × (start_of e ≡ end_of r))
      ⊎ ((h : SyncedHeader) × (lookup (start_of e) e.headers ≡ some h))
start_of-reached e head one =
    let requested = highest_requested e.header_requests in
    let last = or_zero (last_key e.headers) in
    elim (Bool-cases (ltb (e.local_head + 1) (max requested last))) [
      | inr low ↦ inl (ground (arith, low, head))
      | inl high ↦ elim (Bool-cases (ltb requested last)) [
        | inr asked ↦
            let positive : 0 < requested = ground (arith, high, asked) in
            let (id, r, found, same) = highest_requested-reached e.header_requests one positive in
            inr (inl (id, r, found, ground (arith, high, asked, head, same)))
        | inl kept ↦ elim (Option-cases (last_key e.headers)) [
          | inl empty ↦ absurd (ground (arith, kept, empty))
          | inr (l, known) ↦
              let (h, found) = lookup-last_key l e.headers known in
              let same : l ≡ start_of e = ground (arith, high, kept, known, head) in
              inr (inr (h, subst (λ n. lookup n e.headers ≡ some h) same found))
        ]
      ]
    ]

start_of-IsNext :
    (e : SyncEngine)
    → e.local_head + 1 < u64_mod
    → Unique e.header_requests
    → IsSorted e.headers
    → IsNext e (start_of e)
start_of-IsNext e fits one sorted =
    let requested = highest_requested e.header_requests in
    let last = or_zero (last_key e.headers) in
    let head : add64 e.local_head 1 ≡ e.local_head + 1 = ground (arith, fits) in
    record {
      above_head = omega (arith, head);
      past_requests =
          λ id r found. omega (arith, highest_requested-le e.header_requests id r found);
      past_headers = λ n h found. elim (Option-cases (last_key e.headers)) [
        | inl empty ↦ absurd (last_key-none n h e.headers empty found)
        | inr (l, known) ↦ ground (arith, last_key_bound n l h e.headers sorted found known)
      ];
      reached = start_of-reached e head one;
    }

-- Ranges one right after the other from a block on, each as long as the limit and the last block
-- allow.
abbrev pub AreRanges : ℕ → ℕ → ℕ → List (Sent HeaderRange) → Type 0
AreRanges from last most [] = Unit
AreRanges from last most (s ∷ ss) =
    (s.asked.start ≡ from)
    × (from ≤ last)
    × (s.asked.count ≡ min most (last + 1 - from))
    × AreRanges (from + s.asked.count) last most ss

-- The block after the ranges.
abbrev pub after : ℕ → List (Sent HeaderRange) → ℕ
after from [] = from
after from (s ∷ ss) = after (s.asked.start + s.asked.count) ss

-- As many ranges as there are free requests, or all the blocks up to the last one.
abbrev pub IsFull : ℕ → ℕ → ℕ → List (Sent HeaderRange) → Type 0
IsFull free from last ss = (length ss ≤ free) × ((length ss ≡ free) ⊎ (last < after from ss))

suc_full :
    {B : Type 0} {free n : ℕ}
    → (n ≤ free) × ((n ≡ free) ⊎ B)
    → (suc n ≤ suc free) × ((suc n ≡ suc free) ⊎ B)
suc_full (few, inl all) = (omega arith, inl (omega arith))
suc_full (few, inr over) = (omega arith, inr over)

request_headers-AreRanges :
    (rounds : ℕ) (e : SyncEngine) (t : SyncTarget) (start : ℕ)
    → t.best_block + 1 < u64_mod
    → AreRanges start t.best_block e.config.headers_per_request (request_headers rounds e t start).1
      × IsFull rounds start t.best_block (request_headers rounds e t start).1
unfolding request_headers
request_headers-AreRanges zero e t start fits = (tt, (omega arith, inl refl))
request_headers-AreRanges (suc rounds) e t start fits = elim (Bool-cases (ltb t.best_block start)) [
  | inl over ↦ rw over (tt, (omega arith, inr (ground (arith, over))))
  | inr within ↦
      let count = count_from e t start in
      let next : add64 start count ≡ start + count = ground arith in
      let (ranges, full) =
        request_headers-AreRanges rounds (with_header_request e t start) t (start + count) fits in
      rw (within, next)
        ((refl, ground (arith, within), ground (arith, within), ranges), suc_full full)
]

-- While headers are downloaded, where the target and the local head are below the greatest word, no
-- request stands twice under its id and the headers stand in ascending order, a poll asks for ranges
-- that follow one right after the other, each of the configured number of headers or up to the
-- target. The first starts at the least block that is above the local head, not below any downloaded
-- header and not below the end of any pending request; the ranges use up the free requests or reach
-- past the target.
pub poll_header_requests-AreRanges :
    (e : SyncEngine) (t : SyncTarget)
    → e.state ≡ downloading_headers
    → e.target ≡ some t
    → t.best_block + 1 < u64_mod
    → e.local_head + 1 < u64_mod
    → Unique e.header_requests
    → IsSorted e.headers
    → (from : ℕ) × IsNext e from
      × AreRanges from t.best_block e.config.headers_per_request (poll_header_requests e).1
      × IsFull
          (e.config.max_header_requests - length e.header_requests)
          from
          t.best_block
          (poll_header_requests e).1
unfolding poll_header_requests
poll_header_requests-AreRanges e t state target fits room one sorted =
    let free = e.config.max_header_requests - length e.header_requests in
    let busy : is_downloading_headers e.state ≡ true = rw state refl in
    let (ranges, full) = request_headers-AreRanges free e t (start_of e) fits in
    (
      start_of e,
      start_of-IsNext e room one sorted,
      rw (busy, target, poll_header_requests) ranges,
      rw (busy, target, poll_header_requests) full,
    )
