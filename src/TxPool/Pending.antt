-- ===== src/TxPool/Pending.antt =====
-- What `get_pending` and `pending_nonce` of crates/txpool/src/pool.rs return.
use velochain.Prelude.{
  ℕ, zero, suc, ◌+◌, ◌≤◌, ◌<◌, ◌≡◌, true, false, none, some, List, [], ◌∷◌, arith, ◌==◌, length,
  Option-cases, inl, inr, Option, Bool-cases, All, All-append, All-take, take, length-take, add64,
  u64_mod, ltb, refl, ◌⊎◌,
}
use velochain.Map.{Map, lookup, Unique, Every, Every-head, Every-tail}
use velochain.Map.Ordered.{IsSorted, last_key, last_key_bound, IsSorted-Unique}
use velochain.Primitives.Transaction.{SignedTransaction}
use velochain.Primitives.Crypto.{Crypto}
use velochain.TxPool.{
  TransactionPool, SenderQueue, queue_of, queued, contiguous, collect, price, precedes,
  insert_by_price, sort_by_price, get_pending, pending_nonce,
}
use velochain.TxPool.Coherence.{IsCoherent}

-- The gas price that a transaction offers, 0 where it names none.
abbrev pub offer : Option ℕ → ℕ
offer none = 0
offer (some gas_price) = gas_price

-- The first offers more, or as much with a nonce that is no higher.
abbrev pub IsAhead : SignedTransaction → SignedTransaction → Type 0
IsAhead x y =
    (offer y.transaction.gas_price < offer x.transaction.gas_price)
    ⊎ ((offer x.transaction.gas_price ≡ offer y.transaction.gas_price)
        × (x.transaction.nonce ≤ y.transaction.nonce))

-- Every transaction is ahead of all those behind it.
abbrev pub IsOrdered : List SignedTransaction → Type 0
IsOrdered [] = Unit
IsOrdered (x ∷ xs) = All (IsAhead x) xs × IsOrdered xs

-- The same by the comparison that the sort runs.
abbrev IsArranged : List SignedTransaction → Type 0
IsArranged [] = Unit
IsArranged (x ∷ xs) = All (λ y. precedes x y ≡ true) xs × IsArranged xs

offer-price : (x : SignedTransaction) → offer x.transaction.gas_price ≡ price x
offer-price x = elim (Option-cases x.transaction.gas_price) [
  | inl without ↦ rw without refl
  | inr (g, named) ↦ rw named refl
]

precedes-IsAhead : (x y : SignedTransaction) → precedes x y ≡ true → IsAhead x y
precedes-IsAhead x y h = elim (Bool-cases (ltb (price y) (price x))) [
  | inl more ↦ inl (ground (arith, offer-price x, offer-price y))
  | inr as_much ↦
      inr
        (ground (arith, offer-price x, offer-price y), ground (arith, offer-price x, offer-price y))
]

All-precedes-IsAhead :
    (x : SignedTransaction) (ys : List SignedTransaction)
    → All (λ y. precedes x y ≡ true) ys
    → All (IsAhead x) ys
All-precedes-IsAhead x [] h = tt
All-precedes-IsAhead x (y ∷ ys) h = (precedes-IsAhead x y h.0, All-precedes-IsAhead x ys h.1)

IsArranged-IsOrdered : (xs : List SignedTransaction) → IsArranged xs → IsOrdered xs
IsArranged-IsOrdered [] o = tt
IsArranged-IsOrdered (x ∷ xs) o = (All-precedes-IsAhead x xs o.0, IsArranged-IsOrdered xs o.1)

precedes_trans :
    (a b d : SignedTransaction) → precedes a b ≡ true → precedes b d ≡ true → precedes a d ≡ true
precedes_trans a b d h k = ground arith

precedes_total : (a b : SignedTransaction) → precedes a b ≡ false → precedes b a ≡ true
precedes_total a b h = ground arith

All-precedes :
    (a b : SignedTransaction) (xs : List SignedTransaction)
    → precedes a b ≡ true
    → All (λ y. precedes b y ≡ true) xs
    → All (λ y. precedes a y ≡ true) xs
All-precedes a b [] h k = tt
All-precedes a b (x ∷ xs) h k = (precedes_trans a b x h k.0, All-precedes a b xs h k.1)

module _ (P : SignedTransaction → Type 0) where
  All-insert_by_price :
      (x : SignedTransaction) (ys : List SignedTransaction)
      → P x
      → All P ys
      → All P (insert_by_price x ys)
  unfolding insert_by_price
  All-insert_by_price x [] h k = (h, tt)
  All-insert_by_price x (y ∷ ys) h k = elim (Bool-cases (precedes x y)) [
    | inl e ↦ rw (e, insert_by_price) (h, k)
    | inr e ↦ rw (e, insert_by_price) (k.0, All-insert_by_price x ys h k.1)
  ]

  All-sort_by_price : (xs : List SignedTransaction) → All P xs → All P (sort_by_price xs)
  unfolding sort_by_price
  All-sort_by_price [] h = tt
  All-sort_by_price (x ∷ xs) h =
      All-insert_by_price x (sort_by_price xs) h.0 (All-sort_by_price xs h.1)

insert_by_price-IsArranged :
    (x : SignedTransaction) (ys : List SignedTransaction)
    → IsArranged ys
    → IsArranged (insert_by_price x ys)
unfolding insert_by_price
insert_by_price-IsArranged x [] o = (tt, tt)
insert_by_price-IsArranged x (y ∷ ys) o = elim (Bool-cases (precedes x y)) [
  | inl e ↦ rw (e, insert_by_price) ((e, All-precedes x y ys e o.0), o)
  | inr e ↦
      rw (e, insert_by_price)
        (
          All-insert_by_price (λ z. precedes y z ≡ true) x ys (precedes_total x y e) o.0,
          insert_by_price-IsArranged x ys o.1,
        )
]

sort_by_price-IsArranged : (xs : List SignedTransaction) → IsArranged (sort_by_price xs)
unfolding sort_by_price
sort_by_price-IsArranged [] = tt
sort_by_price-IsArranged (x ∷ xs) =
    insert_by_price-IsArranged x (sort_by_price xs) (sort_by_price-IsArranged xs)

take-IsArranged : (n : ℕ) (xs : List SignedTransaction) → IsArranged xs → IsArranged (take n xs)
take-IsArranged zero xs o = tt
take-IsArranged (suc n) [] o = tt
take-IsArranged (suc n) (x ∷ xs) o =
    (All-take (λ y. precedes x y ≡ true) n xs o.0, take-IsArranged n xs o.1)

module _ (P : SignedTransaction → Type 0) where
  All-contiguous :
      (e : Option ℕ) (q : SenderQueue)
      → IsSorted q
      → Every (λ n tx. P tx) q
      → All P (contiguous e q)
  unfolding contiguous
  All-contiguous e [] s h = tt
  All-contiguous none ((n, tx) ∷ q) s h = (
    Every-head (λ n tx. P tx) n tx q h,
    All-contiguous (some (add64 n 1)) q s.1
        (Every-tail (λ n tx. P tx) n tx q (IsSorted-Unique ((n, tx) ∷ q) s) h),
  )
  All-contiguous (some k) ((n, tx) ∷ q) s h = elim (Bool-cases (n == k)) [
    | inr e ↦ rw (e, contiguous) tt
    | inl e ↦
        rw (e, contiguous)
          (
            Every-head (λ n tx. P tx) n tx q h,
            All-contiguous (some (add64 n 1)) q s.1
                (Every-tail (λ n tx. P tx) n tx q (IsSorted-Unique ((n, tx) ∷ q) s) h),
          )
  ]

  All-collect :
      (m : Map SenderQueue)
      → Unique m
      → Every (λ s q. IsSorted q) m
      → Every (λ s q. Every (λ n tx. P tx) q) m
      → All P (collect m)
  unfolding collect
  All-collect [] u s h = tt
  All-collect ((k, q) ∷ m) u s h =
      All-append P (contiguous none q) (collect m)
        (All-contiguous none q (Every-head (λ s q. IsSorted q) k q m s)
          (Every-head (λ s q. Every (λ n tx. P tx) q) k q m h))
        (All-collect m u.1 (Every-tail (λ s q. IsSorted q) k q m u s)
          (Every-tail (λ s q. Every (λ n tx. P tx) q) k q m u h))

queue-queued :
    (p : TransactionPool) (s n : ℕ) (q : SenderQueue) (tx : SignedTransaction)
    → lookup s p.by_sender ≡ some q
    → lookup n q ≡ some tx
    → queued p s n ≡ some tx
queue-queued p s n q tx e f = ground arith

-- From a coherent pool at most the asked number of transactions is returned, each of them stands in
-- the pool, and each offers a higher gas price than every later one, or the same gas price with a
-- nonce that is no higher; a transaction that names no gas price offers 0.
pub get_pending-IsOrdered :
    (c : Crypto) (p : TransactionPool) (max_count : ℕ)
    → IsCoherent c p
    → (length (get_pending p max_count) ≤ max_count)
      × All (λ tx. lookup tx.hash p.by_hash ≡ some tx) (get_pending p max_count)
      × IsOrdered (get_pending p max_count)
unfolding get_pending
get_pending-IsOrdered c p max_count v =
    let P : SignedTransaction → Type 0 = λ tx. lookup tx.hash p.by_hash ≡ some tx in
    (
      omega (arith, length-take max_count (sort_by_price (collect p.by_sender))),
      All-take P max_count _ (
          All-sort_by_price P (collect p.by_sender) (
            All-collect P p.by_sender v.one_queue v.ascending
              (λ s q e n tx f. (v.queue_to_hash s n tx (queue-queued p s n q tx e f)).2))),
      IsArranged-IsOrdered _
          (take-IsArranged max_count _ (sort_by_price-IsArranged (collect p.by_sender))),
    )

none-queued :
    (p : TransactionPool) (s k : ℕ) (tx : SignedTransaction)
    → lookup s p.by_sender ≡ none
    → queued p s k ≡ some tx
    → ⊥
unfolding lookup
none-queued p s k tx f e = ground arith

-- The pending nonce of a sender is one more than its last queued nonce, and no nonce at or above it
-- is queued, as long as the last nonce is not the greatest word.
pending_nonce-above :
    (c : Crypto) (p : TransactionPool) (s l k : ℕ) (tx : SignedTransaction)
    → IsCoherent c p
    → last_key (queue_of p s) ≡ some l
    → l + 1 < u64_mod
    → queued p s k ≡ some tx
    → (pending_nonce p s ≡ some (l + 1)) × (k < l + 1)
unfolding pending_nonce
pending_nonce-above c p s l k tx v last fits e = elim (Option-cases (lookup s p.by_sender)) [
  | inl f ↦ absurd (none-queued p s k tx f e)
  | inr (q, f) ↦ ground (arith, last_key_bound k l tx q (v.ascending s q f))
]
