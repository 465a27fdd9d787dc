-- ===== src/TxPool/Coherence.antt =====
-- The two indices of the pool agree, and stay so.
use velochain.Prelude.{
  ℕ, ◌≤◌, ◌<◌, ◌≡◌, false, ◌&&◌, none, some, [], arith, ◌==◌, if◌then◌else◌, length, Option-cases,
  inl, inr, Option, subst, sym,
}
use velochain.Map.{
  lookup, contains_key, lookup-insert, length-insert, Unique, Every, Every-insert, insert-Unique,
}
use velochain.Map.Ordered.{IsSorted, insert_ordered-IsSorted}
use velochain.Primitives.Transaction.{SignedTransaction}
use velochain.Primitives.Crypto.{Crypto, sender}
use velochain.TxPool.{TransactionPool, queue_of, queued, enqueue, with_max_size}
use velochain.TxPool.Queues.{queued-enqueue}

-- The entry that the sender's queue holds under a transaction's nonce.
abbrev pub queued_as : Crypto → TransactionPool → SignedTransaction → Option SignedTransaction
queued_as c p tx = elim (sender c tx) [ none ↦ none | some s ↦ queued p s tx.transaction.nonce ]

-- Every transaction stands in both indices, under its own hash and under its own sender and nonce;
-- every queue is in ascending order of nonces and belongs to one sender; the pool is within its
-- capacity.
pub record IsCoherent (c : Crypto) (p : TransactionPool) : Type 0 where
  pub hash_to_queue :
      (h : ℕ) (tx : SignedTransaction)
      → lookup h p.by_hash ≡ some tx
      → (tx.hash ≡ h) × (queued_as c p tx ≡ some tx)
  pub queue_to_hash :
      (s n : ℕ) (tx : SignedTransaction)
      → queued p s n ≡ some tx
      → (sender c tx ≡ some s) × (tx.transaction.nonce ≡ n) × (lookup tx.hash p.by_hash ≡ some tx)
  pub ascending : Every (λ s q. IsSorted q) p.by_sender
  pub one_queue : Unique p.by_sender
  pub one_hash : Unique p.by_hash
  pub within : length p.by_hash ≤ p.max_size

pub with_max_size-IsCoherent : (c : Crypto) (n : ℕ) → IsCoherent c (with_max_size n)
unfolding with_max_size lookup
with_max_size-IsCoherent c n = record {
  hash_to_queue = λ h tx e. cc;
  queue_to_hash = λ s k tx e. cc;
  ascending = λ s q e. cc;
  one_queue = tt;
  one_hash = tt;
  within = omega arith;
}

pub queue_of-IsSorted :
    (c : Crypto) (p : TransactionPool) (s : ℕ) → IsCoherent c p → IsSorted (queue_of p s)
queue_of-IsSorted c p s v = elim (Option-cases (lookup s p.by_sender)) [
  | inl e ↦ let empty : queue_of p s ≡ [] = ground arith in subst (λ q. IsSorted q) (sym empty) tt
  | inr (q, e) ↦
      let found : queue_of p s ≡ q = ground arith in
      subst (λ q'. IsSorted q') (sym found) (v.ascending s q e)
]

module _ (c : Crypto) (p : TransactionPool) (tx : SignedTransaction) (s : ℕ) where
  enqueued :
      (t n : ℕ)
      → queued (enqueue p tx s) t n
        ≡ (if s == t && tx.transaction.nonce == n then some tx else queued p t n)
  enqueued = queued-enqueue p tx s

  queued_as-enqueue :
      (x : SignedTransaction)
      → queued_as c (enqueue p tx s) x ≡ elim (sender c x) [
        | none ↦ none
        | some t ↦
            if s == t && tx.transaction.nonce == x.transaction.nonce
            then some tx
            else queued p t x.transaction.nonce
      ]
  queued_as-enqueue x = elim (Option-cases (sender c x)) [
    | inl e ↦ ground arith
    | inr (t, e) ↦ ground (arith, enqueued t x.transaction.nonce)
  ]

  pub enqueue-IsCoherent :
      IsCoherent c p
      → contains_key tx.hash p.by_hash ≡ false
      → length p.by_hash < p.max_size
      → sender c tx ≡ some s
      → queued p s tx.transaction.nonce ≡ none
      → IsCoherent c (enqueue p tx s)
  unfolding enqueue
  enqueue-IsCoherent v new_hash room sent new_nonce = record {
    hash_to_queue = λ h x e. ground (
      arith,
      lookup-insert tx.hash h tx p.by_hash,
      v.hash_to_queue h x,
      enqueued s tx.transaction.nonce,
      queued_as-enqueue x,
    );
    queue_to_hash = λ t n x e.
        ground
          (arith, enqueued t n, v.queue_to_hash t n x, lookup-insert tx.hash x.hash tx p.by_hash);
    ascending =
        Every-insert (λ t q. IsSorted q) s _ p.by_sender
          (insert_ordered-IsSorted tx.transaction.nonce tx (queue_of p s)
            (queue_of-IsSorted c p s v))
          v.ascending;
    one_queue = insert-Unique s _ p.by_sender v.one_queue;
    one_hash = insert-Unique tx.hash tx p.by_hash v.one_hash;
    within = ground (arith, length-insert tx.hash tx p.by_hash);
  }
