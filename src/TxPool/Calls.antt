-- ===== src/TxPool/Calls.antt =====
-- Sequences of operations on the pool of crates/txpool/src/pool.rs, and the way of one transaction
-- into the pool and out of it.
use velochain.Prelude.{ℕ, ◌<◌, ◌≡◌, refl, true, none, some, List, [], ◌∷◌, arith, length, subst}
use velochain.Prelude.Results.{ok}
use velochain.Map.{
  lookup, insert, remove, contains_key, lookup-insert, lookup-insert_self, lookup-remove,
}
use velochain.Primitives.Transaction.{SignedTransaction}
use velochain.Primitives.Crypto.{Crypto, sender}
use velochain.TxPool.{
  TransactionPool, queued, enqueue, add_transaction, remove_transaction, remove_included, contains,
  with_max_size, clear,
}
use velochain.TxPool.Queues.{queued-enqueue, queued-dequeue}
use velochain.TxPool.Coherence.{IsCoherent, with_max_size-IsCoherent}
use velochain.TxPool.Preservation.{
  add_transaction-IsCoherent, remove_transaction-IsCoherent, remove_included-IsCoherent,
  clear-IsCoherent, remove_transaction-dropped, dropped, dequeue-by_hash,
}

pub data Call : Type 0 where
  adds : SignedTransaction → Call
  removes : ℕ → Call
  includes : List ℕ → Call
  clears : Call

module _ (c : Crypto) where
  unfoldable pub step : TransactionPool → Call → TransactionPool
  step p (adds tx) = (add_transaction c p tx).0
  step p (removes h) = (remove_transaction c p h).0
  step p (includes hs) = remove_included c p hs
  step p clears = clear p

  unfoldable pub run : TransactionPool → List Call → TransactionPool
  run p [] = p
  run p (x ∷ xs) = run (step p x) xs

  pub step-IsCoherent : (p : TransactionPool) (x : Call) → IsCoherent c p → IsCoherent c (step p x)
  unfolding step
  step-IsCoherent p (adds tx) v = add_transaction-IsCoherent c p tx v
  step-IsCoherent p (removes h) v = remove_transaction-IsCoherent c p h v
  step-IsCoherent p (includes hs) v = remove_included-IsCoherent c p hs v
  step-IsCoherent p clears v = clear-IsCoherent c p

  run-IsCoherent_from :
      (p : TransactionPool) (xs : List Call) → IsCoherent c p → IsCoherent c (run p xs)
  unfolding run
  run-IsCoherent_from p [] v = v
  run-IsCoherent_from p (x ∷ xs) v = run-IsCoherent_from (step p x) xs (step-IsCoherent p x v)

  -- After any sequence of operations on a new pool the two indices agree: every transaction stands
  -- under its own hash and, under its own nonce, in its sender's queue, and nothing else stands
  -- there; the queues are in ascending order of nonces, and the pool is within its capacity.
  pub run-IsCoherent : (size : ℕ) (xs : List Call) → IsCoherent c (run (with_max_size size) xs)
  run-IsCoherent size xs =
      run-IsCoherent_from (with_max_size size) xs (with_max_size-IsCoherent c size)

  -- What a new transaction needs to enter: a hash that is not in the pool, room, a valid signature,
  -- and a nonce that its sender has not used.
  pub record Accepts (p : TransactionPool) (tx : SignedTransaction) (s : ℕ) : Type 0 where
    pub new_hash : lookup tx.hash p.by_hash ≡ none
    pub room : length p.by_hash < p.max_size
    pub signed : sender c tx ≡ some s
    pub new_nonce : queued p s tx.transaction.nonce ≡ none

  add_transaction-ok :
      (p : TransactionPool) (tx : SignedTransaction) (s : ℕ)
      → Accepts p tx s
      → add_transaction c p tx ≡ (enqueue p tx s, ok tx.hash)
  unfolding add_transaction
  add_transaction-ok p tx s a = ground arith

  enqueue-present :
      (p : TransactionPool) (tx : SignedTransaction) (s : ℕ)
      → lookup tx.hash (enqueue p tx s).by_hash ≡ some tx
  unfolding enqueue
  enqueue-present p tx s = lookup-insert_self tx.hash tx p.by_hash

  dropped-by_hash :
      (p : TransactionPool) (tx : SignedTransaction) (s h : ℕ)
      → lookup tx.hash p.by_hash ≡ none
      → lookup h (dropped (enqueue p tx s) tx s).by_hash ≡ lookup h p.by_hash
  unfolding enqueue
  dropped-by_hash p tx s h new_hash =
      let q = enqueue p tx s in
      rw (dequeue-by_hash (record q { by_hash = remove tx.hash q.by_hash }) s tx.transaction.nonce)
        (ground (
          arith,
          lookup-remove tx.hash h (insert tx.hash tx p.by_hash),
          lookup-insert tx.hash h tx p.by_hash,
        ))

  -- A transaction that meets the conditions of entry is added under its hash and can be removed again:
  -- the removal returns it, and both indices then hold what they held before.
  pub add-remove :
      (p : TransactionPool) (tx : SignedTransaction) (s : ℕ)
      → IsCoherent c p
      → Accepts p tx s
      → let (p₁, added) = add_transaction c p tx in
        let (p₂, removed) = remove_transaction c p₁ tx.hash in
        (added ≡ ok tx.hash)
        × (contains p₁ tx.hash ≡ true)
        × (removed ≡ some tx)
        × ((h : ℕ) → lookup h p₂.by_hash ≡ lookup h p.by_hash)
        × ((t n : ℕ) → queued p₂ t n ≡ queued p t n)
  unfolding contains
  add-remove p tx s v a =
      let q = enqueue p tx s in
      let added = add_transaction-ok p tx s a in
      let entered : lookup tx.hash q.by_hash ≡ some tx = enqueue-present p tx s in
      let coherent : IsCoherent c q =
        subst (λ r. IsCoherent c r.0) added (add_transaction-IsCoherent c p tx v) in
      let removed = remove_transaction-dropped c q tx.hash s tx coherent entered a.signed in
      rw (added, removed)
        (
          refl,
          rw (entered, contains_key) refl,
          refl,
          λ h. dropped-by_hash p tx s h a.new_hash,
          λ t n. ground (
            arith,
            a.new_nonce,
            queued-dequeue (record q { by_hash = remove tx.hash q.by_hash }) s tx.transaction.nonce
                t n,
            queued-enqueue p tx s t n,
          ),
        )
