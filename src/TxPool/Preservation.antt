-- ===== src/TxPool/Preservation.antt =====
-- Every operation of the pool keeps the two indices in agreement.
use velochain.Prelude.{
  ℕ, ◌≡◌, ◌&&◌, none, some, List, [], ◌∷◌, arith, ◌==◌, leb, if◌then◌else◌, length, Option-cases,
  inl, inr, Bool-cases, subst, sym, ap, leb_false→lt,
}
use velochain.Map.{
  Map, lookup, insert, remove, contains_key, lookup-remove, length-remove-le, Unique, Every,
  Every-insert, Every-remove, insert-Unique, remove-Unique,
}
use velochain.Map.Ordered.{IsSorted, remove-IsSorted}
use velochain.Primitives.Transaction.{SignedTransaction}
use velochain.Primitives.Crypto.{Crypto, sender}
use velochain.TxPool.{
  TransactionPool, SenderQueue, queue_of, queued, dequeue, add_transaction, remove_transaction,
  remove_included, with_max_size, clear,
}
use velochain.TxPool.Queues.{queued-dequeue}
use velochain.TxPool.Coherence.{IsCoherent, queued_as, enqueue-IsCoherent, with_max_size-IsCoherent}

-- The pool without a transaction, in both indices.
abbrev pub dropped : TransactionPool → SignedTransaction → ℕ → TransactionPool
dropped p tx s = dequeue (record p { by_hash = remove tx.hash p.by_hash }) s tx.transaction.nonce

pub dequeue-by_hash : (p : TransactionPool) (s n : ℕ) → (dequeue p s n).by_hash ≡ p.by_hash
unfolding dequeue
dequeue-by_hash p s n = ground arith

dequeue-max_size : (p : TransactionPool) (s n : ℕ) → (dequeue p s n).max_size ≡ p.max_size
unfolding dequeue
dequeue-max_size p s n = ground arith

-- A removal keeps what holds of all queues.
dequeue_rule :
    (Q : Map SenderQueue → Type 0) (p : TransactionPool) (s n : ℕ)
    → ((k : ℕ) (m : Map SenderQueue) → Q m → Q (remove k m))
    → Q p.by_sender
    → ((q : SenderQueue) → lookup s p.by_sender ≡ some q → Q (insert s (remove n q) p.by_sender))
    → Q (dequeue p s n).by_sender
unfolding dequeue
dequeue_rule Q p s n shrink same put = elim (Option-cases (lookup s p.by_sender)) [
  | inl e ↦ rw (e, dequeue) same
  | inr (q, e) ↦ elim (Bool-cases (length (remove n q) == 0)) [
    | inl empty ↦ rw (e, dequeue, empty) (shrink s _ (put q e))
    | inr more ↦ rw (e, dequeue, more) (put q e)
  ]
]

module _ (c : Crypto) (p : TransactionPool) (tx : SignedTransaction) (s : ℕ) where
  queued-dropped :
      (t n : ℕ)
      → queued (dropped p tx s) t n
        ≡ (if s == t && tx.transaction.nonce == n then none else queued p t n)
  queued-dropped =
      queued-dequeue (record p { by_hash = remove tx.hash p.by_hash }) s tx.transaction.nonce

  queued_as-dropped :
      (x : SignedTransaction)
      → queued_as c (dropped p tx s) x ≡ elim (sender c x) [
        | none ↦ none
        | some t ↦
            if s == t && tx.transaction.nonce == x.transaction.nonce
            then none
            else queued p t x.transaction.nonce
      ]
  queued_as-dropped x = elim (Option-cases (sender c x)) [
    | inl e ↦ ground arith
    | inr (t, e) ↦ ground (arith, queued-dropped t x.transaction.nonce)
  ]

  dropped-IsCoherent :
      IsCoherent c p
      → lookup tx.hash p.by_hash ≡ some tx
      → sender c tx ≡ some s
      → IsCoherent c (dropped p tx s)
  dropped-IsCoherent v present sent =
      let p' = record p { by_hash = remove tx.hash p.by_hash } in
      record {
        hash_to_queue = λ h x e. ground (
          arith,
          dequeue-by_hash p' s tx.transaction.nonce,
          lookup-remove tx.hash h p.by_hash,
          v.hash_to_queue h x,
          v.hash_to_queue tx.hash tx,
          queued_as-dropped x,
        );
        queue_to_hash = λ t n x e. ground (
          arith,
          dequeue-by_hash p' s tx.transaction.nonce,
          queued-dropped t n,
          v.queue_to_hash t n x,
          lookup-remove tx.hash x.hash p.by_hash,
        );
        ascending =
            dequeue_rule (Every (λ t q. IsSorted q)) p' s tx.transaction.nonce
              (Every-remove (λ t q. IsSorted q)) v.ascending
              (λ q e.
                Every-insert (λ t q'. IsSorted q') s _ p.by_sender
                  (remove-IsSorted tx.transaction.nonce q (v.ascending s q e)) v.ascending);
        one_queue =
            dequeue_rule Unique p' s tx.transaction.nonce remove-Unique v.one_queue
              (λ q e. insert-Unique s _ p.by_sender v.one_queue);
        one_hash =
            rw (dequeue-by_hash p' s tx.transaction.nonce)
              (remove-Unique tx.hash p.by_hash v.one_hash);
        within = ground (
          arith,
          dequeue-by_hash p' s tx.transaction.nonce,
          dequeue-max_size p' s tx.transaction.nonce,
          length-remove-le tx.hash p.by_hash,
          v.within,
        );
      }

module _ (c : Crypto) where
  -- Whether a transaction is accepted or refused, the indices agree afterwards.
  pub add_transaction-IsCoherent :
      (p : TransactionPool) (tx : SignedTransaction)
      → IsCoherent c p
      → IsCoherent c (add_transaction c p tx).0
  unfolding add_transaction
  add_transaction-IsCoherent p tx v = elim (Bool-cases (contains_key tx.hash p.by_hash)) [
    | inl known ↦ rw known v
    | inr new_hash ↦ elim (Bool-cases (leb p.max_size (length p.by_hash))) [
      | inl full ↦ rw (new_hash, full) v
      | inr room ↦ elim (Option-cases (sender c tx)) [
        | inl bad ↦ rw (new_hash, room, bad) v
        | inr (s, sent) ↦ elim (Bool-cases (contains_key tx.transaction.nonce (queue_of p s))) [
          | inl used ↦ rw (new_hash, room, sent, used) v
          | inr free ↦
              rw (new_hash, room, sent, free)
                (enqueue-IsCoherent c p tx s v new_hash
                  (leb_false→lt p.max_size (length p.by_hash) room) sent (ground arith))
        ]
      ]
    ]
  ]

  sender-known :
      (p : TransactionPool) (h : ℕ) (tx : SignedTransaction)
      → IsCoherent c p
      → lookup h p.by_hash ≡ some tx
      → (s : ℕ) × (sender c tx ≡ some s)
  sender-known p h tx v e = elim (Option-cases (sender c tx)) [
    | inl none' ↦ absurd (ground (arith, v.hash_to_queue h tx e))
    | inr (s, sent) ↦ (s, sent)
  ]

  -- In a coherent pool a removal by a known hash takes the transaction out of both indices.
  pub remove_transaction-dropped :
      (p : TransactionPool) (h s : ℕ) (tx : SignedTransaction)
      → IsCoherent c p
      → lookup h p.by_hash ≡ some tx
      → sender c tx ≡ some s
      → remove_transaction c p h ≡ (dropped p tx s, some tx)
  unfolding remove_transaction
  remove_transaction-dropped p h s tx v e sent = ground (arith, (v.hash_to_queue h tx e).0)

  pub remove_transaction-IsCoherent :
      (p : TransactionPool) (h : ℕ) → IsCoherent c p → IsCoherent c (remove_transaction c p h).0
  unfolding remove_transaction
  remove_transaction-IsCoherent p h v = elim (Option-cases (lookup h p.by_hash)) [
    | inl e ↦ rw (e, remove_transaction) v
    | inr (tx, e) ↦
        let (s, sent) = sender-known p h tx v e in
        let own = (v.hash_to_queue h tx e).0 in
        subst (λ q. IsCoherent c q)
          (sym (ap (λ r. r.0) (remove_transaction-dropped p h s tx v e sent)))
          (dropped-IsCoherent c p tx s v (subst (λ k. lookup k p.by_hash ≡ some tx) (sym own) e)
            sent)
  ]

  pub remove_included-IsCoherent :
      (p : TransactionPool) (hs : List ℕ) → IsCoherent c p → IsCoherent c (remove_included c p hs)
  unfolding remove_included
  remove_included-IsCoherent p [] v = v
  remove_included-IsCoherent p (h ∷ hs) v =
      remove_included-IsCoherent (remove_transaction c p h).0 hs
        (remove_transaction-IsCoherent p h v)

  pub clear-IsCoherent : (p : TransactionPool) → IsCoherent c (clear p)
  unfolding clear with_max_size
  clear-IsCoherent p = with_max_size-IsCoherent c p.max_size
