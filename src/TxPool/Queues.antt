-- ===== src/TxPool/Queues.antt =====
-- The effect of an entry and of a removal on every sender's queue.
use velochain.Prelude.{
  ℕ, ◌≡◌, refl, ◌&&◌, none, some, [], ◌∷◌, arith, ◌==◌, if◌then◌else◌, length, Option-cases, inl,
  inr,
}
use velochain.Map.{Map, lookup, insert, remove, lookup-insert, lookup-remove}
use velochain.Map.Ordered.{insert_ordered, lookup-insert_ordered}
use velochain.Primitives.Transaction.{SignedTransaction}
use velochain.TxPool.{TransactionPool, queue_of, queued, enqueue, dequeue}

pub queued-enqueue :
    (p : TransactionPool) (tx : SignedTransaction) (s s' n : ℕ)
    → queued (enqueue p tx s) s' n
      ≡ (if s == s' && tx.transaction.nonce == n then some tx else queued p s' n)
unfolding enqueue
queued-enqueue p tx s s' n = ground (
  arith,
  lookup-insert s s' (insert_ordered tx.transaction.nonce tx (queue_of p s)) p.by_sender,
  lookup-insert_ordered tx.transaction.nonce n tx (queue_of p s),
)

lookup_empty : {V : Type 0} (k : ℕ) (m : Map V) → length m ≡ 0 → lookup k m ≡ none
unfolding lookup
lookup_empty k [] h = refl
lookup_empty k (x ∷ m) h = absurd (omega arith)

pub queued-dequeue :
    (p : TransactionPool) (s n s' n' : ℕ)
    → queued (dequeue p s n) s' n' ≡ (if s == s' && n == n' then none else queued p s' n')
unfolding dequeue lookup
queued-dequeue p s n s' n' = elim (Option-cases (lookup s p.by_sender)) [
  | inl e ↦ ground arith
  | inr (q, e) ↦ ground (
    arith,
    lookup-remove s s' (insert s (remove n q) p.by_sender),
    lookup-insert s s' (remove n q) p.by_sender,
    lookup-remove n n' q,
    lookup_empty n' (remove n q),
  )
]
