-- ===== src/TxPool.antt =====
-- crates/txpool/src/pool.rs: the transaction pool. The two concurrent maps are one state, each
-- operation is one step, and the sender of a transaction comes from its signature.
pub mod Queues
pub mod Calls
pub mod Coherence
pub mod Preservation
pub mod Pending
mod Tests
use velochain.Prelude.{
  ℕ, zero, suc, Bool, true, false, Option, none, some, List, [], ◌∷◌, ◌++◌, ◌&&◌, ◌||◌, leb, ltb,
  ◌==◌, if◌then◌else◌, length, take, add64, ◌+◌,
}
use velochain.Prelude.Results.{Result, ok, err}
use velochain.Map.{Map, lookup, insert, remove, contains_key, values}
use velochain.Map.Ordered.{insert_ordered, last_key}
use velochain.Primitives.Transaction.{SignedTransaction, is_game_action}
use velochain.Primitives.Crypto.{Crypto, sender}

pub data InvalidReason : Type 0 where
  bad_signature : InvalidReason
  nonce_used : ℕ → ℕ → InvalidReason

-- The errors of crates/txpool/src/error.rs that the pool returns.
pub data TxPoolError : Type 0 where
  already_exists : ℕ → TxPoolError
  pool_full : ℕ → ℕ → TxPoolError
  invalid_transaction : InvalidReason → TxPoolError

-- A sender's transactions by nonce, in ascending order.
abbrev pub SenderQueue : Type 0
SenderQueue = Map SignedTransaction

pub record TransactionPool : Type 0 where
  pub by_hash : Map SignedTransaction
  pub by_sender : Map SenderQueue
  pub max_size : ℕ

abbrev pub default_max_pool_size : ℕ
default_max_pool_size = 10_000

unfoldable pub with_max_size : ℕ → TransactionPool
with_max_size n = record { by_hash = []; by_sender = []; max_size = n }

unfoldable pub new : TransactionPool
unfolding with_max_size
new = with_max_size default_max_pool_size

-- The queue of a sender, empty where there is none.
abbrev pub queue_of : TransactionPool → ℕ → SenderQueue
queue_of p s = elim (lookup s p.by_sender) [ none ↦ [] | some q ↦ q ]

abbrev pub queued : TransactionPool → ℕ → ℕ → Option SignedTransaction
queued p s n = lookup n (queue_of p s)

unfoldable pub enqueue : TransactionPool → SignedTransaction → ℕ → TransactionPool
enqueue p tx s = record p {
  by_hash = insert tx.hash tx p.by_hash;
  by_sender = insert s (insert_ordered tx.transaction.nonce tx (queue_of p s)) p.by_sender;
}

-- The rest of a removal: the entry of the sender's queue, and the queue once it is empty.
unfoldable pub dequeue : TransactionPool → ℕ → ℕ → TransactionPool
dequeue p s n = elim (lookup s p.by_sender) [
  | none ↦ p
  | some q ↦
      let q' = remove n q in
      let by_sender' = insert s q' p.by_sender in
      record p { by_sender = if length q' == 0 then remove s by_sender' else by_sender' }
]

-- The transactions of a queue from its first nonce on, up to the first gap.
unfoldable pub contiguous : Option ℕ → SenderQueue → List SignedTransaction
contiguous expected [] = []
contiguous none ((n, tx) ∷ q) = tx ∷ contiguous (some (add64 n 1)) q
contiguous (some e) ((n, tx) ∷ q) = if n == e then tx ∷ contiguous (some (add64 n 1)) q else []

unfoldable pub collect : Map SenderQueue → List SignedTransaction
unfolding contiguous
collect [] = []
collect ((s, q) ∷ m) = contiguous none q ++ collect m

-- `gas_price.unwrap_or(0)`
abbrev pub price : SignedTransaction → ℕ
price tx = elim tx.transaction.gas_price [ none ↦ 0 | some g ↦ g ]

-- The comparison of `sort_by`: the first stands before the second, or they compare equal.
abbrev pub precedes : SignedTransaction → SignedTransaction → Bool
precedes a b =
    ltb (price b) (price a) || (price a == price b && leb a.transaction.nonce b.transaction.nonce)

-- The standard library's stable sort.
unfoldable pub insert_by_price : SignedTransaction → List SignedTransaction → List SignedTransaction
insert_by_price tx [] = tx ∷ []
insert_by_price tx (y ∷ ys) = if precedes tx y then tx ∷ y ∷ ys else y ∷ insert_by_price tx ys

unfoldable pub sort_by_price : List SignedTransaction → List SignedTransaction
unfolding insert_by_price
sort_by_price [] = []
sort_by_price (x ∷ xs) = insert_by_price x (sort_by_price xs)

unfoldable pub get_pending : TransactionPool → ℕ → List SignedTransaction
unfolding collect sort_by_price
get_pending p max_count = take max_count (sort_by_price (collect p.by_sender))

game_actions : List SignedTransaction → List SignedTransaction
game_actions [] = []
game_actions (tx ∷ txs) = if is_game_action tx then tx ∷ game_actions txs else game_actions txs

unfoldable pub get_game_actions : TransactionPool → List SignedTransaction
unfolding game_actions
get_game_actions p = game_actions (values p.by_hash)

unfoldable pub pending_count : TransactionPool → ℕ
pending_count p = length p.by_hash

unfoldable pub queued_count : TransactionPool → ℕ
queued_count p = 0

unfoldable pub total_count : TransactionPool → ℕ
total_count p = length p.by_hash

unfoldable pub clear : TransactionPool → TransactionPool
clear p = record p { by_hash = []; by_sender = [] }

unfoldable pub contains : TransactionPool → ℕ → Bool
contains p h = contains_key h p.by_hash

-- The nonce after the greatest of the sender's.
unfoldable pub pending_nonce : TransactionPool → ℕ → Option ℕ
pending_nonce p s = elim (lookup s p.by_sender) [
  | none ↦ none
  | some q ↦ elim (last_key q) [ none ↦ none | some n ↦ some (add64 n 1) ]
]

unfoldable pub get_sender_txs : TransactionPool → ℕ → List SignedTransaction
get_sender_txs p s = values (queue_of p s)

module _ (c : Crypto) where
  unfoldable pub add_transaction :
      TransactionPool → SignedTransaction → TransactionPool × Result TxPoolError ℕ
  add_transaction p tx =
      if contains_key tx.hash p.by_hash
      then (p, err (already_exists tx.hash))
      else (if leb p.max_size (length p.by_hash)
          then (p, err (pool_full p.max_size (length p.by_hash)))
          else elim (sender c tx) [
            | none ↦ (p, err (invalid_transaction bad_signature))
            | some s ↦
                if contains_key tx.transaction.nonce (queue_of p s)
                then (p, err (invalid_transaction (nonce_used tx.transaction.nonce s)))
                else (enqueue p tx s, ok tx.hash)
          ])

  unfoldable pub remove_transaction :
      TransactionPool → ℕ → TransactionPool × Option SignedTransaction
  remove_transaction p h = elim (lookup h p.by_hash) [
    | none ↦ (p, none)
    | some tx ↦
        let p' = record p { by_hash = remove h p.by_hash } in
        elim (sender c tx) [
          | none ↦ (p', some tx)
          | some s ↦ (dequeue p' s tx.transaction.nonce, some tx)
        ]
  ]

  unfoldable pub remove_included : TransactionPool → List ℕ → TransactionPool
  unfolding remove_transaction
  remove_included p [] = p
  remove_included p (h ∷ hs) = remove_included (remove_transaction p h).0 hs
