-- ===== src/TxPool/Tests.antt =====
-- The transaction pool at concrete inputs.
use velochain.Prelude.{ℕ, ◌≤◌, ◌≡◌, refl, true, none, some, [], ◌∷◌, arith, length, All}
use velochain.Prelude.Results.{ok}
use velochain.Map.{lookup, insert}
use velochain.Map.Ordered.{insert_ordered}
use velochain.Primitives.Transaction.{Transaction, SignedTransaction, legacy}
use velochain.Primitives.Crypto.{sender, public_key_to_address}
use velochain.Primitives.Sample.{sample}
use velochain.TxPool.{
  TransactionPool, with_max_size, add_transaction, remove_transaction, contains, queued, enqueue,
  get_pending,
}
use velochain.TxPool.Coherence.{IsCoherent}
use velochain.TxPool.Calls.{adds, removes, run, step, run-IsCoherent, add-remove}
use velochain.TxPool.Pending.{IsOrdered, get_pending-IsOrdered}

abbrev payment : ℕ → ℕ → Transaction
payment nonce price = record {
  tx_type = legacy;
  chain_id = 27181;
  nonce = nonce;
  gas_price = some price;
  max_fee_per_gas = none;
  max_priority_fee_per_gas = none;
  gas_limit = 21_000;
  to = some 0;
  value = 1;
  input = [];
  action = none;
}

-- A transaction of sender 9.
abbrev signed : ℕ → ℕ → ℕ → SignedTransaction
signed hash nonce price = record {
  transaction = payment nonce price;
  signature = record { v = 0; r = 9; s = 0 };
  hash = hash;
}

-- The later nonce pays more.
abbrev two_payments : TransactionPool
two_payments = run sample (with_max_size 3) (adds (signed 71 0 5) ∷ adds (signed 72 1 8) ∷ [])

two_payments-IsCoherent : IsCoherent sample two_payments
two_payments-IsCoherent = run-IsCoherent sample 3 (adds (signed 71 0 5) ∷ adds (signed 72 1 8) ∷ [])

run-IsCoherent_example :
    IsCoherent sample
      (run sample (with_max_size 1) (adds (signed 71 0 5) ∷ adds (signed 72 1 8) ∷ removes 71 ∷ []))
run-IsCoherent_example =
    run-IsCoherent sample 1 (adds (signed 71 0 5) ∷ adds (signed 72 1 8) ∷ removes 71 ∷ [])

get_pending-IsOrdered_example :
    (length (get_pending two_payments 2) ≤ 2)
    × All (λ tx. lookup tx.hash two_payments.by_hash ≡ some tx) (get_pending two_payments 2)
    × IsOrdered (get_pending two_payments 2)
get_pending-IsOrdered_example = get_pending-IsOrdered sample two_payments 2 two_payments-IsCoherent

-- The transactions of one sender do not come in the order of their nonces.
nonces_out_of_order : get_pending two_payments 2 ≡ signed 72 1 8 ∷ signed 71 0 5 ∷ []
unfolding run step with_max_size add_transaction enqueue sender public_key_to_address get_pending
    lookup insert insert_ordered
nonces_out_of_order = refl

add-remove_example :
    let (p₁, added) = add_transaction sample two_payments (signed 73 2 1) in
    let (p₂, removed) = remove_transaction sample p₁ 73 in
    (added ≡ ok 73)
    × (contains p₁ 73 ≡ true)
    × (removed ≡ some (signed 73 2 1))
    × ((h : ℕ) → lookup h p₂.by_hash ≡ lookup h two_payments.by_hash)
    × ((t n : ℕ) → queued p₂ t n ≡ queued two_payments t n)
unfolding run step with_max_size add_transaction enqueue sender public_key_to_address lookup insert
    insert_ordered
add-remove_example =
    add-remove sample two_payments (signed 73 2 1) 9 two_payments-IsCoherent
      (record { new_hash = refl; room = omega arith; signed = refl; new_nonce = refl })
