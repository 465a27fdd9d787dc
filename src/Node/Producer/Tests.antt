-- ===== src/Node/Producer/Tests.antt =====
-- A validator builds a block of two payments.
use velochain.Prelude.{ℕ, ◌≤◌, ◌≡◌, refl, none, some, [], ◌∷◌, arith, All}
use velochain.Prelude.Results.{ok}
use velochain.Map.{lookup, insert}
use velochain.Map.Ordered.{insert_ordered}
use velochain.Primitives.Transaction.{
  Transaction, SignedTransaction, legacy, is_game_action, is_game_type,
}
use velochain.Primitives.Block.{Block, genesis, default_block_gas_limit}
use velochain.Primitives.Crypto.{Keypair, sender, from_secret_key, public_key_to_address}
use velochain.Primitives.Sample.{sample, sample-SignatureLaws}
use velochain.Consensus.Poa.{PoaConsensus, default_poa_config, advance_tick, verify_block}
use velochain.TxPool.{
  TransactionPool, with_max_size, add_transaction, contains, enqueue, get_pending, collect,
  sort_by_price, contiguous,
}
use velochain.TxPool.Coherence.{IsCoherent}
use velochain.TxPool.Calls.{adds, run, step, run-IsCoherent}
use velochain.Node.Producer.{build_block}
use velochain.Node.Producer.Blocks.{gas_of, build_block-verify}

abbrev keypair : Keypair
keypair = record { signing_key = 5; address = 5 }

abbrev engine : PoaConsensus
engine = record {
  keypair = some keypair;
  local_address = some 5;
  validators = 4 ∷ 5 ∷ [];
  config = default_poa_config;
  game_tick = 0;
}

abbrev payment : ℕ → ℕ → Transaction
payment nonce price = record {
  tx_type = legacy;
  chain_id = 27181;
  nonce = nonce;
  gas_price = some price;
  max_fee_per_gas = none;
  max_priority_fee_per_gas = none;
  gas_limit = 21_000;
  to = some 0;
  value = 1;
  input = [];
  action = none;
}

-- A transaction of sender 9.
abbrev signed : ℕ → ℕ → ℕ → SignedTransaction
signed hash nonce price = record {
  transaction = payment nonce price;
  signature = record { v = 0; r = 9; s = 0 };
  hash = hash;
}

abbrev pool : TransactionPool
pool = run sample (with_max_size 3) (adds (signed 71 0 5) ∷ adds (signed 72 1 8) ∷ [])

pool-IsCoherent : IsCoherent sample pool
pool-IsCoherent = run-IsCoherent sample 3 (adds (signed 71 0 5) ∷ adds (signed 72 1 8) ∷ [])

build_block-verify_example :
    (b : Block) × (build_block sample engine pool (genesis 7) 30 ≡ (advance_tick engine, ok b))
    × (verify_block sample (advance_tick engine) b (genesis 7) ≡ ok tt)
    × All (λ tx. lookup tx.hash pool.by_hash ≡ some tx) b.body.transactions
    × (b.header.gas_used ≡ gas_of b.body.transactions)
    × (b.header.gas_used ≤ default_block_gas_limit)
unfolding from_secret_key public_key_to_address run step with_max_size add_transaction enqueue
    contains sender lookup insert insert_ordered get_pending collect sort_by_price contiguous
    is_game_action is_game_type
build_block-verify_example =
    build_block-verify sample keypair 5 engine pool (genesis 7) 30 5 0 0 sample-SignatureLaws
      (record {
        is_local = refl;
        member = refl;
        in_step = refl;
        period_positive = omega arith;
        time_fits = omega arith;
      })
      refl refl refl pool-IsCoherent (omega arith, (omega arith, tt))
