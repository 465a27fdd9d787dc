-- ===== src/Node/Producer.antt =====
-- crates/node/src/block_producer.rs: the block that a validator makes of the pending transactions, up
-- to its seal.
mod Blocks
mod Tests
use velochain.Prelude.{ℕ, Bool, List, [], ◌∷◌, ◌++◌, ltb, if◌then◌else◌, add64}
use velochain.Prelude.Results.{Result, ok, err}
use velochain.Primitives.Bytes.{bytes_be}
use velochain.Primitives.Transaction.{SignedTransaction, is_game_action}
use velochain.Primitives.Block.{BlockHeader, Block}
use velochain.Primitives.Crypto.{Crypto}
use velochain.Consensus.Poa.{PoaConsensus, ConsensusError, prepare_header, seal_block}
use velochain.TxPool.{TransactionPool, get_pending}

abbrev pub tx_gas : SignedTransaction → ℕ
tx_gas tx = if is_game_action tx then 21_000 else tx.transaction.gas_limit

-- The transactions up to the first that does not fit, and their gas.
unfoldable pub select : ℕ → ℕ → List SignedTransaction → List SignedTransaction × ℕ
select limit gas [] = ([], gas)
select limit gas (tx ∷ txs) =
    let rest = select limit (add64 gas (tx_gas tx)) txs in
    if ltb limit (add64 gas (tx_gas tx)) then ([], gas) else (tx ∷ rest.0, rest.1)

-- The bytes that the hasher is fed.
abbrev pub hashes_of : List SignedTransaction → List ℕ
hashes_of [] = []
hashes_of (tx ∷ txs) = bytes_be 32 tx.hash ++ hashes_of txs

unfoldable pub compute_transactions_root : Crypto → List SignedTransaction → ℕ
compute_transactions_root c txs = c.keccak256 (hashes_of txs)

abbrev pub filled_in : Crypto → BlockHeader → List SignedTransaction × ℕ → Block
filled_in c header (txs, gas) = record {
  header = record header { transactions_root = compute_transactions_root c txs; gas_used = gas };
  body = record { transactions = txs };
}

abbrev pub seal_over :
    Crypto
    → TransactionPool
    → PoaConsensus × Result ConsensusError BlockHeader
    → PoaConsensus × Result ConsensusError Block
seal_over c pool (p, err e) = (p, err e)
seal_over c pool (p, ok header) =
    (p, seal_block c p (filled_in c header (select header.gas_limit 0 (get_pending pool 1000))))

-- `produce_block` up to the call of `apply_block`.
unfoldable pub build_block :
    Crypto
    → PoaConsensus
    → TransactionPool
    → BlockHeader
    → ℕ
    → PoaConsensus × Result ConsensusError Block
build_block c p pool parent now = seal_over c pool (prepare_header c p parent now)
