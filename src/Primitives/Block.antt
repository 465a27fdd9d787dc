-- ===== src/Primitives/Block.antt =====
-- crates/primitives/src/block.rs: headers, bodies and blocks. Hashes, addresses, the bloom filter
-- and the difficulty are words; `extra_data` is a list of bytes.
use velochain.Prelude.{ℕ, Option, some, List, [], length}
use velochain.Primitives.Transaction.{SignedTransaction}

pub record BlockHeader : Type 0 where
  pub parent_hash : ℕ
  pub ommers_hash : ℕ
  pub beneficiary : ℕ
  pub state_root : ℕ
  pub transactions_root : ℕ
  pub receipts_root : ℕ
  pub game_state_root : ℕ
  pub logs_bloom : ℕ
  pub difficulty : ℕ
  pub number : ℕ
  pub gas_limit : ℕ
  pub gas_used : ℕ
  pub timestamp : ℕ
  pub game_tick : ℕ
  pub extra_data : List ℕ
  pub mix_hash : ℕ
  pub nonce : ℕ
  pub base_fee_per_gas : Option ℕ

pub record BlockBody : Type 0 where
  pub transactions : List SignedTransaction

pub record Block : Type 0 where
  pub header : BlockHeader
  pub body : BlockBody

-- `DEFAULT_BLOCK_GAS_LIMIT` of crates/primitives/src/lib.rs
abbrev pub default_block_gas_limit : ℕ
default_block_gas_limit = 30_000_000

-- `BlockHeader::genesis`
abbrev pub genesis : ℕ → BlockHeader
genesis root = record {
  parent_hash = 0;
  ommers_hash = 0;
  beneficiary = 0;
  state_root = 0;
  transactions_root = 0;
  receipts_root = 0;
  game_state_root = root;
  logs_bloom = 0;
  difficulty = 1;
  number = 0;
  gas_limit = default_block_gas_limit;
  gas_used = 0;
  timestamp = 0;
  game_tick = 0;
  extra_data = [];
  mix_hash = 0;
  nonce = 0;
  base_fee_per_gas = some 1_000_000_000;
}

unfoldable pub new_block : BlockHeader → List SignedTransaction → Block
new_block h txs = record { header = h; body = record { transactions = txs } }

unfoldable pub tx_count : Block → ℕ
tx_count b = length b.body.transactions
