-- ===== src/Primitives/Transaction.antt =====
-- crates/primitives/src/transaction.rs: the data of transactions. Hashes, addresses and amounts are
-- words; signed coordinates are the words of their bit patterns; texts are lists of bytes.
use velochain.Prelude.{ℕ, Bool, true, false, Option, List}

pub data TxType : Type 0 where
  legacy access_list dynamic_fee game_action : TxType

pub data GameAction : Type 0 where
  move : ℕ → ℕ → ℕ → GameAction
  attack interact : ℕ → GameAction
  place_block : ℕ → ℕ → ℕ → ℕ → GameAction
  break_block : ℕ → ℕ → ℕ → GameAction
  craft : ℕ → GameAction
  chat : List ℕ → GameAction
  respawn : GameAction

pub record Transaction : Type 0 where
  pub tx_type : TxType
  pub chain_id : ℕ
  pub nonce : ℕ
  pub gas_price : Option ℕ
  pub max_fee_per_gas : Option ℕ
  pub max_priority_fee_per_gas : Option ℕ
  pub gas_limit : ℕ
  pub to : Option ℕ
  pub value : ℕ
  pub input : List ℕ
  pub action : Option GameAction

pub record Signature : Type 0 where
  pub v : ℕ
  pub r : ℕ
  pub s : ℕ

pub record SignedTransaction : Type 0 where
  pub transaction : Transaction
  pub signature : Signature
  pub hash : ℕ

unfoldable pub is_game_type : TxType → Bool
is_game_type game_action = true
is_game_type _ = false

-- `SignedTransaction::is_game_action`
unfoldable pub is_game_action : SignedTransaction → Bool
unfolding is_game_type
is_game_action tx = is_game_type tx.transaction.tx_type
