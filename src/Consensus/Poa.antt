-- ===== src/Consensus/Poa.antt =====
-- crates/consensus/src/poa.rs: the Proof-of-Authority engine. Locks are the arguments and results
-- of the operations, the clock is an argument, and error texts are the reasons that they name.
pub mod Verify
pub mod Seal
mod Tests
use velochain.Prelude.{
  ℕ, ◌+◌, Bool, true, false, Option, none, some, List, [], ◌∷◌, ◌++◌, leb, ltb, not, ◌==◌,
  if◌then◌else◌, length, get_elem?, take, contains, add64, max,
}
use velochain.Prelude.Results.{Result, ok, err, ◌>>=◌, ◌>>◌, guard, ok_or}
use velochain.Primitives.Bytes.{bytes_be, word_be, drop}
use velochain.Primitives.Block.{BlockHeader, Block, default_block_gas_limit}
use velochain.Primitives.Crypto.{Crypto, Keypair, header_hash, recover_signer}
use velochain.Consensus.Governance.{Address, proposer_for_height}

pub data HeaderFault : Type 0 where
  number_mismatch parent_hash_mismatch timestamp_not_after_parent : HeaderFault
  game_tick_mismatch difficulty_not_one : HeaderFault

pub data SignatureFault : Type 0 where
  not_65_bytes recovery_failed signer_not_beneficiary : SignatureFault

-- The errors of crates/consensus/src/error.rs that the engine returns.
pub data ConsensusError : Type 0 where
  invalid_header : HeaderFault → ConsensusError
  unknown_validator : Address → ConsensusError
  not_validator : ConsensusError
  invalid_signature : SignatureFault → ConsensusError
  seal_error : ConsensusError

pub record PoaConfig : Type 0 where
  pub period : ℕ
  pub epoch : ℕ
  pub chain_id : ℕ

-- `PoaConfig::default`, with `DEFAULT_CHAIN_ID`
abbrev pub default_poa_config : PoaConfig
default_poa_config = record { period = 1; epoch = 30000; chain_id = 27181 }

pub record PoaConsensus : Type 0 where
  pub keypair : Option Keypair
  pub local_address : Option Address
  pub validators : List Address
  pub config : PoaConfig
  pub game_tick : ℕ

unfoldable pub new_with_keypair : Keypair → List Address → PoaConfig → PoaConsensus
new_with_keypair k vs c = record {
  keypair = some k;
  local_address = some k.address;
  validators = vs;
  config = c;
  game_tick = 0;
}

unfoldable pub new_readonly : List Address → PoaConfig → PoaConsensus
new_readonly vs c = record {
  keypair = none;
  local_address = none;
  validators = vs;
  config = c;
  game_tick = 0;
}

pub is_our_turn : PoaConsensus → ℕ → Bool
is_our_turn p height = elim p.local_address [
  | none ↦ false
  | some local ↦ elim (proposer_for_height p.validators height) [
    | none ↦ false
    | some proposer ↦ local == proposer
  ]
]

-- `advance_tick`: the new state, whose tick is the result.
unfoldable pub advance_tick : PoaConsensus → PoaConsensus
advance_tick p = record p { game_tick = add64 p.game_tick 1 }

unfoldable pub is_validator : PoaConsensus → Bool
is_validator p = elim p.local_address [ none ↦ false | some a ↦ contains a p.validators ]

module _ (c : Crypto) where
  unfoldable pub recover_block_signer : Block → Result ConsensusError Address
  recover_block_signer b =
      let extra = b.header.extra_data in
      let unsigned_hash = header_hash c (record b.header { extra_data = [] }) in
      if length extra == 65
      then elim (get_elem? extra 64) [
        | none ↦ err (invalid_signature not_65_bytes)
        | some v ↦
            ok_or
              (recover_signer c unsigned_hash v (word_be (take 32 extra))
                (word_be (take 32 (drop 32 extra))))
              (invalid_signature recovery_failed)
      ]
      else err (invalid_signature not_65_bytes)

  unfoldable pub verify_header : BlockHeader → BlockHeader → Result ConsensusError (Unit {0})
  verify_header h parent = do
    guard (h.number == add64 parent.number 1) (invalid_header number_mismatch)
    guard (h.parent_hash == header_hash c parent) (invalid_header parent_hash_mismatch)
    guard (ltb parent.timestamp h.timestamp) (invalid_header timestamp_not_after_parent)
    guard (h.game_tick == add64 parent.game_tick 1) (invalid_header game_tick_mismatch)
    guard (h.difficulty == 1) (invalid_header difficulty_not_one)
    ok tt

  -- The check of the seal, where there is one.
  unfoldable pub verify_seal : PoaConsensus → Block → Result ConsensusError (Unit {0})
  verify_seal p b = if length b.header.extra_data == 0 then ok tt else do
    signer ← recover_block_signer b
    guard (contains signer p.validators) (unknown_validator signer)
    guard (signer == b.header.beneficiary) (invalid_signature signer_not_beneficiary)
    ok tt

  unfoldable pub verify_block :
      PoaConsensus → Block → BlockHeader → Result ConsensusError (Unit {0})
  verify_block p b parent = do
    verify_header b.header parent
    if b.header.number == 0 then ok tt else verify_seal p b

  abbrev pub prepared : PoaConsensus → Address → BlockHeader → ℕ → BlockHeader
  prepared p local parent now = record {
    parent_hash = header_hash c parent;
    ommers_hash = 0;
    beneficiary = local;
    state_root = 0;
    transactions_root = 0;
    receipts_root = 0;
    game_state_root = 0;
    logs_bloom = 0;
    difficulty = 1;
    number = add64 parent.number 1;
    gas_limit = default_block_gas_limit;
    gas_used = 0;
    timestamp = max now (add64 parent.timestamp p.config.period);
    game_tick = add64 p.game_tick 1;
    extra_data = [];
    mix_hash = 0;
    nonce = 0;
    base_fee_per_gas = parent.base_fee_per_gas;
  }

  -- `now` is the clock in seconds. A turn of another validator is only logged.
  unfoldable pub prepare_header :
      PoaConsensus → BlockHeader → ℕ → PoaConsensus × Result ConsensusError BlockHeader
  prepare_header p parent now = elim p.local_address [
    | none ↦ (p, err not_validator)
    | some local ↦
        if is_validator p
        then (advance_tick p, ok (prepared p local parent now))
        else (p, err not_validator)
  ]

  -- The sealed block; on an error the block is left as it is.
  unfoldable pub seal_block : PoaConsensus → Block → Result ConsensusError Block
  seal_block p b = do
    k ← ok_or p.keypair not_validator
    sig ← ok_or (c.sign_prehash k.signing_key (header_hash c b.header)) seal_error
    ok (record b {
      header = record b.header {
        extra_data = bytes_be 32 sig.0 ++ (bytes_be 32 sig.1 ++ sig.2 ∷ []);
      };
    })
