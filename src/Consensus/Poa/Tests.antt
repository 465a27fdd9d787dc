-- ===== src/Consensus/Poa/Tests.antt =====
-- The Proof-of-Authority theorems at concrete inputs.
use velochain.Prelude.{◌≡◌, ◌↔◌, ◌⊎◌, refl, some, [], ◌∷◌, arith, length, inr, inl}
use velochain.Prelude.Results.{ok}
use velochain.Primitives.Block.{Block, genesis}
use velochain.Primitives.Crypto.{
  Keypair, payload, payload_length, payload_length-eq, from_secret_key, public_key_to_address,
}
use velochain.Primitives.Sample.{sample, sample-RlpLaws, sample-SignatureLaws}
use velochain.Consensus.Poa.{
  PoaConsensus, default_poa_config, new_with_keypair, verify_block, seal_block, prepare_header,
  prepared, advance_tick,
}
use velochain.Consensus.Poa.Verify.{Extends, IsSealed, verify_block_iff}
use velochain.Consensus.Poa.Seal.{filled, prepare-seal-verify}

payload_length-eq_example : payload_length sample (genesis 7) ≡ length (payload sample (genesis 7))
payload_length-eq_example = payload_length-eq sample (genesis 7) sample-RlpLaws

abbrev keypair : Keypair
keypair = record { signing_key = 5; address = 5 }

abbrev engine : PoaConsensus
engine = record {
  keypair = some keypair;
  local_address = some 5;
  validators = 4 ∷ 5 ∷ [];
  config = default_poa_config;
  game_tick = 0;
}

engine-new : new_with_keypair keypair (4 ∷ 5 ∷ []) default_poa_config ≡ engine
unfolding new_with_keypair
engine-new = refl

-- A block by no validator, with no seal, on top of the genesis block.
abbrev unsealed : Block
unsealed = record {
  header = record (prepared sample engine 5 (genesis 7) 30) { beneficiary = 99 };
  body = record { transactions = [] };
}

verify_block_iff_example : (verify_block sample engine unsealed (genesis 7) ≡ ok tt) ↔ (
    Extends sample unsealed.header (genesis 7)
    × ((unsealed.header.number ≡ 0)
        ⊎ ((length unsealed.header.extra_data ≡ 0) ⊎ IsSealed sample engine unsealed)))
verify_block_iff_example = verify_block_iff sample engine unsealed (genesis 7)

unsealed_accepted : verify_block sample engine unsealed (genesis 7) ≡ ok tt
unsealed_accepted = verify_block_iff_example.1 (
  record {
    number_next = refl;
    hash_linked = refl;
    later = omega arith;
    tick_next = refl;
    difficulty_one = refl;
  },
  inr (inl refl),
)

prepare-seal-verify_example :
    (prepare_header sample engine (genesis 7) 30
      ≡ (advance_tick engine, ok (prepared sample engine 5 (genesis 7) 30)))
    × ((b : Block) × (seal_block sample
            (advance_tick engine)
            (filled sample engine 5 (genesis 7) 30 11 42000 (record { transactions = [] }))
          ≡ ok b)
        × (verify_block sample (advance_tick engine) b (genesis 7) ≡ ok tt))
unfolding from_secret_key public_key_to_address
prepare-seal-verify_example =
    prepare-seal-verify sample keypair 5 engine (genesis 7) 30 11 42000
      (record { transactions = [] }) 5 0 0 sample-SignatureLaws
      (record {
        is_local = refl;
        member = refl;
        in_step = refl;
        period_positive = omega arith;
        time_fits = omega arith;
      })
      refl refl refl
