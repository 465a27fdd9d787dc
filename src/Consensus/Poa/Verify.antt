-- ===== src/Consensus/Poa/Verify.antt =====
-- What `verify_header` and `verify_block` of crates/consensus/src/poa.rs accept.
use velochain.Prelude.{
  ◌<◌, ◌≡◌, ◌⊎◌, inl, inr, true, arith, ◌==◌, length, contains, add64, ◌↔◌, ==→eq, Bool-cases,
  tests,
}
use velochain.Prelude.Results.{Result-cases, ok}
use velochain.Primitives.Block.{BlockHeader, Block}
use velochain.Primitives.Crypto.{Crypto, header_hash}
use velochain.Consensus.Poa.{
  PoaConsensus, verify_header, verify_block, verify_seal, recover_block_signer,
}

-- The header continues its parent.
pub record Extends (c : Crypto) (h parent : BlockHeader) : Type 0 where
  pub number_next : h.number ≡ add64 parent.number 1
  pub hash_linked : h.parent_hash ≡ header_hash c parent
  pub later : parent.timestamp < h.timestamp
  pub tick_next : h.game_tick ≡ add64 parent.game_tick 1
  pub difficulty_one : h.difficulty ≡ 1

module _ (c : Crypto) (h parent : BlockHeader) where
  pub verify_header_sound : verify_header c h parent ≡ ok tt → Extends c h parent
  unfolding verify_header
  verify_header_sound e = ground arith

  pub verify_header_complete : Extends c h parent → verify_header c h parent ≡ ok tt
  unfolding verify_header
  verify_header_complete x = ground arith

-- The seal of a block: a validator's signature of the header without its seal, by the beneficiary.
abbrev pub IsSealed : Crypto → PoaConsensus → Block → Type 0
IsSealed c p b =
    (recover_block_signer c b ≡ ok b.header.beneficiary)
    × (contains b.header.beneficiary p.validators ≡ true)

module _ (c : Crypto) (p : PoaConsensus) (b : Block) where
  verify_seal_sound : verify_seal c p b ≡ ok tt → (length b.header.extra_data ≡ 0) ⊎ IsSealed c p b
  unfolding verify_seal
  verify_seal_sound e = elim (Bool-cases (length b.header.extra_data == 0)) [
    | inl bare ↦ inl (omega (tests, ==→eq (length b.header.extra_data) 0 bare))
    | inr carries ↦ elim (Result-cases (recover_block_signer c b)) [
      | inl (signer, f) ↦ inr (ground arith)
      | inr (x, f) ↦ absurd (ground arith)
    ]
  ]

  verify_seal_bare : length b.header.extra_data ≡ 0 → verify_seal c p b ≡ ok tt
  unfolding verify_seal
  verify_seal_bare h = ground arith

  verify_seal_complete : IsSealed c p b → verify_seal c p b ≡ ok tt
  unfolding verify_seal
  verify_seal_complete s = ground arith

  -- A block is accepted exactly if its header continues its parent and either it is the genesis
  -- block, or it has no seal at all, or its seal is the beneficiary's and the beneficiary is a
  -- validator.
  pub verify_block_iff :
      (parent : BlockHeader)
      → (verify_block c p b parent ≡ ok tt) ↔ (
          Extends c b.header parent
          × ((b.header.number ≡ 0) ⊎ ((length b.header.extra_data ≡ 0) ⊎ IsSealed c p b)))
  unfolding verify_block
  verify_block_iff parent = (
    λ e. elim (Result-cases (verify_header c b.header parent)) [
      | inr (x, f) ↦ absurd (cc (rw f at e))
      | inl (_, f) ↦ (
        verify_header_sound c b.header parent f,
        elim (Bool-cases (b.header.number == 0)) [
          | inl zeroth ↦ inl (==→eq b.header.number 0 zeroth)
          | inr later ↦ inr (verify_seal_sound (rw (f, later) at e))
        ],
      )
    ],
    λ accepted.
        rw (verify_header_complete c b.header parent accepted.0)
          (ground (arith, verify_seal_bare, verify_seal_complete)),
  )
