-- ===== src/Consensus/Poa/Seal.antt =====
-- What `prepare_header` and `seal_block` of crates/consensus/src/poa.rs make, `verify_block` accepts.
use velochain.Prelude.{
  ℕ, ◌+◌, ◌<◌, ◌≡◌, refl, true, List, [], ◌∷◌, ◌++◌, arith, length, contains, add64, u64_mod, some,
  take, get_elem?, ap, sym, inr,
}
use velochain.Prelude.Results.{ok}
use velochain.Primitives.Bytes.{bytes_be, drop, word_be-bytes_be}
use velochain.Primitives.Block.{BlockHeader, BlockBody, Block}
use velochain.Primitives.Crypto.{
  Crypto, Keypair, SignatureLaws, header_hash, recover_signer-sign, from_secret_key,
}
use velochain.Consensus.Governance.{Address}
use velochain.Consensus.Poa.{
  PoaConsensus, verify_block, recover_block_signer, seal_block, prepare_header, prepared,
  advance_tick, is_validator,
}
use velochain.Consensus.Poa.Verify.{Extends, verify_block_iff}

abbrev seal : ℕ → ℕ → ℕ → List ℕ
seal r s v = bytes_be 32 r ++ (bytes_be 32 s ++ v ∷ [])

seal_fields :
    (r s v : ℕ)
    → (length (seal r s v) ≡ 65)
      × (get_elem? (seal r s v) 64 ≡ some v)
      × (take 32 (seal r s v) ≡ bytes_be 32 r)
      × (take 32 (drop 32 (seal r s v)) ≡ bytes_be 32 s)
unfolding bytes_be
seal_fields r s v = (refl, refl, refl, refl)

-- The block with this seal.
abbrev sealed : Block → ℕ → ℕ → ℕ → Block
sealed b r s v = record b { header = record b.header { extra_data = seal r s v } }

module _ (c : Crypto) (laws : SignatureLaws c) (k : Keypair) (secret : ℕ) where
  recover-sealed :
      (b : Block) (r s v : ℕ)
      → from_secret_key c secret ≡ some k
      → b.header.extra_data ≡ []
      → c.sign_prehash k.signing_key (header_hash c b.header) ≡ some (r, s, v)
      → recover_block_signer c (sealed b r s v) ≡ ok k.address
  unfolding recover_block_signer
  recover-sealed b r s v made bare signed =
      let valid = laws.signature_law k.signing_key (header_hash c b.header) r s v signed in
      let fields = seal_fields r s v in
      let unsealed : record b.header { extra_data = [] } ≡ b.header =
        ap (λ (x : List ℕ). record b.header { extra_data = x }) (sym bare) in
      rw
        (
          fields.0,
          fields.1,
          fields.2,
          fields.3,
          word_be-bytes_be 32 r valid.0,
          word_be-bytes_be 32 s valid.1,
          unsealed,
        )
        (rw (recover_signer-sign c k secret (header_hash c b.header) r s v laws made signed) refl)

  -- Sealing a block that has no seal yet, with a key pair of the signature scheme that signs its
  -- hash, succeeds and changes nothing but the seal, and the seal recovers to the address of the
  -- key pair.
  pub seal_block-recover :
      (p : PoaConsensus) (b : Block) (r s v : ℕ)
      → from_secret_key c secret ≡ some k
      → p.keypair ≡ some k
      → b.header.extra_data ≡ []
      → c.sign_prehash k.signing_key (header_hash c b.header) ≡ some (r, s, v)
      → (b' : Block) × (seal_block c p b ≡ ok b')
        × (b'.body ≡ b.body)
        × (record b'.header { extra_data = [] } ≡ record b.header { extra_data = [] })
        × (recover_block_signer c b' ≡ ok k.address)
  unfolding seal_block
  seal_block-recover p b r s v made ours bare signed =
      (sealed b r s v, rw (ours, signed), refl, refl, recover-sealed b r s v made bare signed)

module _ (c : Crypto) (p : PoaConsensus) (parent : BlockHeader) (now local : ℕ) where
  -- The engine is a validator's, its tick is the parent's, the period is not zero, and the earliest
  -- time of the next block fits in 64 bits.
  pub record Ready : Type 0 where
    pub is_local : p.local_address ≡ some local
    pub member : contains local p.validators ≡ true
    pub in_step : p.game_tick ≡ parent.game_tick
    pub period_positive : 0 < p.config.period
    pub time_fits : parent.timestamp + p.config.period < u64_mod

  prepared-Extends : Ready → Extends c (prepared c p local parent now) parent
  prepared-Extends ready = record {
    number_next = refl;
    hash_linked = refl;
    later = omega (arith, ready.period_positive, ready.time_fits);
    tick_next = ap (λ t. add64 t 1) ready.in_step;
    difficulty_one = refl;
  }

  prepare_header-eq :
      Ready → prepare_header c p parent now ≡ (advance_tick p, ok (prepared c p local parent now))
  unfolding prepare_header is_validator
  prepare_header-eq ready = ground arith

-- The prepared header with the roots and the gas that the block producer fills in, over a body.
abbrev pub filled : Crypto → PoaConsensus → Address → BlockHeader → ℕ → ℕ → ℕ → BlockBody → Block
filled c p local parent now root gas body = record {
  header = record (prepared c p local parent now) { transactions_root = root; gas_used = gas };
  body = body;
}

-- Where recovery undoes signing, a validator whose tick is the parent's, with a positive period and
-- times within 64 bits, prepares a header; the block that is filled in and sealed with its key is
-- accepted by `verify_block` of the same engine.
pub prepare-seal-verify :
    (c : Crypto) (k : Keypair) (secret : ℕ) (p : PoaConsensus) (parent : BlockHeader)
    (now root gas : ℕ) (body : BlockBody) (r s v : ℕ)
    → SignatureLaws c
    → Ready c p parent now k.address
    → from_secret_key c secret ≡ some k
    → p.keypair ≡ some k
    → c.sign_prehash k.signing_key
        (header_hash c (filled c p k.address parent now root gas body).header)
      ≡ some (r, s, v)
    → (prepare_header c p parent now ≡ (advance_tick p, ok (prepared c p k.address parent now)))
      × ((b : Block) × (seal_block c
              (advance_tick p)
              (filled c p k.address parent now root gas body)
            ≡ ok b)
          × (verify_block c (advance_tick p) b parent ≡ ok tt))
unfolding seal_block advance_tick
prepare-seal-verify c k secret p parent now root gas body r s v laws ready made ours signed =
    let b = filled c p k.address parent now root gas body in
    let recovered = recover-sealed c laws k secret b r s v made refl signed in
    let x = prepared-Extends c p parent now k.address ready in
    (
      prepare_header-eq c p parent now k.address ready,
      (
        sealed b r s v,
        rw (ours, signed),
        (verify_block_iff c (advance_tick p) (sealed b r s v) parent).1 (
          record {
            number_next = x.number_next;
            hash_linked = x.hash_linked;
            later = x.later;
            tick_next = x.tick_next;
            difficulty_one = x.difficulty_one;
          },
          inr (inr (recovered, ready.member)),
        ),
      ),
    )
