-- ===== src/Primitives/Crypto.antt =====
-- The header hash of crates/primitives/src/block.rs, and the signatures of
-- crates/primitives/src/crypto.rs and transaction.rs, over the libraries that they call: RLP
-- encoders, Keccak-256, the secp256k1 curve and JSON.
use velochain.Prelude.{
  ℕ, ◌+◌, ◌-◌, ◌%◌, ◌^◌, ◌<◌, ◌≤◌, ◌≡◌, refl, Bool, true, Option, none, some, List, [], ◌++◌, arith,
  leb, if◌then◌else◌, length, length-append, ◌&&◌,
}
use velochain.Primitives.Bytes.{drop}
use velochain.Primitives.Block.{BlockHeader}
use velochain.Primitives.Transaction.{Transaction, Signature, SignedTransaction}

-- What the code calls and does not implement. Fixed-width values are encoded with their width in
-- bytes; the `length` functions are those of `alloy_rlp::Encodable`.
pub record Crypto : Type 0 where
  pub rlp_list_header : ℕ → List ℕ
  pub rlp_fixed : ℕ → ℕ → List ℕ
  pub rlp_uint : ℕ → List ℕ
  pub rlp_bytes : List ℕ → List ℕ
  pub fixed_length : ℕ → ℕ → ℕ
  pub uint_length : ℕ → ℕ
  pub bytes_length : List ℕ → ℕ
  pub keccak256 : List ℕ → ℕ
  pub tx_json : Transaction → List ℕ
  pub signature_json : Signature → List ℕ
  -- whether a word is a secret key of the curve
  pub is_secret_key : ℕ → Bool
  -- whether two words are a signature of the curve
  pub is_signature : ℕ → ℕ → Bool
  -- the uncompressed public key from a hash, the two words of a signature, and a recovery id
  pub recover_from_prehash : ℕ → ℕ → ℕ → ℕ → Option (List ℕ)
  pub sign_prehash : ℕ → ℕ → Option (ℕ × ℕ × ℕ)
  pub verifying_key : ℕ → List ℕ

-- The documented behaviour of the encoders: `length` is the number of bytes that `encode` writes.
pub record RlpLaws (c : Crypto) : Type 0 where
  pub fixed_law : (w n : ℕ) → c.fixed_length w n ≡ length (c.rlp_fixed w n)
  pub uint_law : (n : ℕ) → c.uint_length n ≡ length (c.rlp_uint n)
  pub bytes_law : (bs : List ℕ) → c.bytes_length bs ≡ length (c.rlp_bytes bs)

-- The documented behaviour of ECDSA over secp256k1: a signature that a key makes is valid, fits its
-- fields, and recovers to the key's public half.
pub record SignatureLaws (c : Crypto) : Type 0 where
  pub signature_law :
      (key hash r s v : ℕ)
      → c.sign_prehash key hash ≡ some (r, s, v)
      → (r < 2 ^ 256) × (s < 2 ^ 256) × (v ≤ 3) × (c.is_signature r s ≡ true)
  pub recovery_law :
      (key hash r s v : ℕ)
      → c.sign_prehash key hash ≡ some (r, s, v)
      → c.recover_from_prehash hash r s v ≡ some (c.verifying_key key)

pub record Keypair : Type 0 where
  pub signing_key : ℕ
  pub address : ℕ

module _ (c : Crypto) where
  unfoldable pub encode_base_fee : Option ℕ → List ℕ
  encode_base_fee none = []
  encode_base_fee (some fee) = c.rlp_uint fee

  -- The fields in the order in which `encode` writes them.
  unfoldable pub payload : BlockHeader → List ℕ
  unfolding encode_base_fee
  payload h =
      c.rlp_fixed 32 h.parent_hash
      ++ (c.rlp_fixed 32 h.ommers_hash
          ++ (c.rlp_fixed 20 h.beneficiary
              ++ (c.rlp_fixed 32 h.state_root
                  ++ (c.rlp_fixed 32 h.transactions_root
                      ++ (c.rlp_fixed 32 h.receipts_root
                          ++ (c.rlp_fixed 32 h.game_state_root
                              ++ (c.rlp_fixed 256 h.logs_bloom
                                  ++ (c.rlp_uint h.difficulty
                                      ++ (c.rlp_uint h.number
                                          ++ (c.rlp_uint h.gas_limit
                                              ++ (c.rlp_uint h.gas_used
                                                  ++ (c.rlp_uint h.timestamp
                                                      ++ (c.rlp_uint h.game_tick
                                                          ++ (c.rlp_bytes h.extra_data
                                                            ++ (c.rlp_fixed 32 h.mix_hash
                                                            ++ (c.rlp_fixed 8 h.nonce
                                                            ++ encode_base_fee
                                                            h.base_fee_per_gas))))))))))))))))

  unfoldable pub base_fee_length : Option ℕ → ℕ
  base_fee_length none = 0
  base_fee_length (some fee) = c.uint_length fee

  -- `rlp_payload_length`
  unfoldable pub payload_length : BlockHeader → ℕ
  unfolding base_fee_length
  payload_length h =
      c.fixed_length 32 h.parent_hash
      + c.fixed_length 32 h.ommers_hash
      + c.fixed_length 20 h.beneficiary
      + c.fixed_length 32 h.state_root
      + c.fixed_length 32 h.transactions_root
      + c.fixed_length 32 h.receipts_root
      + c.fixed_length 32 h.game_state_root
      + c.fixed_length 256 h.logs_bloom
      + c.uint_length h.difficulty
      + c.uint_length h.number
      + c.uint_length h.gas_limit
      + c.uint_length h.gas_used
      + c.uint_length h.timestamp
      + c.uint_length h.game_tick
      + c.bytes_length h.extra_data
      + c.fixed_length 32 h.mix_hash
      + c.fixed_length 8 h.nonce
      + base_fee_length h.base_fee_per_gas

  unfoldable pub encode : BlockHeader → List ℕ
  encode h = c.rlp_list_header (payload_length h) ++ payload h

  -- `BlockHeader::hash`
  unfoldable pub header_hash : BlockHeader → ℕ
  header_hash h = c.keccak256 (encode h)

  -- Keccak-256 of the key without its first byte, cut to the last 20 bytes.
  unfoldable pub public_key_to_address : List ℕ → ℕ
  public_key_to_address key = c.keccak256 (drop 1 key) % 2 ^ 160

  -- `v as u8` keeps the low byte of the recovery id, and ids above 3 are refused.
  pub recover_signer : ℕ → ℕ → ℕ → ℕ → Option ℕ
  recover_signer hash v r s =
      let recovery_id = (if leb 27 v then v - 27 else v) % 256 in
      if c.is_signature r s && leb recovery_id 3
      then elim (c.recover_from_prehash hash r s recovery_id) [
        | none ↦ none
        | some key ↦ some (public_key_to_address key)
      ]
      else none

  -- `Keypair::from_secret_key`, `none` for an error
  unfoldable pub from_secret_key : ℕ → Option Keypair
  from_secret_key secret =
      if c.is_secret_key secret
      then some (record {
        signing_key = secret;
        address = public_key_to_address (c.verifying_key secret);
      })
      else none

  -- A signature that a key pair makes recovers to the address of the pair.
  pub recover_signer-sign :
      (k : Keypair) (secret hash r s v : ℕ)
      → SignatureLaws c
      → from_secret_key secret ≡ some k
      → c.sign_prehash k.signing_key hash ≡ some (r, s, v)
      → recover_signer hash v r s ≡ some k.address
  unfolding recover_signer from_secret_key
  recover_signer-sign k secret hash r s v laws made signed = ground (
    arith,
    laws.signature_law k.signing_key hash r s v signed,
    laws.recovery_law k.signing_key hash r s v signed,
  )

  pub signing_hash : Transaction → ℕ
  signing_hash tx = c.keccak256 (c.tx_json tx)

  pub compute_hash : Transaction → Signature → ℕ
  compute_hash tx sig = c.keccak256 (c.tx_json tx ++ c.signature_json sig)

  -- `SignedTransaction::sender`, `none` for an error
  unfoldable pub sender : SignedTransaction → Option ℕ
  unfolding recover_signer signing_hash
  sender tx =
      recover_signer (signing_hash tx.transaction) tx.signature.v tx.signature.r tx.signature.s

  base_fee-length : RlpLaws c → (o : Option ℕ) → base_fee_length o ≡ length (encode_base_fee o)
  unfolding base_fee_length encode_base_fee
  base_fee-length laws none = refl
  base_fee-length laws (some fee) = laws.uint_law fee

  -- If each encoder writes as many bytes as its `length` says, the payload length that the hand-written
  -- `rlp_payload_length` announces is the number of bytes that `encode` writes after the list header.
  pub payload_length-eq : (h : BlockHeader) → RlpLaws c → payload_length h ≡ length (payload h)
  unfolding payload payload_length
  payload_length-eq h laws =
      simp (length-append, laws.fixed_law, laws.uint_law, laws.bytes_law, base_fee-length laws)
        (omega arith)
