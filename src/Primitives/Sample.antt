-- ===== src/Primitives/Sample.antt =====
-- Concrete stand-ins for the libraries that crates/primitives calls, with their documented behaviour:
-- one entry for each encoded value, and a signature that carries the key itself.
use velochain.Prelude.{
  ℕ, ◌^◌, ◌+◌, ◌*◌, refl, true, some, none, List, [], ◌∷◌, arith, ltb, if◌then◌else◌, length,
}
use velochain.Primitives.Crypto.{Crypto, RlpLaws, SignatureLaws}

abbrev pub digest : List ℕ → ℕ
digest [] = 0
digest (b ∷ bs) = b + 3 * digest bs

abbrev pub sample : Crypto
sample = record {
  rlp_list_header = λ n. n ∷ [];
  rlp_fixed = λ w n. n ∷ [];
  rlp_uint = λ n. n ∷ [];
  rlp_bytes = λ bs. bs;
  fixed_length = λ w n. 1;
  uint_length = λ n. 1;
  bytes_length = λ bs. length bs;
  keccak256 = digest;
  tx_json = λ tx. tx.nonce ∷ [];
  signature_json = λ sig. sig.r ∷ [];
  is_secret_key = λ key. true;
  is_signature = λ r s. true;
  recover_from_prehash = λ hash r s v. some (4 ∷ r ∷ []);
  sign_prehash = λ key hash. if ltb key (2 ^ 256) then some (key, 0, 0) else none;
  verifying_key = λ key. 4 ∷ key ∷ [];
}

pub sample-RlpLaws : RlpLaws sample
sample-RlpLaws = record { fixed_law = λ w n. refl; uint_law = λ n. refl; bytes_law = λ bs. refl }

pub sample-SignatureLaws : SignatureLaws sample
sample-SignatureLaws = record {
  signature_law = λ key hash r s v e. ground arith;
  recovery_law = λ key hash r s v e. ground arith;
}
