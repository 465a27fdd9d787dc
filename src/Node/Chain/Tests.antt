-- ===== src/Node/Chain/Tests.antt =====
-- A concrete codec, and a block that a restarted node finds.
use velochain.Prelude.{ℕ, ◌≡◌, refl, some, none, arith, [], ◌∷◌}
use velochain.Prelude.Results.{ok}
use velochain.Primitives.Block.{BlockHeader, Block, genesis}
use velochain.Primitives.Crypto.{
  header_hash, encode, payload, payload_length, encode_base_fee, base_fee_length,
}
use velochain.Primitives.Sample.{sample}
use velochain.Storage.Database.{Codec, CodecLaws, open_empty}
use velochain.Node.Chain.{
  Chain, new, store_block, restore_head, get_block_by_hash, get_block_by_number,
}
use velochain.Node.Chain.Restart.{store_block-restart}

-- The header with a number.
abbrev numbered : ℕ → BlockHeader
numbered n = record (genesis 7) { number = n }

-- It tells headers by their numbers and knows the empty body.
abbrev codec : Codec
codec = record {
  header_bytes = λ h. some (h.number ∷ []);
  header_of = λ bs. elim bs [ [] ↦ none | ◌∷◌ n (rest → _) ↦ some (numbered n) ];
  body_bytes = λ body. some [];
  body_of = λ bs. some (record { transactions = [] });
  tx_index_bytes = λ hash i. some (hash ∷ i ∷ []);
}

abbrev block : Block
block = record { header = numbered 3; body = record { transactions = [] } }

codec-CodecLaws : CodecLaws codec block
codec-CodecLaws = record {
  header_law = (3 ∷ [], refl, refl);
  body_law = ([], refl, refl);
  tx_index_law = λ hash i. (hash ∷ i ∷ [], refl);
}

store_block-restart_example :
    (c : Chain) × (store_block sample codec (new open_empty) block ≡ (c, ok tt))
    × (c.head ≡ some block.header)
    × (get_block_by_hash codec c (header_hash sample block.header) ≡ ok (some block))
    × (get_block_by_number codec c 3 ≡ ok (some block))
    × (restore_head codec (new c.db) ≡ (c, ok tt))
unfolding header_hash encode payload payload_length encode_base_fee base_fee_length
store_block-restart_example =
    store_block-restart sample codec (new open_empty) block codec-CodecLaws (omega arith)
      (omega arith)
