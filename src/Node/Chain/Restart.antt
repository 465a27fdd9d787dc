-- ===== src/Node/Chain/Restart.antt =====
-- A stored block is found again, also by a node that restarts.
use velochain.Prelude.{ℕ, ◌^◌, ◌<◌, ◌≡◌, refl, ◌∙◌, ap, some, arith}
use velochain.Prelude.Results.{ok}
use velochain.Primitives.Bytes.{bytes_be}
use velochain.Primitives.Block.{Block}
use velochain.Primitives.Crypto.{Crypto, header_hash}
use velochain.Storage.Database.{
  headers, bodies, block_number_to_hash, meta, Database, Codec, CodecLaws, bad_number_length,
  corruption, get_cf, get_header, get_body, get_block_hash_by_number, put_latest_block_number,
  get_latest_block_number, latest_block_number, read_word, decoded, bad_hash_length,
}
use velochain.Storage.Database.Blocks.{put_block-IsStored, get-put_cf, read-bytes}
use velochain.Node.Chain.{
  Chain, new, headed, store_block, restore_head, with_number, with_hash, with_header,
  get_block_by_hash, get_block_by_number, with_body, block_of, by_hash,
}

latest_read :
    (db : Database) (number : ℕ)
    → number < 2 ^ 64
    → get_latest_block_number (put_latest_block_number db number) ≡ ok (some number)
unfolding get_latest_block_number put_latest_block_number
latest_read db number fits =
    let stored : get_cf (put_latest_block_number db number) meta latest_block_number
        ≡ some (bytes_be 8 number) =
      get-put_cf db meta meta latest_block_number latest_block_number (bytes_be 8 number) in
    ap (read_word 8 (corruption bad_number_length)) stored
    ∙ read-bytes 8 number (corruption bad_number_length) (omega (arith, fits))

-- The latest number is written beside the blocks.
header_beside :
    (b : Codec) (db : Database) (number hash : ℕ)
    → get_header b (put_latest_block_number db number) hash ≡ get_header b db hash
unfolding get_header put_latest_block_number
header_beside b db number hash =
    ap (decoded b.header_of)
      (get-put_cf db meta headers latest_block_number hash (bytes_be 8 number))

body_beside :
    (b : Codec) (db : Database) (number hash : ℕ)
    → get_body b (put_latest_block_number db number) hash ≡ get_body b db hash
unfolding get_body put_latest_block_number
body_beside b db number hash =
    ap (decoded b.body_of) (get-put_cf db meta bodies latest_block_number hash (bytes_be 8 number))

hash_beside :
    (db : Database) (number n : ℕ)
    → get_block_hash_by_number (put_latest_block_number db number) n ≡ get_block_hash_by_number db n
unfolding get_block_hash_by_number put_latest_block_number
hash_beside db number n =
    ap (read_word 32 (corruption bad_hash_length))
      (get-put_cf db meta block_number_to_hash latest_block_number n (bytes_be 8 number))

-- Storing a block succeeds and makes it the head; the block is then found by its hash and by its
-- number, and a node that restarts on the database has the same head. The hash fits in 32 bytes and
-- the number in 64 bits.
pub store_block-restart :
    (k : Crypto) (b : Codec) (c : Chain) (block : Block)
    → CodecLaws b block
    → header_hash k block.header < 256 ^ 32
    → block.header.number < 2 ^ 64
    → (c' : Chain) × (store_block k b c block ≡ (c', ok tt))
      × (c'.head ≡ some block.header)
      × (get_block_by_hash b c' (header_hash k block.header) ≡ ok (some block))
      × (get_block_by_number b c' block.header.number ≡ ok (some block))
      × (restore_head b (new c'.db) ≡ (c', ok tt))
unfolding store_block get_block_by_hash get_block_by_number restore_head new
store_block-restart k b c block laws short small =
    let hash = header_hash k block.header in
    let number = block.header.number in
    let (db, put, stored) = put_block-IsStored k b c.db block laws short in
    let db' = put_latest_block_number db number in
    let c' : Chain = record { db = db'; head = some block.header } in
    let header_now : get_header b db' hash ≡ ok (some block.header) =
      header_beside b db number hash ∙ stored.header_stored in
    let body_now : get_body b db' hash ≡ ok (some block.body) =
      body_beside b db number hash ∙ stored.body_stored in
    let hash_now : get_block_hash_by_number db' number ≡ ok (some hash) =
      hash_beside db number number ∙ stored.hash_stored in
    let by_hash_now : get_block_by_hash b c' hash ≡ ok (some block) =
      ap (with_body b db' hash) header_now ∙ ap (block_of block.header) body_now in
    let first = latest_read db number small in
    let restored : restore_head b (new db') ≡ (c', ok tt) =
      ap (with_number b (new db')) first
      ∙ ap (with_hash b (new db')) hash_now
      ∙ ap (with_header (new db')) header_now in
    (
      c',
      ap (headed c block.header number) put,
      refl,
      by_hash_now,
      ap (by_hash b c') hash_now ∙ by_hash_now,
      restored,
    )
