-- ===== src/Node/Chain.antt =====
-- crates/node/src/chain.rs: the head of the chain and the stored blocks. The execution of the
-- transactions of a block is left out.
mod Restart
mod Tests
use velochain.Prelude.{ℕ, Option, none, some, [], List}
use velochain.Prelude.Results.{Result, ok, err}
use velochain.Primitives.Block.{BlockHeader, BlockBody, Block, new_block}
use velochain.Primitives.Crypto.{Crypto}
use velochain.Storage.Database.{
  Database, StorageError, Codec, Written, get_header, get_body, get_block_hash_by_number, put_block,
  put_latest_block_number, get_latest_block_number,
}

pub record Chain : Type 0 where
  pub db : Database
  pub head : Option BlockHeader

-- A restarted node has the database only.
unfoldable pub new : Database → Chain
new db = record { db = db; head = none }

unfoldable pub block_number : Chain → ℕ
block_number c = elim c.head [ none ↦ 0 | some h ↦ h.number ]

-- The writes of a block and the new head: what `init_genesis` and `apply_block` have in common.
abbrev pub headed : Chain → BlockHeader → ℕ → Written → Chain × Result StorageError (Unit {0})
headed c header number (db, err e) = (record c { db = db }, err e)
headed c header number (db, ok _) =
    (record { db = put_latest_block_number db number; head = some header }, ok tt)

unfoldable pub init_genesis :
    Crypto → Codec → Chain → BlockHeader → Chain × Result StorageError (Unit {0})
init_genesis k b c header = headed c header 0 (put_block k b c.db (new_block header []))

-- `apply_block` from the storing of the block on, without its receipts and the pool.
unfoldable pub store_block : Crypto → Codec → Chain → Block → Chain × Result StorageError (Unit {0})
store_block k b c block = headed c block.header block.header.number (put_block k b c.db block)

abbrev pub with_header :
    Chain → Result StorageError (Option BlockHeader) → Chain × Result StorageError (Unit {0})
with_header c (err e) = (c, err e)
with_header c (ok none) = (c, ok tt)
with_header c (ok (some header)) = (record c { head = some header }, ok tt)

abbrev pub with_hash :
    Codec → Chain → Result StorageError (Option ℕ) → Chain × Result StorageError (Unit {0})
with_hash b c (err e) = (c, err e)
with_hash b c (ok none) = (c, ok tt)
with_hash b c (ok (some hash)) = with_header c (get_header b c.db hash)

abbrev pub with_number :
    Codec → Chain → Result StorageError (Option ℕ) → Chain × Result StorageError (Unit {0})
with_number b c (err e) = (c, err e)
with_number b c (ok none) = (c, ok tt)
with_number b c (ok (some number)) = with_hash b c (get_block_hash_by_number c.db number)

unfoldable pub restore_head : Codec → Chain → Chain × Result StorageError (Unit {0})
restore_head b c = with_number b c (get_latest_block_number c.db)

unfoldable pub set_head : Chain → BlockHeader → Chain
set_head c header = record { db = put_latest_block_number c.db header.number; head = some header }

abbrev pub block_of :
    BlockHeader → Result StorageError (Option BlockBody) → Result StorageError (Option Block)
block_of header (err e) = err e
block_of header (ok none) = ok none
block_of header (ok (some body)) = ok (some (record { header = header; body = body }))

abbrev pub with_body :
    Codec
    → Database
    → ℕ
    → Result StorageError (Option BlockHeader)
    → Result StorageError (Option Block)
with_body b db hash (err e) = err e
with_body b db hash (ok none) = ok none
with_body b db hash (ok (some header)) = block_of header (get_body b db hash)

unfoldable pub get_block_by_hash : Codec → Chain → ℕ → Result StorageError (Option Block)
get_block_by_hash b c hash = with_body b c.db hash (get_header b c.db hash)

abbrev pub by_hash :
    Codec → Chain → Result StorageError (Option ℕ) → Result StorageError (Option Block)
by_hash b c (err e) = err e
by_hash b c (ok none) = ok none
by_hash b c (ok (some hash)) = get_block_by_hash b c hash

unfoldable pub get_block_by_number : Codec → Chain → ℕ → Result StorageError (Option Block)
get_block_by_number b c number = by_hash b c (get_block_hash_by_number c.db number)
