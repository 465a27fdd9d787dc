-- ===== src/Storage/Database.antt =====
-- crates/storage/src/db.rs: the tables of the database. RocksDB is a map for every column family,
-- whose reads and writes succeed, and `open` makes all of them; hashes, block numbers and names are
-- the keys, as words. bincode is the record `Codec`.
pub mod Blocks
use velochain.Prelude.{
  ℕ, suc, ◌≡◌, Bool, Option, none, some, List, [], ◌∷◌, ◌==◌, if◌then◌else◌, length,
}
use velochain.Prelude.Results.{Result, ok, err}
use velochain.Map.{Map, lookup, insert, remove}
use velochain.Primitives.Bytes.{bytes_be, word_be}
use velochain.Primitives.Transaction.{SignedTransaction}
use velochain.Primitives.Block.{BlockHeader, BlockBody, Block}
use velochain.Primitives.Crypto.{Crypto, header_hash}

-- The constants of tables.rs in the order of ALL_COLUMN_FAMILIES.
pub data Cf : Type 0 where
  headers bodies block_number_to_hash transactions receipts accounts code storage game_state meta :
      Cf

abbrev pub place : Cf → ℕ
place headers = 0
place bodies = 1
place block_number_to_hash = 2
place transactions = 3
place receipts = 4
place accounts = 5
place code = 6
place storage = 7
place game_state = 8
place meta = 9

abbrev pub Database : Type 0
Database = Cf → Map (List ℕ)

-- What the text of `Corruption` says.
pub data CorruptionReason : Type 0 where
  bad_hash_length bad_number_length : CorruptionReason

-- The other texts come from the libraries and are left out.
pub data StorageError : Type 0 where
  database not_found serialization deserialization io : StorageError
  corruption : CorruptionReason → StorageError

-- The bytes that bincode makes of a value, where it does, and back.
pub record Codec : Type 0 where
  pub header_bytes : BlockHeader → Option (List ℕ)
  pub header_of : List ℕ → Option BlockHeader
  pub body_bytes : BlockBody → Option (List ℕ)
  pub body_of : List ℕ → Option BlockBody
  -- of the hash of a block and an index in it
  pub tx_index_bytes : ℕ → ℕ → Option (List ℕ)

-- bincode writes the header and the body of the block and reads back what it wrote, and it writes
-- every entry of the index.
pub record CodecLaws (b : Codec) (block : Block) : Type 0 where
  pub header_law :
      (bs : List ℕ) × (b.header_bytes block.header ≡ some bs) × (b.header_of bs ≡ some block.header)
  pub body_law :
      (bs : List ℕ) × (b.body_bytes block.body ≡ some bs) × (b.body_of bs ≡ some block.body)
  pub tx_index_law : (hash i : ℕ) → (bs : List ℕ) × (b.tx_index_bytes hash i ≡ some bs)

unfoldable pub open_empty : Database
open_empty cf = []

unfoldable pub get_cf : Database → Cf → ℕ → Option (List ℕ)
get_cf db cf key = lookup key (db cf)

unfoldable pub put_cf : Database → Cf → ℕ → List ℕ → Database
put_cf db cf key value other =
    if place cf == place other then insert key value (db other) else db other

unfoldable pub delete_cf : Database → Cf → ℕ → Database
delete_cf db cf key other = if place cf == place other then remove key (db other) else db other

-- What was written before an error stays.
abbrev pub Written : Type 0
Written = Database × Result StorageError (Unit {0})

unfoldable pub put_header : Codec → Database → ℕ → BlockHeader → Written
put_header b db hash h = elim (b.header_bytes h) [
  | none ↦ (db, err serialization)
  | some bs ↦
      (put_cf (put_cf db headers hash bs) block_number_to_hash h.number (bytes_be 32 hash), ok tt)
]

-- A value that is read back.
abbrev pub decoded :
    {A : Type 0} → (List ℕ → Option A) → Option (List ℕ) → Result StorageError (Option A)
decoded decode none = ok none
decoded decode (some bs) = elim (decode bs) [ none ↦ err deserialization | some a ↦ ok (some a) ]

unfoldable pub get_header : Codec → Database → ℕ → Result StorageError (Option BlockHeader)
get_header b db hash = decoded b.header_of (get_cf db headers hash)

unfoldable pub get_body : Codec → Database → ℕ → Result StorageError (Option BlockBody)
get_body b db hash = decoded b.body_of (get_cf db bodies hash)

-- A word of a fixed number of bytes.
abbrev pub read_word : ℕ → StorageError → Option (List ℕ) → Result StorageError (Option ℕ)
read_word width fault none = ok none
read_word width fault (some bs) = if length bs == width then ok (some (word_be bs)) else err fault

unfoldable pub get_block_hash_by_number : Database → ℕ → Result StorageError (Option ℕ)
get_block_hash_by_number db number =
    read_word 32 (corruption bad_hash_length) (get_cf db block_number_to_hash number)

unfoldable pub index_txs : Codec → ℕ → ℕ → List SignedTransaction → Database → Written
index_txs b hash i [] db = (db, ok tt)
index_txs b hash i (tx ∷ txs) db = elim (b.tx_index_bytes hash i) [
  | none ↦ (db, err serialization)
  | some bs ↦ index_txs b hash (suc i) txs (put_cf db transactions tx.hash bs)
]

abbrev pub put_body : Codec → Database → ℕ → BlockBody → Written
put_body b db hash body = elim (b.body_bytes body) [
  | none ↦ (db, err serialization)
  | some bs ↦ index_txs b hash 0 body.transactions (put_cf db bodies hash bs)
]

abbrev pub after_header : Codec → ℕ → BlockBody → Written → Written
after_header b hash body (db, err e) = (db, err e)
after_header b hash body (db, ok _) = put_body b db hash body

unfoldable pub put_block : Crypto → Codec → Database → Block → Written
put_block c b db block =
    let hash = header_hash c block.header in
    after_header b hash block.body (put_header b db hash block.header)

-- The name of the one entry of the metadata.
abbrev pub latest_block_number : ℕ
latest_block_number = 0

unfoldable pub put_latest_block_number : Database → ℕ → Database
put_latest_block_number db number = put_cf db meta latest_block_number (bytes_be 8 number)

unfoldable pub get_latest_block_number : Database → Result StorageError (Option ℕ)
get_latest_block_number db =
    read_word 8 (corruption bad_number_length) (get_cf db meta latest_block_number)

unfoldable pub put_receipt : Database → ℕ → List ℕ → Database
put_receipt db tx_hash bytes = put_cf db receipts tx_hash bytes

unfoldable pub get_receipt : Database → ℕ → Option (List ℕ)
get_receipt db tx_hash = get_cf db receipts tx_hash

unfoldable pub put_game_state : Database → ℕ → List ℕ → Database
put_game_state db key bytes = put_cf db game_state key bytes

unfoldable pub get_game_state : Database → ℕ → Option (List ℕ)
get_game_state db key = get_cf db game_state key
