-- ===== src/Storage/Database/Blocks.antt =====
-- A stored block is read back.
use velochain.Prelude.{
  ℕ, suc, ◌^◌, ◌<◌, ◌≡◌, refl, ◌∙◌, ap, true, false, some, List, [], ◌∷◌, ◌==◌, if◌then◌else◌,
  length, arith,
}
use velochain.Prelude.Results.{ok}
use velochain.Map.{lookup-insert}
use velochain.Primitives.Bytes.{bytes_be, length-bytes_be, word_be-bytes_be}
use velochain.Primitives.Transaction.{SignedTransaction}
use velochain.Primitives.Block.{Block}
use velochain.Primitives.Crypto.{Crypto, header_hash}
use velochain.Storage.Database.{
  Cf, headers, bodies, block_number_to_hash, transactions, place, Database, StorageError,
  bad_hash_length, corruption, Codec, CodecLaws, get_cf, put_cf, put_header, get_header, get_body,
  read_word, decoded, get_block_hash_by_number, index_txs, put_body, after_header, put_block,
}

pub get-put_cf :
    (db : Database) (cf other : Cf) (key k : ℕ) (value : List ℕ)
    → get_cf (put_cf db cf key value) other k ≡ (
        if place cf == place other
        then (if key == k then some value else get_cf db other k)
        else get_cf db other k)
unfolding get_cf put_cf
get-put_cf db cf other key k value = ground (arith, lookup-insert key k value (db other))

-- Indexing writes nothing but the index.
index_txs-keeps :
    (b : Codec) (hash i : ℕ) (txs : List SignedTransaction) (db : Database)
    → ((block_hash n : ℕ) → (bs : List ℕ) × (b.tx_index_bytes block_hash n ≡ some bs))
    → (db' : Database) × (index_txs b hash i txs db ≡ (db', ok tt))
      × ((cf : Cf) (k : ℕ)
          → (place transactions == place cf) ≡ false
          → get_cf db' cf k ≡ get_cf db cf k)
unfolding index_txs
index_txs-keeps b hash i [] db laws = (db, refl, λ cf k other. refl)
index_txs-keeps b hash i (tx ∷ txs) db laws =
    let (bs, encoded) = laws hash i in
    let (db', ran, keeps) =
      index_txs-keeps b hash (suc i) txs (put_cf db transactions tx.hash bs) laws in
    (
      db',
      rw (encoded, index_txs) ran,
      λ cf k other. keeps cf k other ∙ (get-put_cf db transactions cf tx.hash k bs ∙ rw other refl),
    )

-- What the database holds of a block, and what it held before.
pub record IsStored (c : Crypto) (b : Codec) (db : Database) (block : Block) (db' : Database)
    : Type 0 where
  pub header_stored : get_header b db' (header_hash c block.header) ≡ ok (some block.header)
  pub body_stored : get_body b db' (header_hash c block.header) ≡ ok (some block.body)
  pub hash_stored :
      get_block_hash_by_number db' block.header.number ≡ ok (some (header_hash c block.header))
  pub others_kept :
      (hash : ℕ)
      → (header_hash c block.header == hash) ≡ false
      → (get_header b db' hash ≡ get_header b db hash) × (get_body b db' hash ≡ get_body b db hash)
  pub numbers_kept :
      (n : ℕ)
      → (block.header.number == n) ≡ false
      → get_block_hash_by_number db' n ≡ get_block_hash_by_number db n

-- The three writes before the index.
abbrev written : Database → ℕ → ℕ → List ℕ → List ℕ → Database
written db hash number header_bs body_bs =
    put_cf
      (put_cf (put_cf db headers hash header_bs) block_number_to_hash number (bytes_be 32 hash))
      bodies hash body_bs

get-written_header :
    (db : Database) (hash number k : ℕ) (hs bs : List ℕ)
    → get_cf (written db hash number hs bs) headers k
      ≡ (if hash == k then some hs else get_cf db headers k)
unfolding get_cf put_cf
get-written_header db hash number k hs bs = lookup-insert hash k hs (db headers)

get-written_body :
    (db : Database) (hash number k : ℕ) (hs bs : List ℕ)
    → get_cf (written db hash number hs bs) bodies k
      ≡ (if hash == k then some bs else get_cf db bodies k)
unfolding get_cf put_cf
get-written_body db hash number k hs bs = lookup-insert hash k bs (db bodies)

get-written_number :
    (db : Database) (hash number k : ℕ) (hs bs : List ℕ)
    → get_cf (written db hash number hs bs) block_number_to_hash k
      ≡ (if number == k then some (bytes_be 32 hash) else get_cf db block_number_to_hash k)
unfolding get_cf put_cf
get-written_number db hash number k hs bs =
    lookup-insert number k (bytes_be 32 hash) (db block_number_to_hash)

pub read-bytes :
    (width n : ℕ) (fault : StorageError)
    → n < 256 ^ width
    → read_word width fault (some (bytes_be width n)) ≡ ok (some n)
read-bytes width n fault fits =
    let wide : (length (bytes_be width n) == width) ≡ true =
      ground (arith, length-bytes_be width n) in
    rw (wide, word_be-bytes_be width n fits, read_word) refl

pub put_block-IsStored :
    (c : Crypto) (b : Codec) (db : Database) (block : Block)
    → CodecLaws b block
    → header_hash c block.header < 256 ^ 32
    → (db' : Database) × (put_block c b db block ≡ (db', ok tt)) × IsStored c b db block db'
unfolding put_block put_header get_header get_body get_block_hash_by_number
put_block-IsStored c b db block laws fits =
    let hash = header_hash c block.header in
    let number = block.header.number in
    let (hs, encoded, read) = laws.header_law in
    let (bs, encoded', read') = laws.body_law in
    let two = put_cf (put_cf db headers hash hs) block_number_to_hash number (bytes_be 32 hash) in
    let first : put_header b db hash block.header ≡ (two, ok tt) = rw (encoded, put_header) refl in
    let three = written db hash number hs bs in
    let (db', ran, keeps) =
      index_txs-keeps b hash 0 block.body.transactions three laws.tx_index_law in
    let header_at = λ (k : ℕ). keeps headers k refl ∙ get-written_header db hash number k hs bs in
    let body_at = λ (k : ℕ). keeps bodies k refl ∙ get-written_body db hash number k hs bs in
    let number_at =
      λ (k : ℕ). keeps block_number_to_hash k refl ∙ get-written_number db hash number k hs bs in
    let self : (hash == hash) ≡ true = ground arith in
    let self_number : (number == number) ≡ true = ground arith in
    let header_now : get_cf db' headers hash ≡ some hs = header_at hash ∙ rw self refl in
    let body_now : get_cf db' bodies hash ≡ some bs = body_at hash ∙ rw self refl in
    let number_now : get_cf db' block_number_to_hash number ≡ some (bytes_be 32 hash) =
      number_at number ∙ rw self_number refl in
    let header_read : decoded b.header_of (some hs) ≡ ok (some block.header) =
      rw (read, decoded) refl in
    let body_read : decoded b.body_of (some bs) ≡ ok (some block.body) = rw (read', decoded) refl in
    (
      db',
      ap (after_header b hash block.body) first ∙ rw (encoded', after_header, put_body) ran,
      record {
        header_stored = ap (decoded b.header_of) header_now ∙ header_read;
        body_stored = ap (decoded b.body_of) body_now ∙ body_read;
        hash_stored =
            ap (read_word 32 (corruption bad_hash_length)) number_now
            ∙ read-bytes 32 hash (corruption bad_hash_length) fits;
        others_kept = λ k other.
            let header_kept : get_cf db' headers k ≡ get_cf db headers k =
              header_at k ∙ rw other refl in
            let body_kept : get_cf db' bodies k ≡ get_cf db bodies k = body_at k ∙ rw other refl in
            (ap (decoded b.header_of) header_kept, ap (decoded b.body_of) body_kept);
        numbers_kept = λ n other.
            let kept : get_cf db' block_number_to_hash n ≡ get_cf db block_number_to_hash n =
              number_at n ∙ rw other refl in
            ap (read_word 32 (corruption bad_hash_length)) kept;
      },
    )
