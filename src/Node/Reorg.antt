-- ===== src/Node/Reorg.antt =====
-- crates/node/src/reorg.rs: the search for the block at which an incoming chain leaves the canonical
-- one. The database is its two tables, headers by hash and canonical hashes by number, whose reads
-- succeed.
mod Ancestor
mod Tests
use velochain.Prelude.{
  ℕ, zero, suc, Bool, true, false, Option, none, some, ◌==◌, leb, if◌then◌else◌,
}
use velochain.Map.{Map, lookup}
use velochain.Primitives.Block.{BlockHeader}
use velochain.Primitives.Crypto.{Crypto, header_hash}

pub record Database : Type 0 where
  pub headers : Map BlockHeader
  pub hashes_by_number : Map ℕ

-- The test that a header's number has its hash on the canonical chain.
abbrev pub is_canonical : Database → ℕ → BlockHeader → Bool
is_canonical db hash header = elim (lookup header.number db.hashes_by_number) [
  | none ↦ false
  | some canonical_hash ↦ canonical_hash == hash
]

-- One turn of the loop is one of `current_height` rounds; without a common ancestor it is genesis.
unfoldable pub find_common_ancestor : Database → ℕ → ℕ → ℕ
find_common_ancestor db zero hash = 0
find_common_ancestor db (suc rounds) hash = elim (lookup hash db.headers) [
  | none ↦ 0
  | some header ↦
      let rest = find_common_ancestor db rounds header.parent_hash in
      if is_canonical db hash header then header.number else rest
]

abbrev pub fork_at : Database → BlockHeader → ℕ → BlockHeader → Option ℕ
fork_at db head hash parent =
    if is_canonical db hash parent then none else some (find_common_ancestor db head.number hash)

unfoldable pub detect_fork : Crypto → Database → BlockHeader → BlockHeader → Option ℕ
detect_fork c db head incoming =
    if incoming.parent_hash == header_hash c head
    then none
    else if leb incoming.number head.number
    then none
    else elim (lookup incoming.parent_hash db.headers) [
      | none ↦ none
      | some parent ↦ fork_at db head incoming.parent_hash parent
    ]
