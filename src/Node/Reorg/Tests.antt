-- ===== src/Node/Reorg/Tests.antt =====
-- Runs of the fork search on a small database: the canonical blocks 1 to 3 and a side chain from
-- block 2 on, whose hashes are above 100.
use velochain.Prelude.{ℕ, ◌<◌, ◌≡◌, ◌⊎◌, refl, false, some, [], ◌∷◌, ◌==◌, arith}
use velochain.Map.{lookup}
use velochain.Primitives.Block.{BlockHeader, genesis}
use velochain.Primitives.Crypto.{
  header_hash, encode, payload, payload_length, encode_base_fee, base_fee_length,
}
use velochain.Primitives.Sample.{sample}
use velochain.Node.Reorg.{Database, is_canonical, find_common_ancestor, detect_fork}
use velochain.Node.Reorg.Ancestor.{
  IsCommon, stay, back, detect_fork_sound, find_common_ancestor_nearest, find_common_ancestor_far,
}

abbrev block : ℕ → ℕ → BlockHeader
block number parent_hash = record (genesis 0) { number = number; parent_hash = parent_hash }

abbrev db : Database
db = record {
  headers =
      (1, block 1 0)
      ∷ (2, block 2 1)
      ∷ (3, block 3 2)
      ∷ (103, block 3 2)
      ∷ (104, block 4 103)
      ∷ (105, block 5 104)
      ∷ [];
  hashes_by_number = (1, 1) ∷ (2, 2) ∷ (3, 3) ∷ [];
}

find_common_ancestor_nearest_example : find_common_ancestor db 3 104 ≡ 2
unfolding lookup
find_common_ancestor_nearest_example =
    find_common_ancestor_nearest db 3 2 104 2 (block 2 1) (back refl refl (back refl refl stay))
      (omega arith) refl refl

-- From a side chain that is longer than the head is high, block 2 is not found.
find_common_ancestor_far_example : find_common_ancestor db 3 105 ≡ 0
unfolding lookup
find_common_ancestor_far_example =
    find_common_ancestor_far db 3 105 2 (back refl refl (back refl refl (back refl refl stay)))

abbrev fork : ℕ
fork = 2

abbrev incoming : BlockHeader
incoming = block 5 104

forks : detect_fork sample db (block 3 2) incoming ≡ some 2
unfolding detect_fork find_common_ancestor lookup header_hash encode payload payload_length
    encode_base_fee base_fee_length
forks = refl

detect_fork_sound_example :
    (3 < 5)
    × ((104 == header_hash sample (block 3 2)) ≡ false)
    × ((p : BlockHeader) × (lookup 104 db.headers ≡ some p) × (is_canonical db 104 p ≡ false))
    × ((fork ≡ 0) ⊎ IsCommon db 104 fork)
detect_fork_sound_example = detect_fork_sound sample db (block 3 2) incoming fork forks
