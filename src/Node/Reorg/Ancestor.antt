-- ===== src/Node/Reorg/Ancestor.antt =====
-- What the search finds: the nearest ancestor on the canonical chain, within as many steps as the
-- head is high.
use velochain.Prelude.{
  ℕ, zero, suc, ◌<◌, ◌≡◌, ◌⊎◌, inl, inr, refl, true, false, some, arith, ◌==◌, Bool-cases,
  Option-cases, subst, sym,
}
use velochain.Map.{lookup}
use velochain.Primitives.Block.{BlockHeader}
use velochain.Primitives.Crypto.{Crypto, header_hash}
use velochain.Node.Reorg.{Database, is_canonical, find_common_ancestor, detect_fork}

-- `IsAncestor db h a header`: following parent hashes from `h` leads to the hash `a` of `header`.
pub data IsAncestor (db : Database) : ℕ → ℕ → BlockHeader → Type 0 where
  here :
      {h : ℕ} {header : BlockHeader} → lookup h db.headers ≡ some header → IsAncestor db h h header
  parent :
      {h a : ℕ} {child header : BlockHeader}
      → lookup h db.headers ≡ some child
      → IsAncestor db child.parent_hash a header
      → IsAncestor db h a header

-- A common ancestor with a number.
abbrev pub IsCommon : Database → ℕ → ℕ → Type 0
IsCommon db h number =
    (a : ℕ) × (header : BlockHeader) × (IsAncestor db h a header)
    × (is_canonical db a header ≡ true)
    × (header.number ≡ number)

parent-IsCommon :
    (db : Database) (h number : ℕ) (child : BlockHeader)
    → lookup h db.headers ≡ some child
    → IsCommon db child.parent_hash number
    → IsCommon db h number
parent-IsCommon db h number child found (a, header, chain, canonical, same) =
    (a, header, parent found chain, canonical, same)

-- The search returns genesis or the number of a canonical block on the diverging chain.
find_common_ancestor-IsCommon :
    (db : Database) (rounds h : ℕ)
    → (find_common_ancestor db rounds h ≡ 0) ⊎ IsCommon db h (find_common_ancestor db rounds h)
unfolding find_common_ancestor
find_common_ancestor-IsCommon db zero h = inl refl
find_common_ancestor-IsCommon db (suc rounds) h = elim (Option-cases (lookup h db.headers)) [
  | inl unknown ↦ inl (ground arith)
  | inr (header, found) ↦ elim (Bool-cases (is_canonical db h header)) [
    | inl canonical ↦ inr (h, header, here found, canonical, ground arith)
    | inr diverging ↦
        let same : find_common_ancestor db (suc rounds) h
            ≡ find_common_ancestor db rounds header.parent_hash =
          ground arith in
        elim (find_common_ancestor-IsCommon db rounds header.parent_hash) [
          | inl genesis ↦ inl (ground arith)
          | inr common ↦
              inr (subst (IsCommon db h) (sym same) (parent-IsCommon db h _ header found common))
        ]
  ]
]

-- A fork is reported only for a block above the head whose parent is known, off the canonical chain
-- and not the head; the reported point is genesis or a canonical block from which the parent
-- descends.
pub detect_fork_sound :
    (c : Crypto) (db : Database) (head incoming : BlockHeader) (fork : ℕ)
    → detect_fork c db head incoming ≡ some fork
    → (head.number < incoming.number)
      × ((incoming.parent_hash == header_hash c head) ≡ false)
      × ((p : BlockHeader) × (lookup incoming.parent_hash db.headers ≡ some p)
          × (is_canonical db incoming.parent_hash p ≡ false))
      × ((fork ≡ 0) ⊎ IsCommon db incoming.parent_hash fork)
unfolding detect_fork
detect_fork_sound c db head incoming fork e =
    elim (Option-cases (lookup incoming.parent_hash db.headers)) [
      | inl unknown ↦ absurd (ground arith)
      | inr (p, found) ↦
          let same : find_common_ancestor db head.number incoming.parent_hash ≡ fork =
            ground arith in
          (
            ground arith,
            ground arith,
            (p, found, ground arith),
            subst (λ n. (n ≡ 0) ⊎ IsCommon db incoming.parent_hash n) same
                (find_common_ancestor-IsCommon db head.number incoming.parent_hash),
          )
    ]

-- The nearest one: `steps` blocks that are off the canonical chain lead from one hash to another.
pub data Diverges (db : Database) : ℕ → ℕ → ℕ → Type 0 where
  stay : {h : ℕ} → Diverges db 0 h h
  back :
      {h a steps : ℕ} {child : BlockHeader}
      → lookup h db.headers ≡ some child
      → is_canonical db h child ≡ false
      → Diverges db steps child.parent_hash a
      → Diverges db (suc steps) h a

-- If fewer blocks off the canonical chain than the head is high lead from the diverging hash to a
-- canonical block, the search returns the number of that block.
pub find_common_ancestor_nearest :
    (db : Database) (height steps h a : ℕ) (header : BlockHeader)
    → Diverges db steps h a
    → steps < height
    → lookup a db.headers ≡ some header
    → is_canonical db a header ≡ true
    → find_common_ancestor db height h ≡ header.number
unfolding find_common_ancestor
find_common_ancestor_nearest db zero steps h a header d less found canonical = absurd (omega arith)
find_common_ancestor_nearest db (suc height) _ _ a header stay less found canonical = ground arith
find_common_ancestor_nearest db (suc height) _ h a header (back {child} known off d) less found
      canonical =
    ground (
      arith,
      find_common_ancestor_nearest db height _ child.parent_hash a header d (omega arith) found
          canonical,
    )

-- If the first blocks on the way, as many as the head is high, are all off the canonical chain, the
-- search gives up and answers genesis, whatever lies behind them.
pub find_common_ancestor_far :
    (db : Database) (height h a : ℕ) → Diverges db height h a → find_common_ancestor db height h ≡ 0
unfolding find_common_ancestor
find_common_ancestor_far db _ _ a stay = refl
find_common_ancestor_far db _ h a (back {steps} {child} known off d) =
    ground (arith, find_common_ancestor_far db steps child.parent_hash a d)
