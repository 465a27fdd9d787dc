-- ===== src/Network/Sync/Verified.antt =====
-- What a verified range is.
use velochain.Prelude.{
  ℕ, suc, zero, ◌+◌, ◌≡◌, ◌↔◌, refl, ap, subst, ◌∙◌, none, some, List, [], ◌∷◌, ◌++◌, arith, length,
  add64, Option-cases, inl, inr,
}
use velochain.Map.{Map, keys, update_all}
use velochain.Map.Ordered.{IsSorted, last_key, last_from}
use velochain.Network.Sync.{SyncedHeader, range_verified, SyncEngine, or_zero, synced}
use velochain.Network.Sync.Bodies.{broken_at, verify_from, first_key, verify_chain, verified_header}

-- Each header follows the one before it, in number and by its parent hash.
abbrev pub IsChain : Map SyncedHeader → Type 0
IsChain [] = Unit
IsChain ((m, a) ∷ []) = Unit
IsChain ((m, a) ∷ (n, b) ∷ rest) =
    (n ≡ add64 m 1) × (b.parent_hash ≡ a.hash) × IsChain ((n, b) ∷ rest)

broken_at_sound : (m : Map SyncedHeader) → broken_at m ≡ none → IsChain m
unfolding broken_at
broken_at_sound [] e = tt
broken_at_sound ((m, a) ∷ []) e = tt
broken_at_sound ((m, a) ∷ (n, b) ∷ rest) e = ground (arith, broken_at_sound ((n, b) ∷ rest))

broken_at_complete : (m : Map SyncedHeader) → IsChain m → broken_at m ≡ none
unfolding broken_at
broken_at_complete [] c = refl
broken_at_complete ((m, a) ∷ []) c = refl
broken_at_complete ((m, a) ∷ (n, b) ∷ rest) c =
    ground (arith, broken_at_complete ((n, b) ∷ rest) c.2)

-- `n` numbers from the first on.
abbrev pub up_from : ℕ → ℕ → List ℕ
up_from first zero = []
up_from first (suc n) = first ∷ up_from (first + 1) n

keys-chain :
    (k : ℕ) (h : SyncedHeader) (m : Map SyncedHeader)
    → IsSorted ((k, h) ∷ m)
    → IsChain ((k, h) ∷ m)
    → (keys ((k, h) ∷ m) ≡ up_from k (suc (length m))) × (last_from k m ≡ k + length m)
unfolding keys last_from
keys-chain k h [] s c = (refl, omega arith)
keys-chain k h ((n, b) ∷ m) s c =
    let next : n ≡ k + 1 = omega (arith, s.0.0, c.0) in
    let rest = keys-chain n b m s.1 c.2 in
    (
      ap (λ ns. k ∷ ns) (subst (λ x. keys ((n, b) ∷ m) ≡ up_from x (suc (length m))) next rest.0),
      omega (arith, rest.1),
    )

keys-first :
    (k : ℕ) (m : Map SyncedHeader)
    → first_key m ≡ some k
    → IsSorted m
    → IsChain m
    → (keys m ≡ up_from k (length m)) × (or_zero (last_key m) + 1 ≡ k + length m)
unfolding last_key
keys-first k [] e s c = absurd cc
keys-first k ((j, h) ∷ m) e s c =
    let same : j ≡ k = cc e in
    let found = keys-chain j h m s c in
    (
      subst (λ x. keys ((j, h) ∷ m) ≡ up_from x (suc (length m))) same found.0,
      omega (arith, found.1),
    )

-- The engine after a verified range.
abbrev pub handed_on : SyncEngine → ℕ → SyncEngine
handed_on e first = record e {
  headers = update_all verified_header e.headers;
  import_ready = e.import_ready ++ up_from first (length e.headers);
  state = synced;
}

verify_chain-accepts :
    (e : SyncEngine) (first last : ℕ)
    → IsSorted e.headers
    → IsChain e.headers × (first_key e.headers ≡ some first) × (last + 1 ≡ first + length e.headers)
    → verify_chain e ≡ (handed_on e first, range_verified first last)
unfolding verify_chain
verify_chain-accepts e first last s (c, starts, ends) =
    let range = keys-first first e.headers starts s c in
    let same : or_zero (last_key e.headers) ≡ last = omega (arith, range.1, ends) in
    rw (starts, broken_at_complete e.headers c, range.0, same, verify_chain, verify_from) refl

verify_chain-rejects :
    (e : SyncEngine) (first last : ℕ)
    → IsSorted e.headers
    → (verify_chain e).1 ≡ range_verified first last
    → IsChain e.headers × (first_key e.headers ≡ some first) × (last + 1 ≡ first + length e.headers)
unfolding verify_chain
verify_chain-rejects e first last s done = elim (Option-cases (first_key e.headers)) [
  | inl nobody ↦ absurd (cc (rw (nobody, verify_chain) at done))
  | inr (k, starts) ↦ elim (Option-cases (broken_at e.headers)) [
    | inl whole ↦
        let c = broken_at_sound e.headers whole in
        let range = keys-first k e.headers starts s c in
        let same : range_verified k (or_zero (last_key e.headers)) ≡ range_verified first last =
          rw (starts, whole, verify_chain, verify_from) at done in
        let start : k ≡ first = cc same in
        let end : or_zero (last_key e.headers) ≡ last = cc same in
        (c, starts ∙ ap (λ n. some n) start, omega (arith, range.1, start, end))
    | inr (n, broken) ↦ absurd (cc (rw (starts, broken, verify_chain, verify_from) at done))
  ]
]

-- In an engine whose headers are in order, the check of the chain verifies a range exactly if the
-- headers start at its first block, reach to its last and each follows the one before it in number
-- and by its parent hash; all the numbers of the range are then handed on for import, in order,
-- after those that were ready before.
pub verify_chain_iff :
    (e : SyncEngine) (first last : ℕ)
    → IsSorted e.headers
    → (verify_chain e ≡ (handed_on e first, range_verified first last)) ↔ (
        IsChain e.headers
        × (first_key e.headers ≡ some first)
        × (last + 1 ≡ first + length e.headers))
verify_chain_iff e first last s = (
  λ done. verify_chain-rejects e first last s (ap (λ r. r.1) done),
  verify_chain-accepts e first last s,
)
