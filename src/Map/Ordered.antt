-- ===== src/Map/Ordered.antt =====
-- `BTreeMap` with word keys: the entries stand in ascending order of their keys.
use velochain.Prelude.{
  ℕ, ◌≤◌, ◌<◌, ◌≡◌, refl, Bool, Option, none, some, [], ◌∷◌, arith, ◌==◌, ltb, if◌then◌else◌,
  Bool-cases, inl, inr, subst,
}
use mathlib.Core.Option.{some-injective}
use velochain.Map.{Map, lookup, remove, keep, update_all, Unique}

-- Every key of the map lies above the word.
abbrev pub Above : {V : Type 0} → ℕ → Map V → Type 0
Above b [] = Unit
Above b ((k, v) ∷ m) = (b < k) × Above b m

abbrev pub IsSorted : {V : Type 0} → Map V → Type 0
IsSorted [] = Unit
IsSorted ((k, v) ∷ m) = Above k m × IsSorted m

module _ {V : Type 0} where
  unfoldable pub insert_ordered : ℕ → V → Map V → Map V
  insert_ordered k v [] = (k, v) ∷ []
  insert_ordered k v ((j, w) ∷ m) =
      if ltb k j
      then (k, v) ∷ (j, w) ∷ m
      else (if j == k then (k, v) ∷ m else (j, w) ∷ insert_ordered k v m)

  unfoldable pub last_from : ℕ → Map V → ℕ
  last_from k [] = k
  last_from k ((j, w) ∷ m) = last_from j m

  -- `keys().last()`, the greatest key.
  unfoldable pub last_key : Map V → Option ℕ
  unfolding last_from
  last_key [] = none
  last_key ((k, v) ∷ m) = some (last_from k m)

  pub lookup-insert_ordered :
      (k j : ℕ) (v : V) (m : Map V)
      → lookup j (insert_ordered k v m) ≡ (if k == j then some v else lookup j m)
  unfolding lookup insert_ordered
  lookup-insert_ordered k j v [] = refl
  lookup-insert_ordered k j v ((i, w) ∷ m) = ground (arith, lookup-insert_ordered k j v m)

  pub Above-weaken : (a b : ℕ) (m : Map V) → a ≤ b → Above b m → Above a m
  Above-weaken a b [] h s = tt
  Above-weaken a b ((k, v) ∷ m) h s = (omega arith, Above-weaken a b m h s.1)

  pub Above-lookup : (b k : ℕ) (m : Map V) → Above b m → k ≤ b → lookup k m ≡ none
  unfolding lookup
  Above-lookup b k [] s h = refl
  Above-lookup b k ((j, v) ∷ m) s h = ground (arith, Above-lookup b k m s.1 h)

  pub IsSorted-Unique : (m : Map V) → IsSorted m → Unique m
  IsSorted-Unique [] s = tt
  IsSorted-Unique ((k, v) ∷ m) s = (Above-lookup k k m s.0 (omega arith), IsSorted-Unique m s.1)

  pub insert_ordered-Above :
      (b k : ℕ) (v : V) (m : Map V) → Above b m → b < k → Above b (insert_ordered k v m)
  unfolding insert_ordered
  insert_ordered-Above b k v [] s h = (h, tt)
  insert_ordered-Above b k v ((j, w) ∷ m) s h = ground (arith, insert_ordered-Above b k v m s.1 h)

  pub insert_ordered-IsSorted :
      (k : ℕ) (v : V) (m : Map V) → IsSorted m → IsSorted (insert_ordered k v m)
  unfolding insert_ordered
  insert_ordered-IsSorted k v [] s = (tt, tt)
  insert_ordered-IsSorted k v ((j, w) ∷ m) s = ground (
    arith,
    Above-weaken k j m,
    insert_ordered-Above j k v m s.0,
    insert_ordered-IsSorted k v m s.1,
  )

  pub remove-Above : (b k : ℕ) (m : Map V) → Above b m → Above b (remove k m)
  unfolding remove
  remove-Above b k [] s = tt
  remove-Above b k ((j, w) ∷ m) s = ground (arith, remove-Above b k m s.1)

  pub remove-IsSorted : (k : ℕ) (m : Map V) → IsSorted m → IsSorted (remove k m)
  unfolding remove
  remove-IsSorted k [] s = tt
  remove-IsSorted k ((j, w) ∷ m) s = ground (arith, remove-Above j k m s.0, remove-IsSorted k m s.1)

  keep-Above : (p : ℕ → V → Bool) (b : ℕ) (m : Map V) → Above b m → Above b (keep p m)
  unfolding keep
  keep-Above p b [] s = tt
  keep-Above p b ((j, w) ∷ m) s = ground (arith, keep-Above p b m s.1)

  pub keep-IsSorted : (p : ℕ → V → Bool) (m : Map V) → IsSorted m → IsSorted (keep p m)
  unfolding keep
  keep-IsSorted p [] s = tt
  keep-IsSorted p ((j, w) ∷ m) s = ground (arith, keep-Above p j m s.0, keep-IsSorted p m s.1)

  last_from-le : (b k : ℕ) (m : Map V) → b ≤ k → Above k m → IsSorted m → b ≤ last_from k m
  unfolding last_from
  last_from-le b k [] h a s = h
  last_from-le b k ((j, w) ∷ m) h a s = last_from-le b j m (omega arith) s.0 s.1

  last_from_bound :
      (k b : ℕ) (v : V) (m : Map V)
      → Above b m
      → IsSorted m
      → lookup k m ≡ some v
      → k ≤ last_from b m
  unfolding lookup last_from
  last_from_bound k b v [] a s e = ground arith
  last_from_bound k b v ((j, w) ∷ m) a s e =
      ground (arith, last_from_bound k j v m s.0 s.1, last_from-le k j m)

  -- The last key is an upper bound of the keys that are present.
  pub last_key_bound :
      (k l : ℕ) (v : V) (m : Map V) → IsSorted m → lookup k m ≡ some v → last_key m ≡ some l → k ≤ l
  unfolding lookup last_key
  last_key_bound k l v [] s e f = ground arith
  last_key_bound k l v ((j, w) ∷ m) s e f =
      ground (arith, last_from_bound k j v m s.0 s.1, last_from-le k j m)

module _ {V : Type 0} where
  lookup-last_from :
      (k : ℕ) (v : V) (m : Map V) → (w : V) × (lookup (last_from k m) ((k, v) ∷ m) ≡ some w)
  unfolding lookup last_from
  lookup-last_from k v [] = (v, ground arith)
  lookup-last_from k v ((j, u) ∷ m) = elim (Bool-cases (k == last_from j m)) [
    | inl first ↦ (v, ground arith)
    | inr later ↦ let (w, found) = lookup-last_from j u m in (w, ground (arith, later, found))
  ]

  -- The last key is a key.
  pub lookup-last_key : (l : ℕ) (m : Map V) → last_key m ≡ some l → (v : V) × (lookup l m ≡ some v)
  unfolding last_key
  lookup-last_key l [] e = absurd cc
  lookup-last_key l ((k, v) ∷ m) e =
      let (w, found) = lookup-last_from k v m in
      (w, subst (λ j. lookup j ((k, v) ∷ m) ≡ some w) (some-injective (last_from k m) l e) found)

  pub last_key-none : (k : ℕ) (v : V) (m : Map V) → last_key m ≡ none → lookup k m ≡ some v → ⊥
  unfolding last_key lookup
  last_key-none k v [] e f = cc
  last_key-none k v ((j, w) ∷ m) e f = cc

module _ {V W : Type 0} (f : V → W) where
  update_all-Above : (b : ℕ) (m : Map V) → Above b m → Above b (update_all f m)
  unfolding update_all
  update_all-Above b [] s = tt
  update_all-Above b ((j, w) ∷ m) s = (s.0, update_all-Above b m s.1)

  pub update_all-IsSorted : (m : Map V) → IsSorted m → IsSorted (update_all f m)
  unfolding update_all
  update_all-IsSorted [] s = tt
  update_all-IsSorted ((j, w) ∷ m) s = (update_all-Above j m s.0, update_all-IsSorted m s.1)
