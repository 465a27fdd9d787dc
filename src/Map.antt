-- ===== src/Map.antt =====
-- `HashMap` with word keys as an association list. The order of the entries is the order in which
-- the map is iterated, and no result rests on it. `Ordered` is `BTreeMap`.
pub mod Ordered
use velochain.Prelude.{
  ℕ, suc, ◌+◌, ◌≤◌, ◌≡◌, refl, Bool, true, false, Option, none, some, List, [], ◌∷◌, arith, ◌==◌,
  if◌then◌else◌, length, Bool-cases, inl, inr, subst, ==→eq,
}

abbrev pub Map : Type 0 → Type 0
Map V = List (ℕ × V)

module _ {V : Type 0} where
  unfoldable pub lookup : ℕ → Map V → Option V
  lookup key [] = none
  lookup key ((k, value) ∷ entries) = if k == key then some value else lookup key entries

  abbrev pub contains_key : ℕ → Map V → Bool
  contains_key k m = elim (lookup k m) [ none ↦ false | some _ ↦ true ]

  unfoldable pub insert : ℕ → V → Map V → Map V
  insert key value [] = (key, value) ∷ []
  insert key value ((k, old) ∷ entries) =
      if k == key then (key, value) ∷ entries else (k, old) ∷ insert key value entries

  unfoldable pub remove : ℕ → Map V → Map V
  remove k [] = []
  remove k ((j, w) ∷ m) = if j == k then remove k m else (j, w) ∷ remove k m

  -- `HashMap::retain`.
  unfoldable pub keep : (ℕ → V → Bool) → Map V → Map V
  keep p [] = []
  keep p ((j, w) ∷ m) = if p j w then (j, w) ∷ keep p m else keep p m

  unfoldable pub values : Map V → List V
  values [] = []
  values ((j, w) ∷ m) = w ∷ values m

  unfoldable pub keys : Map V → List ℕ
  keys [] = []
  keys ((j, w) ∷ m) = j ∷ keys m

  -- No key stands twice, as in every `HashMap`.
  abbrev pub Unique : Map V → Type 0
  Unique [] = Unit
  Unique ((k, v) ∷ m) = (lookup k m ≡ none) × Unique m

  pub lookup-insert :
      (written read : ℕ) (value : V) (entries : Map V)
      → lookup read (insert written value entries)
        ≡ (if written == read then some value else lookup read entries)
  unfolding insert lookup
  lookup-insert written read value [] = refl
  lookup-insert written read value (entry ∷ entries) =
      ground (arith, lookup-insert written read value entries)

  pub lookup-insert_self :
      (key : ℕ) (value : V) (entries : Map V) → lookup key (insert key value entries) ≡ some value
  lookup-insert_self key value entries = ground (arith, lookup-insert key key value entries)

  pub lookup-remove :
      (k j : ℕ) (m : Map V) → lookup j (remove k m) ≡ (if k == j then none else lookup j m)
  unfolding lookup remove
  lookup-remove k j [] = ground arith
  lookup-remove k j ((i, w) ∷ m) = ground (arith, lookup-remove k j m)

  pub insert-Unique : (k : ℕ) (v : V) (m : Map V) → Unique m → Unique (insert k v m)
  unfolding insert lookup
  insert-Unique k v [] u = (refl, tt)
  insert-Unique k v ((i, w) ∷ m) u = ground (arith, insert-Unique k v m u.1, lookup-insert k i v m)

  pub remove-Unique : (k : ℕ) (m : Map V) → Unique m → Unique (remove k m)
  unfolding remove
  remove-Unique k [] u = tt
  remove-Unique k ((i, w) ∷ m) u = ground (arith, remove-Unique k m u.1, lookup-remove k i m)

  -- The number of entries after a write.
  pub length-insert :
      (k : ℕ) (v : V) (m : Map V)
      → length (insert k v m) ≡ (if contains_key k m then length m else suc (length m))
  unfolding insert lookup
  length-insert k v [] = refl
  length-insert k v ((i, w) ∷ m) = ground (arith, length-insert k v m)

  pub length-remove-le : (k : ℕ) (m : Map V) → length (remove k m) ≤ length m
  unfolding remove
  length-remove-le k [] = omega arith
  length-remove-le k ((i, w) ∷ m) = ground (arith, length-remove-le k m)

  pub length-remove-present :
      (k : ℕ) (v : V) (m : Map V) → lookup k m ≡ some v → suc (length (remove k m)) ≤ length m
  unfolding lookup remove
  length-remove-present k v [] e = absurd cc
  length-remove-present k v ((j, w) ∷ m) e =
      ground (arith, length-remove-present k v m, length-remove-le k m)

  -- In a map with distinct keys an entry stays exactly if the test holds of it.
  pub lookup-keep :
      (p : ℕ → V → Bool) (k : ℕ) (m : Map V)
      → Unique m
      → lookup k (keep p m)
        ≡ elim (lookup k m) [ none ↦ none | some v ↦ if p k v then some v else none ]
  unfolding lookup keep
  lookup-keep p k [] u = refl
  lookup-keep p k ((i, w) ∷ m) u = ground (arith, lookup-keep p k m u.1)

  pub keep-Unique : (p : ℕ → V → Bool) (m : Map V) → Unique m → Unique (keep p m)
  unfolding keep
  keep-Unique p [] u = tt
  keep-Unique p ((i, w) ∷ m) u = ground (arith, keep-Unique p m u.1, lookup-keep p i m u.1)

  pub length-keep-le : (p : ℕ → V → Bool) (m : Map V) → length (keep p m) ≤ length m
  unfolding keep
  length-keep-le p [] = omega arith
  length-keep-le p ((i, w) ∷ m) = ground (arith, length-keep-le p m)

module _ {V W : Type 0} (f : V → W) where
  -- A loop over `values_mut` that changes each value.
  unfoldable pub update_all : Map V → Map W
  update_all [] = []
  update_all ((j, w) ∷ m) = (j, f w) ∷ update_all m

  pub lookup-update_all :
      (k : ℕ) (m : Map V)
      → lookup k (update_all m) ≡ elim (lookup k m) [ none ↦ none | some v ↦ some (f v) ]
  unfolding lookup update_all
  lookup-update_all k [] = refl
  lookup-update_all k ((i, w) ∷ m) = ground (arith, lookup-update_all k m)

  pub update_all-Unique : (m : Map V) → Unique m → Unique (update_all m)
  unfolding update_all
  update_all-Unique [] u = tt
  update_all-Unique ((i, w) ∷ m) u = ground (arith, update_all-Unique m u.1, lookup-update_all i m)

  pub length-update_all : (m : Map V) → length (update_all m) ≡ length m
  unfolding update_all
  length-update_all [] = refl
  length-update_all ((i, w) ∷ m) = omega (arith, length-update_all m)

-- A property of every entry that a lookup finds.
abbrev pub Every : {V : Type 0} → (ℕ → V → Type 0) → Map V → Type 0
Every {V} P m = (k : ℕ) (v : V) → lookup k m ≡ some v → P k v

module _ {V : Type 0} (P : ℕ → V → Type 0) where
  pub Every-insert : (k : ℕ) (v : V) (m : Map V) → P k v → Every P m → Every P (insert k v m)
  Every-insert k v m h all j w e = elim (Bool-cases (k == j)) [
    | inl same ↦
        subst (λ x. P x w) (==→eq k j same)
          (subst (P k) (cc (rw (lookup-insert k j v m, same) at e)) h)
    | inr other ↦ all j w (rw (lookup-insert k j v m, other) at e)
  ]

  pub Every-remove : (k : ℕ) (m : Map V) → Every P m → Every P (remove k m)
  Every-remove k m all j w e = elim (Bool-cases (k == j)) [
    | inl same ↦ absurd (cc (rw (lookup-remove k j m, same) at e))
    | inr other ↦ all j w (rw (lookup-remove k j m, other) at e)
  ]

  pub Every-head : (k : ℕ) (v : V) (m : Map V) → Every P ((k, v) ∷ m) → P k v
  unfolding lookup
  Every-head k v m all = all k v (ground arith)

  -- The other entries have other keys.
  pub Every-tail :
      (k : ℕ) (v : V) (m : Map V) → Unique ((k, v) ∷ m) → Every P ((k, v) ∷ m) → Every P m
  unfolding lookup
  Every-tail k v m u all j w e = all j w (ground arith)

  pub Every-nil : Every P []
  unfolding lookup
  Every-nil k v e = cc

  pub Every-cons : (k : ℕ) (v : V) (m : Map V) → P k v → Every P m → Every P ((k, v) ∷ m)
  unfolding lookup
  Every-cons k v m h all j w e = elim (Bool-cases (k == j)) [
    | inl same ↦ subst (λ x. P x w) (==→eq k j same) (subst (P k) (cc (rw same at e)) h)
    | inr other ↦ all j w (rw other at e)
  ]
