-- ===== src/Storage/Cache/Bounds.antt =====
-- The order of insertion lists exactly the cached keys, and the cache stays within its capacity.
use velochain.Prelude.{
  ℕ, suc, ◌≤◌, ◌<◌, ◌≡◌, refl, false, none, some, List, [], ◌∷◌, ◌++◌, arith, ◌==◌, leb, not,
  if◌then◌else◌, length, retain, max, Option-cases, inl, inr, contains, contains-append, Distinct,
  length-append, Bool-cases, subst,
}
use velochain.Map.{
  Map, lookup, insert, remove, Unique, insert-Unique, remove-Unique, length-insert, lookup-insert,
  lookup-remove, contains_key,
}
use velochain.Storage.Cache.{
  BoundedCache, put, delete, size, new, clear_entries, evict, make_room, append_entry,
}

-- A key stands in the order exactly if it has an entry, and only once.
pub record IsTracked {V : Type 0} (b : BoundedCache V) : Type 0 where
  pub listed : (k : ℕ) → contains k b.order ≡ contains_key k b.entries
  pub once : Distinct b.order
  pub unique : Unique b.entries
  pub counted : size b ≡ length b.order
  pub within : length b.order ≤ max 1 b.capacity

contains-retain :
    (k j : ℕ) (xs : List ℕ)
    → contains k (retain (λ x. not (x == j)) xs) ≡ (if j == k then false else contains k xs)
contains-retain k j [] = ground arith
contains-retain k j (x ∷ xs) = ground (arith, contains-retain k j xs)

retain-Distinct : (j : ℕ) (xs : List ℕ) → Distinct xs → Distinct (retain (λ x. not (x == j)) xs)
retain-Distinct j [] d = tt
retain-Distinct j (x ∷ xs) d = ground (arith, retain-Distinct j xs d.1, contains-retain x j xs)

length-retain : (j : ℕ) (xs : List ℕ) → length (retain (λ x. not (x == j)) xs) ≤ length xs
length-retain j [] = omega arith
length-retain j (x ∷ xs) = ground (arith, length-retain j xs)

append-Distinct :
    (k : ℕ) (xs : List ℕ) → Distinct xs → contains k xs ≡ false → Distinct (xs ++ k ∷ [])
append-Distinct k [] d n = (refl, tt)
append-Distinct k (x ∷ xs) d n =
    ground (arith, append-Distinct k xs d.1, contains-append x xs (k ∷ []))

-- The number of entries after a removal.
length-retain-contains :
    (j : ℕ) (xs : List ℕ)
    → Distinct xs
    → length xs ≡ (
        if contains j xs
        then suc (length (retain (λ x. not (x == j)) xs))
        else length (retain (λ x. not (x == j)) xs))
length-retain-contains j [] d = refl
length-retain-contains j (x ∷ xs) d =
    ground (arith, length-retain-contains j xs d.1, contains-retain j j xs)

module _ {V : Type 0} where
  length-remove :
      (k : ℕ) (m : Map V)
      → Unique m
      → length m ≡ (if contains_key k m then suc (length (remove k m)) else length (remove k m))
  unfolding remove lookup
  length-remove k [] u = refl
  length-remove k ((j, w) ∷ m) u = ground (arith, length-remove k m u.1)

  pub new-IsTracked : (n : ℕ) → IsTracked {V = V} (new n)
  unfolding new lookup size
  new-IsTracked n = record {
    listed = λ k. refl;
    once = tt;
    unique = tt;
    counted = refl;
    within = omega arith;
  }

  -- Eviction keeps the tracking.
  evict-IsTracked :
      (b : BoundedCache V) (order : List ℕ)
      → b.order ≡ order
      → IsTracked b
      → IsTracked (evict b order)
  unfolding size
  evict-IsTracked b [] e t = t
  evict-IsTracked b (old ∷ rest) e t =
      let d : Distinct (old ∷ rest) = subst Distinct e t.once in
      record {
        listed = λ k. ground (arith, t.listed k, lookup-remove old k b.entries);
        once = d.1;
        unique = remove-Unique old b.entries t.unique;
        counted = ground (arith, t.counted, t.listed old, length-remove old b.entries t.unique);
        within = ground (arith, t.within);
      }

  make_room-IsTracked : (b : BoundedCache V) → IsTracked b → IsTracked (make_room b)
  make_room-IsTracked b t = elim (Bool-cases (leb b.capacity (length b.order))) [
    | inl full ↦ rw full (evict-IsTracked b b.order refl t)
    | inr room ↦ rw room t
  ]

  evict-length :
      (b : BoundedCache V) (order : List ℕ)
      → b.order ≡ order
      → IsTracked b
      → length (evict b order).order < max 1 b.capacity
  evict-length b [] e t = ground (arith, t.within)
  evict-length b (old ∷ rest) e t = ground (arith, t.within)

  make_room-length :
      (b : BoundedCache V) → IsTracked b → length (make_room b).order < max 1 b.capacity
  make_room-length b t = elim (Bool-cases (leb b.capacity (length b.order))) [
    | inl full ↦ rw full (evict-length b b.order refl t)
    | inr room ↦ rw room (ground arith)
  ]

  -- A new key goes to the end of the order.
  append-IsTracked :
      (b : BoundedCache V) (k : ℕ) (v : V)
      → IsTracked b
      → lookup k b.entries ≡ none
      → length b.order < max 1 b.capacity
      → IsTracked (append_entry b k v)
  unfolding size
  append-IsTracked b k v t absent room = record {
    listed = λ j.
        ground
          (arith, t.listed j, contains-append j b.order (k ∷ []), lookup-insert k j v b.entries);
    once = append-Distinct k b.order t.once (ground (arith, t.listed k));
    unique = insert-Unique k v b.entries t.unique;
    counted =
        ground (arith, t.counted, length-insert k v b.entries, length-append b.order (k ∷ []));
    within = omega (arith, length-append b.order (k ∷ []), room);
  }

  -- A known key is written in place.
  replace-IsTracked :
      (b : BoundedCache V) (k : ℕ) (v w : V)
      → IsTracked b
      → lookup k b.entries ≡ some w
      → IsTracked (record b { entries = insert k v b.entries })
  unfolding size
  replace-IsTracked b k v w t found = record {
    listed = λ j. ground (arith, t.listed j, lookup-insert k j v b.entries);
    once = t.once;
    unique = insert-Unique k v b.entries t.unique;
    counted = ground (arith, t.counted, length-insert k v b.entries);
    within = t.within;
  }

  -- Eviction brings no key in.
  evict-absent :
      (b : BoundedCache V) (order : List ℕ) (k : ℕ)
      → lookup k b.entries ≡ none
      → lookup k (evict b order).entries ≡ none
  evict-absent b [] k e = e
  evict-absent b (old ∷ rest) k e = ground (arith, lookup-remove old k b.entries)

  make_room-absent :
      (b : BoundedCache V) (k : ℕ)
      → lookup k b.entries ≡ none
      → lookup k (make_room b).entries ≡ none
  make_room-absent b k e = elim (Bool-cases (leb b.capacity (length b.order))) [
    | inl full ↦ rw full (evict-absent b b.order k e)
    | inr room ↦ rw room e
  ]

  evict-capacity : (b : BoundedCache V) (order : List ℕ) → (evict b order).capacity ≡ b.capacity
  evict-capacity b [] = refl
  evict-capacity b (old ∷ rest) = refl

  make_room-capacity : (b : BoundedCache V) → (make_room b).capacity ≡ b.capacity
  make_room-capacity b = elim (Bool-cases (leb b.capacity (length b.order))) [
    | inl full ↦ rw full (evict-capacity b b.order)
    | inr room ↦ rw room refl
  ]

  pub put-IsTracked : (b : BoundedCache V) (k : ℕ) (v : V) → IsTracked b → IsTracked (put b k v)
  unfolding put
  put-IsTracked b k v t = elim (Option-cases (lookup k b.entries)) [
    | inl absent ↦
        rw (absent, put)
          (append-IsTracked (make_room b) k v (make_room-IsTracked b t)
            (make_room-absent b k absent)
            (omega (arith, make_room-length b t, make_room-capacity b)))
    | inr (w, found) ↦ rw (found, put) (replace-IsTracked b k v w t found)
  ]

  pub delete-IsTracked : (b : BoundedCache V) (k : ℕ) → IsTracked b → IsTracked (delete b k)
  unfolding delete size
  delete-IsTracked b k t = record {
    listed =
        λ j. ground (arith, t.listed j, contains-retain j k b.order, lookup-remove k j b.entries);
    once = retain-Distinct k b.order t.once;
    unique = remove-Unique k b.entries t.unique;
    counted = ground (
      arith,
      t.counted,
      t.listed k,
      length-remove k b.entries t.unique,
      length-retain-contains k b.order t.once,
    );
    within = omega (arith, t.within, length-retain k b.order);
  }

  pub clear_entries-IsTracked : (b : BoundedCache V) → IsTracked b → IsTracked (clear_entries b)
  unfolding clear_entries size lookup
  clear_entries-IsTracked b t = record {
    listed = λ k. refl;
    once = tt;
    unique = tt;
    counted = refl;
    within = omega arith;
  }

  pub put-capacity : (b : BoundedCache V) (k : ℕ) (v : V) → (put b k v).capacity ≡ b.capacity
  unfolding put
  put-capacity b k v = elim (Option-cases (lookup k b.entries)) [
    | inl absent ↦ rw (absent, put) (make_room-capacity b)
    | inr (w, found) ↦ rw (found, put) refl
  ]
