-- ===== src/Storage/Cache/Calls.antt =====
-- Sequences of calls on the bounded cache, against the writes that they make to a map that forgets
-- nothing.
use velochain.Prelude.{
  ℕ, ◌≤◌, ◌≡◌, ◌∙◌, refl, ◌++◌, some, List, [], ◌∷◌, arith, ◌==◌, leb, length, max, inl, inr,
  Option-cases, Bool-cases,
}
use velochain.Map.{Map, lookup, insert, remove, lookup-insert, lookup-remove}
use velochain.Storage.Cache.{
  BoundedCache, get, put, delete, size, new, clear_entries, evict, make_room,
}
use velochain.Storage.Cache.Bounds.{
  IsTracked, new-IsTracked, put-IsTracked, delete-IsTracked, clear_entries-IsTracked, put-capacity,
}

pub data Call (V : Type 0) : Type 0 where
  put_call : ℕ → V → Call V
  delete_call : ℕ → Call V
  clear_call : Call V

module _ {V : Type 0} where
  unfoldable pub step : BoundedCache V → Call V → BoundedCache V
  step b (put_call k v) = put b k v
  step b (delete_call k) = delete b k
  step b clear_call = clear_entries b

  unfoldable pub run : BoundedCache V → List (Call V) → BoundedCache V
  run b [] = b
  run b (c ∷ cs) = run (step b c) cs

  unfoldable pub write : Map V → Call V → Map V
  write m (put_call k v) = insert k v m
  write m (delete_call k) = remove k m
  write m clear_call = []

  unfoldable pub written : Map V → List (Call V) → Map V
  written m [] = m
  written m (c ∷ cs) = written (write m c) cs

  step-IsTracked : (b : BoundedCache V) (c : Call V) → IsTracked b → IsTracked (step b c)
  unfolding step
  step-IsTracked b (put_call k v) t = put-IsTracked b k v t
  step-IsTracked b (delete_call k) t = delete-IsTracked b k t
  step-IsTracked b clear_call t = clear_entries-IsTracked b t

  -- A cached entry is the written one.
  abbrev IsFresh : BoundedCache V → Map V → Type 0
  IsFresh b m = (k : ℕ) (v : V) → get b k ≡ some v → lookup k m ≡ some v

  evict-IsFresh :
      (b : BoundedCache V) (m : Map V) (order : List ℕ) → IsFresh b m → IsFresh (evict b order) m
  unfolding get
  evict-IsFresh b m [] f k v e = f k v e
  evict-IsFresh b m (old ∷ rest) f k v e = f k v (ground (arith, lookup-remove old k b.entries))

  make_room-IsFresh : (b : BoundedCache V) (m : Map V) → IsFresh b m → IsFresh (make_room b) m
  make_room-IsFresh b m f = elim (Bool-cases (leb b.capacity (length b.order))) [
    | inl full ↦ rw full (evict-IsFresh b m b.order f)
    | inr room ↦ rw room f
  ]

  insert-IsFresh :
      (b : BoundedCache V) (m : Map V) (order : List ℕ) (k : ℕ) (v : V)
      → IsFresh b m
      → IsFresh (record b { entries = insert k v b.entries; order = order }) (insert k v m)
  unfolding get
  insert-IsFresh b m order k v f j w e = elim (Bool-cases (k == j)) [
    | inl same ↦ ground (arith, lookup-insert k j v b.entries, lookup-insert k j v m)
    | inr other ↦ ground (arith, lookup-insert k j v b.entries, lookup-insert k j v m, f j w)
  ]

  put-IsFresh :
      (b : BoundedCache V) (m : Map V) (k : ℕ) (v : V)
      → IsFresh b m
      → IsFresh (put b k v) (insert k v m)
  unfolding put
  put-IsFresh b m k v f = elim (Option-cases (lookup k b.entries)) [
    | inl absent ↦
        rw (absent, put)
          (insert-IsFresh (make_room b) m ((make_room b).order ++ k ∷ []) k v
            (make_room-IsFresh b m f))
    | inr (w, found) ↦ rw (found, put) (insert-IsFresh b m b.order k v f)
  ]

  step-IsFresh :
      (b : BoundedCache V) (m : Map V) (c : Call V) → IsFresh b m → IsFresh (step b c) (write m c)
  unfolding step put delete clear_entries write get lookup
  step-IsFresh b m (put_call k v) f j w e = put-IsFresh b m k v f j w e
  step-IsFresh b m (delete_call k) f j w e =
      ground (arith, lookup-remove k j b.entries, lookup-remove k j m, f j w)
  step-IsFresh b m clear_call f j w e = cc

  run-IsTracked : (b : BoundedCache V) (cs : List (Call V)) → IsTracked b → IsTracked (run b cs)
  unfolding run
  run-IsTracked b [] t = t
  run-IsTracked b (c ∷ cs) t = run-IsTracked (step b c) cs (step-IsTracked b c t)

  run-IsFresh :
      (b : BoundedCache V) (m : Map V) (cs : List (Call V))
      → IsFresh b m
      → IsFresh (run b cs) (written m cs)
  unfolding run written
  run-IsFresh b m [] f = f
  run-IsFresh b m (c ∷ cs) f = run-IsFresh (step b c) (write m c) cs (step-IsFresh b m c f)

  step-capacity : (b : BoundedCache V) (c : Call V) → (step b c).capacity ≡ b.capacity
  unfolding step delete clear_entries
  step-capacity b (put_call k v) = put-capacity b k v
  step-capacity b (delete_call k) = refl
  step-capacity b clear_call = refl

  run-capacity : (b : BoundedCache V) (cs : List (Call V)) → (run b cs).capacity ≡ b.capacity
  unfolding run
  run-capacity b [] = refl
  run-capacity b (c ∷ cs) = run-capacity (step b c) cs ∙ step-capacity b c

  -- After any sequence of insertions, removals and clearings from an empty cache, the cache holds no
  -- more entries than the larger of its capacity and one.
  pub run-size : (n : ℕ) (cs : List (Call V)) → size (run (new n) cs) ≤ max 1 n
  unfolding new
  run-size n cs =
      let t = run-IsTracked (new n) cs (new-IsTracked n) in
      omega (arith, t.counted, t.within, run-capacity (new n) cs)

  -- After any sequence of insertions, removals and clearings from an empty cache, a value that the
  -- cache returns for a key is the one that a map which never evicts holds under that key.
  pub run-get :
      (n : ℕ) (cs : List (Call V)) (k : ℕ) (v : V)
      → get (run (new n) cs) k ≡ some v
      → lookup k (written [] cs) ≡ some v
  unfolding new get lookup
  run-get n cs k v e = run-IsFresh (new n) [] cs (λ j w h. cc) k v e

  -- An inserted value is found under its key, whatever was evicted for it.
  pub get-put : (b : BoundedCache V) (k : ℕ) (v : V) → get (put b k v) k ≡ some v
  unfolding get put
  get-put b k v = elim (Option-cases (lookup k b.entries)) [
    | inl absent ↦ rw (absent, put) (ground (arith, lookup-insert k k v (make_room b).entries))
    | inr (w, found) ↦ rw (found, put) (ground (arith, lookup-insert k k v b.entries))
  ]
