-- ===== src/Storage/Cache/Tests.antt =====
-- Runs of the bounded cache at concrete inputs.
use velochain.Prelude.{ℕ, ◌≡◌, ◌≤◌, refl, none, some, List, [], ◌∷◌, max}
use velochain.Map.{lookup, insert, remove}
use velochain.Storage.Cache.{get, put, delete, size, new}
use velochain.Storage.Cache.Calls.{
  Call, put_call, delete_call, run, step, written, run-size, run-get,
}

abbrev calls : List (Call ℕ)
calls =
    put_call 1 10
    ∷ put_call 2 20
    ∷ put_call 1 11
    ∷ delete_call 2
    ∷ put_call 3 30
    ∷ put_call 4 40
    ∷ []

-- The oldest key goes, although it was written again.
evicted : get (run (new 2) calls) 1 ≡ none
unfolding get run step new put delete lookup insert remove
evicted = refl

-- A cache of capacity zero holds one entry.
zero_capacity : size (run {V = ℕ} (new 0) (put_call 1 10 ∷ [])) ≡ 1
unfolding size run step new put lookup insert
zero_capacity = refl

run-size_example : size (run (new 2) calls) ≤ max 1 2
run-size_example = run-size 2 calls

run-get_example : lookup 3 (written [] calls) ≡ some 30
unfolding get run step new put delete lookup insert remove
run-get_example = run-get 2 calls 3 30 refl
