-- ===== src/State/Tests.antt =====
-- The world state at concrete inputs.
use velochain.Prelude.{
  ℕ, ◌+◌, ◌≡◌, refl, none, some, Option, List, [], ◌∷◌, arith, ◌==◌, if◌then◌else◌,
}
use velochain.Prelude.Results.{ok}
use velochain.Map.{lookup}
use velochain.State.{
  Account, default_account, Codec, CodecLaws, WorldState, new, get_account, add_balance,
  sub_balance, commit, clear_cache,
}
use velochain.State.Laws.{account_at, IsConsistent, transfer_moves}
use velochain.State.Commit.{new-IsConsistent, commit-clear}

abbrev digest : List ℕ → ℕ
digest [] = 0
digest (b ∷ bs) = b + digest bs

abbrev from_fields : List ℕ → Option Account
from_fields (n ∷ b ∷ h ∷ r ∷ []) =
    some (record { nonce = n; balance = b; code_hash = h; storage_root = r })
from_fields _ = none

abbrev fields : Account → List ℕ
fields a = a.nonce ∷ a.balance ∷ a.code_hash ∷ a.storage_root ∷ []

abbrev codec : Codec
codec = record { to_json = λ a. some (fields a); from_json = from_fields; keccak256 = digest }

codec-laws : CodecLaws codec
codec-laws = record { bytes_of = fields; written = λ a. refl; read_back = λ a. refl }

abbrev rich : Account
rich = record default_account { balance = 100 }

abbrev poor : Account
poor = record default_account { nonce = 4; balance = 7 }

abbrev world : WorldState
world = new ((1, fields rich) ∷ (2, fields poor) ∷ [])

world-IsConsistent : IsConsistent codec world
world-IsConsistent = new-IsConsistent codec ((1, fields rich) ∷ (2, fields poor) ∷ [])

transfer_moves_example :
    let (s₁, paid) = sub_balance codec world 1 30 in
    let (s₂, received) = add_balance codec s₁ 2 30 in
    (paid ≡ ok tt)
    × (received ≡ ok tt)
    × ((k : ℕ)
        → account_at codec s₂ k ≡ (
            if 2 == k
            then ok (some (record poor { balance = 37 }))
            else (if 1 == k
                then ok (some (record rich { balance = 70 }))
                else account_at codec world k)))
unfolding new get_account lookup
transfer_moves_example =
    transfer_moves codec world 1 2 30 rich poor world-IsConsistent (omega arith) refl refl
      (omega arith) (omega arith)

commit-clear_example :
    (root : ℕ) × ((commit codec world).1 ≡ ok root)
    × ((commit codec world).0.state_root ≡ root)
    × ((a : ℕ) → account_at codec (clear_cache (commit codec world).0) a ≡ account_at codec world a)
    × IsConsistent codec (commit codec world).0
commit-clear_example = commit-clear codec codec-laws world world-IsConsistent
