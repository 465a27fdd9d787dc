-- ===== src/State.antt =====
-- crates/state/src/world_state.rs: accounts over a database, with a cache and a set of dirty accounts.
-- The locks are one state. The column of the database that holds accounts maps addresses to bytes;
-- JSON and Keccak-256 are parameters. Balances are 256-bit words, nonces 64-bit words.
pub mod Laws
pub mod Commit
mod Tests
use velochain.Prelude.{
  ℕ, ◌+◌, ◌-◌, ◌^◌, ◌≡◌, Bool, true, false, Option, none, some, List, [], ◌∷◌, ◌++◌, ltb, leb, ◌==◌,
  if◌then◌else◌, add64,
}
use velochain.Prelude.Results.{Result, ok, err, ◌>>=◌}
use velochain.Map.{Map, lookup, insert}
use velochain.Map.Ordered.{insert_ordered}
use velochain.Primitives.Bytes.{bytes_be}

-- crates/primitives/src/account.rs
pub record Account : Type 0 where
  pub nonce : ℕ
  pub balance : ℕ
  pub code_hash : ℕ
  pub storage_root : ℕ

-- `Account::default`
abbrev pub default_account : Account
default_account = record { nonce = 0; balance = 0; code_hash = 0; storage_root = 0 }

-- The errors of crates/state/src/error.rs that the state returns.
pub data StateError : Type 0 where
  insufficient_balance : ℕ → ℕ → StateError
  balance_overflow serialization : StateError

-- The libraries that the state calls.
pub record Codec : Type 0 where
  pub to_json : Account → Option (List ℕ)
  pub from_json : List ℕ → Option Account
  pub keccak256 : List ℕ → ℕ

-- The documented behaviour of the JSON library on accounts: each is written, and read back.
pub record CodecLaws (c : Codec) : Type 0 where
  pub bytes_of : Account → List ℕ
  pub written : (a : Account) → c.to_json a ≡ some (bytes_of a)
  pub read_back : (a : Account) → c.from_json (bytes_of a) ≡ some a

pub record WorldState : Type 0 where
  pub db : Map (List ℕ)
  pub account_cache : Map Account
  pub dirty_accounts : Map Account
  pub state_root : ℕ

unfoldable pub new : Map (List ℕ) → WorldState
new db = record { db = db; account_cache = []; dirty_accounts = []; state_root = 0 }

abbrev pub u256_mod : ℕ
u256_mod = 2 ^ 256

-- The state after an operation, and its result.
abbrev pub Outcome : Type 0 → Type 0
Outcome A = WorldState × Result StateError A

unfoldable pub put_account : WorldState → ℕ → Account → WorldState
put_account s address account = record s {
  dirty_accounts = insert address account s.dirty_accounts;
  account_cache = insert address account s.account_cache;
}

-- `clear_cache`, the way back to the database.
unfoldable pub clear_cache : WorldState → WorldState
clear_cache s = record s { account_cache = []; dirty_accounts = [] }

-- What a read keeps in the cache.
abbrev pub remember : WorldState → ℕ → Result StateError (Option Account) → WorldState
remember s address (ok (some account)) = record s {
  account_cache = insert address account s.account_cache;
}
remember s address (ok none) = s
remember s address (err e) = s

abbrev pub or_default : Option Account → Account
or_default none = default_account
or_default (some a) = a

-- The rest of an update, once the account is read.
abbrev pub update_with :
    (Account → Result StateError Account) → ℕ → Outcome Account → Outcome (Unit {0})
update_with f address (s, err e) = (s, err e)
update_with f address (s, ok account) = elim (f account) [
  | err e ↦ (s, err e)
  | ok account' ↦ (put_account s address account', ok tt)
]

-- `checked_add` refuses a sum that does not fit in 256 bits.
abbrev pub credited : ℕ → Account → Result StateError Account
credited amount a =
    if ltb (a.balance + amount) u256_mod
    then ok (record a { balance = a.balance + amount })
    else err balance_overflow

abbrev pub debited : ℕ → Account → Result StateError Account
debited amount a =
    if ltb a.balance amount
    then err (insufficient_balance a.balance amount)
    else ok (record a { balance = a.balance - amount })

module _ (c : Codec) where
  -- The account that the database holds.
  abbrev pub stored : WorldState → ℕ → Result StateError (Option Account)
  stored s address = elim (lookup address s.db) [
    | none ↦ ok none
    | some bytes ↦ elim (c.from_json bytes) [
      | none ↦ err serialization
      | some account ↦ ok (some account)
    ]
  ]

  -- First the cache, then the dirty accounts, then the database.
  unfoldable pub get_account : WorldState → ℕ → Outcome (Option Account)
  get_account s address = elim (lookup address s.account_cache) [
    | some account ↦ (s, ok (some account))
    | none ↦ elim (lookup address s.dirty_accounts) [
      | some account ↦ (s, ok (some account))
      | none ↦ (remember s address (stored s address), stored s address)
    ]
  ]

  unfoldable pub get_or_create_account : WorldState → ℕ → Outcome Account
  get_or_create_account s address =
      let (s', r) = get_account s address in (s', r >>= λ found. ok (or_default found))

  unfoldable pub get_balance : WorldState → ℕ → Outcome ℕ
  get_balance s address =
      let (s', r) = get_account s address in
      (s', r >>= λ found. ok (elim found [ none ↦ 0 | some a ↦ a.balance ]))

  unfoldable pub get_nonce : WorldState → ℕ → Outcome ℕ
  get_nonce s address =
      let (s', r) = get_account s address in
      (s', r >>= λ found. ok (elim found [ none ↦ 0 | some a ↦ a.nonce ]))

  unfoldable pub increment_nonce : WorldState → ℕ → Outcome (Unit {0})
  increment_nonce s address =
      update_with (λ a. ok (record a { nonce = add64 a.nonce 1 })) address
        (get_or_create_account s address)

  unfoldable pub add_balance : WorldState → ℕ → ℕ → Outcome (Unit {0})
  add_balance s address amount =
      update_with (credited amount) address (get_or_create_account s address)

  unfoldable pub sub_balance : WorldState → ℕ → ℕ → Outcome (Unit {0})
  sub_balance s address amount =
      update_with (debited amount) address (get_or_create_account s address)

  -- The drained accounts, written one by one up to the first that cannot be serialized.
  unfoldable pub write_all :
      Map (List ℕ) → Map Account → Map (List ℕ) × Result StateError (Unit {0})
  write_all db [] = (db, ok tt)
  write_all db ((address, account) ∷ rest) = elim (c.to_json account) [
    | none ↦ (db, err serialization)
    | some bytes ↦ write_all (insert address bytes db) rest
  ]

  by_address : Map Account → Map Account
  by_address [] = []
  by_address ((address, account) ∷ m) = insert_ordered address account (by_address m)

  hash_input : Map Account → Result StateError (List ℕ)
  hash_input [] = ok []
  hash_input ((address, account) ∷ m) = elim (c.to_json account) [
    | none ↦ err serialization
    | some bytes ↦ hash_input m >>= λ rest. ok (bytes_be 20 address ++ (bytes ++ rest))
  ]

  -- The hash of the cached accounts in the order of their addresses.
  unfoldable pub compute_state_root : WorldState → Result StateError ℕ
  unfolding by_address hash_input
  compute_state_root s = hash_input (by_address s.account_cache) >>= λ input. ok (c.keccak256 input)

  unfoldable pub commit : WorldState → Outcome ℕ
  commit s =
      let (db', written) = write_all s.db s.dirty_accounts in
      let s' = record s { db = db'; dirty_accounts = [] } in
      elim written [
        | err e ↦ (s', err e)
        | ok _ ↦ elim (compute_state_root s') [
          | err e ↦ (s', err e)
          | ok root ↦ (record s' { state_root = root }, ok root)
        ]
      ]
