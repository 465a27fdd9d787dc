-- ===== src/State/Laws.antt =====
-- Reads and writes of accounts.
use velochain.Prelude.{
  ℕ, ◌+◌, ◌-◌, ◌<◌, ◌≤◌, ◌≡◌, ◌≢◌, refl, none, some, arith, ◌==◌, if◌then◌else◌, Option-cases, inl,
  inr, Option, ==→eq,
}
use velochain.Prelude.Results.{Result, ok, err, Result-cases}
use velochain.Map.{lookup, insert, lookup-insert, Unique, insert-Unique}
use velochain.State.{
  Account, StateError, Codec, WorldState, stored, remember, get_account, get_or_create_account,
  put_account, add_balance, sub_balance, update_with, u256_mod, or_default, credited, debited,
}

module _ (c : Codec) where
  -- The account that a read finds.
  abbrev pub account_at : WorldState → ℕ → Result StateError (Option Account)
  account_at s a = (get_account c s a).1

  -- A dirty account is cached as it is, and what is cached and not dirty is what the database holds.
  pub record IsConsistent (s : WorldState) : Type 0 where
    pub dirty_cached :
        (a : ℕ) (x : Account)
        → lookup a s.dirty_accounts ≡ some x
        → lookup a s.account_cache ≡ some x
    pub clean_stored :
        (a : ℕ) (x : Account)
        → lookup a s.account_cache ≡ some x
        → lookup a s.dirty_accounts ≡ none
        → stored c s a ≡ ok (some x)
    pub one_dirty : Unique s.dirty_accounts

  -- In a consistent state a read finds the dirty account, or else the stored one.
  pub account_at-eq :
      (s : WorldState) (a : ℕ)
      → IsConsistent s
      → account_at s a
        ≡ elim (lookup a s.dirty_accounts) [ none ↦ stored c s a | some x ↦ ok (some x) ]
  unfolding get_account
  account_at-eq s a v = elim (Option-cases (lookup a s.account_cache)) [
    | inl e ↦ ground arith
    | inr (x, e) ↦ elim (Option-cases (lookup a s.dirty_accounts)) [
      | inl f ↦ ground (arith, v.clean_stored a x e f)
      | inr (y, f) ↦ ground (arith, v.dirty_cached a y f)
    ]
  ]

  put_account-IsConsistent :
      (s : WorldState) (a : ℕ) (x : Account) → IsConsistent s → IsConsistent (put_account s a x)
  unfolding put_account
  put_account-IsConsistent s a x v = record {
    dirty_cached = λ b y e. ground (
      arith,
      lookup-insert a b x s.dirty_accounts,
      lookup-insert a b x s.account_cache,
      v.dirty_cached b y,
    );
    clean_stored = λ b y e f. ground (
      arith,
      lookup-insert a b x s.dirty_accounts,
      lookup-insert a b x s.account_cache,
      v.clean_stored b y,
    );
    one_dirty = insert-Unique a x s.dirty_accounts v.one_dirty;
  }

  -- A read leaves the state, or caches what it found in the database.
  get_account_rule :
      (P : WorldState → Type 0) (s : WorldState) (a : ℕ)
      → P s
      → ((x : Account)
          → lookup a s.account_cache ≡ none
          → lookup a s.dirty_accounts ≡ none
          → stored c s a ≡ ok (some x)
          → P (record s { account_cache = insert a x s.account_cache }))
      → P (get_account c s a).0
  unfolding get_account
  get_account_rule P s a same cached = elim (Option-cases (lookup a s.account_cache)) [
    | inr (x, e) ↦ rw (e, get_account) same
    | inl e ↦ elim (Option-cases (lookup a s.dirty_accounts)) [
      | inr (y, f) ↦ rw (e, f, get_account) same
      | inl f ↦ rw (e, f, get_account) (go (stored c s a) (cached_as e f))
    ]
  ]
    where
      cached_as :
          lookup a s.account_cache ≡ none
          → lookup a s.dirty_accounts ≡ none
          → (x : Account) → stored c s a ≡ ok (some x)
          → P (record s { account_cache = insert a x s.account_cache })
      cached_as e f x g = cached x e f g

      go :
          (r : Result StateError (Option Account))
          → ((x : Account)
              → r ≡ ok (some x)
              → P (record s { account_cache = insert a x s.account_cache }))
          → P (remember s a r)
      go (ok (some x)) put = put x refl
      go (ok none) put = same
      go (err e) put = same

  get_account-IsConsistent :
      (s : WorldState) (a : ℕ) → IsConsistent s → IsConsistent (get_account c s a).0
  get_account-IsConsistent s a v = get_account_rule IsConsistent s a v λ x e f g. record {
    dirty_cached = λ b y h. ground (arith, lookup-insert a b x s.account_cache, v.dirty_cached b y);
    clean_stored = λ b y h k.
        ground (arith, lookup-insert a b x s.account_cache, v.clean_stored b y, ==→eq a b);
    one_dirty = v.one_dirty;
  }

  -- A read changes neither the dirty accounts nor the database.
  get_account-dirty :
      (s : WorldState) (a : ℕ) → (get_account c s a).0.dirty_accounts ≡ s.dirty_accounts
  get_account-dirty s a =
      get_account_rule (λ s'. s'.dirty_accounts ≡ s.dirty_accounts) s a refl (λ x e f g. refl)

  get_account-db : (s : WorldState) (a : ℕ) → (get_account c s a).0.db ≡ s.db
  get_account-db s a = get_account_rule (λ s'. s'.db ≡ s.db) s a refl (λ x e f g. refl)

  account_at-get_account :
      (s : WorldState) (a b : ℕ)
      → IsConsistent s
      → account_at (get_account c s a).0 b ≡ account_at s b
  account_at-get_account s a b v = ground (
    arith,
    account_at-eq (get_account c s a).0 b (get_account-IsConsistent s a v),
    account_at-eq s b v,
    get_account-dirty s a,
    get_account-db s a,
  )

  account_at-put_account :
      (s : WorldState) (a b : ℕ) (x : Account)
      → account_at (put_account s a x) b ≡ (if a == b then ok (some x) else account_at s b)
  unfolding get_account put_account
  account_at-put_account s a b x =
      ground (arith, lookup-insert a b x s.account_cache, lookup-insert a b x s.dirty_accounts)

  -- What an update of one account leaves: on an error every read as before, and otherwise the new
  -- account at its address and every other read as before.
  abbrev pub Updates :
      (Account → Result StateError Account)
      → WorldState
      → ℕ
      → Account
      → WorldState × Result StateError (Unit {0})
      → Type 0
  Updates f s a old (s', r) =
      IsConsistent s'
      × ((b : ℕ)
          → account_at s' b ≡ elim (f old) [
            | err _ ↦ account_at s b
            | ok new ↦ if a == b then ok (some new) else account_at s b
          ])
      × (r ≡ elim (f old) [ err e ↦ err e | ok _ ↦ ok tt ])

  update_with-Updates :
      (f : Account → Result StateError Account) (s : WorldState) (a : ℕ) (found : Option Account)
      → IsConsistent s
      → account_at s a ≡ ok found
      → Updates f s a (or_default found) (update_with f a (get_or_create_account c s a))
  unfolding get_or_create_account
  update_with-Updates f s a found v e =
      let s' = (get_account c s a).0 in
      let v' = get_account-IsConsistent s a v in
      rw e (elim (Result-cases (f (or_default found))) [
        | inr (x, g) ↦ rw g (v', λ b. account_at-get_account s a b v, refl)
        | inl (new, g) ↦ rw g (
          put_account-IsConsistent s' a new v',
          λ b. ground (arith, account_at-put_account s' a b new, account_at-get_account s a b v),
          refl,
        )
      ])

  -- Where the account can be read, a debit of no more than the balance lowers it by the amount and
  -- succeeds; a larger one is refused. No other account changes.
  sub_balance-Updates :
      (s : WorldState) (a amount : ℕ) (found : Option Account)
      → IsConsistent s
      → account_at s a ≡ ok found
      → Updates (debited amount) s a (or_default found) (sub_balance c s a amount)
  unfolding sub_balance
  sub_balance-Updates s a amount found = update_with-Updates (debited amount) s a found

  -- Where the account can be read, a credit raises its balance by the amount and succeeds if the sum
  -- fits in 256 bits, and is refused otherwise. No other account changes.
  pub add_balance-Updates :
      (s : WorldState) (a amount : ℕ) (found : Option Account)
      → IsConsistent s
      → account_at s a ≡ ok found
      → Updates (credited amount) s a (or_default found) (add_balance c s a amount)
  unfolding add_balance
  add_balance-Updates s a amount found = update_with-Updates (credited amount) s a found

  -- A debit from one account, then a credit to another. If the payer can pay and the receiver's
  -- balance stays within 256 bits, both succeed, the amount moves, and no third account changes.
  pub transfer_moves :
      (s : WorldState) (a b amount : ℕ) (x y : Account)
      → IsConsistent s
      → a ≢ b
      → account_at s a ≡ ok (some x)
      → account_at s b ≡ ok (some y)
      → amount ≤ x.balance
      → y.balance + amount < u256_mod
      → let (s₁, paid) = sub_balance c s a amount in
        let (s₂, received) = add_balance c s₁ b amount in
        (paid ≡ ok tt)
        × (received ≡ ok tt)
        × ((k : ℕ)
            → account_at s₂ k ≡ (
                if b == k
                then ok (some (record y { balance = y.balance + amount }))
                else (if a == k
                    then ok (some (record x { balance = x.balance - amount }))
                    else account_at s k)))
  transfer_moves s a b amount x y v ne ex ey pays fits =
      let debit = sub_balance-Updates s a amount (some x) v ex in
      let s₁ = (sub_balance c s a amount).0 in
      let ey' : account_at s₁ b ≡ ok (some y) = ground (arith, debit.1 b) in
      let credit = add_balance-Updates s₁ b amount (some y) debit.0 ey' in
      (
        ground (arith, debit.2),
        ground (arith, credit.2),
        λ k. ground (arith, debit.1 k, credit.1 k),
      )
