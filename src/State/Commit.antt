-- ===== src/State/Commit.antt =====
-- `commit` and `clear_cache` of crates/state/src/world_state.rs.
use velochain.Prelude.{
  ℕ, ◌≡◌, refl, none, some, List, [], ◌∷◌, ◌++◌, arith, Option-cases, inl, inr, ◌∙◌,
}
use velochain.Prelude.Results.{ok}
use velochain.Map.{Map, lookup, insert, lookup-insert, Unique}
use velochain.Primitives.Bytes.{bytes_be}
use velochain.State.{
  Account, Codec, CodecLaws, WorldState, stored, get_account, clear_cache, commit, write_all,
  compute_state_root, hash_input, by_address, new, put_account,
}
use velochain.State.Laws.{account_at, IsConsistent, account_at-eq}

pub new-IsConsistent : (c : Codec) (db : Map (List ℕ)) → IsConsistent c (new db)
unfolding new lookup
new-IsConsistent c db = record {
  dirty_cached = λ a x e. cc;
  clean_stored = λ a x e f. cc;
  one_dirty = tt;
}

cached-account_at :
    (c : Codec) (s : WorldState) (a : ℕ) (x : Account)
    → lookup a s.account_cache ≡ some x
    → account_at c s a ≡ ok (some x)
unfolding get_account
cached-account_at c s a x e = ground arith

module _ (c : Codec) (laws : CodecLaws c) where
  write_all-ok : (db : Map (List ℕ)) (m : Map Account) → (write_all c db m).1 ≡ ok tt
  unfolding write_all
  write_all-ok db [] = refl
  write_all-ok db ((a, x) ∷ m) =
      rw (laws.written x, write_all) (write_all-ok (insert a (laws.bytes_of x) db) m)

  lookup-write_all :
      (db : Map (List ℕ)) (m : Map Account) (k : ℕ)
      → Unique m
      → lookup k (write_all c db m).0
        ≡ elim (lookup k m) [ none ↦ lookup k db | some x ↦ some (laws.bytes_of x) ]
  unfolding write_all lookup
  lookup-write_all db [] k u = refl
  lookup-write_all db ((a, x) ∷ m) k u = ground (
    arith,
    laws.written x,
    lookup-write_all (insert a (laws.bytes_of x) db) m k u.1,
    lookup-insert a k (laws.bytes_of x) db,
  )

  hash_input-ok : (m : Map Account) → (bytes : List ℕ) × (hash_input c m ≡ ok bytes)
  unfolding hash_input
  hash_input-ok [] = ([], refl)
  hash_input-ok ((a, x) ∷ m) =
      let (rest, e) = hash_input-ok m in
      (bytes_be 20 a ++ (laws.bytes_of x ++ rest), rw (laws.written x, e, hash_input))

  compute_state_root-ok : (s : WorldState) → (root : ℕ) × (compute_state_root c s ≡ ok root)
  unfolding compute_state_root
  compute_state_root-ok s =
      let (bytes, e) = hash_input-ok (by_address c s.account_cache) in (c.keccak256 bytes, rw e)

  abbrev written_state : WorldState → WorldState
  written_state s = record s { db = (write_all c s.db s.dirty_accounts).0; dirty_accounts = [] }

  stored-written :
      (s : WorldState) (a : ℕ) → IsConsistent c s → stored c (written_state s) a ≡ account_at c s a
  stored-written s a v = elim (Option-cases (lookup a s.dirty_accounts)) [
    | inl e ↦
        ground (arith, account_at-eq c s a v, lookup-write_all s.db s.dirty_accounts a v.one_dirty)
    | inr (x, e) ↦ ground (
      arith,
      account_at-eq c s a v,
      lookup-write_all s.db s.dirty_accounts a v.one_dirty,
      laws.read_back x,
    )
  ]

  written_state-IsConsistent :
      (s : WorldState) → IsConsistent c s → IsConsistent c (written_state s)
  unfolding lookup
  written_state-IsConsistent s v = record {
    dirty_cached = λ a x e. cc;
    clean_stored = λ a x e f. ground (arith, stored-written s a v, cached-account_at c s a x e);
    one_dirty = tt;
  }

  commit-eq :
      (s : WorldState)
      → (root : ℕ) × (commit c s ≡ (record (written_state s) { state_root = root }, ok root))
  unfolding commit
  commit-eq s =
      let (root, e) = compute_state_root-ok (written_state s) in
      (root, ground (arith, write_all-ok s.db s.dirty_accounts))

  account_at-clear_cache : (s : WorldState) (a : ℕ) → account_at c (clear_cache s) a ≡ stored c s a
  unfolding clear_cache get_account lookup
  account_at-clear_cache s a = refl

  -- In a consistent state a commit succeeds, and after it and the loss of every cache each account
  -- reads as before.
  pub commit-clear :
      (s : WorldState)
      → IsConsistent c s
      → (root : ℕ) × ((commit c s).1 ≡ ok root)
        × ((commit c s).0.state_root ≡ root)
        × ((a : ℕ) → account_at c (clear_cache (commit c s).0) a ≡ account_at c s a)
        × IsConsistent c (commit c s).0
  commit-clear s v =
      let (root, e) = commit-eq s in
      let w = written_state-IsConsistent s v in
      (
        root,
        rw e refl,
        rw e refl,
        λ a. rw e (account_at-clear_cache _ a ∙ stored-written s a v),
        rw e (record {
          dirty_cached = w.dirty_cached;
          clean_stored = w.clean_stored;
          one_dirty = w.one_dirty;
        }),
      )

-- Without a commit, the loss of every cache takes each account back to what the database holds.
pub clear-reverts :
    (c : Codec) (s : WorldState) (a : ℕ) (x : Account)
    → account_at c (clear_cache (put_account s a x)) a ≡ account_at c (clear_cache s) a
unfolding clear_cache put_account
clear-reverts c s a x = refl
