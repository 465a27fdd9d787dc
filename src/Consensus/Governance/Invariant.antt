-- ===== src/Consensus/Governance/Invariant.antt =====
-- The well-formedness of a validator manager and of its proposals, which every call keeps.
use velochain.Prelude.{
  ℕ, suc, ◌+◌, ◌<◌, ◌≡◌, refl, Bool, true, false, List, [], ◌∷◌, ◌++◌, arith, length, contains,
  Distinct, Distinct-insert, contains-append, Option-cases, inl, inr, u64_mod, some,
  Distinct-append, ◌⊎◌, leb, Bool-cases, add64,
}
use velochain.Map.{Map, lookup, insert, Unique, Every, Every-insert, insert-Unique, lookup-insert}
use velochain.Consensus.Governance.{
  Address, ProposalType, ProposalState, ValidatorProposal, ValidatorManager, ValidatorManagerConfig,
  execute, settle, check_and_execute, expire_each, expire_proposals, has_voted, with_vote,
  with_proposal, new_proposal, new, Change, add, remove,
}
use velochain.Consensus.Governance.Calls.{
  Call, proposes, votes, expires, step, run, state_of, Ensures, check_and_execute_rule,
  propose_rule, vote_rule, run_rule,
}

-- A proposal is stored under its own id, below the next id. Nobody has voted on it twice, on one
-- side or on both, and the proposer stands among the votes in favour.
pub record IsEntry (next k : ℕ) (p : ValidatorProposal) : Type 0 where
  pub own_id : p.id ≡ k
  pub below : k < next
  pub single_votes : Distinct (p.votes_for ++ p.votes_against)
  pub backed : contains p.proposer p.votes_for ≡ true

abbrev pub AreEntries : ℕ → Map ValidatorProposal → Type 0
AreEntries next ps = Unique ps × Every (IsEntry next) ps

-- `room` is the number of further calls for which the next id does not wrap.
pub record IsValid (room : ℕ) (m : ValidatorManager) : Type 0 where
  pub entries : AreEntries m.next_proposal_id m.proposals
  pub denominator : 0 < m.config.quorum_denominator
  pub id_room : m.next_proposal_id + room < u64_mod

insert-AreEntries :
    (next id : ℕ) (p : ValidatorProposal) (ps : Map ValidatorProposal)
    → AreEntries next ps
    → IsEntry next id p
    → AreEntries next (insert id p ps)
insert-AreEntries next id p ps h e =
    (insert-Unique id p ps h.0, Every-insert (IsEntry next) id p ps e h.1)

-- A change of state leaves an entry an entry.
restate-IsEntry :
    {next id : ℕ} {p : ValidatorProposal} (s : ProposalState)
    → IsEntry next id p
    → IsEntry next id (record p { state = s })
restate-IsEntry s e = record {
  own_id = e.own_id;
  below = e.below;
  single_votes = e.single_votes;
  backed = e.backed;
}

expire_each-AreEntries :
    (next : ℕ) (ids : List ℕ) (ps : Map ValidatorProposal)
    → AreEntries next ps
    → AreEntries next (expire_each ids ps).0
unfolding expire_each
expire_each-AreEntries next [] ps h = h
expire_each-AreEntries next (id ∷ ids) ps h = elim (Option-cases (lookup id ps)) [
  | inl e ↦ rw (e, expire_each) (expire_each-AreEntries next ids ps h)
  | inr (p, e) ↦
      rw (e, expire_each)
        (expire_each-AreEntries next ids _
          (insert-AreEntries next id _ ps h (restate-IsEntry ProposalState.expired (h.1 id p e))))
]

with_vote-IsEntry :
    {next id : ℕ} (p : ValidatorProposal) (voter : Address) (approve : Bool)
    → has_voted p voter ≡ false
    → IsEntry next id p
    → IsEntry next id (with_vote p voter approve)
with_vote-IsEntry p voter true n e = ground (
  arith,
  Distinct-insert voter p.votes_for p.votes_against e.single_votes,
  contains-append p.proposer p.votes_for (voter ∷ []),
)
with_vote-IsEntry p voter false n e =
    ground (arith, Distinct-append voter p.votes_for p.votes_against e.single_votes)

pub type-cases : (t : ProposalType) → (t ≡ add) ⊎ (t ≡ remove)
type-cases add = inl refl
type-cases remove = inr refl

module _ (n : ℕ) where
  pub with_proposals :
      (m : ValidatorManager) (ps : Map ValidatorProposal) (vs : List Address) (h : List Change)
      → IsValid n m
      → AreEntries m.next_proposal_id ps
      → IsValid n (record m { validators = vs; history = h; proposals = ps })
  with_proposals m ps vs h v e = record {
    entries = e;
    denominator = v.denominator;
    id_room = v.id_room;
  }

  execute-IsValid :
      (m : ValidatorManager) (id : ℕ) (p : ValidatorProposal) (block : ℕ)
      → IsValid n m
      → lookup id m.proposals ≡ some p
      → IsValid n (execute m id p block).0
  unfolding execute
  execute-IsValid m id p block v e =
      let entry = v.entries.1 id p e in
      let marked =
        insert-AreEntries m.next_proposal_id id _ _
          (insert-AreEntries m.next_proposal_id id _ m.proposals v.entries
            (restate-IsEntry ProposalState.approved entry))
          (restate-IsEntry ProposalState.executed entry) in
      elim (type-cases p.proposal_type) [
        | inl e ↦ rw (e, execute) (with_proposals m _ _ _ v marked)
        | inr e ↦ rw (e, execute) (with_proposals m _ _ _ v marked)
      ]

  settle-IsValid :
      (m : ValidatorManager) (id : ℕ) (p : ValidatorProposal) (quorum block : ℕ)
      → IsValid n m
      → lookup id m.proposals ≡ some p
      → IsValid n (settle m id p quorum block).0
  unfolding settle
  settle-IsValid m id p quorum block v e = elim (Bool-cases (leb quorum (length p.votes_for))) [
    | inl approve ↦ rw approve (execute-IsValid m id p block v e)
    | inr rest ↦ elim (Bool-cases (leb quorum (length p.votes_against))) [
      | inl reject ↦
          rw (rest, reject)
            (with_proposals m _ _ _ v (
              insert-AreEntries m.next_proposal_id id _ m.proposals v.entries
                (restate-IsEntry ProposalState.rejected (v.entries.1 id p e))))
      | inr open' ↦ rw (rest, open') v
    ]
  ]

  check_and_execute-IsValid :
      (m : ValidatorManager) (id block : ℕ) (p : ValidatorProposal)
      → IsValid n m
      → lookup id m.proposals ≡ some p
      → Ensures (IsValid n) (state_of (check_and_execute m id block))
  check_and_execute-IsValid m id block p v e =
      check_and_execute_rule (IsValid n) m id block p v.denominator e
        (λ quorum _. settle-IsValid m id p quorum block v e)

  weaken-IsEntry : {next k : ℕ} {p : ValidatorProposal} → IsEntry next k p → IsEntry (next + 1) k p
  weaken-IsEntry e = record {
    own_id = e.own_id;
    below = omega (arith, e.below);
    single_votes = e.single_votes;
    backed = e.backed;
  }

  with_proposal-IsValid :
      (m : ValidatorManager) (proposer : Address) (type : ProposalType) (target : Address)
      (block : ℕ)
      → IsValid (suc n) m
      → IsValid n (with_proposal m proposer type target block)
  with_proposal-IsValid m proposer type target block v = record {
    entries = rw next (
        insert-AreEntries (m.next_proposal_id + 1) m.next_proposal_id _ m.proposals
          (v.entries.0, λ k p e. weaken-IsEntry (v.entries.1 k p e))
          (record {
            own_id = refl;
            below = omega arith;
            single_votes = (refl, tt);
            backed = ground arith;
          }));
    denominator = v.denominator;
    id_room = rw next (omega (arith, v.id_room));
  }
    where
      next : add64 m.next_proposal_id 1 ≡ m.next_proposal_id + 1
      next = omega (arith, v.id_room)

  less_room : {m : ValidatorManager} → IsValid (suc n) m → IsValid n m
  less_room v = record {
    entries = v.entries;
    denominator = v.denominator;
    id_room = omega (arith, v.id_room);
  }

pub step-IsValid :
    (n : ℕ) (m : ValidatorManager) (c : Call) → IsValid (suc n) m → Ensures (IsValid n) (step m c)
unfolding step expire_proposals
step-IsValid n m (proposes proposer type target block) v =
    let made = with_proposal-IsValid n m proposer type target block v in
    propose_rule (IsValid n) m proposer type target block v.denominator (less_room n v)
      (λ _ _. made)
      (λ _ _.
        check_and_execute-IsValid n _ _ block (new_proposal m proposer type target block) made (
          ground (
            arith,
            lookup-insert m.next_proposal_id m.next_proposal_id
                (new_proposal m proposer type target block) m.proposals,
          )))
step-IsValid n m (votes id voter approve block) v =
    vote_rule (IsValid n) m id voter approve block (less_room n v) (λ p _ found _ first.
      check_and_execute-IsValid n _ id block (with_vote p voter approve)
        (with_proposals n m _ _ _ (less_room n v) (
          insert-AreEntries m.next_proposal_id id _ m.proposals v.entries
            (with_vote-IsEntry p voter approve first (v.entries.1 id p found))))
        (ground (arith, lookup-insert id id (with_vote p voter approve) m.proposals)))
step-IsValid n m (expires block) v =
    with_proposals n m _ _ _ (less_room n v)
      (expire_each-AreEntries m.next_proposal_id _ m.proposals v.entries)

new-IsValid :
    (n : ℕ) (initial : List Address) (c : ValidatorManagerConfig)
    → 0 < c.quorum_denominator
    → 1 + n < u64_mod
    → IsValid n (new initial c)
unfolding new lookup
new-IsValid n initial c d r = record { entries = (tt, λ k p e. cc); denominator = d; id_room = r }

-- With a nonzero quorum denominator and fewer calls than ids, no sequence of calls on a new manager
-- panics, and in the state that it leaves every proposal is stored under its own id, below the next
-- id, with nobody's vote counted twice and the proposer's vote in favour.
pub run-IsValid :
    (initial : List Address) (c : ValidatorManagerConfig) (cs : List Call)
    → 0 < c.quorum_denominator
    → 1 + length cs < u64_mod
    → Ensures (IsValid 0) (run (new initial c) cs)
run-IsValid initial c cs d r =
    run_rule IsValid step-IsValid (new initial c) cs (new-IsValid (length cs) initial c d r)
