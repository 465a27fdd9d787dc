-- ===== src/Consensus/Governance/Tests.antt =====
-- Runs of the validator manager, and the theorems at concrete inputs.
use velochain.Prelude.{
  ℕ, ◌+◌, ◌<◌, ◌≤◌, ◌≡◌, refl, ◌⊎◌, none, some, true, false, List, [], ◌∷◌, arith, get_elem?,
  Distinct, div_ceil, ltb, ltb→lt,
}
use velochain.Map.{lookup, insert, Every-cons, Every-nil}
use velochain.Consensus.Governance.{
  add, remove, ValidatorProposal, ProposalState, ValidatorManager, default_config, new, propose,
  vote, expire_proposals, proposer_for_height, quorum_threshold, execute, settle, check_and_execute,
  cast_vote, is_pending, is_validator,
}
use velochain.Consensus.Governance.Calls.{
  Call, proposes, votes, expires, step, run, state_of, Ensures,
}
use velochain.Consensus.Governance.History.{replay, run-replay}
use velochain.Consensus.Governance.Invariant.{IsValid, IsEntry, run-IsValid}
use velochain.Consensus.Governance.Expiry.{IsSwept, lookup-expire_proposals}
use velochain.Consensus.Governance.Finality.{run-decided}
use velochain.Consensus.Governance.Decision.{
  SameSet, Decides, vote-Decides, vote_duplicates, vote_empties,
}
use velochain.Consensus.Governance.Quorum.{quorum_threshold_majority}
use velochain.Consensus.Governance.Rotation.{proposer_for_height_fair}

-- Three validators add a fourth; a late vote is refused; a proposal expires.
abbrev growth : List Call
growth =
    proposes 1 add 4 1
    ∷ votes 1 2 true 2
    ∷ votes 1 3 true 3
    ∷ proposes 2 remove 3 4
    ∷ expires 1004
    ∷ []

run-growth :
    Ensures
      (λ m. (m.validators ≡ 1 ∷ 2 ∷ 3 ∷ 4 ∷ []) × (m.history ≡ (2, add, 4) ∷ []))
      (run (new (1 ∷ 2 ∷ 3 ∷ []) default_config) growth)
unfolding run step new propose vote cast_vote check_and_execute settle execute expire_proposals
    insert lookup div_ceil
run-growth = (refl, refl)

-- Both of two validators propose to remove the other, and each carries the other's proposal.
abbrev mutual_removal : List Call
mutual_removal =
    proposes 1 remove 2 10 ∷ proposes 2 remove 1 11 ∷ votes 1 2 true 12 ∷ votes 2 1 true 13 ∷ []

run-mutual_removal :
    Ensures (λ m. m.validators ≡ []) (run (new (1 ∷ 2 ∷ []) default_config) mutual_removal)
unfolding run step new propose vote cast_vote check_and_execute settle execute insert lookup
    div_ceil
run-mutual_removal = refl

abbrev proposal : ValidatorProposal
proposal = record {
  id = 2;
  proposal_type = remove;
  target = 1;
  proposer = 2;
  votes_for = 2 ∷ [];
  votes_against = [];
  proposed_at = 11;
  expires_at = 1011;
  state = ProposalState.pending;
}

abbrev decided : ValidatorProposal
decided = record proposal { id = 1; state = ProposalState.executed }

-- The state of the mutual removal before its last call.
abbrev last_validator : ValidatorManager
last_validator = record {
  validators = 1 ∷ [];
  proposals = (1, decided) ∷ (2, proposal) ∷ [];
  next_proposal_id = 3;
  config = default_config;
  history = (12, remove, 2) ∷ [];
}

-- A proposal to add validator 1, which is already in the set.
abbrev stale_addition : ValidatorManager
stale_addition = record last_validator {
  proposals = (2, record proposal { proposal_type = add }) ∷ [];
}

decided-IsEntry :
    {id : ℕ} {s : ProposalState}
    → ltb id 3 ≡ true
    → IsEntry 3 id (record proposal { id = id; state = s })
decided-IsEntry h = record {
  own_id = refl;
  below = ltb→lt _ 3 h;
  single_votes = (refl, tt);
  backed = refl;
}

last_validator-IsValid : (n : ℕ) → 3 + n < 1000 → IsValid n last_validator
unfolding lookup
last_validator-IsValid n h = record {
  entries = (
    (refl, (refl, tt)),
    Every-cons (IsEntry 3) 1 decided ((2, proposal) ∷ []) (decided-IsEntry refl)
        (Every-cons (IsEntry 3) 2 proposal [] (decided-IsEntry refl) (Every-nil (IsEntry 3))),
  );
  denominator = omega arith;
  id_room = omega arith;
}

run-replay_example :
    Ensures
      (λ m. m.validators ≡ replay (1 ∷ 2 ∷ []) m.history)
      (run (new (1 ∷ 2 ∷ []) default_config) mutual_removal)
run-replay_example = run-replay (1 ∷ 2 ∷ []) default_config mutual_removal (omega arith)

run-IsValid_example : Ensures (IsValid 0) (run (new (1 ∷ 2 ∷ 3 ∷ []) default_config) growth)
run-IsValid_example = run-IsValid (1 ∷ 2 ∷ 3 ∷ []) default_config growth (omega arith) (omega arith)

lookup-expire_proposals_example :
    (lookup 2 last_validator.proposals ≡ none
      → lookup 2 (expire_proposals last_validator 1011).0.proposals ≡ none)
    × ((p : ValidatorProposal)
        → lookup 2 last_validator.proposals ≡ some p
        → (p' : ValidatorProposal) × (lookup 2 (expire_proposals last_validator 1011).0.proposals
            ≡ some p')
          × IsSwept 1011 p p')
lookup-expire_proposals_example =
    lookup-expire_proposals 0 last_validator 1011 2 (last_validator-IsValid 0 (omega arith))

run-decided_example :
    Ensures
      (λ m. lookup 1 m.proposals ≡ some decided)
      (run last_validator (votes 1 1 false 14 ∷ []))
unfolding is_pending lookup
run-decided_example =
    run-decided last_validator (votes 1 1 false 14 ∷ []) 1 decided
      (last_validator-IsValid 1 (omega arith)) refl refl

vote-Decides_example :
    Ensures
      (λ m'. SameSet last_validator m' ⊎ Decides last_validator 2 1 true 13 m')
      (state_of (vote last_validator 2 1 true 13))
vote-Decides_example = vote-Decides last_validator 2 1 true 13 (omega arith)

vote_duplicates_example :
    Ensures (λ m'. ¬ Distinct m'.validators) (state_of (vote stale_addition 2 1 true 13))
unfolding lookup quorum_threshold div_ceil is_validator is_pending
vote_duplicates_example =
    vote_duplicates stale_addition 2 (record proposal { proposal_type = add }) 1 1 13 refl refl refl
      refl refl (omega arith) refl refl

vote_empties_example :
    Ensures
      (λ m'.
        (m'.validators ≡ []) × ((height : ℕ) → proposer_for_height m'.validators height ≡ none))
      (state_of (vote last_validator 2 1 true 13))
unfolding lookup quorum_threshold div_ceil is_validator is_pending
vote_empties_example =
    vote_empties last_validator 2 proposal 1 1 13 refl refl refl refl refl (omega arith) refl refl

quorum_threshold_majority_example : (1 ≤ 1) × (1 < 1 + 1)
unfolding quorum_threshold div_ceil
quorum_threshold_majority_example =
    quorum_threshold_majority last_validator 1 refl refl (omega arith) (omega arith) refl

proposer_for_height_fair_example :
    (k : ℕ) × (k < 3)
    × (proposer_for_height (5 ∷ 6 ∷ 7 ∷ []) (100 + k) ≡ get_elem? (5 ∷ 6 ∷ 7 ∷ []) 2)
proposer_for_height_fair_example = proposer_for_height_fair (5 ∷ 6 ∷ 7 ∷ []) 2 100 (omega arith)
