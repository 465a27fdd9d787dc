-- ===== src/Consensus/Governance/Decision.antt =====
-- What a vote of crates/consensus/src/validator_manager.rs can change, and what executing a stale
-- proposal does to the set.
use velochain.Prelude.{
  ℕ, ◌≤◌, ◌<◌, ◌≡◌, refl, ◌⊎◌, inl, inr, Bool, true, false, some, none, List, [], ◌∷◌, ◌++◌, arith,
  length, leb, Bool-cases, contains, contains-append, Distinct, ◌+◌, length-append, subst, sym,
}
use velochain.Map.{lookup, insert, lookup-insert_self}
use velochain.Consensus.Governance.{
  Address, ValidatorProposal, ProposalState, ValidatorManager, quorum_threshold, vote, is_validator,
  is_pending, has_voted, with_vote, settle, execute, add, remove, check_and_execute, cast_vote,
  proposer_for_height,
}
use velochain.Consensus.Governance.History.{change}
use velochain.Consensus.Governance.Calls.{
  state_of, Ensures, vote_rule, check_and_execute_rule, Ensures-map,
}

-- The membership and its history are as before.
abbrev pub SameSet : ValidatorManager → ValidatorManager → Type 0
SameSet m m' = (m'.validators ≡ m.validators) × (m'.history ≡ m.history)

-- The vote decided a pending proposal that the voter, a validator, had not voted on: with it the
-- votes in favour make up a quorum of the current set, the proposed change is made and recorded, and
-- the proposal is marked executed.
abbrev pub Decides : ValidatorManager → ℕ → Address → Bool → ℕ → ValidatorManager → Type 0
Decides m id voter approve block m' =
    (p : ValidatorProposal) × (q : ℕ) × (lookup id m.proposals ≡ some p)
    × (quorum_threshold m ≡ some q)
    × (is_validator m voter ≡ true)
    × (is_pending p.state ≡ true)
    × (has_voted p voter ≡ false)
    × (q ≤ length (with_vote p voter approve).votes_for)
    × (m'.validators ≡ change m.validators (block, p.proposal_type, p.target))
    × (m'.history ≡ m.history ++ (block, p.proposal_type, p.target) ∷ [])
    × (lookup id m'.proposals
        ≡ some (record (with_vote p voter approve) { state = ProposalState.executed }))

settle_cases :
    (m : ValidatorManager) (id : ℕ) (p : ValidatorProposal) (q block : ℕ)
    → SameSet m (settle m id p q block).0
      ⊎ (let m' = (settle m id p q block).0 in
          (q ≤ length p.votes_for)
          × (m'.validators ≡ change m.validators (block, p.proposal_type, p.target))
          × (m'.history ≡ m.history ++ (block, p.proposal_type, p.target) ∷ [])
          × (lookup id m'.proposals ≡ some (record p { state = ProposalState.executed })))
unfolding settle execute
settle_cases m id p q block = elim (Bool-cases (leb q (length p.votes_for))) [
  | inr short ↦ inl (ground arith)
  | inl enough ↦ inr (
      ground (
        arith,
        lookup-insert_self id (record p { state = ProposalState.executed })
            (insert id (record p { state = ProposalState.approved }) m.proposals),
      ))
]

-- With a nonzero quorum denominator a vote returns. It leaves the validator set and the history
-- alone, or it decides a pending proposal by a quorum of the current set and makes exactly the
-- proposed change.
pub vote-Decides :
    (m : ValidatorManager) (id : ℕ) (voter : Address) (approve : Bool) (block : ℕ)
    → 0 < m.config.quorum_denominator
    → Ensures
        (λ m'. SameSet m m' ⊎ Decides m id voter approve block m')
        (state_of (vote m id voter approve block))
unfolding quorum_threshold
vote-Decides m id voter approve block d =
    vote_rule _ m id voter approve block (inl (refl, refl)) λ p insider found pending first.
      check_and_execute_rule _ _ id block (with_vote p voter approve) d
        (lookup-insert_self id (with_vote p voter approve) m.proposals)
        λ q known.
          let m₁ : ValidatorManager = record m {
            proposals = insert id (with_vote p voter approve) m.proposals;
          } in
          elim (settle_cases m₁ id (with_vote p voter approve) q block) [
            | inl same ↦ inl same
            | inr (enough, set, recorded, marked) ↦
                inr (p, q, found, known, insider, pending, first, enough, set, recorded, marked)
          ]

settle_passes :
    (m : ValidatorManager) (id : ℕ) (p : ValidatorProposal) (q block : ℕ)
    → q ≤ length p.votes_for
    → (settle m id p q block).0.validators ≡ change m.validators (block, p.proposal_type, p.target)
unfolding settle execute
settle_passes m id p q block h = ground arith

-- The approving vote that completes the quorum of a pending proposal makes the proposed change,
-- whatever the set has become since the proposal was made.
vote_passes :
    (m : ValidatorManager) (id : ℕ) (p : ValidatorProposal) (q : ℕ) (voter : Address) (block : ℕ)
    → lookup id m.proposals ≡ some p
    → quorum_threshold m ≡ some q
    → is_validator m voter ≡ true
    → is_pending p.state ≡ true
    → has_voted p voter ≡ false
    → q ≤ length p.votes_for + 1
    → Ensures
        (λ m'. m'.validators ≡ change m.validators (block, p.proposal_type, p.target))
        (state_of (vote m id voter true block))
unfolding vote cast_vote check_and_execute quorum_threshold
vote_passes m id p q voter block found known insider pending first enough =
    rw
      (
        insider,
        found,
        cast_vote,
        pending,
        first,
        known,
        lookup-insert_self id (with_vote p voter true) m.proposals,
      )
      (settle_passes (record m { proposals = insert id (with_vote p voter true) m.proposals }) id
        (with_vote p voter true) q block (omega (arith, length-append p.votes_for (voter ∷ []))))

not-Distinct-append :
    (a : Address) (vs : List Address) → contains a vs ≡ true → ¬ Distinct (vs ++ a ∷ [])
not-Distinct-append a [] h d = cc
not-Distinct-append a (v ∷ vs) h d = ground (
  arith,
  contains-append v vs (a ∷ []),
  λ (e : contains a vs ≡ true). not-Distinct-append a vs e d.1,
)

-- A proposal to add an address that has become a validator in the meantime is not checked again: the
-- approving vote that completes its quorum enters the address into the set a second time.
pub vote_duplicates :
    (m : ValidatorManager) (id : ℕ) (p : ValidatorProposal) (q : ℕ) (voter : Address) (block : ℕ)
    → lookup id m.proposals ≡ some p
    → quorum_threshold m ≡ some q
    → is_validator m voter ≡ true
    → is_pending p.state ≡ true
    → has_voted p voter ≡ false
    → q ≤ length p.votes_for + 1
    → p.proposal_type ≡ add
    → contains p.target m.validators ≡ true
    → Ensures (λ m'. ¬ Distinct m'.validators) (state_of (vote m id voter true block))
vote_duplicates m id p q voter block found known insider pending first enough adds present =
    Ensures-map _ (λ m'. ¬ Distinct m'.validators) (state_of (vote m id voter true block))
      (λ m' e.
        subst (λ vs. ¬ Distinct vs) (sym (rw adds at e))
          (not-Distinct-append p.target m.validators present))
      (vote_passes m id p q voter block found known insider pending first enough)

-- Nor is the minimum checked again: a proposal to remove the only validator left, made while there
-- were more, empties the set, and then no height has a proposer.
pub vote_empties :
    (m : ValidatorManager) (id : ℕ) (p : ValidatorProposal) (q : ℕ) (voter : Address) (block : ℕ)
    → lookup id m.proposals ≡ some p
    → quorum_threshold m ≡ some q
    → is_validator m voter ≡ true
    → is_pending p.state ≡ true
    → has_voted p voter ≡ false
    → q ≤ length p.votes_for + 1
    → p.proposal_type ≡ remove
    → m.validators ≡ p.target ∷ []
    → Ensures
        (λ m'.
          (m'.validators ≡ []) × ((height : ℕ) → proposer_for_height m'.validators height ≡ none))
        (state_of (vote m id voter true block))
unfolding proposer_for_height
vote_empties m id p q voter block found known insider pending first enough removes only =
    Ensures-map _ _ (state_of (vote m id voter true block))
      (λ m' e.
        let empty : m'.validators ≡ [] = ground arith in
        (empty, λ height. rw (empty, proposer_for_height)))
      (vote_passes m id p q voter block found known insider pending first enough)
