-- ===== src/Consensus/Governance/Finality.antt =====
-- A proposal that has been decided stays as it was decided.
use velochain.Prelude.{ℕ, suc, ◌<◌, ◌≡◌, true, false, some, List, arith, ◌==◌, length}
use velochain.Map.{Map, lookup, insert, lookup-insert, lookup-insert_self}
use velochain.Consensus.Governance.{
  ValidatorProposal, ValidatorManager, ProposalState, execute, settle, check_and_execute,
  is_pending, with_vote, new_proposal,
}
use velochain.Consensus.Governance.Calls.{
  Call, proposes, votes, expires, step, run, state_of, Ensures, check_and_execute_rule,
  propose_rule, vote_rule, run_rule, Ensures-map, Ensures-both,
}
use velochain.Consensus.Governance.Invariant.{IsValid, step-IsValid}
use velochain.Consensus.Governance.Expiry.{find-expire_proposals}

module _ (k : ℕ) (d : ValidatorProposal) where
  abbrev Holds : ValidatorManager → Type 0
  Holds m = lookup k m.proposals ≡ some d

  lookup-insert_other :
      (id : ℕ) (p : ValidatorProposal) (ps : Map ValidatorProposal)
      → (id == k) ≡ false
      → lookup k ps ≡ some d
      → lookup k (insert id p ps) ≡ some d
  lookup-insert_other id p ps ne h = ground (arith, lookup-insert id k p ps)

  settle-Holds :
      (m : ValidatorManager) (id : ℕ) (p : ValidatorProposal) (quorum block : ℕ)
      → (id == k) ≡ false
      → Holds m
      → Holds (settle m id p quorum block).0
  unfolding settle execute
  settle-Holds m id p quorum block ne h = ground (
    arith,
    lookup-insert id k (record p { state = ProposalState.executed })
        (insert id (record p { state = ProposalState.approved }) m.proposals),
    lookup-insert id k (record p { state = ProposalState.approved }) m.proposals,
    lookup-insert id k (record p { state = ProposalState.rejected }) m.proposals,
  )

  check_and_execute-Holds :
      (m : ValidatorManager) (id block : ℕ) (p : ValidatorProposal)
      → 0 < m.config.quorum_denominator
      → (id == k) ≡ false
      → Holds m
      → lookup id m.proposals ≡ some p
      → Ensures Holds (state_of (check_and_execute m id block))
  check_and_execute-Holds m id block p q ne h e =
      check_and_execute_rule Holds m id block p q e
        (λ quorum _. settle-Holds m id p quorum block ne h)

  fresh_id :
      {room : ℕ} (m : ValidatorManager)
      → IsValid room m
      → Holds m
      → (m.next_proposal_id == k) ≡ false
  fresh_id m v h = ground (arith, (v.entries.1 k d h).below)

  pending_id :
      (id : ℕ) (p : ValidatorProposal) (m : ValidatorManager)
      → is_pending d.state ≡ false
      → lookup id m.proposals ≡ some p
      → is_pending p.state ≡ true
      → Holds m
      → (id == k) ≡ false
  pending_id id p m settled found pending h = ground arith

  -- In a well-formed manager, a proposal that is no longer pending is the same after any call.
  pub step-Holds :
      (room : ℕ) (m : ValidatorManager) (c : Call)
      → IsValid room m
      → is_pending d.state ≡ false
      → lookup k m.proposals ≡ some d
      → Ensures (λ m'. lookup k m'.proposals ≡ some d) (step m c)
  unfolding step
  step-Holds room m (proposes proposer type target block) v settled h =
      let fresh = fresh_id m v h in
      let p = new_proposal m proposer type target block in
      let kept = lookup-insert_other m.next_proposal_id p m.proposals fresh h in
      propose_rule Holds m proposer type target block v.denominator h (λ _ _. kept)
        (λ _ _.
          check_and_execute-Holds _ _ block p v.denominator fresh kept
            (lookup-insert_self m.next_proposal_id p m.proposals))
  step-Holds room m (votes id voter approve block) v settled h =
      vote_rule Holds m id voter approve block h λ p _ found pending _.
        let other = pending_id id p m settled found pending h in
        check_and_execute-Holds _ id block (with_vote p voter approve) v.denominator other
          (lookup-insert_other id (with_vote p voter approve) m.proposals other h)
          (lookup-insert_self id (with_vote p voter approve) m.proposals)
  step-Holds room m (expires block) v settled h =
      ground (arith, find-expire_proposals room m block k v)

-- From a well-formed manager with ids left for the calls, every sequence of calls returns, and a
-- proposal that was no longer pending before it is the same after it, votes and state included.
pub run-decided :
    (m : ValidatorManager) (cs : List Call) (k : ℕ) (d : ValidatorProposal)
    → IsValid (length cs) m
    → is_pending d.state ≡ false
    → lookup k m.proposals ≡ some d
    → Ensures (λ m'. lookup k m'.proposals ≡ some d) (run m cs)
run-decided m cs k d v settled h =
    Ensures-map (λ m'. IsValid 0 m' × Holds k d m') (Holds k d) (run m cs) (λ _ both. both.1)
      (run_rule (λ n m'. IsValid n m' × Holds k d m')
        (λ n m' c both.
          Ensures-both (IsValid n) (Holds k d) (step m' c) (step-IsValid n m' c both.0)
            (step-Holds k d (suc n) m' c both.0 settled both.1))
        m cs (v, h))
