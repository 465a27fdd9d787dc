-- ===== src/Consensus/Governance/History.antt =====
-- The validator set is what the recorded history makes of the initial set.
use velochain.Prelude.{ℕ, ◌≡◌, refl, not, some, List, [], ◌∷◌, ◌++◌, arith, ◌==◌, retain, ◌<◌}
use velochain.Map.{lookup, lookup-insert_self}
use velochain.Consensus.Governance.{
  Address, add, remove, ValidatorProposal, ValidatorManager, Change, execute, settle,
  check_and_execute, expire_proposals, new, ValidatorManagerConfig,
}
use velochain.Consensus.Governance.Calls.{
  Call, proposes, votes, expires, step, run, state_of, Ensures, check_and_execute_rule,
  propose_rule, vote_rule, run_rule, Ensures-map,
}

-- One change applied to a set.
abbrev pub change : List Address → Change → List Address
change vs (block, add, target) = vs ++ target ∷ []
change vs (block, remove, target) = retain (λ v. not (v == target)) vs

abbrev pub replay : List Address → List Change → List Address
replay vs [] = vs
replay vs (c ∷ cs) = replay (change vs c) cs

replay-append :
    (vs : List Address) (cs : List Change) (c : Change)
    → replay vs (cs ++ c ∷ []) ≡ change (replay vs cs) c
replay-append vs [] c = refl
replay-append vs (d ∷ cs) c = replay-append (change vs d) cs c

-- The set is the replayed one, and the quorum can be computed.
abbrev pub Follows : List Address → ValidatorManager → Type 0
Follows initial m = (m.validators ≡ replay initial m.history) × (0 < m.config.quorum_denominator)

module _ (initial : List Address) where
  execute-Follows :
      (m : ValidatorManager) (id : ℕ) (p : ValidatorProposal) (block : ℕ)
      → Follows initial m
      → Follows initial (execute m id p block).0
  unfolding execute
  execute-Follows m id p block h = ground (
    arith,
    replay-append initial m.history (block, add, p.target),
    replay-append initial m.history (block, remove, p.target),
  )

  settle-Follows :
      (m : ValidatorManager) (id : ℕ) (p : ValidatorProposal) (quorum block : ℕ)
      → Follows initial m
      → Follows initial (settle m id p quorum block).0
  unfolding settle
  settle-Follows m id p quorum block h = ground (arith, execute-Follows m id p block h)

  check_and_execute-Follows :
      (m : ValidatorManager) (id block : ℕ) (p : ValidatorProposal)
      → Follows initial m
      → lookup id m.proposals ≡ some p
      → Ensures (Follows initial) (state_of (check_and_execute m id block))
  check_and_execute-Follows m id block p h e =
      check_and_execute_rule (Follows initial) m id block p h.1 e
        (λ quorum _. settle-Follows m id p quorum block h)

  step-Follows :
      (m : ValidatorManager) (c : Call) → Follows initial m → Ensures (Follows initial) (step m c)
  unfolding step expire_proposals
  step-Follows m (proposes proposer type target block) h =
      propose_rule (Follows initial) m proposer type target block h.1 h (λ _ _. h)
        (λ _ _.
          check_and_execute-Follows _ _ block _ h
            (lookup-insert_self m.next_proposal_id _ m.proposals))
  step-Follows m (votes id voter approve block) h =
      vote_rule (Follows initial) m id voter approve block h (λ p _ _ _ _.
        check_and_execute-Follows _ id block _ h (lookup-insert_self id _ m.proposals))
  step-Follows m (expires block) h = h

-- From a new manager with a nonzero quorum denominator, every sequence of calls returns, and in the
-- state that it leaves the validator set is the initial set with the recorded history of additions
-- and removals applied to it in order.
pub run-replay :
    (initial : List Address) (c : ValidatorManagerConfig) (cs : List Call)
    → 0 < c.quorum_denominator
    → Ensures (λ m. m.validators ≡ replay initial m.history) (run (new initial c) cs)
unfolding new
run-replay initial c cs d =
    Ensures-map (Follows initial) _ (run (new initial c) cs) (λ m h. h.0)
      (run_rule (λ _. Follows initial) (λ _. step-Follows initial) (new initial c) cs (refl, d))
