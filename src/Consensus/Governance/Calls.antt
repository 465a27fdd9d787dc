-- ===== src/Consensus/Governance/Calls.antt =====
-- Sequences of calls on a validator manager (crates/consensus/src/validator_manager.rs).
use velochain.Prelude.{
  ℕ, ◌≡◌, Bool, true, false, Option, none, some, List, [], ◌∷◌, leb, Bool-cases, Option-cases, inl,
  inr, subst, ◌<◌, suc, length, div_ceil_total,
}
use velochain.Map.{lookup, insert}
use velochain.Consensus.Governance.{
  Address, ProposalType, ValidatorProposal, ValidatorManager, Outcome, propose, vote, cast_vote,
  expire_proposals, is_validator, is_pending, has_voted, with_vote, with_proposal, refusal,
  quorum_threshold, check_and_execute, settle,
}

pub data Call : Type 0 where
  proposes : Address → ProposalType → Address → ℕ → Call
  votes : ℕ → Address → Bool → ℕ → Call
  expires : ℕ → Call

-- The state that a call leaves; `none` if the call panics.
abbrev pub state_of : Outcome → Option ValidatorManager
state_of none = none
state_of (some (m, r)) = some m

unfoldable pub step : ValidatorManager → Call → Option ValidatorManager
step m (proposes proposer type target block) = state_of (propose m proposer type target block)
step m (votes id voter approve block) = state_of (vote m id voter approve block)
step m (expires block) = some (expire_proposals m block).0

unfoldable pub run : ValidatorManager → List Call → Option ValidatorManager
run m [] = some m
run m (c ∷ cs) = elim (step m c) [ none ↦ none | some m' ↦ run m' cs ]

-- The call returns, and this holds of the state that it leaves.
abbrev pub Ensures : (ValidatorManager → Type 0) → Option ValidatorManager → Type 0
Ensures P none = ⊥
Ensures P (some m) = P m

pub Ensures-map :
    (P Q : ValidatorManager → Type 0) (o : Option ValidatorManager)
    → ((m : ValidatorManager) → P m → Q m)
    → Ensures P o
    → Ensures Q o
Ensures-map P Q none f h = h
Ensures-map P Q (some m) f h = f m h

pub Ensures-both :
    (P Q : ValidatorManager → Type 0) (o : Option ValidatorManager)
    → Ensures P o
    → Ensures Q o
    → Ensures (λ m. P m × Q m) o
Ensures-both P Q none h k = h
Ensures-both P Q (some m) h k = (h, k)

pub quorum_threshold_total :
    (m : ValidatorManager)
    → 0 < m.config.quorum_denominator
    → (q : ℕ) × (quorum_threshold m ≡ some q)
unfolding quorum_threshold
quorum_threshold_total m d = div_ceil_total _ m.config.quorum_denominator d

-- To show `P` of what an operation leaves, show it for each state that the code can build.
module _ (P : ValidatorManager → Type 0) where
  pub check_and_execute_rule :
      (m : ValidatorManager) (id block : ℕ) (p : ValidatorProposal)
      → 0 < m.config.quorum_denominator
      → lookup id m.proposals ≡ some p
      → ((quorum : ℕ) → quorum_threshold m ≡ some quorum → P (settle m id p quorum block).0)
      → Ensures P (state_of (check_and_execute m id block))
  unfolding check_and_execute
  check_and_execute_rule m id block p d f h =
      let (q, e) = quorum_threshold_total m d in rw (e, f) (h q e)

  pub vote_rule :
      (m : ValidatorManager) (id : ℕ) (voter : Address) (approve : Bool) (block : ℕ)
      → P m
      → ((p : ValidatorProposal)
          → is_validator m voter ≡ true
          → lookup id m.proposals ≡ some p
          → is_pending p.state ≡ true
          → has_voted p voter ≡ false
          → Ensures P (
              state_of (
                check_and_execute
                  (record m { proposals = insert id (with_vote p voter approve) m.proposals })
                  id
                  block)))
      → Ensures P (state_of (vote m id voter approve block))
  unfolding vote cast_vote
  vote_rule m id voter approve block same next = elim (Bool-cases (is_validator m voter)) [
    | inr outsider ↦ rw outsider same
    | inl insider ↦ elim (Option-cases (lookup id m.proposals)) [
      | inl missing ↦ rw (insider, missing) same
      | inr (p, found) ↦ elim (Bool-cases (is_pending p.state)) [
        | inr closed ↦ rw (insider, found, cast_vote, closed) same
        | inl open' ↦ elim (Bool-cases (has_voted p voter)) [
          | inl again ↦ rw (insider, found, cast_vote, open', again) same
          | inr first ↦
              rw (insider, found, cast_vote, open', first) (next p insider found open' first)
        ]
      ]
    ]
  ]

  pub propose_rule :
      (m : ValidatorManager) (proposer : Address) (type : ProposalType) (target : Address)
      (block : ℕ)
      → 0 < m.config.quorum_denominator
      → P m
      → (is_validator m proposer ≡ true
          → refusal m type target ≡ none
          → P (with_proposal m proposer type target block))
      → (is_validator m proposer ≡ true
          → refusal m type target ≡ none
          → Ensures P (
              state_of (
                check_and_execute
                  (with_proposal m proposer type target block)
                  m.next_proposal_id
                  block)))
      → Ensures P (state_of (propose m proposer type target block))
  unfolding propose
  propose_rule m proposer type target block d same created executed =
      elim (Bool-cases (is_validator m proposer)) [
        | inr outsider ↦ rw outsider same
        | inl insider ↦ elim (Option-cases (refusal m type target)) [
          | inr (e, refused) ↦ rw (insider, refused) same
          | inl accepted ↦
              let (q, known) =
                quorum_threshold_total (with_proposal m proposer type target block) d in
              elim (Bool-cases (leb q 1)) [
                | inl single ↦ rw (insider, accepted, known, single) (executed insider accepted)
                | inr several ↦ rw (insider, accepted, known, several) (created insider accepted)
              ]
        ]
      ]

-- An invariant that may use up room with each call.
pub run_rule :
    (P : ℕ → ValidatorManager → Type 0)
    → ((n : ℕ) (m : ValidatorManager) (c : Call) → P (suc n) m → Ensures (P n) (step m c))
    → (m : ValidatorManager) (cs : List Call) → P (length cs) m
    → Ensures (P 0) (run m cs)
unfolding run
run_rule P keep m [] h = h
run_rule P keep m (c ∷ cs) h = elim (Option-cases (step m c)) [
  | inl e ↦ absurd (subst (Ensures (P (length cs))) e (keep (length cs) m c h))
  | inr (m', e) ↦
      rw (e, run)
        (run_rule P keep m' cs (subst (Ensures (P (length cs))) e (keep (length cs) m c h)))
]
