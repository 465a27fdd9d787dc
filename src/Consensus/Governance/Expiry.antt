-- ===== src/Consensus/Governance/Expiry.antt =====
-- `expire_proposals` of crates/consensus/src/validator_manager.rs, entry by entry.
use velochain.Prelude.{
  ℕ, ◌≡◌, refl, false, some, none, List, [], ◌∷◌, arith, contains, if◌then◌else◌, Option-cases, inl,
  inr, true, ◌≤◌, ◌<◌, ◌≢◌, ◌∙◌, Bool-cases,
}
use velochain.Map.{Map, lookup, insert, lookup-insert, Unique, Every, Every-head, Every-tail}
use velochain.Consensus.Governance.{
  ValidatorProposal, ProposalState, ValidatorManager, expire_each, expire_proposals, expired_ids,
  is_expired, is_pending,
}
use velochain.Consensus.Governance.Invariant.{IsValid}

abbrev OwnsId : ℕ → ValidatorProposal → Type 0
OwnsId k p = p.id ≡ k

abbrev pub expired_at : ℕ → ValidatorProposal → ValidatorProposal
expired_at block p = if is_expired p block then record p { state = ProposalState.expired } else p

-- An id is collected exactly if the proposal stored under it is pending and past its term.
contains-expired_ids :
    (block k : ℕ) (ps : Map ValidatorProposal)
    → Unique ps
    → Every OwnsId ps
    → contains k (expired_ids block ps)
      ≡ elim (lookup k ps) [ none ↦ false | some p ↦ is_expired p block ]
unfolding expired_ids lookup
contains-expired_ids block k [] u own = refl
contains-expired_ids block k ((j, p) ∷ ps) u own = ground (
  arith,
  Every-head OwnsId j p ps own,
  contains-expired_ids block k ps u.1 (Every-tail OwnsId j p ps u own),
)

lookup-expire_each :
    (k : ℕ) (ids : List ℕ) (ps : Map ValidatorProposal)
    → lookup k (expire_each ids ps).0 ≡ elim (lookup k ps) [
      | none ↦ none
      | some p ↦ some (if contains k ids then record p { state = ProposalState.expired } else p)
    ]
unfolding expire_each
lookup-expire_each k [] ps = ground arith
lookup-expire_each k (id ∷ ids) ps = elim (Option-cases (lookup id ps)) [
  | inl e ↦ ground (arith, lookup-expire_each k ids ps)
  | inr (p, e) ↦
      let p' : ValidatorProposal = record p { state = ProposalState.expired } in
      ground (arith, lookup-expire_each k ids (insert id p' ps), lookup-insert id k p' ps)
]

pub find-expire_proposals :
    (room : ℕ) (m : ValidatorManager) (block k : ℕ)
    → IsValid room m
    → lookup k (expire_proposals m block).0.proposals
      ≡ elim (lookup k m.proposals) [ none ↦ none | some p ↦ some (expired_at block p) ]
unfolding expire_proposals
find-expire_proposals room m block k v = ground (
  arith,
  lookup-expire_each k (expired_ids block m.proposals) m.proposals,
  contains-expired_ids block k m.proposals v.entries.0 (λ j p e. (v.entries.1 j p e).own_id),
)

-- What a sweep at a block makes of a proposal.
pub record IsSwept (block : ℕ) (p p' : ValidatorProposal) : Type 0 where
  pub over :
      p.state ≡ ProposalState.pending
      → p.expires_at ≤ block
      → p' ≡ record p { state = ProposalState.expired }
  pub running : block < p.expires_at → p' ≡ p
  pub decided : p.state ≢ ProposalState.pending → p' ≡ p

is_pending-pending : (s : ProposalState) → is_pending s ≡ true → s ≡ ProposalState.pending
unfolding is_pending
is_pending-pending ProposalState.pending h = refl
is_pending-pending ProposalState.approved h = absurd cc
is_pending-pending ProposalState.rejected h = absurd cc
is_pending-pending ProposalState.executed h = absurd cc
is_pending-pending ProposalState.expired h = absurd cc

expired_at-IsSwept : (block : ℕ) (p : ValidatorProposal) → IsSwept block p (expired_at block p)
unfolding is_pending
expired_at-IsSwept block p = record {
  over = λ pending past.
      let due : is_expired p block ≡ true = ground (arith, pending, past) in rw due refl;
  running = λ early. let kept : is_expired p block ≡ false = ground (arith, early) in rw kept refl;
  decided = λ settled. elim (Bool-cases (is_pending p.state)) [
    | inl pending ↦ absurd (settled (is_pending-pending p.state pending))
    | inr other ↦ let kept : is_expired p block ≡ false = ground (arith, other) in rw kept refl
  ];
}

-- In a well-formed manager, a sweep at a block keeps every proposal under its id and adds none. A
-- pending proposal with its last block at or below that block becomes expired and is otherwise
-- unchanged; one with a later last block, or one that is not pending, stays as it was.
pub lookup-expire_proposals :
    (room : ℕ) (m : ValidatorManager) (block k : ℕ)
    → IsValid room m
    → (lookup k m.proposals ≡ none → lookup k (expire_proposals m block).0.proposals ≡ none)
      × ((p : ValidatorProposal)
          → lookup k m.proposals ≡ some p
          → (p' : ValidatorProposal) × (lookup k (expire_proposals m block).0.proposals ≡ some p')
            × IsSwept block p p')
lookup-expire_proposals room m block k v =
    let swept = find-expire_proposals room m block k v in
    (
      λ unknown. swept ∙ rw unknown refl,
      λ p found. (expired_at block p, swept ∙ rw found refl, expired_at-IsSwept block p),
    )
