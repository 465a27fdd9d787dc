-- ===== src/Consensus/Governance.antt =====
-- crates/consensus/src/validator_manager.rs: proposals to change the validator set, the votes on
-- them, their execution and their expiry. Addresses are words that are only compared. An operation
-- returns `none` where the Rust code panics (a zero quorum denominator, `unwrap` on a missing
-- proposal). Block numbers and ids are `u64` and wrap as in a release build.
pub mod Calls
pub mod Decision
pub mod Expiry
pub mod Finality
pub mod History
pub mod Invariant
pub mod Quorum
pub mod Rotation
mod Tests
use velochain.Prelude.{
  ℕ, ◌*◌, ◌%◌, Bool, true, false, ◌&&◌, ◌||◌, not, Option, none, some, List, [], ◌∷◌, ◌++◌, leb,
  ◌==◌, if◌then◌else◌, length, get_elem?, retain, contains, add64, div_ceil, u64_mod,
}
use velochain.Map.{Map, lookup, insert}

abbrev pub Address : Type 0
Address = ℕ

pub data ProposalType : Type 0 where
  add remove : ProposalType

pub data ProposalState : Type 0 where
  pending approved rejected executed expired : ProposalState

pub record ValidatorProposal : Type 0 where
  pub id : ℕ
  pub proposal_type : ProposalType
  pub target : Address
  pub proposer : Address
  pub votes_for : List Address
  pub votes_against : List Address
  pub proposed_at : ℕ
  pub expires_at : ℕ
  pub state : ProposalState

pub data ValidatorError : Type 0 where
  not_validator already_validator not_in_set cannot_remove_last already_voted : ValidatorError
  proposal_not_found proposal_not_pending voter_not_validator : ValidatorError

pub data ValidatorResult : Type 0 where
  proposal_created : ℕ → ValidatorResult
  vote_recorded : ℕ → ℕ → ℕ → ValidatorResult
  approval rejection : ℕ → ValidatorResult
  validator_added validator_removed : Address → ValidatorResult
  expiry : ℕ → ValidatorResult
  error : ValidatorError → ValidatorResult

pub record ValidatorManagerConfig : Type 0 where
  pub proposal_ttl_blocks : ℕ
  pub quorum_numerator : ℕ
  pub quorum_denominator : ℕ
  pub min_validators : ℕ
  pub max_validators : ℕ

-- `ValidatorManagerConfig::default`
abbrev pub default_config : ValidatorManagerConfig
default_config = record {
  proposal_ttl_blocks = 1000;
  quorum_numerator = 2;
  quorum_denominator = 3;
  min_validators = 1;
  max_validators = 21;
}

abbrev pub Change : Type 0
Change = ℕ × ProposalType × Address

pub record ValidatorManager : Type 0 where
  pub validators : List Address
  pub proposals : Map ValidatorProposal
  pub next_proposal_id : ℕ
  pub config : ValidatorManagerConfig
  pub history : List Change

abbrev pub Outcome : Type 0
Outcome = Option (ValidatorManager × ValidatorResult)

infixl 5 ◌>>=◌
abbrev pub ◌>>=◌ : {A B : Type 0} → Option A → (A → Option B) → Option B
none >>= f = none
some a >>= f = f a

-- `ValidatorManager::new`
pub new : List Address → ValidatorManagerConfig → ValidatorManager
new initial c = record {
  validators = initial;
  proposals = [];
  next_proposal_id = 1;
  config = c;
  history = [];
}

unfoldable pub is_validator : ValidatorManager → Address → Bool
is_validator m a = contains a m.validators

unfoldable pub is_pending : ProposalState → Bool
is_pending ProposalState.pending = true
is_pending _ = false

-- The values of `proposals` whose state is pending.
pub pending_proposals : Map ValidatorProposal → List ValidatorProposal
unfolding is_pending
pending_proposals [] = []
pending_proposals ((k, p) ∷ ps) =
    if is_pending p.state then p ∷ pending_proposals ps else pending_proposals ps

-- The product wraps at 64 bits before it is divided.
unfoldable pub quorum_threshold : ValidatorManager → Option ℕ
quorum_threshold m =
    div_ceil ((length m.validators * m.config.quorum_numerator) % u64_mod)
      m.config.quorum_denominator

-- The executed change: the proposal is marked approved, the set and the history change, and the
-- proposal is marked executed.
pub execute : ValidatorManager → ℕ → ValidatorProposal → ℕ → ValidatorManager × ValidatorResult
execute m id p block = elim p.proposal_type [
  | add ↦ (
    record m {
      validators = m.validators ++ p.target ∷ [];
      history = m.history ++ (block, add, p.target) ∷ [];
      proposals = marked;
    },
    validator_added p.target,
  )
  | remove ↦ (
    record m {
      validators = retain (λ v. not (v == p.target)) m.validators;
      history = m.history ++ (block, remove, p.target) ∷ [];
      proposals = marked;
    },
    validator_removed p.target,
  )
]
  where
    marked : Map ValidatorProposal
    marked =
        insert id (record p { state = ProposalState.executed })
          (insert id (record p { state = ProposalState.approved }) m.proposals)

-- The three ways in which a tally ends.
pub settle : ValidatorManager → ℕ → ValidatorProposal → ℕ → ℕ → ValidatorManager × ValidatorResult
unfolding execute
settle m id p quorum block =
    if leb quorum (length p.votes_for)
    then execute m id p block
    else (if leb quorum (length p.votes_against)
        then (
          record m {
            proposals = insert id (record p { state = ProposalState.rejected }) m.proposals;
          },
          rejection id,
        )
        else (m, vote_recorded id (length p.votes_for) (length p.votes_against)))

pub check_and_execute : ValidatorManager → ℕ → ℕ → Outcome
unfolding quorum_threshold
check_and_execute m id block = do
  quorum ← quorum_threshold m
  p ← lookup id m.proposals
  some (settle m id p quorum block)

-- What `propose` refuses once the proposer is known to be a validator.
pub refusal : ValidatorManager → ProposalType → Address → Option ValidatorError
unfolding is_validator
refusal m add target =
    if is_validator m target
    then some already_validator
    else (if leb m.config.max_validators (length m.validators)
        then some cannot_remove_last
        else none)
refusal m remove target =
    if is_validator m target
    then (if leb (length m.validators) m.config.min_validators
        then some cannot_remove_last
        else none)
    else some not_in_set

abbrev pub new_proposal :
    ValidatorManager → Address → ProposalType → Address → ℕ → ValidatorProposal
new_proposal m proposer type target block = record {
  id = m.next_proposal_id;
  proposal_type = type;
  target = target;
  proposer = proposer;
  votes_for = proposer ∷ [];
  votes_against = [];
  proposed_at = block;
  expires_at = add64 block m.config.proposal_ttl_blocks;
  state = ProposalState.pending;
}

-- The state after the insertion of the proposal, before the single-validator check.
abbrev pub with_proposal :
    ValidatorManager → Address → ProposalType → Address → ℕ → ValidatorManager
with_proposal m proposer type target block = record m {
  next_proposal_id = add64 m.next_proposal_id 1;
  proposals = insert m.next_proposal_id (new_proposal m proposer type target block) m.proposals;
}

pub propose : ValidatorManager → Address → ProposalType → Address → ℕ → Outcome
unfolding is_validator refusal quorum_threshold
propose m proposer type target block =
    if is_validator m proposer
    then elim (refusal m type target) [
      | some e ↦ some (m, error e)
      | none ↦ do
        let m' = with_proposal m proposer type target block
        quorum ← quorum_threshold m'
        if leb quorum 1
            then check_and_execute m' m.next_proposal_id block
            else some (m', proposal_created m.next_proposal_id)
    ]
    else some (m, error not_validator)

abbrev pub with_vote : ValidatorProposal → Address → Bool → ValidatorProposal
with_vote p voter approve = record p {
  votes_for = if approve then p.votes_for ++ voter ∷ [] else p.votes_for;
  votes_against = if approve then p.votes_against else p.votes_against ++ voter ∷ [];
}

abbrev pub has_voted : ValidatorProposal → Address → Bool
has_voted p voter = contains voter p.votes_for || contains voter p.votes_against

-- `vote` once the proposal is found.
pub cast_vote : ValidatorManager → ℕ → ValidatorProposal → Address → Bool → ℕ → Outcome
unfolding is_pending
cast_vote m id p voter approve block =
    if is_pending p.state
    then (if has_voted p voter
        then some (m, error already_voted)
        else check_and_execute
            (record m { proposals = insert id (with_vote p voter approve) m.proposals }) id block)
    else some (m, error proposal_not_pending)

pub vote : ValidatorManager → ℕ → Address → Bool → ℕ → Outcome
unfolding is_validator
vote m id voter approve block =
    if is_validator m voter
    then elim (lookup id m.proposals) [
      | none ↦ some (m, error proposal_not_found)
      | some p ↦ cast_vote m id p voter approve block
    ]
    else some (m, error voter_not_validator)

-- The test by which `expire_proposals` collects ids.
abbrev pub is_expired : ValidatorProposal → ℕ → Bool
is_expired p block = is_pending p.state && leb p.expires_at block

pub expired_ids : ℕ → Map ValidatorProposal → List ℕ
unfolding is_pending
expired_ids block [] = []
expired_ids block ((k, p) ∷ ps) =
    if is_expired p block then p.id ∷ expired_ids block ps else expired_ids block ps

pub expire_each : List ℕ → Map ValidatorProposal → Map ValidatorProposal × List ValidatorResult
expire_each [] ps = (ps, [])
expire_each (id ∷ ids) ps = elim (lookup id ps) [
  | none ↦ expire_each ids ps
  | some p ↦
      let (ps', rs) = expire_each ids (insert id (record p { state = ProposalState.expired }) ps) in
      (ps', expiry id ∷ rs)
]

pub expire_proposals : ValidatorManager → ℕ → ValidatorManager × List ValidatorResult
unfolding expired_ids expire_each
expire_proposals m block =
    let (ps, rs) = expire_each (expired_ids block m.proposals) m.proposals in
    (record m { proposals = ps }, rs)

-- Round robin: `validators[height % len]`, and nothing for an empty set.
unfoldable pub proposer_for_height : List Address → ℕ → Option Address
proposer_for_height [] height = none
proposer_for_height (v ∷ vs) height = get_elem? (v ∷ vs) (height % length (v ∷ vs))
