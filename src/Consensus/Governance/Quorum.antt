-- ===== src/Consensus/Governance/Quorum.antt =====
-- The quorum of crates/consensus/src/validator_manager.rs, and what a vote can bring about.
use velochain.Prelude.{ℕ, ◌+◌, ◌*◌, ◌<◌, ◌≤◌, ◌≡◌, some, arith, length, div_ceil_bounds, u64_mod}
use native.Mathlib.Nat.{mod-eq_of_lt}
use velochain.Consensus.Governance.{ValidatorManager, quorum_threshold}

-- Where the product fits in 64 bits, the quorum is the least number of votes that makes up the
-- configured fraction of the validators.
pub quorum_threshold_bounds :
    (m : ValidatorManager) (q : ℕ)
    → 0 < m.config.quorum_denominator
    → length m.validators * m.config.quorum_numerator < u64_mod
    → quorum_threshold m ≡ some q
    → (length m.validators * m.config.quorum_numerator ≤ q * m.config.quorum_denominator)
      × (q * m.config.quorum_denominator
          < length m.validators * m.config.quorum_numerator + m.config.quorum_denominator)
unfolding quorum_threshold
quorum_threshold_bounds m q d fits e = div_ceil_bounds _ _ q d (rw (← mod-eq_of_lt fits) e)

-- With the default fraction of two thirds, at least one validator and a product that fits in 64
-- bits, the quorum is at most the number of validators and more than half of it.
pub quorum_threshold_majority :
    (m : ValidatorManager) (q : ℕ)
    → m.config.quorum_numerator ≡ 2
    → m.config.quorum_denominator ≡ 3
    → 0 < length m.validators
    → length m.validators * 2 < u64_mod
    → quorum_threshold m ≡ some q
    → (q ≤ length m.validators) × (length m.validators < q + q)
quorum_threshold_majority m q two three some_validator fits e =
    let bounds = quorum_threshold_bounds m q (omega arith) (rw two fits) e in
    let below : length m.validators * 2 ≤ q * 3 = rw (← two, ← three) bounds.0 in
    let above : q * 3 < length m.validators * 2 + 3 = rw (← two, ← three) bounds.1 in omega arith
