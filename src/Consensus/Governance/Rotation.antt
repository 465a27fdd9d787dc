-- ===== src/Consensus/Governance/Rotation.antt =====
-- The round robin of `proposer_for_height`, in crates/consensus/src/validator_manager.rs and poa.rs.
use velochain.Prelude.{
  ℕ, ◌+◌, ◌-◌, ◌*◌, ◌/◌, ◌%◌, ◌<◌, ◌≡◌, some, List, [], ◌∷◌, arith, length, get_elem?,
  get_elem?_total, ap, if◌then◌else◌, leb, tests, leb→le, leb_false→lt, Bool-cases, inl, inr,
}
use native.Mathlib.Nat.{div-add-mod, mod-lt, mod-eq_of_lt, mul-add-mod_self_right}
use velochain.Consensus.Governance.{Address, proposer_for_height}

-- A nonempty set has a proposer at every height.
pub proposer_for_height_total :
    (vs : List Address) (height : ℕ)
    → 0 < length vs
    → (v : Address) × (proposer_for_height vs height ≡ some v)
unfolding proposer_for_height
proposer_for_height_total [] height h = elim h [ ]
proposer_for_height_total (v ∷ vs) height h =
    get_elem?_total (v ∷ vs) (height % length (v ∷ vs)) (omega arith)

-- The offset from a height to the next turn of the validator at index `i`.
wait : ℕ → ℕ → ℕ → ℕ
wait i n h = if leb (h % n) i then i - h % n else i + n - h % n

wait-lt : (i n h : ℕ) → i < n → wait i n h < n
unfolding wait
wait-lt i n h p = ground arith

wait-mod : (i n h : ℕ) → i < n → (h + wait i n h) % n ≡ i
unfolding wait
wait-mod i n h p = elim (Bool-cases (leb (h % n) i)) [
  | inl below ↦
      let sum : h + (i - h % n) ≡ h / n * n + i =
        omega (tests, div-add-mod h n, leb→le (h % n) i below) in
      rw (below, sum, mul-add-mod_self_right (h / n) n i) (mod-eq_of_lt p)
  | inr above ↦
      let sum : h + (i + n - h % n) ≡ (h / n + 1) * n + i =
        omega
          (tests, div-add-mod h n, leb_false→lt (h % n) i above, mod-lt h {m = n} (omega arith)) in
      rw (above, sum, mul-add-mod_self_right (h / n + 1) n i) (mod-eq_of_lt p)
]

-- Within any window of as many heights as there are validators, every validator has a turn.
pub proposer_for_height_fair :
    (vs : List Address) (i height : ℕ)
    → i < length vs
    → (k : ℕ) × (k < length vs) × (proposer_for_height vs (height + k) ≡ get_elem? vs i)
unfolding proposer_for_height
proposer_for_height_fair [] i height h = elim h [ ]
proposer_for_height_fair (v ∷ vs) i height h =
    let n = length (v ∷ vs) in
    (wait i n height, wait-lt i n height h, ap (get_elem? (v ∷ vs)) (wait-mod i n height h))
