-- ===== src/Game/Skills/Points.antt =====
-- The points of a player after any sequence of calls.
use velochain.Prelude.{
  ℕ, ◌+◌, ◌*◌, ◌%◌, ◌^◌, ◌≤◌, ◌<◌, ◌≡◌, refl, none, some, List, [], ◌∷◌, All, ◌==◌, if◌then◌else◌,
  arith, Bool-cases, inl, inr, ==→eq, subst, ap,
}
use velochain.Map.{Map, lookup, insert, lookup-insert}
use velochain.Game.Skills.{
  SkillDef, PlayerSkillState, level_in, skill_level, skill_points_per_level, SkillRegistry, get,
  missing, raised,
}

-- What a level of a skill costs.
abbrev pub cost_of : SkillRegistry → ℕ → ℕ
cost_of r id = elim (get r id) [ none ↦ 0 | some d ↦ d.cost_per_level ]

-- What the levels have cost.
abbrev pub spent : SkillRegistry → Map ℕ → ℕ
spent r [] = 0
spent r ((id, n) ∷ skills) = n * cost_of r id + spent r skills

-- Every prerequisite of the skill has its level.
abbrev pub IsSupported : PlayerSkillState → SkillDef → Type 0
IsSupported s d = All (λ p. p.1 ≤ skill_level s p.0) d.prerequisites

-- The points earned are those at hand and those spent, no skill is above its highest level, and a
-- skill with a level has its prerequisites.
pub record IsBalanced (r : SkillRegistry) (s : PlayerSkillState) : Type 0 where
  pub balanced : s.available_points + spent r s.skills ≡ s.total_points_earned
  pub bounded : (id : ℕ) (d : SkillDef) → get r id ≡ some d → skill_level s id ≤ d.max_level
  pub supported :
      (id : ℕ) (d : SkillDef) → get r id ≡ some d → 0 < skill_level s id → IsSupported s d

spent-insert :
    (r : SkillRegistry) (id old : ℕ) (skills : Map ℕ)
    → level_in id skills ≡ old
    → spent r (insert id (old + 1) skills) ≡ spent r skills + cost_of r id
unfolding insert lookup
spent-insert r id old [] e = ground (arith, e)
spent-insert r id old ((j, n) ∷ skills) e = elim (Bool-cases (j == id)) [
  | inl this ↦
      let same : n ≡ old = ground (arith, this, e) in
      let cost : cost_of r j ≡ cost_of r id = ap (cost_of r) (==→eq j id this) in
      rw (this, insert) (rw (cost, same) (omega arith))
  | inr other ↦
      let rest : level_in id skills ≡ old = ground (arith, other, e) in
      rw (other, insert) (omega (arith, spent-insert r id old skills rest))
]

pub skill_points-le : (level : ℕ) → skill_points_per_level level ≤ 4
unfolding skill_points_per_level
skill_points-le level = ground arith

pub missing-IsSupported :
    (s : PlayerSkillState) (needs : List (ℕ × ℕ))
    → missing s needs ≡ []
    → All (λ p. p.1 ≤ skill_level s p.0) needs
missing-IsSupported s [] h = tt
missing-IsSupported s ((id, n) ∷ needs) h = ground (arith, missing-IsSupported s needs)

All-raise :
    (s s' : PlayerSkillState) (needs : List (ℕ × ℕ))
    → ((id : ℕ) → skill_level s id ≤ skill_level s' id)
    → All (λ p. p.1 ≤ skill_level s p.0) needs
    → All (λ p. p.1 ≤ skill_level s' p.0) needs
All-raise s s' [] grows h = tt
All-raise s s' ((id, n) ∷ needs) grows h =
    (omega (arith, h.0, grows id), All-raise s s' needs grows h.1)

level-raised :
    (s : PlayerSkillState) (id k : ℕ) (d : SkillDef)
    → skill_level s id + 1 < 2 ^ 32
    → skill_level (raised s id d) k ≡ (if id == k then skill_level s id + 1 else skill_level s k)
unfolding skill_level
level-raised s id k d fits =
    ground (arith, lookup-insert id k ((level_in id s.skills + 1) % 2 ^ 32) s.skills)

-- The highest levels are words.
abbrev pub AreWords : SkillRegistry → Type 0
AreWords r = (id : ℕ) (d : SkillDef) → get r id ≡ some d → d.max_level < 2 ^ 32

raised-balanced :
    (r : SkillRegistry) (s : PlayerSkillState) (id : ℕ) (d : SkillDef)
    → get r id ≡ some d
    → skill_level s id + 1 < 2 ^ 32
    → d.cost_per_level ≤ s.available_points
    → s.available_points + spent r s.skills ≡ s.total_points_earned
    → (raised s id d).available_points + spent r (raised s id d).skills ≡ s.total_points_earned
unfolding skill_level
raised-balanced r s id d known fits affordable balanced =
    let old = level_in id s.skills in
    let whole : (old + 1) % 2 ^ 32 ≡ old + 1 = omega (arith, fits) in
    let cost : cost_of r id ≡ d.cost_per_level = rw (known, cost_of) refl in
    rw (whole, raised)
      (omega (arith, spent-insert r id old s.skills refl, cost, affordable, balanced))

-- The same skill of the registry under equal ids.
same-def :
    (r : SkillRegistry) (id k : ℕ) (d e : SkillDef)
    → id ≡ k
    → get r id ≡ some d
    → get r k ≡ some e
    → d ≡ e
same-def r id k d e eq known found =
    let known' : get r k ≡ some d = subst (λ x. get r x ≡ some d) eq known in cc

pub raised-IsBalanced :
    (r : SkillRegistry) (s : PlayerSkillState) (id : ℕ) (d : SkillDef)
    → AreWords r
    → get r id ≡ some d
    → skill_level s id < d.max_level
    → d.cost_per_level ≤ s.available_points
    → IsSupported s d
    → IsBalanced r s
    → IsBalanced r (raised s id d)
raised-IsBalanced r s id d words known below affordable support v =
    let fits : skill_level s id + 1 < 2 ^ 32 = omega (arith, below, words id d known) in
    let s' = raised s id d in
    let level : (k : ℕ)
        → skill_level s' k ≡ (if id == k then skill_level s id + 1 else skill_level s k) =
      λ k. level-raised s id k d fits in
    let self : skill_level s' id ≡ skill_level s id + 1 = ground (arith, level id) in
    let grows : (k : ℕ) → skill_level s k ≤ skill_level s' k = λ k. elim (Bool-cases (id == k)) [
      | inl this ↦
          subst (λ x. skill_level s x ≤ skill_level s' x) (==→eq id k this) (omega (arith, self))
      | inr other ↦ ground (arith, other, level k)
    ] in
    record {
      balanced = raised-balanced r s id d known fits affordable v.balanced;
      bounded = λ k e found. elim (Bool-cases (id == k)) [
        | inl this ↦
            let eq = ==→eq id k this in
            subst (λ x. skill_level s' x ≤ e.max_level) eq
              (subst (λ x. skill_level s' id ≤ x.max_level) (same-def r id k d e eq known found)
                (omega (arith, self, below)))
        | inr other ↦ ground (arith, other, level k, v.bounded k e found)
      ];
      supported = λ k e found positive. elim (Bool-cases (id == k)) [
        | inl this ↦
            subst (IsSupported s') (same-def r id k d e (==→eq id k this) known found)
              (All-raise s s' d.prerequisites grows support)
        | inr other ↦
            All-raise s s' e.prerequisites grows
              (v.supported k e found (ground (arith, other, level k, positive)))
      ];
    }
