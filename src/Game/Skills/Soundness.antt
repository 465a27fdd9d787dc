-- ===== src/Game/Skills/Soundness.antt =====
-- crates/game-engine/src/skills.rs: the points and levels of a player after any sequence of calls.
use velochain.Prelude.{
  ℕ, ◌+◌, ◌*◌, ◌^◌, ◌≤◌, ◌<◌, ◌≡◌, refl, some, List, [], ◌∷◌, ltb, leb, arith, Bool-cases,
  Option-cases, inl, inr, length,
}
use velochain.Map.{lookup}
use velochain.Game.Skills.{
  SkillDef, PlayerSkillState, new, skill_level, SkillRegistry, get, award_level_up_points, missing,
  spend, after_prereqs, allocate_point, Call, award_call, allocate_call, step, run,
}
use velochain.Game.Skills.Points.{
  IsBalanced, AreWords, raised-IsBalanced, skill_points-le, missing-IsSupported, IsSupported,
}

spend-IsBalanced :
    (r : SkillRegistry) (s : PlayerSkillState) (id : ℕ) (d : SkillDef)
    → AreWords r
    → get r id ≡ some d
    → skill_level s id < d.max_level
    → IsSupported s d
    → IsBalanced r s
    → IsBalanced r (spend s id d).0
spend-IsBalanced r s id d words known below support v =
    elim (Bool-cases (ltb s.available_points d.cost_per_level)) [
      | inl poor ↦ rw poor v
      | inr rich ↦
          rw rich (raised-IsBalanced r s id d words known below (ground (arith, rich)) support v)
    ]

after_prereqs-IsBalanced :
    (r : SkillRegistry) (s : PlayerSkillState) (id : ℕ) (d : SkillDef) (lacks : List (ℕ × ℕ))
    → AreWords r
    → get r id ≡ some d
    → skill_level s id < d.max_level
    → (lacks ≡ [] → IsSupported s d)
    → IsBalanced r s
    → IsBalanced r (after_prereqs s id d lacks).0
after_prereqs-IsBalanced r s id d [] words known below support v =
    spend-IsBalanced r s id d words known below (support refl) v
after_prereqs-IsBalanced r s id d (p ∷ ps) words known below support v = v

allocate-IsBalanced :
    (r : SkillRegistry) (s : PlayerSkillState) (id level : ℕ)
    → AreWords r
    → IsBalanced r s
    → IsBalanced r (allocate_point r id level s).0
unfolding allocate_point
allocate-IsBalanced r s id level words v = elim (Option-cases (get r id)) [
  | inl unknown ↦ rw (unknown, allocate_point) v
  | inr (d, known) ↦ elim (Bool-cases (leb d.max_level (skill_level s id))) [
    | inl top ↦ rw (known, top, allocate_point) v
    | inr below ↦ elim (Bool-cases (ltb level d.required_level)) [
      | inl low ↦ rw (known, below, low, allocate_point) v
      | inr high ↦
          rw (known, below, high, allocate_point)
            (after_prereqs-IsBalanced r s id d (missing s d.prerequisites) words known
              (ground (arith, below)) (missing-IsSupported s d.prerequisites) v)
    ]
  ]
]

award-IsBalanced :
    (r : SkillRegistry) (s : PlayerSkillState) (level : ℕ)
    → s.total_points_earned + 4 < 2 ^ 32
    → IsBalanced r s
    → IsBalanced r (award_level_up_points level s).0
unfolding award_level_up_points skill_level
award-IsBalanced r s level room v =
    let few = skill_points-le level in
    record {
      balanced = omega (arith, few, v.balanced, room);
      bounded = v.bounded;
      supported = v.supported;
    }

after_prereqs-earned :
    (s : PlayerSkillState) (id : ℕ) (d : SkillDef) (lacks : List (ℕ × ℕ))
    → (after_prereqs s id d lacks).0.total_points_earned ≡ s.total_points_earned
after_prereqs-earned s id d [] = ground arith
after_prereqs-earned s id d (p ∷ ps) = refl

allocate-earned :
    (r : SkillRegistry) (s : PlayerSkillState) (id level : ℕ)
    → (allocate_point r id level s).0.total_points_earned ≡ s.total_points_earned
unfolding allocate_point
allocate-earned r s id level = elim (Option-cases (get r id)) [
  | inl unknown ↦ rw (unknown, allocate_point) refl
  | inr (d, known) ↦
      rw (known, allocate_point)
        (ground (arith, after_prereqs-earned s id d (missing s d.prerequisites)))
]

step-earned :
    (r : SkillRegistry) (s : PlayerSkillState) (c : Call)
    → (step r s c).total_points_earned ≤ s.total_points_earned + 4
unfolding step award_level_up_points
step-earned r s (award_call level) = omega (arith, skill_points-le level)
step-earned r s (allocate_call id level) = omega (arith, allocate-earned r s id level)

step-IsBalanced :
    (r : SkillRegistry) (s : PlayerSkillState) (c : Call)
    → AreWords r
    → s.total_points_earned + 4 < 2 ^ 32
    → IsBalanced r s
    → IsBalanced r (step r s c)
unfolding step
step-IsBalanced r s (award_call level) words room v = award-IsBalanced r s level room v
step-IsBalanced r s (allocate_call id level) words room v = allocate-IsBalanced r s id level words v

run-IsBalanced_from :
    (r : SkillRegistry) (s : PlayerSkillState) (calls : List Call)
    → AreWords r
    → s.total_points_earned + 4 * length calls < 2 ^ 32
    → IsBalanced r s
    → IsBalanced r (run r s calls)
unfolding run
run-IsBalanced_from r s [] words room v = v
run-IsBalanced_from r s (c ∷ calls) words room v =
    run-IsBalanced_from r (step r s c) calls words (omega (arith, room, step-earned r s c))
      (step-IsBalanced r s c words (omega (arith, room)) v)

-- After any sequence of level-ups and allocations of a new player, fewer than a billion, the points
-- earned are exactly those at hand and those that the levels have cost; no skill of the registry is
-- above its highest level; and a skill that has a level has all its prerequisites.
pub run-IsBalanced :
    (r : SkillRegistry) (calls : List Call)
    → AreWords r
    → length calls < 10 ^ 9
    → IsBalanced r (run r new calls)
unfolding new skill_level lookup
run-IsBalanced r calls words few =
    run-IsBalanced_from r new calls words (omega (arith, few)) (record {
      balanced = refl;
      bounded = λ id d known. omega arith;
      supported = λ id d known positive. absurd (omega (arith, positive));
    })
