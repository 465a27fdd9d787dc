-- ===== src/Game/Skills.antt =====
-- crates/game-engine/src/skills.rs: skill points and the levels they buy. The effects of skills are
-- left out: they are `f32` bonuses that nothing here reads.
mod Points
mod Soundness
pub mod Defaults
mod Tests
use velochain.Prelude.{
  ℕ, ◌+◌, ◌-◌, ◌%◌, ◌^◌, Bool, true, false, ◌&&◌, Option, none, some, List, [], ◌∷◌, ltb, leb, ◌==◌,
  if◌then◌else◌, retain,
}
use velochain.Map.{Map, lookup, insert, values}

pub data SkillTree : Type 0 where
  combat gathering crafting survival : SkillTree

pub data SkillType : Type 0 where
  passive active : SkillType

pub record SkillDef : Type 0 where
  pub id : ℕ
  pub tree : SkillTree
  pub skill_type : SkillType
  pub max_level : ℕ
  pub cost_per_level : ℕ
  pub required_level : ℕ
  -- Skills and the levels that they must have.
  pub prerequisites : List (ℕ × ℕ)

pub record PlayerSkillState : Type 0 where
  pub skills : Map ℕ
  pub available_points : ℕ
  pub total_points_earned : ℕ

unfoldable pub new : PlayerSkillState
new = record { skills = []; available_points = 0; total_points_earned = 0 }

abbrev pub level_in : ℕ → Map ℕ → ℕ
level_in id skills = elim (lookup id skills) [ none ↦ 0 | some n ↦ n ]

unfoldable pub skill_level : PlayerSkillState → ℕ → ℕ
skill_level s id = level_in id s.skills

abbrev pub sum32 : List ℕ → ℕ
sum32 [] = 0
sum32 (n ∷ ns) = (n + sum32 ns) % 2 ^ 32

unfoldable pub total_allocated : PlayerSkillState → ℕ
total_allocated s = sum32 (values s.skills)

-- The ranges of the `match` in order; a level of 0 falls to the last.
unfoldable pub skill_points_per_level : ℕ → ℕ
skill_points_per_level level =
    if leb 1 level && leb level 5
    then 1
    else (if leb 6 level && leb level 10
        then 2
        else (if leb 11 level && leb level 20 then 3 else 4))

pub data SkillError : Type 0 where
  not_found at_max_level : ℕ → SkillError
  not_enough_points level_too_low : ℕ → ℕ → SkillError
  prerequisites_not_met : List (ℕ × ℕ) → SkillError

pub data SkillResult : Type 0 where
  leveled_up : ℕ → ℕ → SkillResult
  points_awarded : ℕ → SkillResult
  skill_error : SkillError → SkillResult

abbrev pub SkillRegistry : Type 0
SkillRegistry = Map SkillDef

unfoldable pub register : SkillRegistry → SkillDef → SkillRegistry
register r def = insert def.id def r

unfoldable pub get : SkillRegistry → ℕ → Option SkillDef
get r id = lookup id r

abbrev pub is_tree : SkillTree → SkillTree → Bool
is_tree combat combat = true
is_tree gathering gathering = true
is_tree crafting crafting = true
is_tree survival survival = true
is_tree _ _ = false

unfoldable pub skills_in_tree : SkillRegistry → SkillTree → List SkillDef
skills_in_tree r tree = retain (λ d. is_tree d.tree tree) (values r)

unfoldable pub award_level_up_points : ℕ → PlayerSkillState → PlayerSkillState × SkillResult
award_level_up_points level s =
    let points = skill_points_per_level level in
    (
      record s {
        available_points = (s.available_points + points) % 2 ^ 32;
        total_points_earned = (s.total_points_earned + points) % 2 ^ 32;
      },
      points_awarded points,
    )

abbrev pub missing : PlayerSkillState → List (ℕ × ℕ) → List (ℕ × ℕ)
missing s [] = []
missing s ((id, needed) ∷ rest) =
    if ltb (skill_level s id) needed then (id, needed) ∷ missing s rest else missing s rest

abbrev pub raised : PlayerSkillState → ℕ → SkillDef → PlayerSkillState
raised s id skill = record s {
  available_points = s.available_points - skill.cost_per_level;
  skills = insert id ((level_in id s.skills + 1) % 2 ^ 32) s.skills;
}

-- The check of the points, which the subtraction after it rests on.
abbrev pub spend : PlayerSkillState → ℕ → SkillDef → PlayerSkillState × SkillResult
spend s id skill =
    if ltb s.available_points skill.cost_per_level
    then (s, skill_error (not_enough_points skill.cost_per_level s.available_points))
    else (raised s id skill, leveled_up id (skill_level (raised s id skill) id))

abbrev pub after_prereqs :
    PlayerSkillState → ℕ → SkillDef → List (ℕ × ℕ) → PlayerSkillState × SkillResult
after_prereqs s id skill [] = spend s id skill
after_prereqs s id skill (p ∷ ps) = (s, skill_error (prerequisites_not_met (p ∷ ps)))

abbrev pub allocate_known : PlayerSkillState → ℕ → SkillDef → ℕ → PlayerSkillState × SkillResult
allocate_known s id skill level =
    if leb skill.max_level (skill_level s id)
    then (s, skill_error (at_max_level id))
    else (if ltb level skill.required_level
        then (s, skill_error (level_too_low skill.required_level level))
        else after_prereqs s id skill (missing s skill.prerequisites))

unfoldable pub allocate_point :
    SkillRegistry → ℕ → ℕ → PlayerSkillState → PlayerSkillState × SkillResult
allocate_point r id level s = elim (get r id) [
  | none ↦ (s, skill_error (not_found id))
  | some skill ↦ allocate_known s id skill level
]

pub data Call : Type 0 where
  award_call : ℕ → Call
  -- The skill and the player's level.
  allocate_call : ℕ → ℕ → Call

unfoldable pub step : SkillRegistry → PlayerSkillState → Call → PlayerSkillState
step r s (award_call level) = (award_level_up_points level s).0
step r s (allocate_call id level) = (allocate_point r id level s).0

unfoldable pub run : SkillRegistry → PlayerSkillState → List Call → PlayerSkillState
run r s [] = s
run r s (c ∷ cs) = run r (step r s c) cs
