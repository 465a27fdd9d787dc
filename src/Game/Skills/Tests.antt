-- ===== src/Game/Skills/Tests.antt =====
-- Examples with the built-in skills.
use velochain.Prelude.{◌≡◌, refl, arith, List, [], ◌∷◌}
use velochain.Map.{lookup, insert}
use velochain.Game.Skills.{
  Call, award_call, allocate_call, new, get, run, step, allocate_point, award_level_up_points,
  skill_points_per_level, skill_level,
}
use velochain.Game.Skills.Defaults.{default_registry}
use velochain.Game.Skills.Points.{AreWords, IsBalanced}
use velochain.Game.Skills.Soundness.{run-IsBalanced}

-- Two levels gained, and two points for the first skill.
abbrev played : List Call
played =
    award_call 1 ∷ award_call 6 ∷ allocate_call 1 6 ∷ allocate_call 1 6 ∷ allocate_call 99 6 ∷ []

test_played :
    run default_registry new played
    ≡ record { skills = (1, 2) ∷ []; available_points = 1; total_points_earned = 3 }
unfolding run step new allocate_point award_level_up_points skill_points_per_level skill_level get
    lookup insert default_registry
test_played = refl

default_registry-AreWords : AreWords default_registry
unfolding get lookup default_registry
default_registry-AreWords id d known = ground arith

run-IsBalanced_example : IsBalanced default_registry (run default_registry new played)
run-IsBalanced_example =
    run-IsBalanced default_registry played default_registry-AreWords (omega arith)
