-- ===== src/Game/Quests/Tests.antt =====
-- Examples with the built-in quests.
use velochain.Prelude.{◌≡◌, refl, true, false, some, List, [], ◌∷◌, ℕ, contains}
use velochain.Map.{lookup}
use velochain.Game.Quests.{
  PlayerQuestState, ActiveQuest, QuestDef, new, get, accept_quest, is_completed, is_active,
  is_among, are_complete, is_complete, required_of,
}
use velochain.Game.Quests.Events.{
  Call, accept_call, kill_call, gather_call, completions_call, run, step, on_kill, on_gather,
  on_craft, check_completions, advance_all, advance_quest, advance_objectives, advanced, does_count,
  kept, done_reversed,
}
use velochain.Game.Quests.Defaults.{default_registry, wolf, first_steps}
use velochain.Game.Quests.Soundness.{run-IsOrderly}
use velochain.Game.Quests.Soundness.Kept.{IsOrderly}
use velochain.Game.Quests.Locks.{run-Locks}

-- A player of level 20 takes the first quest and the one for wood, and gathers wood.
abbrev played : List Call
played =
    accept_call 1 20 0
    ∷ accept_call 2 20 0
    ∷ gather_call 31 7
    ∷ completions_call
    ∷ kill_call wolf
    ∷ []

abbrev steps_taken : ActiveQuest
steps_taken = record {
  quest_id = 1;
  objectives = record { current = 0; required = 1; complete = false } ∷ [];
  accepted_tick = 0;
}

abbrev after_play : PlayerQuestState
after_play = record { active = steps_taken ∷ []; completed = 2 ∷ []; max_active = 5 }

test_played : run default_registry new played ≡ some after_play
unfolding run step accept_quest get lookup new is_active is_among is_completed on_kill on_gather
    on_craft check_completions advance_all advance_quest advance_objectives advanced does_count kept
    done_reversed is_complete are_complete default_registry required_of
test_played = refl

-- The first quest stays open, and the quest against the wolves is out of reach.
run-Locks_example :
    (is_completed after_play 1 ≡ false)
    × ((next level tick : ℕ) (p : QuestDef)
        → get default_registry next ≡ some p
        → contains 1 p.prerequisites ≡ true
        → (accept_quest default_registry next level after_play tick).0 ≡ after_play)
unfolding get lookup default_registry
run-Locks_example = run-Locks default_registry played after_play 1 first_steps test_played refl refl

run-IsOrderly_example :
    (s : PlayerQuestState) × (run default_registry new played ≡ some s)
    × IsOrderly default_registry s
run-IsOrderly_example = run-IsOrderly default_registry played
