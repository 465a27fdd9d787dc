-- ===== src/Game/Quests/Defaults.antt =====
-- crates/game-engine/src/quests.rs: the built-in quests.
use velochain.Prelude.{ℕ, true, false, [], ◌∷◌}
use velochain.Game.Quests.{kill, gather, explore, deliver, talk_to, craft, QuestRegistry, QuestDef}

-- The types of NPCs, numbered.
abbrev pub wolf : ℕ
wolf = 1

abbrev pub dragon : ℕ
dragon = 2

abbrev pub skeleton : ℕ
skeleton = 3

abbrev pub merchant : ℕ
merchant = 4

-- The bits of 50.0 and 20.0 as `f32`.
abbrev fifty : ℕ
fifty = 1112014848

abbrev twenty : ℕ
twenty = 1101004800

abbrev pub first_steps : QuestDef
first_steps = record {
  id = 1;
  objectives = explore fifty fifty twenty ∷ [];
  reward = record { experience = 50; items = (1, 1) ∷ []; gold = 10 };
  required_level = 1;
  prerequisites = [];
  repeatable = false;
}

unfoldable pub default_registry : QuestRegistry
default_registry =
    (1, first_steps)
    ∷ (
      2,
      record {
        id = 2;
        objectives = gather 31 5 ∷ [];
        reward = record { experience = 80; items = (20, 2) ∷ []; gold = 20 };
        required_level = 1;
        prerequisites = [];
        repeatable = true;
      },
    )
    ∷ (
      3,
      record {
        id = 3;
        objectives = kill wolf 3 ∷ [];
        reward = record { experience = 150; items = (2, 1) ∷ []; gold = 50 };
        required_level = 2;
        prerequisites = 1 ∷ [];
        repeatable = false;
      },
    )
    ∷ (
      10,
      record {
        id = 10;
        objectives = gather 30 10 ∷ [];
        reward = record { experience = 200; items = (11, 1) ∷ []; gold = 100 };
        required_level = 3;
        prerequisites = [];
        repeatable = true;
      },
    )
    ∷ (
      11,
      record {
        id = 11;
        objectives = talk_to merchant ∷ deliver 31 5 merchant ∷ [];
        reward = record { experience = 120; items = (20, 3) ∷ []; gold = 30 };
        required_level = 2;
        prerequisites = [];
        repeatable = false;
      },
    )
    ∷ (
      12,
      record {
        id = 12;
        objectives = craft 2 1 ∷ [];
        reward = record { experience = 250; items = (30, 10) ∷ []; gold = 75 };
        required_level = 3;
        prerequisites = 10 ∷ [];
        repeatable = false;
      },
    )
    ∷ (
      20,
      record {
        id = 20;
        objectives = kill dragon 1 ∷ [];
        reward = record { experience = 1000; items = (32, 3) ∷ (21, 5) ∷ []; gold = 500 };
        required_level = 10;
        prerequisites = 3 ∷ [];
        repeatable = false;
      },
    )
    ∷ (
      21,
      record {
        id = 21;
        objectives = kill skeleton 10 ∷ [];
        reward = record { experience = 500; items = (3, 1) ∷ []; gold = 200 };
        required_level = 5;
        prerequisites = 3 ∷ [];
        repeatable = true;
      },
    )
    ∷ (
      22,
      record {
        id = 22;
        objectives = craft 4 1 ∷ [];
        reward = record { experience = 2000; items = []; gold = 1000 };
        required_level = 15;
        prerequisites = 12 ∷ 20 ∷ [];
        repeatable = false;
      },
    )
    ∷ []
