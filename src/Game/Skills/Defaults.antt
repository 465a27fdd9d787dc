-- ===== src/Game/Skills/Defaults.antt =====
-- crates/game-engine/src/skills.rs: the built-in skills, less their effects.
use velochain.Prelude.{[], ◌∷◌}
use velochain.Game.Skills.{combat, gathering, crafting, survival, passive, SkillRegistry}

unfoldable pub default_registry : SkillRegistry
default_registry =
    (
      1,
      record {
        id = 1;
        tree = combat;
        skill_type = passive;
        max_level = 10;
        cost_per_level = 1;
        required_level = 1;
        prerequisites = [];
      },
    )
    ∷ (
      2,
      record {
        id = 2;
        tree = combat;
        skill_type = passive;
        max_level = 10;
        cost_per_level = 1;
        required_level = 1;
        prerequisites = [];
      },
    )
    ∷ (
      3,
      record {
        id = 3;
        tree = combat;
        skill_type = passive;
        max_level = 5;
        cost_per_level = 2;
        required_level = 3;
        prerequisites = (1, 3) ∷ [];
      },
    )
    ∷ (
      4,
      record {
        id = 4;
        tree = combat;
        skill_type = passive;
        max_level = 5;
        cost_per_level = 2;
        required_level = 5;
        prerequisites = (3, 2) ∷ [];
      },
    )
    ∷ (
      10,
      record {
        id = 10;
        tree = gathering;
        skill_type = passive;
        max_level = 10;
        cost_per_level = 1;
        required_level = 1;
        prerequisites = [];
      },
    )
    ∷ (
      11,
      record {
        id = 11;
        tree = gathering;
        skill_type = passive;
        max_level = 5;
        cost_per_level = 2;
        required_level = 5;
        prerequisites = (10, 3) ∷ [];
      },
    )
    ∷ (
      20,
      record {
        id = 20;
        tree = crafting;
        skill_type = passive;
        max_level = 5;
        cost_per_level = 2;
        required_level = 2;
        prerequisites = [];
      },
    )
    ∷ (
      30,
      record {
        id = 30;
        tree = survival;
        skill_type = passive;
        max_level = 10;
        cost_per_level = 1;
        required_level = 1;
        prerequisites = [];
      },
    )
    ∷ (
      31,
      record {
        id = 31;
        tree = survival;
        skill_type = passive;
        max_level = 5;
        cost_per_level = 2;
        required_level = 3;
        prerequisites = (30, 3) ∷ [];
      },
    )
    ∷ (
      32,
      record {
        id = 32;
        tree = survival;
        skill_type = passive;
        max_level = 5;
        cost_per_level = 1;
        required_level = 2;
        prerequisites = [];
      },
    )
    ∷ []
