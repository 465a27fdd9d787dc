-- ===== src/Game/Crafting/Defaults.antt =====
-- crates/game-engine/src/crafting.rs: the built-in recipes.
use velochain.Prelude.{[], ◌∷◌}
use velochain.Game.Crafting.{weapon, armor, consumable, material, CraftingRegistry, CraftingRecipe}

abbrev pub iron_sword : CraftingRecipe
iron_sword = record {
  id = 2;
  materials = (30, 5) ∷ (31, 2) ∷ [];
  result_item_id = 2;
  result_quantity = 1;
  required_level = 3;
  craft_ticks = 0;
  category = weapon;
}

unfoldable pub default_registry : CraftingRegistry
default_registry =
    (
      1,
      record {
        id = 1;
        materials = (31, 5) ∷ [];
        result_item_id = 1;
        result_quantity = 1;
        required_level = 1;
        craft_ticks = 0;
        category = weapon;
      },
    )
    ∷ (2, iron_sword)
    ∷ (
      3,
      record {
        id = 3;
        materials = (30, 15) ∷ (31, 5) ∷ [];
        result_item_id = 3;
        result_quantity = 1;
        required_level = 8;
        craft_ticks = 0;
        category = weapon;
      },
    )
    ∷ (
      4,
      record {
        id = 4;
        materials = (30, 30) ∷ (32, 5) ∷ (31, 10) ∷ [];
        result_item_id = 4;
        result_quantity = 1;
        required_level = 15;
        craft_ticks = 0;
        category = weapon;
      },
    )
    ∷ (
      10,
      record {
        id = 10;
        materials = (31, 3) ∷ [];
        result_item_id = 10;
        result_quantity = 1;
        required_level = 1;
        craft_ticks = 0;
        category = armor;
      },
    )
    ∷ (
      11,
      record {
        id = 11;
        materials = (30, 10) ∷ (31, 3) ∷ [];
        result_item_id = 11;
        result_quantity = 1;
        required_level = 5;
        craft_ticks = 0;
        category = armor;
      },
    )
    ∷ (
      12,
      record {
        id = 12;
        materials = (30, 8) ∷ (31, 2) ∷ [];
        result_item_id = 12;
        result_quantity = 1;
        required_level = 4;
        craft_ticks = 0;
        category = armor;
      },
    )
    ∷ (
      20,
      record {
        id = 20;
        materials = (31, 2) ∷ [];
        result_item_id = 20;
        result_quantity = 2;
        required_level = 1;
        craft_ticks = 0;
        category = consumable;
      },
    )
    ∷ (
      21,
      record {
        id = 21;
        materials = (20, 3) ∷ (32, 1) ∷ [];
        result_item_id = 21;
        result_quantity = 1;
        required_level = 10;
        craft_ticks = 0;
        category = consumable;
      },
    )
    ∷ (
      22,
      record {
        id = 22;
        materials = (31, 1) ∷ [];
        result_item_id = 22;
        result_quantity = 2;
        required_level = 1;
        craft_ticks = 0;
        category = consumable;
      },
    )
    ∷ (
      30,
      record {
        id = 30;
        materials = (30, 3) ∷ (31, 1) ∷ [];
        result_item_id = 30;
        result_quantity = 2;
        required_level = 2;
        craft_ticks = 0;
        category = material;
      },
    )
    ∷ []
