-- ===== src/Game/Crafting/Tests.antt =====
-- Examples with the built-in recipes.
use velochain.Prelude.{
  ℕ, ◌+◌, ◌≤◌, ◌<◌, ◌≡◌, ◌==◌, if◌then◌else◌, refl, arith, none, some, List, [], ◌∷◌, length,
}
use velochain.Map.{Map, lookup}
use velochain.Game.Crafting.{
  CraftingRecipe, get, quantity_of, execute_craft, can_craft, consume, missing, success,
  recipe_not_found, level_too_low, missing_materials,
}
use velochain.Game.Crafting.Defaults.{default_registry, iron_sword}
use velochain.Game.Crafting.Consumption.{Covers, taken, AreWords}
use velochain.Game.Crafting.Decisions.{
  made_of, AreShortages, execute_craft-conserves, execute_craft-reports,
}

-- Iron ore and wood.
abbrev bag : Map ℕ
bag = (30, 7) ∷ (31, 2) ∷ []

bag-AreWords : AreWords bag
unfolding lookup
bag-AreWords item = ground arith

execute_craft-conserves_example :
    (after : Map ℕ) × (execute_craft default_registry 2 3 bag ≡ some (after, made_of 2 iron_sword))
    × ((item : ℕ)
        → quantity_of item after + taken item iron_sword.materials
          ≡ quantity_of item bag + (if 2 == item then 1 else 0))
unfolding get lookup default_registry
execute_craft-conserves_example =
    execute_craft-conserves default_registry 2 3 bag iron_sword refl
      (omega arith, refl, (omega arith, refl, tt)) bag-AreWords (omega arith) (omega arith)
      (omega arith, (omega arith, tt))

test_execute_craft :
    execute_craft default_registry 2 3 bag ≡ some ((30, 2) ∷ (2, 1) ∷ [], success 2 2 1)
unfolding execute_craft can_craft get lookup default_registry missing consume velochain.Map.insert
    velochain.Map.remove
test_execute_craft = refl

execute_craft-reports_example :
    (get default_registry 2 ≡ none
      → execute_craft default_registry 2 9 [] ≡ some ([], recipe_not_found 2))
    × ((recipe : CraftingRecipe)
        → get default_registry 2 ≡ some recipe
        → 9 < recipe.required_level
        → execute_craft default_registry 2 9 [] ≡ some ([], level_too_low recipe.required_level 9))
    × ((recipe : CraftingRecipe)
        → get default_registry 2 ≡ some recipe
        → recipe.required_level ≤ 9
        → ¬ Covers [] recipe.materials
        → (lacks : List (ℕ × ℕ × ℕ)) × (execute_craft default_registry 2 9 []
            ≡ some ([], missing_materials lacks))
          × (0 < length lacks)
          × AreShortages [] recipe.materials lacks)
execute_craft-reports_example = execute_craft-reports default_registry 2 9 []
