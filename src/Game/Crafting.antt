-- ===== src/Game/Crafting.antt =====
-- crates/game-engine/src/crafting.rs: recipes and the exchange of materials for a result. An
-- inventory maps items to quantities.
mod Consumption
mod Decisions
pub mod Defaults
mod Tests
use velochain.Prelude.{
  ℕ, ◌+◌, ◌-◌, ◌%◌, ◌^◌, Bool, true, false, Option, none, some, List, [], ◌∷◌, ltb, leb, ◌==◌,
  if◌then◌else◌, retain,
}
use velochain.Map.{Map, lookup, insert, remove, values}

pub data CraftCategory : Type 0 where
  weapon armor consumable material tool : CraftCategory

pub record CraftingRecipe : Type 0 where
  pub id : ℕ
  pub materials : List (ℕ × ℕ)
  pub result_item_id : ℕ
  pub result_quantity : ℕ
  pub required_level : ℕ
  pub craft_ticks : ℕ
  pub category : CraftCategory

pub data CraftResult : Type 0 where
  success : ℕ → ℕ → ℕ → CraftResult
  missing_materials : List (ℕ × ℕ × ℕ) → CraftResult
  level_too_low : ℕ → ℕ → CraftResult
  recipe_not_found : ℕ → CraftResult

abbrev pub CraftingRegistry : Type 0
CraftingRegistry = Map CraftingRecipe

unfoldable pub register : CraftingRegistry → CraftingRecipe → CraftingRegistry
register r recipe = insert recipe.id recipe r

unfoldable pub get : CraftingRegistry → ℕ → Option CraftingRecipe
get r id = lookup id r

unfoldable pub recipes_for_level : CraftingRegistry → ℕ → List CraftingRecipe
recipes_for_level r level = retain (λ c. leb c.required_level level) (values r)

abbrev pub is_category : CraftCategory → CraftCategory → Bool
is_category weapon weapon = true
is_category armor armor = true
is_category consumable consumable = true
is_category material material = true
is_category tool tool = true
is_category _ _ = false

unfoldable pub recipes_by_category : CraftingRegistry → CraftCategory → List CraftingRecipe
recipes_by_category r category = retain (λ c. is_category c.category category) (values r)

-- `get(..).copied().unwrap_or(0)`.
abbrev pub quantity_of : ℕ → Map ℕ → ℕ
quantity_of item inventory = elim (lookup item inventory) [ none ↦ 0 | some n ↦ n ]

unfoldable pub missing : List (ℕ × ℕ) → Map ℕ → List (ℕ × ℕ × ℕ)
missing [] inventory = []
missing ((item, required) ∷ materials) inventory =
    let rest = missing materials inventory in
    if ltb (quantity_of item inventory) required
    then (item, required, quantity_of item inventory) ∷ rest
    else rest

abbrev pub decided : ℕ → CraftingRecipe → List (ℕ × ℕ × ℕ) → CraftResult
decided id recipe [] = success id recipe.result_item_id recipe.result_quantity
decided id recipe (lack ∷ lacks) = missing_materials (lack ∷ lacks)

unfoldable pub can_craft : CraftingRegistry → ℕ → ℕ → Map ℕ → CraftResult
can_craft r id level inventory = elim (get r id) [
  | none ↦ recipe_not_found id
  | some recipe ↦
      if ltb level recipe.required_level
      then level_too_low recipe.required_level level
      else decided id recipe (missing recipe.materials inventory)
]

-- `u32` subtraction in a release build.
abbrev pub sub32 : ℕ → ℕ → ℕ
sub32 a b = (a + 2 ^ 32 - b) % 2 ^ 32

abbrev pub left_with : ℕ → ℕ → Map ℕ → Map ℕ
left_with item n inventory = if n == 0 then remove item inventory else insert item n inventory

-- `none` is the panic of `get_mut(..).unwrap()` on an item that is gone.
unfoldable pub consume : List (ℕ × ℕ) → Map ℕ → Option (Map ℕ)
consume [] inventory = some inventory
consume ((item, n) ∷ materials) inventory = elim (lookup item inventory) [
  | none ↦ none
  | some entry ↦ consume materials (left_with item (sub32 entry n) inventory)
]

abbrev pub produce : ℕ → ℕ → Map ℕ → Map ℕ
produce item n inventory = insert item ((quantity_of item inventory + n) % 2 ^ 32) inventory

abbrev pub craft_recipe : CraftingRecipe → Map ℕ → Option (Map ℕ)
craft_recipe recipe inventory = elim (consume recipe.materials inventory) [
  | none ↦ none
  | some inventory' ↦ some (produce recipe.result_item_id recipe.result_quantity inventory')
]

abbrev pub executed : CraftingRegistry → Map ℕ → CraftResult → Option (Map ℕ × CraftResult)
executed r inventory (success id item n) = elim (get r id) [
  | none ↦ none
  | some recipe ↦ elim (craft_recipe recipe inventory) [
    | none ↦ none
    | some inventory' ↦ some (inventory', success id item n)
  ]
]
executed r inventory result = some (inventory, result)

-- `none` is a panic.
unfoldable pub execute_craft : CraftingRegistry → ℕ → ℕ → Map ℕ → Option (Map ℕ × CraftResult)
execute_craft r id level inventory = executed r inventory (can_craft r id level inventory)
