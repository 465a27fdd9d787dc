-- ===== src/Game/Crafting/Decisions.antt =====
-- When crafting succeeds, and what it does to the inventory in each case.
use velochain.Prelude.{
  ℕ, ◌+◌, ◌^◌, ◌≤◌, ◌<◌, ◌≡◌, ◌↔◌, refl, true, false, none, some, List, [], ◌∷◌, ltb, ◌==◌,
  if◌then◌else◌, arith, Bool-cases, inl, inr, length, subst,
}
use velochain.Map.{Map}
use velochain.Game.Crafting.{
  CraftingRecipe, CraftResult, success, missing_materials, level_too_low, recipe_not_found,
  CraftingRegistry, get, quantity_of, missing, can_craft, craft_recipe, executed, execute_craft,
  decided,
}
use velochain.Game.Crafting.Consumption.{
  AreMaterials, AreWords, Covers, taken, craft_recipe-conserves,
}

Covers-missing :
    (inventory : Map ℕ) (materials : List (ℕ × ℕ))
    → Covers inventory materials
    → missing materials inventory ≡ []
unfolding missing
Covers-missing inventory [] c = refl
Covers-missing inventory ((i, n) ∷ materials) c =
    ground (arith, c.0, Covers-missing inventory materials c.1)

missing-Covers :
    (inventory : Map ℕ) (materials : List (ℕ × ℕ))
    → missing materials inventory ≡ []
    → Covers inventory materials
unfolding missing
missing-Covers inventory [] c = tt
missing-Covers inventory ((i, n) ∷ materials) c =
    ground (arith, c, missing-Covers inventory materials)

abbrev pub made_of : ℕ → CraftingRecipe → CraftResult
made_of id recipe = success id recipe.result_item_id recipe.result_quantity

decided-success :
    (id : ℕ) (recipe : CraftingRecipe) (lacks : List (ℕ × ℕ × ℕ))
    → decided id recipe lacks ≡ made_of id recipe
    → lacks ≡ []
decided-success id recipe [] e = refl
decided-success id recipe (lack ∷ lacks) e = absurd cc

-- A known recipe can be crafted exactly if the player has its level and at least the required
-- quantity of each material.
pub can_craft_iff :
    (r : CraftingRegistry) (id level : ℕ) (inventory : Map ℕ) (recipe : CraftingRecipe)
    → get r id ≡ some recipe
    → (can_craft r id level inventory ≡ made_of id recipe)
      ↔ ((recipe.required_level ≤ level) × Covers inventory recipe.materials)
unfolding can_craft
can_craft_iff r id level inventory recipe known = (
  λ done. elim (Bool-cases (ltb level recipe.required_level)) [
    | inl low ↦ absurd (cc (rw (known, low, can_craft) at done))
    | inr enough ↦ (
      ground (arith, enough),
      missing-Covers inventory recipe.materials (
          decided-success id recipe (missing recipe.materials inventory)
            (rw (known, enough, can_craft) at done)),
    )
  ],
  λ (enough, covered).
      let high : ltb level recipe.required_level ≡ false = ground (arith, enough) in
      rw (known, high, Covers-missing inventory recipe.materials covered, can_craft) refl,
)

-- Crafting a known recipe whose materials are distinct and asked for in positive numbers does not
-- panic where the player has the level and the materials and the result fits in 32 bits; for every
-- item, what is left and what the materials took is what there was before and what was made.
pub execute_craft-conserves :
    (r : CraftingRegistry) (id level : ℕ) (inventory : Map ℕ) (recipe : CraftingRecipe)
    → get r id ≡ some recipe
    → AreMaterials recipe.materials
    → AreWords inventory
    → quantity_of recipe.result_item_id inventory + recipe.result_quantity < 2 ^ 32
    → recipe.required_level ≤ level
    → Covers inventory recipe.materials
    → (after : Map ℕ) × (execute_craft r id level inventory ≡ some (after, made_of id recipe))
      × ((item : ℕ)
          → quantity_of item after + taken item recipe.materials
            ≡ quantity_of item inventory
              + (if recipe.result_item_id == item then recipe.result_quantity else 0))
unfolding execute_craft
execute_craft-conserves r id level inventory recipe known m w fits enough covered =
    let (after, ran, kept) = craft_recipe-conserves recipe inventory m w fits covered in
    let can = (can_craft_iff r id level inventory recipe known).1 (enough, covered) in
    (after, rw (can, execute_craft) (rw (known, ran, executed, craft_recipe) refl), kept)

missing-nonempty :
    (inventory : Map ℕ) (materials : List (ℕ × ℕ))
    → ¬ Covers inventory materials
    → (lack : ℕ × ℕ × ℕ) × (lacks : List (ℕ × ℕ × ℕ)) × (missing materials inventory ≡ lack ∷ lacks)
missing-nonempty inventory materials short =
    go (missing materials inventory) (λ e. missing-Covers inventory materials e)
  where
    go :
        (lacks : List (ℕ × ℕ × ℕ))
        → (lacks ≡ [] → Covers inventory materials)
        → (l : ℕ × ℕ × ℕ) × (ls : List (ℕ × ℕ × ℕ)) × (lacks ≡ l ∷ ls)
    go [] covers = absurd (short (covers refl))
    go (l ∷ ls) covers = (l, ls, refl)

-- The list names the shortages of the materials, in their order: each material of which there is
-- less than required, with what is required and what there is, and no other.
pub data AreShortages (inventory : Map ℕ) : List (ℕ × ℕ) → List (ℕ × ℕ × ℕ) → Type 0 where
  done : AreShortages inventory [] []
  enough :
      {item required : ℕ} {materials : List (ℕ × ℕ)} {lacks : List (ℕ × ℕ × ℕ)}
      → required ≤ quantity_of item inventory
      → AreShortages inventory materials lacks
      → AreShortages inventory ((item, required) ∷ materials) lacks
  short :
      {item required : ℕ} {materials : List (ℕ × ℕ)} {lacks : List (ℕ × ℕ × ℕ)}
      → quantity_of item inventory < required
      → AreShortages inventory materials lacks
      → AreShortages inventory
          ((item, required) ∷ materials)
          ((item, required, quantity_of item inventory) ∷ lacks)

missing-AreShortages :
    (inventory : Map ℕ) (materials : List (ℕ × ℕ))
    → AreShortages inventory materials (missing materials inventory)
unfolding missing
missing-AreShortages inventory [] = AreShortages.done
missing-AreShortages inventory ((i, n) ∷ materials) =
    let rest = missing-AreShortages inventory materials in
    elim (Bool-cases (ltb (quantity_of i inventory) n)) [
      | inl less ↦ rw (less, missing) (AreShortages.short (ground (arith, less)) rest)
      | inr covered ↦ rw (covered, missing) (AreShortages.enough (ground (arith, covered)) rest)
    ]

-- A request that cannot be granted leaves the inventory as it is and says why: the recipe is
-- unknown, or the level is too low, or else exactly the materials of the recipe that are short, at
-- least one, in its order, with what is required and what there is of each.
pub execute_craft-reports :
    (r : CraftingRegistry) (id level : ℕ) (inventory : Map ℕ)
    → (get r id ≡ none → execute_craft r id level inventory ≡ some (inventory, recipe_not_found id))
      × ((recipe : CraftingRecipe)
          → get r id ≡ some recipe
          → level < recipe.required_level
          → execute_craft r id level inventory
            ≡ some (inventory, level_too_low recipe.required_level level))
      × ((recipe : CraftingRecipe)
          → get r id ≡ some recipe
          → recipe.required_level ≤ level
          → ¬ Covers inventory recipe.materials
          → (lacks : List (ℕ × ℕ × ℕ)) × (execute_craft r id level inventory
              ≡ some (inventory, missing_materials lacks))
            × (0 < length lacks)
            × AreShortages inventory recipe.materials lacks)
unfolding execute_craft can_craft
execute_craft-reports r id level inventory = (
  λ unknown. rw (unknown, execute_craft, can_craft) refl,
  λ recipe known low.
      let below : ltb level recipe.required_level ≡ true = ground (arith, low) in
      rw (known, below, execute_craft, can_craft) refl,
  λ recipe known enough short.
      let high : ltb level recipe.required_level ≡ false = ground (arith, enough) in
      let (l, ls, some_lack) = missing-nonempty inventory recipe.materials short in
      (
        l ∷ ls,
        rw (known, high, some_lack, execute_craft, can_craft) refl,
        omega arith,
        subst (AreShortages inventory recipe.materials) some_lack
            (missing-AreShortages inventory recipe.materials),
      ),
)
