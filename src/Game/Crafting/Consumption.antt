-- ===== src/Game/Crafting/Consumption.antt =====
-- What crafting does to an inventory.
use velochain.Prelude.{
  ℕ, ◌+◌, ◌%◌, ◌^◌, ◌≤◌, ◌<◌, ◌≡◌, refl, false, some, List, [], ◌∷◌, ◌==◌, if◌then◌else◌, arith,
  Bool-cases, Option-cases, inl, inr, ==→eq, subst, contains,
}
use velochain.Map.{Map, lookup, lookup-insert, lookup-remove}
use velochain.Game.Crafting.{
  CraftingRecipe, quantity_of, sub32, left_with, consume, produce, craft_recipe,
}

-- What the materials take of an item.
abbrev pub taken : ℕ → List (ℕ × ℕ) → ℕ
taken item [] = 0
taken item ((i, n) ∷ materials) = (if i == item then n else 0) + taken item materials

abbrev pub items_of : List (ℕ × ℕ) → List ℕ
items_of [] = []
items_of ((i, n) ∷ materials) = i ∷ items_of materials

-- Quantities that are words, none of them zero, and each item once.
abbrev pub AreMaterials : List (ℕ × ℕ) → Type 0
AreMaterials [] = Unit
AreMaterials ((i, n) ∷ materials) =
    (0 < n) × (contains i (items_of materials) ≡ false) × AreMaterials materials

-- What an inventory holds in sufficient quantity.
abbrev pub Covers : Map ℕ → List (ℕ × ℕ) → Type 0
Covers inventory [] = Unit
Covers inventory ((i, n) ∷ materials) = (n ≤ quantity_of i inventory) × Covers inventory materials

abbrev pub AreWords : Map ℕ → Type 0
AreWords inventory = (item : ℕ) → quantity_of item inventory < 2 ^ 32

left_with-quantity :
    (item n other : ℕ) (inventory : Map ℕ)
    → quantity_of other (left_with item n inventory)
      ≡ (if item == other then n else quantity_of other inventory)
left_with-quantity item n other inventory =
    ground (arith, lookup-insert item other n inventory, lookup-remove item other inventory)

taken-absent :
    (item : ℕ) (materials : List (ℕ × ℕ))
    → contains item (items_of materials) ≡ false
    → taken item materials ≡ 0
taken-absent item [] h = refl
taken-absent item ((i, n) ∷ materials) h = ground (arith, taken-absent item materials)

-- Taking one item leaves the others covered.
left_with-Covers :
    (item n : ℕ) (inventory : Map ℕ) (materials : List (ℕ × ℕ))
    → contains item (items_of materials) ≡ false
    → Covers inventory materials
    → Covers (left_with item n inventory) materials
left_with-Covers item n inventory [] apart c = tt
left_with-Covers item n inventory ((i, k) ∷ materials) apart c = (
  ground (arith, c.0, left_with-quantity item n i inventory),
  left_with-Covers item n inventory materials (ground (arith, apart)) c.1,
)

balance :
    (i n k entry : ℕ) (materials : List (ℕ × ℕ)) (left next inventory : Map ℕ)
    → quantity_of k next ≡ (if i == k then sub32 entry n else quantity_of k inventory)
    → quantity_of i inventory ≡ entry
    → sub32 entry n + n ≡ entry
    → quantity_of k left + taken k materials ≡ quantity_of k next
    → quantity_of k left + taken k ((i, n) ∷ materials) ≡ quantity_of k inventory
balance i n k entry materials left next inventory quantity exact minus takes =
    elim (Bool-cases (i == k)) [
      | inl this ↦
          let here : quantity_of k inventory ≡ entry =
            subst (λ x. quantity_of x inventory ≡ entry) (==→eq i k this) exact in
          let rest : quantity_of k next ≡ sub32 entry n = ground (arith, this, quantity) in
          rw this (omega (arith, here, rest, minus, takes))
      | inr other ↦
          let rest : quantity_of k next ≡ quantity_of k inventory =
            ground (arith, other, quantity) in
          rw other (omega (arith, rest, takes))
    ]

pub consume-takes :
    (materials : List (ℕ × ℕ)) (inventory : Map ℕ)
    → AreMaterials materials
    → AreWords inventory
    → Covers inventory materials
    → (left : Map ℕ) × (consume materials inventory ≡ some left)
      × ((item : ℕ) → quantity_of item left + taken item materials ≡ quantity_of item inventory)
unfolding consume
consume-takes [] inventory m w c = (inventory, refl, λ item. omega arith)
consume-takes ((i, n) ∷ materials) inventory m w c = elim (Option-cases (lookup i inventory)) [
  | inl gone ↦ absurd (ground (arith, gone, c.0, m.0))
  | inr (entry, found) ↦
      let exact : quantity_of i inventory ≡ entry = ground (arith, found) in
      let small : entry < 2 ^ 32 = omega (arith, w i, exact) in
      let next = left_with i (sub32 entry n) inventory in
      let minus : sub32 entry n + n ≡ entry = omega (arith, small, exact, c.0) in
      let quantity = λ (k : ℕ). left_with-quantity i (sub32 entry n) k inventory in
      let words : AreWords next = λ k. ground (arith, quantity k, w k, minus, small) in
      let rest = left_with-Covers i (sub32 entry n) inventory materials m.1 c.1 in
      let (left, ran, takes) = consume-takes materials next m.2 words rest in
      (
        left,
        simp (found, consume) ran,
        λ k. balance i n k entry materials left next inventory (quantity k) exact minus (takes k),
      )
]

produce-quantity :
    (item n other : ℕ) (inventory : Map ℕ)
    → quantity_of item inventory + n < 2 ^ 32
    → quantity_of other (produce item n inventory)
      ≡ quantity_of other inventory + (if item == other then n else 0)
produce-quantity item n other inventory fits = elim (Bool-cases (item == other)) [
  | inl this ↦
      subst
        (λ x.
          quantity_of x (produce item n inventory)
          ≡ quantity_of x inventory + (if item == x then n else 0))
        (==→eq item other this)
        (ground
          (arith, lookup-insert item item ((quantity_of item inventory + n) % 2 ^ 32) inventory))
  | inr differs ↦ ground (
    arith,
    differs,
    lookup-insert item other ((quantity_of item inventory + n) % 2 ^ 32) inventory,
  )
]

pub craft_recipe-conserves :
    (recipe : CraftingRecipe) (inventory : Map ℕ)
    → AreMaterials recipe.materials
    → AreWords inventory
    → quantity_of recipe.result_item_id inventory + recipe.result_quantity < 2 ^ 32
    → Covers inventory recipe.materials
    → (after : Map ℕ) × (craft_recipe recipe inventory ≡ some after)
      × ((item : ℕ)
          → quantity_of item after + taken item recipe.materials
            ≡ quantity_of item inventory
              + (if recipe.result_item_id == item then recipe.result_quantity else 0))
craft_recipe-conserves recipe inventory m w fits c =
    let (left, ran, takes) = consume-takes recipe.materials inventory m w c in
    let made = recipe.result_item_id in
    let room : quantity_of made left + recipe.result_quantity < 2 ^ 32 =
      omega (arith, fits, takes made) in
    (
      produce made recipe.result_quantity left,
      rw (ran, craft_recipe) refl,
      λ item.
          omega (arith, takes item, produce-quantity made recipe.result_quantity item left room),
    )
