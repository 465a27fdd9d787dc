-- ===== src/Game/Shops/Listings.antt =====
-- The listing of an item, read, bought from and restocked.
use velochain.Prelude.{
  ℕ, ◌+◌, ◌%◌, ◌^◌, ◌≤◌, ◌≡◌, refl, subst, ◌∙◌, true, ◌&&◌, Option, none, some, List, [], ◌∷◌, map,
  ltb, ◌==◌, if◌then◌else◌, arith, Bool-cases, Option-cases, inl, inr, ==→eq, min,
}
use velochain.Map.{Map, lookup, insert, update_all, lookup-insert, lookup-update_all}
use velochain.Game.Shops.{
  ShopListing, ShopDef, ShopManager, ShopResult, bought, FloatPrices, find, put_listing, restock,
  is_due, tick_shop, tick_shops, Call, buy_call, tick_call, step,
}

-- The listing of an item in a shop.
abbrev pub listing_of : ShopManager → ℕ → ℕ → Option ShopListing
listing_of m id item = elim (lookup id m) [ none ↦ none | some shop ↦ find item shop.listings ]

-- The units of the item that the call takes out of the shop.
abbrev pub units : ℕ → ℕ → Call → Option ShopResult → ℕ
units id item (buy_call i j n gold) (some (bought k u cost)) =
    if (i == id) && (j == item) then n else 0
units id item _ _ = 0

module _ (f : FloatPrices) (values : Map ℕ) where
  abbrev pub units_sold : ℕ → ℕ → ShopManager → List Call → ℕ
  units_sold id item m [] = 0
  units_sold id item m (c ∷ cs) =
      units id item c (step f values m c).1 + units_sold id item (step f values m c).0 cs

-- What restocking at the rate adds at most: one rate for every tick.
abbrev pub restocks : ℕ → Call → ℕ
restocks rate (tick_call now) = rate
restocks rate _ = 0

abbrev pub restocks_in : ℕ → List Call → ℕ
restocks_in rate [] = 0
restocks_in rate (c ∷ cs) = restocks rate c + restocks_in rate cs

-- The listing has a stock still, which with the units used is at most the old one with what was
-- given.
abbrev pub IsSupplied : ℕ → ℕ → ShopListing → ℕ → ℕ → ℕ → ShopManager → Type 0
IsSupplied id item l s used given m =
    (l' : ShopListing) × (s' : ℕ) × (listing_of m id item ≡ some l')
    × (l'.stock ≡ some s')
    × (l'.restock_rate ≡ l.restock_rate)
    × (s' + used ≤ s + given)

pub find-item_id :
    (item : ℕ) (l : ShopListing) (ls : List ShopListing)
    → find item ls ≡ some l
    → (l.item_id == item) ≡ true
unfolding find
find-item_id item l [] e = absurd cc
find-item_id item l (k ∷ ls) e = elim (Bool-cases (k.item_id == item)) [
  | inl this ↦
      let same : some k ≡ some l = rw (this, find) at e in
      let eq : k ≡ l = cc same in subst (λ x. (x.item_id == item) ≡ true) eq this
  | inr other ↦ find-item_id item l ls (rw (other, find) at e)
]

pub find-put_listing :
    (item j : ℕ) (l' : ShopListing) (ls : List ShopListing)
    → (l'.item_id == j) ≡ true
    → find item (put_listing j l' ls)
      ≡ (if j == item then elim (find item ls) [ none ↦ none | some _ ↦ some l' ] else find item ls)
unfolding find put_listing
find-put_listing item j l' [] h = ground arith
find-put_listing item j l' (l ∷ ls) h = ground (arith, find-put_listing item j l' ls h, h)

restock-rate : (now : ℕ) (l : ShopListing) → (restock now l).restock_rate ≡ l.restock_rate
restock-rate now l = ground arith

-- At most one rate is added.
restock-stock :
    (now s : ℕ) (l : ShopListing)
    → l.stock ≡ some s
    → (s' : ℕ) × ((restock now l).stock ≡ some s') × (s' ≤ s + l.restock_rate)
restock-stock now s l e = elim (Option-cases l.max_stock) [
  | inl unlimited ↦ (s, ground (arith, e, unlimited), omega arith)
  | inr (most, limited) ↦ elim (Bool-cases (ltb s most && is_due now l)) [
    | inl due ↦
        (min ((s + l.restock_rate) % 2 ^ 32) most, ground (arith, e, limited, due), omega arith)
    | inr not_yet ↦ (s, ground (arith, e, limited, not_yet), omega arith)
  ]
]

restock-item_id : (now : ℕ) (l : ShopListing) → (restock now l).item_id ≡ l.item_id
restock-item_id now l = ground arith

find-restock :
    (now item : ℕ) (ls : List ShopListing)
    → find item (map (restock now) ls)
      ≡ elim (find item ls) [ none ↦ none | some l ↦ some (restock now l) ]
unfolding find
find-restock now item [] = refl
find-restock now item (l ∷ ls) = ground (arith, find-restock now item ls, restock-item_id now l)

pub tick-IsSupplied :
    (now id item s : ℕ) (m : ShopManager) (l : ShopListing)
    → listing_of m id item ≡ some l
    → l.stock ≡ some s
    → IsSupplied id item l s 0 l.restock_rate (tick_shops now m)
unfolding tick_shops
tick-IsSupplied now id item s m l listed stocked =
    let (s', filled, most) = restock-stock now s l stocked in
    let here : listing_of (tick_shops now m) id item ≡ some (restock now l) =
      elim (Option-cases (lookup id m)) [
        | inl gone ↦ absurd (ground (arith, gone, listed))
        | inr (shop, there) ↦
            let found : find item shop.listings ≡ some l = rw (there, listing_of) at listed in
            let ticked : lookup id (update_all (tick_shop now) m) ≡ some (tick_shop now shop) =
              lookup-update_all (tick_shop now) id m ∙ rw there refl in
            rw (ticked, listing_of) (rw (find-restock now item shop.listings, found) refl)
      ] in
    (restock now l, s', here, filled, restock-rate now l, omega (arith, most))

-- A shop is written whose listing of the item is as before.
pub write-keeps :
    (i id item : ℕ) (shop shop' : ShopDef) (m : ShopManager)
    → lookup i m ≡ some shop
    → find item shop'.listings ≡ find item shop.listings
    → listing_of (insert i shop' m) id item ≡ listing_of m id item
write-keeps i id item shop shop' m there same = elim (Bool-cases (i == id)) [
  | inl this ↦
      let found : lookup id m ≡ some shop =
        subst (λ x. lookup x m ≡ some shop) (==→eq i id this) there in
      ground (arith, this, found, same, lookup-insert i id shop' m)
  | inr other ↦ ground (arith, other, lookup-insert i id shop' m)
]
