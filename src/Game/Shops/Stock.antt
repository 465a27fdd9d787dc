-- ===== src/Game/Shops/Stock.antt =====
-- What a shop can sell of a listing with a stock.
use velochain.Prelude.{
  ℕ, ◌-◌, ◌≤◌, ◌≡◌, refl, ap, subst, ◌∙◌, false, ◌&&◌, some, List, [], ◌∷◌, ltb, ◌==◌,
  if◌then◌else◌, arith, Bool-cases, Option-cases, inl, inr, ==→eq,
}
use velochain.Map.{Map, lookup, insert, lookup-insert}
use velochain.Game.Shops.{
  ShopListing, ShopDef, ShopManager, FloatPrices, find, is_short, reduced, purchased, total_cost,
  buy_item, sell_item, record_sell, Call, buy_call, sell_call, tick_call, step, run,
}
use velochain.Game.Shops.Listings.{
  listing_of, units, units_sold, restocks, restocks_in, IsSupplied, find-item_id, find-put_listing,
  tick-IsSupplied, write-keeps,
}

-- A call that leaves the listing alone.
left-IsSupplied :
    (id item s given : ℕ) (m : ShopManager) (l : ShopListing)
    → listing_of m id item ≡ some l
    → l.stock ≡ some s
    → IsSupplied id item l s 0 given m
left-IsSupplied id item s given m l listed stocked = (l, s, listed, stocked, refl, omega arith)

bought-IsSupplied :
    (f : FloatPrices) (id item i j n s : ℕ) (shop : ShopDef) (k l : ShopListing) (m : ShopManager)
    → lookup i m ≡ some shop
    → find j shop.listings ≡ some k
    → is_short k.stock n ≡ false
    → listing_of m id item ≡ some l
    → l.stock ≡ some s
    → IsSupplied id item l s
        (if (i == id) && (j == item) then n else 0)
        0
        (insert i (purchased f shop k j n) m)
bought-IsSupplied f id item i j n s shop k l m there found enough listed stocked =
    let k' : ShopListing = record k { stock = reduced k.stock n } in
    let kept = find-item_id j k shop.listings found in
    elim (Bool-cases (j == item)) [
      | inr other ↦
          let same = find-put_listing item j k' shop.listings kept in
          let as_before =
            write-keeps i id item shop (purchased f shop k j n) m there (rw other at same) in
          (l, s, as_before ∙ listed, stocked, refl, ground (arith, other))
      | inl this ↦ elim (Bool-cases (i == id)) [
        | inr elsewhere ↦
            let as_before : listing_of (insert i (purchased f shop k j n) m) id item
                ≡ listing_of m id item =
              ground (arith, elsewhere, lookup-insert i id (purchased f shop k j n) m) in
            (l, s, as_before ∙ listed, stocked, refl, ground (arith, elsewhere))
        | inl here ↦
            let there' : lookup id m ≡ some shop =
              subst (λ x. lookup x m ≡ some shop) (==→eq i id here) there in
            let found' : find item shop.listings ≡ some k =
              subst (λ x. find x shop.listings ≡ some k) (==→eq j item this) found in
            let listed' : find item shop.listings ≡ some l = rw (there', listing_of) at listed in
            let same : k ≡ l = cc in
            let stocked' : k.stock ≡ some s = ap (λ x. x.stock) same ∙ stocked in
            let room : n ≤ s = ground (arith, enough, stocked') in
            let written : listing_of (insert i (purchased f shop k j n) m) id item ≡ some k' =
              ground (
                arith,
                here,
                this,
                found',
                lookup-insert i id (purchased f shop k j n) m,
                find-put_listing item j k' shop.listings kept,
              ) in
            (
              k',
              s - n,
              written,
              rw (stocked', reduced) refl,
              ap (λ x. x.restock_rate) same,
              ground (arith, here, this, room),
            )
      ]
    ]

buy-IsSupplied :
    (f : FloatPrices) (id item i j n gold s : ℕ) (l : ShopListing) (m : ShopManager)
    → listing_of m id item ≡ some l
    → l.stock ≡ some s
    → IsSupplied id item l s
        (units id item (buy_call i j n gold) (some (buy_item f m i j n gold).1))
        0
        (buy_item f m i j n gold).0
unfolding buy_item
buy-IsSupplied f id item i j n gold s l m listed stocked =
    let as_before = left-IsSupplied id item s 0 m l listed stocked in
    elim (Option-cases (lookup i m)) [
      | inl unknown ↦ rw (unknown, buy_item) as_before
      | inr (shop, there) ↦ elim (Option-cases (find j shop.listings)) [
        | inl absent ↦ rw (there, absent, buy_item) as_before
        | inr (k, found) ↦ elim (Bool-cases (is_short k.stock n)) [
          | inl short ↦ rw (there, found, short, buy_item) as_before
          | inr enough ↦ elim (Bool-cases (ltb gold (total_cost f shop k n))) [
            | inl poor ↦ rw (there, found, enough, poor, buy_item) as_before
            | inr rich ↦
                rw (there, found, enough, rich, buy_item)
                  (bought-IsSupplied f id item i j n s shop k l m there found enough listed stocked)
          ]
        ]
      ]
    ]

sell-IsSupplied :
    (f : FloatPrices) (values : Map ℕ) (id item i j n owned s : ℕ) (l : ShopListing)
    (m : ShopManager)
    → listing_of m id item ≡ some l
    → l.stock ≡ some s
    → IsSupplied id item l s 0 0 (sell_item f values m i j n owned).0
unfolding sell_item
sell-IsSupplied f values id item i j n owned s l m listed stocked =
    let as_before = left-IsSupplied id item s 0 m l listed stocked in
    elim (Option-cases (lookup j values)) [
      | inl unknown ↦ rw (unknown, sell_item) as_before
      | inr (value, valued) ↦ elim (Option-cases (lookup i m)) [
        | inl no_shop ↦ rw (valued, no_shop, sell_item) as_before
        | inr (shop, there) ↦ elim (Bool-cases (ltb owned n)) [
          | inl few ↦ rw (valued, there, few, sell_item) as_before
          | inr owns ↦
              let shop' : ShopDef = record shop {
                demand_tracker = record_sell shop.demand_tracker j n;
              } in
              rw (valued, there, owns, sell_item)
                (left-IsSupplied id item s 0 (insert i shop' m) l
                  (write-keeps i id item shop shop' m there refl ∙ listed) stocked)
        ]
      ]
    ]

step-IsSupplied :
    (f : FloatPrices) (values : Map ℕ) (id item s : ℕ) (c : Call) (l : ShopListing)
    (m : ShopManager)
    → listing_of m id item ≡ some l
    → l.stock ≡ some s
    → IsSupplied id item l s
        (units id item c (step f values m c).1)
        (restocks l.restock_rate c)
        (step f values m c).0
unfolding step
step-IsSupplied f values id item s (buy_call i j n gold) l m listed stocked =
    buy-IsSupplied f id item i j n gold s l m listed stocked
step-IsSupplied f values id item s (sell_call i j n owned) l m listed stocked =
    sell-IsSupplied f values id item i j n owned s l m listed stocked
step-IsSupplied f values id item s (tick_call now) l m listed stocked =
    tick-IsSupplied now id item s m l listed stocked

-- Whatever the calls and the prices, a listing with a stock keeps one, and the units that the shop
-- sells of it are at most the stock at the start and one restocking for every tick, less the stock
-- at the end.
pub run-IsSupplied :
    (f : FloatPrices) (values : Map ℕ) (id item s : ℕ) (calls : List Call) (l : ShopListing)
    (m : ShopManager)
    → listing_of m id item ≡ some l
    → l.stock ≡ some s
    → IsSupplied id item l s
        (units_sold f values id item m calls)
        (restocks_in l.restock_rate calls)
        (run f values m calls)
unfolding run
run-IsSupplied f values id item s [] l m listed stocked =
    left-IsSupplied id item s 0 m l listed stocked
run-IsSupplied f values id item s (c ∷ calls) l m listed stocked =
    let (l', s', listed', stocked', rate, less) =
      step-IsSupplied f values id item s c l m listed stocked in
    let (l'', s'', listed'', stocked'', rate', less') =
      run-IsSupplied f values id item s' calls l' (step f values m c).0 listed' stocked' in
    let same : restocks_in l'.restock_rate calls ≡ restocks_in l.restock_rate calls =
      ap (λ r. restocks_in r calls) rate in
    (l'', s'', listed'', stocked'', rate' ∙ rate, omega (arith, less, less', same))
