-- ===== src/Game/Shops.antt =====
-- crates/game-engine/src/shops.rs: shops with a limited stock and prices that follow the demand.
mod Listings
mod Stock
pub mod Defaults
mod Tests
use velochain.Prelude.{
  ℕ, ◌+◌, ◌*◌, ◌-◌, ◌/◌, ◌%◌, ◌^◌, Bool, true, false, ◌&&◌, Option, none, some, List, [], ◌∷◌, map,
  ltb, leb, ◌==◌, if◌then◌else◌, add64, u64_mod, min, max,
}
use velochain.Map.{Map, lookup, insert, update_all}

pub record ShopListing : Type 0 where
  pub item_id : ℕ
  pub base_price : ℕ
  -- `none` is unlimited.
  pub stock : Option ℕ
  pub max_stock : Option ℕ
  pub restock_rate : ℕ
  pub restock_interval : ℕ
  pub last_restock_tick : ℕ

pub record DemandTracker : Type 0 where
  pub buy_volume : Map ℕ
  pub sell_volume : Map ℕ
  pub window_ticks : ℕ
  pub window_size : ℕ

-- The rate is kept as the bits of an `f32`.
pub record ShopDef : Type 0 where
  pub id : ℕ
  pub npc_type : ℕ
  pub listings : List ShopListing
  pub buyback_rate : ℕ
  pub demand_tracker : DemandTracker

abbrev pub volume_of : ℕ → Map ℕ → ℕ
volume_of item volumes = elim (lookup item volumes) [ none ↦ 0 | some n ↦ n ]

unfoldable pub new_tracker : ℕ → DemandTracker
new_tracker size = record {
  buy_volume = [];
  sell_volume = [];
  window_ticks = 0;
  window_size = size;
}

abbrev pub added : ℕ → ℕ → Map ℕ → Map ℕ
added item n volumes = insert item ((volume_of item volumes + n) % 2 ^ 32) volumes

unfoldable pub record_buy : DemandTracker → ℕ → ℕ → DemandTracker
record_buy d item n = record d { buy_volume = added item n d.buy_volume }

unfoldable pub record_sell : DemandTracker → ℕ → ℕ → DemandTracker
record_sell d item n = record d { sell_volume = added item n d.sell_volume }

abbrev pub halved : ℕ → ℕ
halved n = n / 2

unfoldable pub tick : DemandTracker → DemandTracker
tick d =
    if leb d.window_size (add64 d.window_ticks 1)
    then record d {
      buy_volume = update_all halved d.buy_volume;
      sell_volume = update_all halved d.sell_volume;
      window_ticks = 0;
    }
    else record d { window_ticks = add64 d.window_ticks 1 }

-- The prices that the code computes on `f32`: of one unit, from the base price and the volumes
-- bought and sold, and what a shop pays, from the value, the rate and the volumes.
pub record FloatPrices : Type 0 where
  pub buy_unit : ℕ → ℕ → ℕ → ℕ
  pub sell_unit : ℕ → ℕ → ℕ → ℕ → ℕ

pub data ShopError : Type 0 where
  shop_not_found item_not_available cannot_sell_item : ℕ → ShopError
  out_of_stock insufficient_items : ℕ → ℕ → ℕ → ShopError
  insufficient_gold : ℕ → ℕ → ShopError

pub data ShopResult : Type 0 where
  bought sold : ℕ → ℕ → ℕ → ShopResult
  shop_error : ShopError → ShopResult

abbrev pub ShopManager : Type 0
ShopManager = Map ShopDef

unfoldable pub register : ShopManager → ShopDef → ShopManager
register m shop = insert shop.id shop m

-- The first listing of the item.
unfoldable pub find : ℕ → List ShopListing → Option ShopListing
find item [] = none
find item (l ∷ ls) = if l.item_id == item then some l else find item ls

-- The write through the reference to the first listing.
unfoldable pub put_listing : ℕ → ShopListing → List ShopListing → List ShopListing
put_listing item l' [] = []
put_listing item l' (l ∷ ls) = if l.item_id == item then l' ∷ ls else l ∷ put_listing item l' ls

abbrev pub is_short : Option ℕ → ℕ → Bool
is_short none n = false
is_short (some stock) n = ltb stock n

abbrev pub reduced : Option ℕ → ℕ → Option ℕ
reduced none n = none
reduced (some stock) n = some (stock - n)

abbrev pub available : Option ℕ → ℕ
available none = 0
available (some stock) = stock

module _ (f : FloatPrices) where
  abbrev pub unit_price : ShopDef → ShopListing → ℕ
  unit_price shop l =
      f.buy_unit l.base_price (volume_of l.item_id shop.demand_tracker.buy_volume)
        (volume_of l.item_id shop.demand_tracker.sell_volume)

  unfoldable pub buy_price : ShopManager → ℕ → ℕ → Option ℕ
  buy_price m id item = elim (lookup id m) [
    | none ↦ none
    | some shop ↦ elim (find item shop.listings) [ none ↦ none | some l ↦ some (unit_price shop l) ]
  ]

  abbrev pub total_cost : ShopDef → ShopListing → ℕ → ℕ
  total_cost shop l n = (unit_price shop l * n) % u64_mod

  abbrev pub purchased : ShopDef → ShopListing → ℕ → ℕ → ShopDef
  purchased shop l item n = record shop {
    listings = put_listing item (record l { stock = reduced l.stock n }) shop.listings;
    demand_tracker = record_buy shop.demand_tracker item n;
  }

  abbrev pub buy_listed :
      ShopManager → ℕ → ShopDef → ShopListing → ℕ → ℕ → ℕ → ShopManager × ShopResult
  buy_listed m id shop l item n gold =
      if is_short l.stock n
      then (m, shop_error (out_of_stock item (available l.stock) n))
      else (if ltb gold (total_cost shop l n)
          then (m, shop_error (insufficient_gold (total_cost shop l n) gold))
          else (insert id (purchased shop l item n) m, bought item n (total_cost shop l n)))

  unfoldable pub buy_item : ShopManager → ℕ → ℕ → ℕ → ℕ → ShopManager × ShopResult
  buy_item m id item n gold = elim (lookup id m) [
    | none ↦ (m, shop_error (shop_not_found id))
    | some shop ↦ elim (find item shop.listings) [
      | none ↦ (m, shop_error (item_not_available item))
      | some l ↦ buy_listed m id shop l item n gold
    ]
  ]

  -- What the shop pays for one unit of an item of the value.
  abbrev pub paid : ShopDef → ℕ → ℕ → ℕ
  paid shop item value =
      max
        (f.sell_unit value shop.buyback_rate (volume_of item shop.demand_tracker.buy_volume)
          (volume_of item shop.demand_tracker.sell_volume))
        1

  abbrev pub sell_known : ShopManager → ℕ → ShopDef → ℕ → ℕ → ℕ → ℕ → ShopManager × ShopResult
  sell_known m id shop item value n owned =
      if ltb owned n then (m, shop_error (insufficient_items item n owned)) else (
        insert id (record shop { demand_tracker = record_sell shop.demand_tracker item n }) m,
        sold item n ((paid shop item value * n) % u64_mod),
      )

  -- `values` is the item registry, of which the value is read.
  unfoldable pub sell_item : Map ℕ → ShopManager → ℕ → ℕ → ℕ → ℕ → ShopManager × ShopResult
  sell_item values m id item n owned = elim (lookup item values) [
    | none ↦ (m, shop_error (cannot_sell_item item))
    | some value ↦ elim (lookup id m) [
      | none ↦ (m, shop_error (shop_not_found id))
      | some shop ↦ sell_known m id shop item value n owned
    ]
  ]

abbrev pub is_due : ℕ → ShopListing → Bool
is_due now l = ltb 0 l.restock_interval && leb (add64 l.last_restock_tick l.restock_interval) now

abbrev pub restock : ℕ → ShopListing → ShopListing
restock now l = elim l.stock [
  | none ↦ l
  | some stock ↦ elim l.max_stock [
    | none ↦ l
    | some most ↦
        if ltb stock most && is_due now l
        then record l {
          stock = some (min ((stock + l.restock_rate) % 2 ^ 32) most);
          last_restock_tick = now;
        }
        else l
  ]
]

abbrev pub tick_shop : ℕ → ShopDef → ShopDef
tick_shop now shop = record shop {
  demand_tracker = tick shop.demand_tracker;
  listings = map (restock now) shop.listings;
}

unfoldable pub tick_shops : ℕ → ShopManager → ShopManager
tick_shops now m = update_all (tick_shop now) m

pub data Call : Type 0 where
  buy_call sell_call : ℕ → ℕ → ℕ → ℕ → Call
  tick_call : ℕ → Call

module _ (f : FloatPrices) (values : Map ℕ) where
  -- The shops after a call, and what the caller is told.
  unfoldable pub step : ShopManager → Call → ShopManager × Option ShopResult
  step m (buy_call id item n gold) = let r = buy_item f m id item n gold in (r.0, some r.1)
  step m (sell_call id item n owned) =
      let r = sell_item f values m id item n owned in (r.0, some r.1)
  step m (tick_call now) = (tick_shops now m, none)

  unfoldable pub run : ShopManager → List Call → ShopManager
  run m [] = m
  run m (c ∷ cs) = run (step m c).0 cs
