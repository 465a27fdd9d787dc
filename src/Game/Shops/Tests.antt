-- ===== src/Game/Shops/Tests.antt =====
-- Examples with the built-in shops.
use velochain.Prelude.{ℕ, ◌≡◌, refl, List, [], ◌∷◌}
use velochain.Map.{Map, lookup}
use velochain.Game.Shops.{FloatPrices, ShopListing, Call, buy_call, sell_call, tick_call, run, find}
use velochain.Game.Shops.Defaults.{default_shops, health_potion}
use velochain.Game.Shops.Listings.{IsSupplied, units_sold, restocks_in}
use velochain.Game.Shops.Stock.{run-IsSupplied}

-- Prices that do not follow the demand.
abbrev flat : FloatPrices
flat = record { buy_unit = λ base bought sold. base; sell_unit = λ value rate bought sold. value }

abbrev values : Map ℕ
values = (20, 25) ∷ []

-- Eighteen potions are bought, five more are refused, the shop is restocked, and two are sold to it.
abbrev played : List Call
played =
    buy_call 1 20 18 1000
    ∷ buy_call 1 20 5 1000
    ∷ tick_call 100
    ∷ buy_call 1 20 4 1000
    ∷ sell_call 1 20 2 2
    ∷ []

run-IsSupplied_example :
    IsSupplied 1 20 health_potion 20
      (units_sold flat values 1 20 default_shops played)
      (restocks_in 2 played)
      (run flat values default_shops played)
unfolding lookup find default_shops
run-IsSupplied_example =
    run-IsSupplied flat values 1 20 20 played health_potion default_shops refl refl

test_units_sold : units_sold flat values 1 20 default_shops played ≡ 22
unfolding lookup find default_shops run velochain.Game.Shops.step velochain.Game.Shops.buy_item
    velochain.Game.Shops.sell_item velochain.Game.Shops.tick_shops velochain.Map.update_all
    velochain.Map.insert velochain.Game.Shops.put_listing velochain.Game.Shops.record_buy
    velochain.Game.Shops.tick velochain.Game.Shops.new_tracker
test_units_sold = refl
