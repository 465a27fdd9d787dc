-- ===== src/Game/Shops/Defaults.antt =====
-- crates/game-engine/src/shops.rs: the built-in shops.
use velochain.Prelude.{ℕ, some, [], ◌∷◌}
use velochain.Game.Shops.{ShopManager, ShopListing, new_tracker}

-- The types of NPCs, numbered.
abbrev merchant : ℕ
merchant = 4

abbrev guard : ℕ
guard = 5

abbrev pub health_potion : ShopListing
health_potion = record {
  item_id = 20;
  base_price = 30;
  stock = some 20;
  max_stock = some 20;
  restock_rate = 2;
  restock_interval = 100;
  last_restock_tick = 0;
}

unfoldable pub default_shops : ShopManager
default_shops =
    (
      1,
      record {
        id = 1;
        npc_type = merchant;
        listings =
            health_potion
            ∷ record {
              item_id = 21;
              base_price = 100;
              stock = some 5;
              max_stock = some 5;
              restock_rate = 1;
              restock_interval = 200;
              last_restock_tick = 0;
            }
            ∷ record {
              item_id = 22;
              base_price = 8;
              stock = some 50;
              max_stock = some 50;
              restock_rate = 5;
              restock_interval = 50;
              last_restock_tick = 0;
            }
            ∷ record {
              item_id = 1;
              base_price = 15;
              stock = some 5;
              max_stock = some 5;
              restock_rate = 1;
              restock_interval = 300;
              last_restock_tick = 0;
            }
            ∷ record {
              item_id = 10;
              base_price = 20;
              stock = some 3;
              max_stock = some 3;
              restock_rate = 1;
              restock_interval = 300;
              last_restock_tick = 0;
            }
            ∷ [];
        buyback_rate = 1053609165;
        demand_tracker = new_tracker 600;
      },
    )
    ∷ (
      2,
      record {
        id = 2;
        npc_type = guard;
        listings =
            record {
              item_id = 2;
              base_price = 75;
              stock = some 3;
              max_stock = some 3;
              restock_rate = 1;
              restock_interval = 500;
              last_restock_tick = 0;
            }
            ∷ record {
              item_id = 11;
              base_price = 120;
              stock = some 2;
              max_stock = some 2;
              restock_rate = 1;
              restock_interval = 500;
              last_restock_tick = 0;
            }
            ∷ record {
              item_id = 12;
              base_price = 90;
              stock = some 2;
              max_stock = some 2;
              restock_rate = 1;
              restock_interval = 500;
              last_restock_tick = 0;
            }
            ∷ record {
              item_id = 30;
              base_price = 5;
              stock = some 30;
              max_stock = some 30;
              restock_rate = 3;
              restock_interval = 100;
              last_restock_tick = 0;
            }
            ∷ [];
        buyback_rate = 1056964608;
        demand_tracker = new_tracker 600;
      },
    )
    ∷ []
