-- ===== src/Game.antt =====
-- crates/game-engine/src: the rules of the game that the nodes run.
pub mod Trading
pub mod Quests
pub mod Crafting
pub mod Skills
pub mod Shops
