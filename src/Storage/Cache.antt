-- ===== src/Storage/Cache.antt =====
-- crates/storage/src/cache.rs: the bounded cache with its order of insertion, and the chain cache
-- with its counters. Hashes are words.
mod Bounds
mod Calls
mod Tests
use velochain.Prelude.{
  ℕ, Bool, true, false, Option, none, some, List, [], ◌∷◌, ◌++◌, leb, not, ◌==◌, if◌then◌else◌,
  length, retain, add64,
}
use velochain.Map.{Map, lookup, insert, remove}
use velochain.Primitives.Block.{BlockHeader}

pub record BoundedCache (V : Type 0) : Type 0 where
  pub entries : Map V
  pub order : List ℕ
  pub capacity : ℕ

module _ {V : Type 0} where
  unfoldable pub new : ℕ → BoundedCache V
  new n = record { entries = []; order = []; capacity = n }

  unfoldable pub get : BoundedCache V → ℕ → Option V
  get b k = lookup k b.entries

  -- `order.first()` and its removal, where the cache is full.
  abbrev pub evict : BoundedCache V → List ℕ → BoundedCache V
  evict b [] = b
  evict b (old ∷ rest) = record b { entries = remove old b.entries; order = rest }

  abbrev pub make_room : BoundedCache V → BoundedCache V
  make_room b = if leb b.capacity (length b.order) then evict b b.order else b

  abbrev pub append_entry : BoundedCache V → ℕ → V → BoundedCache V
  append_entry b k v = record b { order = b.order ++ k ∷ []; entries = insert k v b.entries }

  -- A known key keeps its place in the order.
  unfoldable pub put : BoundedCache V → ℕ → V → BoundedCache V
  put b k v = elim (lookup k b.entries) [
    | some _ ↦ record b { entries = insert k v b.entries }
    | none ↦ append_entry (make_room b) k v
  ]

  unfoldable pub delete : BoundedCache V → ℕ → BoundedCache V
  delete b k = record b { entries = remove k b.entries; order = retain (λ j. not (j == k)) b.order }

  unfoldable pub size : BoundedCache V → ℕ
  size b = length b.entries

  unfoldable pub clear_entries : BoundedCache V → BoundedCache V
  clear_entries b = record b { entries = []; order = [] }

pub record CacheStats : Type 0 where
  pub header_hits : ℕ
  pub header_misses : ℕ
  pub hash_hits : ℕ
  pub hash_misses : ℕ

abbrev pub zero_stats : CacheStats
zero_stats = record { header_hits = 0; header_misses = 0; hash_hits = 0; hash_misses = 0 }

pub record ChainCache : Type 0 where
  pub headers : BoundedCache BlockHeader
  pub block_hashes : BoundedCache ℕ
  pub stats : CacheStats

unfoldable pub new_chain_cache : ℕ → ℕ → ChainCache
new_chain_cache header_capacity hash_capacity = record {
  headers = new header_capacity;
  block_hashes = new hash_capacity;
  stats = zero_stats;
}

unfoldable pub get_header : ChainCache → ℕ → ChainCache × Option BlockHeader
get_header c h = elim (get c.headers h) [
  | some header ↦ (
    record c { stats = record c.stats { header_hits = add64 c.stats.header_hits 1 } },
    some header,
  )
  | none ↦
      (record c { stats = record c.stats { header_misses = add64 c.stats.header_misses 1 } }, none)
]

unfoldable pub put_header : ChainCache → ℕ → BlockHeader → ChainCache
put_header c h header = record c { headers = put c.headers h header }

unfoldable pub remove_header : ChainCache → ℕ → ChainCache
remove_header c h = record c { headers = delete c.headers h }

unfoldable pub get_block_hash : ChainCache → ℕ → ChainCache × Option ℕ
get_block_hash c n = elim (get c.block_hashes n) [
  | some h ↦ (record c { stats = record c.stats { hash_hits = add64 c.stats.hash_hits 1 } }, some h)
  | none ↦ (record c { stats = record c.stats { hash_misses = add64 c.stats.hash_misses 1 } }, none)
]

unfoldable pub put_block_hash : ChainCache → ℕ → ℕ → ChainCache
put_block_hash c n h = record c { block_hashes = put c.block_hashes n h }

unfoldable pub header_count : ChainCache → ℕ
header_count c = size c.headers

unfoldable pub hash_count : ChainCache → ℕ
hash_count c = size c.block_hashes

unfoldable pub clear : ChainCache → ChainCache
clear c = record {
  headers = clear_entries c.headers;
  block_hashes = clear_entries c.block_hashes;
  stats = zero_stats;
}
