-- ===== src/Storage/Pruning.antt =====
-- crates/storage/src/pruning.rs: which blocks the pruning engine gives up. Hashes are words.
mod Window
mod Tests
use velochain.Prelude.{
  ℕ, zero, suc, ◌+◌, ◌-◌, Bool, true, false, ◌&&◌, Option, none, some, List, [], ◌∷◌, ◌++◌, ltb,
  leb, if◌then◌else◌, length, add64, sub64, saturating_sub,
}

pub data PruningMode : Type 0 where
  archive : PruningMode
  keep_recent : ℕ → PruningMode
  light_prune : ℕ → PruningMode

pub record PruneTarget : Type 0 where
  pub block_number : ℕ
  pub block_hash : ℕ
  pub tx_hashes : List ℕ
  pub prune_header : Bool

pub record PruneStats : Type 0 where
  pub total_pruned : ℕ
  pub last_pruned_block : ℕ
  pub lowest_available : ℕ
  pub chain_head : ℕ

pub record PruningConfig : Type 0 where
  pub mode : PruningMode
  pub batch_size : ℕ
  pub interval_blocks : ℕ

pub record PruningEngine : Type 0 where
  pub config : PruningConfig
  pub chain_head : ℕ
  pub lowest_block : ℕ
  pub stats : PruneStats
  pub pending_queue : List (ℕ × ℕ)
  pub last_prune_block : ℕ

unfoldable pub new : PruningConfig → ℕ → PruningEngine
new config lowest_block = record {
  config = config;
  chain_head = lowest_block;
  lowest_block = lowest_block;
  stats = record {
    total_pruned = 0;
    last_pruned_block = 0;
    lowest_available = lowest_block;
    chain_head = 0;
  };
  pending_queue = [];
  last_prune_block = 0;
}

unfoldable pub retention_limit : PruningEngine → Option ℕ
retention_limit e = elim e.config.mode [
  | archive ↦ none
  | keep_recent n ↦ some n
  | light_prune n ↦ some n
]

abbrev pub prunes_header : PruningMode → Bool
prunes_header archive = false
prunes_header (keep_recent n) = true
prunes_header (light_prune n) = false

abbrev pub target : Bool → ℕ → ℕ → PruneTarget
target prune_header number hash = record {
  block_number = number;
  block_hash = hash;
  tx_hashes = [];
  prune_header = prune_header;
}

-- What the loop leaves: the lowest block, the queue and the targets in the order of `push`.
pub record LoopResult : Type 0 where
  pub lowest : ℕ
  pub queue : List (ℕ × ℕ)
  pub targets : List PruneTarget

abbrev pub push_front : PruneTarget → LoopResult → LoopResult
push_front t r = record r { targets = t ∷ r.targets }

abbrev pub stop : ℕ → List (ℕ × ℕ) → LoopResult
stop lowest queue = record { lowest = lowest; queue = queue; targets = [] }

-- The rounds of the loop: the second number is `batch_size - count`, and each round that goes on
-- adds one to `count`.
unfoldable pub prune_loop : Bool → ℕ → ℕ → ℕ → List (ℕ × ℕ) → LoopResult
prune_loop header cutoff zero lowest queue = stop lowest queue
prune_loop header cutoff (suc left) lowest [] =
    let rest = prune_loop header cutoff left (add64 lowest 1) [] in
    if ltb lowest cutoff then push_front (target header lowest 0) rest else stop lowest []
prune_loop header cutoff (suc left) lowest ((num, hash) ∷ queue) =
    let rest = prune_loop header cutoff left (add64 num 1) queue in
    if ltb lowest cutoff && ltb num cutoff
    then push_front (target header num hash) rest
    else stop lowest ((num, hash) ∷ queue)

-- The call of the loop where the window is `keep` blocks.
abbrev pub run_loop : PruningEngine → ℕ → LoopResult
run_loop e keep =
    prune_loop (prunes_header e.config.mode) (e.chain_head - keep) e.config.batch_size
      e.lowest_block e.pending_queue

abbrev pub prune_below : PruningEngine → ℕ → PruningEngine × List PruneTarget
prune_below e keep =
    let result = run_loop e keep in
    if leb e.chain_head keep
    then (e, [])
    else (record e { lowest_block = result.lowest; pending_queue = result.queue }, result.targets)

unfoldable pub generate_prune_targets : PruningEngine → PruningEngine × List PruneTarget
generate_prune_targets e = elim (retention_limit e) [
  | none ↦ (e, [])
  | some keep ↦ prune_below e keep
]

abbrev pub at_head : PruningEngine → ℕ → PruningEngine
at_head e n = record e { chain_head = n; stats = record e.stats { chain_head = n } }

-- The subtraction wraps where the new block is below the last one at which pruning ran.
abbrev pub on_interval : PruningEngine → ℕ → PruningEngine × List PruneTarget
on_interval e n =
    if ltb (sub64 n e.last_prune_block) e.config.interval_blocks
    then (e, [])
    else generate_prune_targets (record e { last_prune_block = n })

unfoldable pub on_new_block : PruningEngine → ℕ → ℕ → PruningEngine × List PruneTarget
on_new_block e n hash = elim e.config.mode [
  | archive ↦ (at_head e n, [])
  | keep_recent k ↦ on_interval (at_head e n) n
  | light_prune k ↦ on_interval (at_head e n) n
]

unfoldable pub on_block_pruned : PruningEngine → ℕ → PruningEngine
on_block_pruned e n = record e {
  stats = record e.stats {
    total_pruned = add64 e.stats.total_pruned 1;
    last_pruned_block = n;
    lowest_available = e.lowest_block;
  };
}

unfoldable pub enqueue_block : PruningEngine → ℕ → ℕ → PruningEngine
enqueue_block e n hash = record e { pending_queue = e.pending_queue ++ (n, hash) ∷ [] }

unfoldable pub is_retained : PruningEngine → ℕ → Bool
is_retained e n = elim (retention_limit e) [
  | none ↦ true
  | some keep ↦ if ltb e.chain_head keep then true else leb (e.chain_head - keep) n
]

unfoldable pub pending_count : PruningEngine → ℕ
pending_count e = length e.pending_queue

unfoldable pub prunable_count : PruningEngine → ℕ
prunable_count e = elim (retention_limit e) [
  | none ↦ 0
  | some keep ↦
      if leb e.chain_head keep then 0 else saturating_sub (e.chain_head - keep) e.lowest_block
]
