-- ===== src/Storage/Pruning/Tests.antt =====
-- Runs of the pruning engine at concrete inputs.
use velochain.Prelude.{◌≡◌, refl, length, ◌≤◌}
use velochain.Storage.Pruning.{
  PruningEngine, keep_recent, new, enqueue_block, on_new_block, generate_prune_targets,
  retention_limit, prune_loop,
}
use velochain.Storage.Pruning.Window.{Given, on_new_block_targets}

abbrev engine : PruningEngine
unfolding new
engine = new (record { mode = keep_recent 10; batch_size = 4; interval_blocks = 5 }) 3

abbrev queued : PruningEngine
unfolding enqueue_block
queued = enqueue_block (enqueue_block engine 3 77) 5 78

runs : length (on_new_block queued 100 1).1 ≡ 4
unfolding on_new_block generate_prune_targets queued engine retention_limit prune_loop
runs = refl

on_new_block_targets_example :
    Given (on_new_block queued 100 1).0 (on_new_block queued 100 1).1
    × (length (on_new_block queued 100 1).1 ≤ 4)
unfolding queued engine
on_new_block_targets_example = on_new_block_targets queued 100 1

abbrev ahead : PruningEngine
ahead = record engine { chain_head = 50 }
