-- ===== src/Storage/Pruning/Window.antt =====
-- The targets of a pruning run: outside the window of retained blocks, and at most one batch.
use velochain.Prelude.{
  ℕ, zero, suc, ◌+◌, ◌-◌, ◌≤◌, ◌<◌, ◌≡◌, Bool, false, some, List, [], ◌∷◌, arith, inl, inr, ltb,
  leb, length, min, add64, sub64, u64_mod, All, Option-cases, Bool-cases,
}
use velochain.Storage.Pruning.{
  prunes_header, run_loop, prunable_count, archive, keep_recent, light_prune, PruneTarget,
  PruningEngine, retention_limit, prune_loop, prune_below, generate_prune_targets, on_new_block,
  on_interval, at_head, is_retained,
}

abbrev pub Below : ℕ → List PruneTarget → Type 0
Below n ts = All (λ (t : PruneTarget). t.block_number < n) ts

prune_loop-Below :
    (header : Bool) (cutoff left lowest : ℕ) (queue : List (ℕ × ℕ))
    → Below cutoff (prune_loop header cutoff left lowest queue).targets
unfolding prune_loop
prune_loop-Below header cutoff zero lowest queue = tt
prune_loop-Below header cutoff (suc left) lowest [] =
    ground (arith, prune_loop-Below header cutoff left (add64 lowest 1) [])
prune_loop-Below header cutoff (suc left) lowest ((num, hash) ∷ queue) =
    ground (arith, prune_loop-Below header cutoff left (add64 num 1) queue)

prune_loop-length :
    (header : Bool) (cutoff left lowest : ℕ) (queue : List (ℕ × ℕ))
    → length (prune_loop header cutoff left lowest queue).targets ≤ left
unfolding prune_loop
prune_loop-length header cutoff zero lowest queue = omega arith
prune_loop-length header cutoff (suc left) lowest [] =
    ground (arith, prune_loop-length header cutoff left (add64 lowest 1) [])
prune_loop-length header cutoff (suc left) lowest ((num, hash) ∷ queue) =
    ground (arith, prune_loop-length header cutoff left (add64 num 1) queue)

-- No target is retained.
abbrev pub Given : PruningEngine → List PruneTarget → Type 0
Given e ts = All (λ (t : PruneTarget). is_retained e t.block_number ≡ false) ts

Below-Given :
    (e : PruningEngine) (keep : ℕ) (ts : List PruneTarget)
    → retention_limit e ≡ some keep
    → keep < e.chain_head
    → Below (e.chain_head - keep) ts
    → Given e ts
unfolding is_retained
Below-Given e keep [] r h b = tt
Below-Given e keep (t ∷ ts) r h b = (ground (arith, b.0), Below-Given e keep ts r h b.1)

prune_below-Given :
    (e : PruningEngine) (keep : ℕ)
    → retention_limit e ≡ some keep
    → Given (prune_below e keep).0 (prune_below e keep).1
unfolding retention_limit is_retained
prune_below-Given e keep r = elim (Bool-cases (leb e.chain_head keep)) [
  | inl within ↦ rw within tt
  | inr beyond ↦
      let result = run_loop e keep in
      rw beyond (
        Below-Given (record e { lowest_block = result.lowest; pending_queue = result.queue }) keep
          result.targets r (ground arith)
          (prune_loop-Below (prunes_header e.config.mode) (e.chain_head - keep) e.config.batch_size
            e.lowest_block e.pending_queue))
]

generate-Given :
    (e : PruningEngine) → Given (generate_prune_targets e).0 (generate_prune_targets e).1
unfolding generate_prune_targets
generate-Given e = elim (Option-cases (retention_limit e)) [
  | inl all ↦ rw (all, generate_prune_targets) tt
  | inr (keep, r) ↦ rw (r, generate_prune_targets) (prune_below-Given e keep r)
]

generate-length : (e : PruningEngine) → length (generate_prune_targets e).1 ≤ e.config.batch_size
unfolding generate_prune_targets
generate-length e = elim (Option-cases (retention_limit e)) [
  | inl all ↦ ground arith
  | inr (keep, r) ↦ ground (
    arith,
    prune_loop-length (prunes_header e.config.mode) (e.chain_head - keep) e.config.batch_size
        e.lowest_block e.pending_queue,
  )
]

abbrev IsBatch : PruningEngine → PruningEngine × List PruneTarget → Type 0
IsBatch e r = Given r.0 r.1 × (length r.1 ≤ e.config.batch_size)

on_interval-IsBatch : (e : PruningEngine) (n : ℕ) → IsBatch e (on_interval e n)
on_interval-IsBatch e n =
    elim (Bool-cases (ltb (sub64 n e.last_prune_block) e.config.interval_blocks)) [
      | inl early ↦ rw early (tt, omega arith)
      | inr due ↦
          let next = record e { last_prune_block = n } in
          rw due (generate-Given next, generate-length next)
    ]

-- The targets that a new block brings are at most one batch, and the engine after the call retains
-- none of their blocks.
pub on_new_block_targets :
    (e : PruningEngine) (n hash : ℕ)
    → (Given (on_new_block e n hash).0 (on_new_block e n hash).1)
      × (length (on_new_block e n hash).1 ≤ e.config.batch_size)
unfolding on_new_block
on_new_block_targets e n hash =
    elim e.config.mode
      as (λ m. IsBatch e (elim m [
        | archive ↦ (at_head e n, [])
        | keep_recent k ↦ on_interval (at_head e n) n
        | light_prune k ↦ on_interval (at_head e n) n
      ])) [
        | archive ↦ (tt, omega arith)
        | keep_recent k ↦ on_interval-IsBatch (at_head e n) n
        | light_prune k ↦ on_interval-IsBatch (at_head e n) n
      ]

-- Without a queue the loop gives up each block below the cutoff in turn.
prune_loop-empty :
    (header : Bool) (cutoff left lowest : ℕ)
    → cutoff < u64_mod
    → (length (prune_loop header cutoff left lowest []).targets ≡ min left (cutoff - lowest))
      × ((prune_loop header cutoff left lowest []).lowest ≡ lowest + min left (cutoff - lowest))
unfolding prune_loop
prune_loop-empty header cutoff zero lowest h = (omega arith, omega arith)
prune_loop-empty header cutoff (suc left) lowest h = elim (Bool-cases (ltb lowest cutoff)) [
  | inl below ↦ rw below (ground (arith, prune_loop-empty header cutoff left (add64 lowest 1) h))
  | inr done ↦ rw done (ground arith)
]

-- With an empty queue and a head that fits in 64 bits, a run gives up as many blocks as
-- `prunable_count` tells, or a whole batch where there are more, and the lowest block rises by as
-- much.
generate_count :
    (e : PruningEngine)
    → e.pending_queue ≡ []
    → e.chain_head < u64_mod
    → (length (generate_prune_targets e).1 ≡ min e.config.batch_size (prunable_count e))
      × ((generate_prune_targets e).0.lowest_block
          ≡ e.lowest_block + min e.config.batch_size (prunable_count e))
unfolding generate_prune_targets prunable_count
generate_count e empty h = elim (Option-cases (retention_limit e)) [
  | inl all ↦ (ground arith, ground arith)
  | inr (keep, r) ↦
      let loop =
        prune_loop-empty (prunes_header e.config.mode) (e.chain_head - keep) e.config.batch_size
          e.lowest_block (omega arith) in
      ground (arith, loop)
]
