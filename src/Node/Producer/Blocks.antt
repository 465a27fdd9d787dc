-- ===== src/Node/Producer/Blocks.antt =====
-- The block that is built is valid, within its gas limit, and made of pooled transactions.
use velochain.Prelude.{
  ℕ, ◌+◌, ◌≤◌, ◌<◌, ◌≡◌, refl, ap, sym, subst, ◌∙◌, some, List, [], ◌∷◌, ltb, arith, All, add64,
  u64_mod, Bool-cases, inl, inr,
}
use velochain.Prelude.Results.{ok}
use velochain.Map.{lookup}
use velochain.Primitives.Transaction.{SignedTransaction}
use velochain.Primitives.Block.{BlockHeader, Block, default_block_gas_limit}
use velochain.Primitives.Crypto.{Crypto, Keypair, SignatureLaws, header_hash, from_secret_key}
use velochain.Consensus.Poa.{PoaConsensus, verify_block, prepared, advance_tick}
use velochain.Consensus.Poa.Seal.{Ready, prepare-seal-verify, seal_block-recover}
use velochain.TxPool.{TransactionPool, get_pending}
use velochain.TxPool.Coherence.{IsCoherent}
use velochain.TxPool.Pending.{get_pending-IsOrdered}
use velochain.Node.Producer.{
  tx_gas, select, compute_transactions_root, filled_in, seal_over, build_block,
}

abbrev pub gas_of : List SignedTransaction → ℕ
gas_of [] = 0
gas_of (tx ∷ txs) = tx_gas tx + gas_of txs

-- A gas that can be added to a block without a wrap.
abbrev pub HasSmallGas : SignedTransaction → Type 0
HasSmallGas tx = tx_gas tx + default_block_gas_limit < u64_mod

select-gas :
    (limit gas : ℕ) (txs : List SignedTransaction)
    → limit ≤ default_block_gas_limit
    → gas ≤ limit
    → All HasSmallGas txs
    → ((select limit gas txs).1 ≡ gas + gas_of (select limit gas txs).0)
      × ((select limit gas txs).1 ≤ limit)
unfolding select
select-gas limit gas [] low within small = (omega arith, within)
select-gas limit gas (tx ∷ txs) low within small =
    elim (Bool-cases (ltb limit (add64 gas (tx_gas tx)))) [
      | inl over ↦ rw (over, select) (omega arith, within)
      | inr fits ↦
          let sum : add64 gas (tx_gas tx) ≡ gas + tx_gas tx = omega (arith, within, low, small.0) in
          let next =
            select-gas limit (add64 gas (tx_gas tx)) txs low (ground (arith, fits)) small.1 in
          rw (fits, select) (omega (arith, next.0, sum), next.1)
    ]

select-All :
    (P : SignedTransaction → Type 0) (limit gas : ℕ) (txs : List SignedTransaction)
    → All P txs
    → All P (select limit gas txs).0
unfolding select
select-All P limit gas [] all = tt
select-All P limit gas (tx ∷ txs) all = elim (Bool-cases (ltb limit (add64 gas (tx_gas tx)))) [
  | inl over ↦ rw (over, select) tt
  | inr fits ↦ rw (fits, select) (all.0, select-All P limit (add64 gas (tx_gas tx)) txs all.1)
]

-- The block before its seal, over the selected transactions.
abbrev pub unsealed : Crypto → PoaConsensus → ℕ → TransactionPool → BlockHeader → ℕ → Block
unsealed c p local pool parent now =
    filled_in c (prepared c p local parent now)
      (select default_block_gas_limit 0 (get_pending pool 1000))

-- A validator in step with the chain, whose key signs the header, builds a block: the engine accepts
-- it, its transactions stand in the pool, and the gas in its header is the sum of theirs and at most
-- the gas limit, where no pending transaction states a gas that wraps.
pub build_block-verify :
    (c : Crypto) (k : Keypair) (secret : ℕ) (p : PoaConsensus) (pool : TransactionPool)
    (parent : BlockHeader) (now r s v : ℕ)
    → SignatureLaws c
    → Ready c p parent now k.address
    → from_secret_key c secret ≡ some k
    → p.keypair ≡ some k
    → c.sign_prehash k.signing_key (header_hash c (unsealed c p k.address pool parent now).header)
      ≡ some (r, s, v)
    → IsCoherent c pool
    → All HasSmallGas (get_pending pool 1000)
    → (b : Block) × (build_block c p pool parent now ≡ (advance_tick p, ok b))
      × (verify_block c (advance_tick p) b parent ≡ ok tt)
      × All (λ tx. lookup tx.hash pool.by_hash ≡ some tx) b.body.transactions
      × (b.header.gas_used ≡ gas_of b.body.transactions)
      × (b.header.gas_used ≤ default_block_gas_limit)
unfolding build_block advance_tick
build_block-verify c k secret p pool parent now r s v laws ready made ours signed coherent small =
    let pending = get_pending pool 1000 in
    let chosen = select default_block_gas_limit 0 pending in
    let raw = unsealed c p k.address pool parent now in
    let (prepares, (b, seals, accepted)) =
      prepare-seal-verify c k secret p parent now (compute_transactions_root c chosen.0) chosen.1
        raw.body r s v laws ready made ours signed in
    let (b', seals', same_body, same_header, recovered) =
      seal_block-recover c laws k secret (advance_tick p) raw r s v made ours refl signed in
    let same : b' ≡ b = cc in
    let body : b.body ≡ raw.body = ap (λ x. x.body) (sym same) ∙ same_body in
    let gas_kept : b.header.gas_used ≡ chosen.1 =
      ap (λ x. x.header.gas_used) (sym same) ∙ ap (λ x. x.gas_used) same_header in
    let txs : b.body.transactions ≡ chosen.0 = ap (λ x. x.transactions) body in
    let gas = select-gas default_block_gas_limit 0 pending (omega arith) (omega arith) small in
    let P : SignedTransaction → Type 0 = λ tx. lookup tx.hash pool.by_hash ≡ some tx in
    let pooled =
      select-All P default_block_gas_limit 0 pending
        (get_pending-IsOrdered c pool 1000 coherent).1 in
    let total : gas_of b.body.transactions ≡ gas_of chosen.0 = ap gas_of txs in
    (
      b,
      ap (seal_over c pool) prepares ∙ ap (λ x. (advance_tick p, x)) seals,
      accepted,
      subst (All P) (sym txs) pooled,
      omega (arith, gas_kept, gas.0, total),
      omega (arith, gas_kept, gas.1),
    )
