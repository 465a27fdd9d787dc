-- ===== src/Lib.antt =====
-- VeloChain: an application chain whose blocks are the ticks of a game world. A node keeps a pool of
-- signed transactions (crates/txpool), a world state of accounts (crates/state) over a database
-- (crates/storage), and a Proof-of-Authority engine (crates/consensus) that prepares, seals and
-- verifies blocks for a set of validators, which a governance of proposals and votes changes. The
-- rules of the game (crates/game-engine) run in each tick, a peer manager (crates/network) decides
-- who may stay connected, and a sync engine fetches the blocks that a node lacks.
--
-- Which file models which part:
-- - Primitives/Block, Primitives/Transaction: crates/primitives/src/block.rs and transaction.rs, the
--   data of blocks and transactions, a record or data type for each struct or enum.
-- - Primitives/Crypto: crates/primitives/src/crypto.rs with the hashing of headers and transactions.
--   Keccak-256, RLP, JSON and secp256k1 are the fields of the record `Crypto`, and `RlpLaws` and
--   `SignatureLaws` are what the code relies on. Primitives/Bytes has the big-endian byte strings,
--   Primitives/Sample a concrete instance, at which the laws hold.
-- - Consensus/Governance: crates/consensus/src/validator_manager.rs. `propose`, `vote`,
--   `expire_proposals` and `proposer_for_height` bear the names of the methods; `cast_vote`,
--   `settle` and `execute` are the parts of `vote` and `check_and_execute`. `none` is the panic of
--   `div_ceil` on a zero denominator and of `unwrap`. A call is a step of Consensus/Governance/Calls.
-- - Consensus/Poa: crates/consensus/src/poa.rs, with the time as an argument of `prepare_header`.
-- - TxPool: crates/txpool/src/pool.rs. `enqueue` and `dequeue` are the writes to the queue of a
--   sender; the calls are in TxPool/Calls.
-- - State: crates/state/src/world_state.rs and the account of crates/primitives/src/account.rs. An
--   operation returns the new state with its result.
-- - Storage/Cache and Storage/Pruning: crates/storage/src/cache.rs and pruning.rs. In the former
--   `put`, `delete` and `clear_entries` are `insert`, `remove` and `clear`.
-- - Game/Trading: crates/game-engine/src/trading.rs, with the calls in Game/Trading/Calls.
-- - Game/Quests, Game/Crafting and Game/Skills: crates/game-engine/src/quests.rs, crafting.rs and
--   skills.rs, each with the built-in entries in Defaults. The three handlers of quest events are one
--   loop over an `Event`, which counts and advances as the handler does; `none` is a panic.
-- - Game/Shops: crates/game-engine/src/shops.rs, with the prices that are computed on `f32` as the
--   record `FloatPrices`.
-- - Network/Peers: crates/network/src/peer_manager.rs, with the calls as `Call`. A score and
--   `decay_amount`, which are `i64`, are kept raised by 2^63; their sums and differences wrap around.
-- - Network/Sync: crates/network/src/sync.rs. `HeaderRequest` and `BodyRequest` are one record,
--   `Request`; the loops of `tick` over the requests that timed out are `retry_all`, and `none` is
--   the panic of `chunks`. The bodies and the check of the chain are in Network/Sync/Bodies, time-outs
--   and the calls in Network/Sync/Timeouts.
-- - Storage/Database: crates/storage/src/db.rs and tables.rs, a map for each column family. Node/Chain:
--   the head and the stored blocks of crates/node/src/chain.rs, where `store_block` is the end of
--   `apply_block`.
-- - Node/Producer: `produce_block` of crates/node/src/block_producer.rs up to the call of `apply_block`, as
--   `build_block`, and `compute_transactions_root` of crates/primitives/src/block.rs.
-- - Node/Reorg: crates/node/src/reorg.rs, the search for the common ancestor of two chains over the
--   tables of the database that it reads.
-- - Prelude and Map: shared lists, results, 64-bit words and the maps (`HashMap` as an association
--   list, `BTreeMap` in Map/Ordered).
--
-- The parts interact as in the code: the engine takes its proposer from the rotation of the
-- governance, the pool and the engine recover signers by Primitives/Crypto, the producer takes its
-- transactions from the pool and its header and seal from the engine, and the chain stores its blocks
-- in the database.
--
-- Numbers are natural numbers. An addition on `u64` wraps (`add64`), as in a release build, and so
-- does the subtraction of the pruning engine; `usize` lengths are those of lists and do not wrap.
-- Addresses, hashes, player names and items are words. Locks are the state that an operation takes
-- and returns, so that an interleaving is a sequence of calls. Log lines are left out, and an error
-- text is a constructor for the reason that it names.
--
-- Bounds and fuel: the loop of the pruning engine runs on the number of rounds that the batch allows,
-- which the code counts itself, so that no round is cut off; the search for the common ancestor runs
-- on the rounds of its `for` loop, and the cutting of the missing bodies into requests on as many
-- rounds as there are bodies, each of which takes at least one. The other loops are recursion on lists.
-- Where ids must not wrap, the number of calls is bounded by 2^64.
--
-- Not modelled: RocksDB, which is a map for each column family whose reads and writes succeed, and its
-- batches; the EVM (calls of revm); block execution, import and the execution of a
-- reorganisation (crates/node); libp2p (crates/network); the RPC server; the key store; the rest of
-- the game engine, which is largely on floating-point numbers, with the bonuses of skills; and the
-- clients.
pub mod Prelude
pub mod Map
pub mod Consensus
pub mod Primitives
pub mod TxPool
pub mod State
pub mod Storage
pub mod Game
pub mod Network
pub mod Node
