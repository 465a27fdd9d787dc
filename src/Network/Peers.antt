-- ===== src/Network/Peers.antt =====
-- crates/network/src/peer_manager.rs: scores, bans and connection limits. Peer ids are words. A
-- score, an `i64`, is kept raised by 2^63: `zero_score` stands for 0, and the order of the words is
-- the order of the scores.
mod Counts
mod Limits
mod Bans
mod Tests
use velochain.Prelude.{
  ℕ, ◌+◌, ◌-◌, suc, Bool, true, false, ◌&&◌, ◌||◌, Option, none, some, List, [], ◌∷◌, ltb, leb, not,
  ◌==◌, if◌then◌else◌, length, add64, sub64, min, max, ◌%◌, ◌^◌, u64_mod,
}
use velochain.Map.{Map, lookup, insert, remove, keep, values, update_all}

abbrev pub zero_score : ℕ
zero_score = 2 ^ 63

-- `+` and `-` on `i64`, which wrap around in a release build.
abbrev pub add_score : ℕ → ℕ → ℕ
add_score a b = (a + b + zero_score) % u64_mod

abbrev pub sub_score : ℕ → ℕ → ℕ
sub_score a b = (a + u64_mod - b + zero_score) % u64_mod

abbrev pub initial_score : ℕ
initial_score = zero_score + 100

abbrev pub disconnect_threshold : ℕ
disconnect_threshold = zero_score - 50

abbrev pub ban_threshold : ℕ
ban_threshold = zero_score - 200

abbrev pub max_score : ℕ
max_score = zero_score + 500

-- The lower end of the clamp.
abbrev pub min_score : ℕ
min_score = zero_score - 500

pub data ScoreEvent : Type 0 where
  valid_block valid_headers valid_bodies pong_received invalid_block : ScoreEvent
  invalid_headers timed_out duplicate_data unsolicited_data : ScoreEvent
  wrong_chain_id decay : ScoreEvent

pub data ScoreDelta : Type 0 where
  gain loss : ℕ → ScoreDelta

unfoldable pub score_delta : ScoreEvent → ScoreDelta
score_delta valid_block = gain 10
score_delta valid_headers = gain 5
score_delta valid_bodies = gain 5
score_delta pong_received = gain 1
score_delta invalid_block = loss 50
score_delta invalid_headers = loss 30
score_delta timed_out = loss 10
score_delta duplicate_data = loss 5
score_delta unsolicited_data = loss 3
score_delta wrong_chain_id = loss 100
score_delta decay = gain 0

pub data Direction : Type 0 where
  outbound inbound : Direction

pub record PeerInfo : Type 0 where
  pub peer_id : ℕ
  pub score : ℕ
  pub direction : Direction
  pub best_block : ℕ
  pub chain_id : ℕ
  pub connected_tick : ℕ
  pub last_activity_tick : ℕ
  pub good_messages : ℕ
  pub bad_messages : ℕ
  pub disconnect_pending : Bool

pub record PeerManagerConfig : Type 0 where
  pub max_peers : ℕ
  pub max_inbound : ℕ
  pub max_outbound : ℕ
  pub idle_timeout_ticks : ℕ
  pub decay_interval_ticks : ℕ
  pub decay_amount : ℕ
  pub chain_id : ℕ

pub record PeerManager : Type 0 where
  pub peers : Map PeerInfo
  pub banned : Map ℕ
  pub config : PeerManagerConfig
  pub current_tick : ℕ
  pub last_decay_tick : ℕ

unfoldable pub new : PeerManagerConfig → PeerManager
new c = record { peers = []; banned = []; config = c; current_tick = 0; last_decay_tick = 0 }

abbrev pub is_same : Direction → Direction → Bool
is_same inbound inbound = true
is_same outbound outbound = true
is_same _ _ = false

-- `inbound_count` and `outbound_count`
unfoldable pub direction_count : Direction → Map PeerInfo → ℕ
direction_count d [] = 0
direction_count d ((k, p) ∷ ps) =
    if is_same d p.direction then suc (direction_count d ps) else direction_count d ps

abbrev pub in_force : ℕ → ℕ → Bool
in_force tick expiry = (expiry == 0) || ltb tick expiry

unfoldable pub is_banned : PeerManager → ℕ → Bool
is_banned m id = elim (lookup id m.banned) [
  | none ↦ false
  | some expiry ↦ in_force m.current_tick expiry
]

-- `min_by_key` on the scores: the first of the lowest.
unfoldable pub worst : Map PeerInfo → Option PeerInfo
worst [] = none
worst ((k, p) ∷ ps) = elim (worst ps) [
  | none ↦ some p
  | some q ↦ if leb p.score q.score then some p else some q
]

unfoldable pub evict_worst_peer : PeerManager → PeerManager × Bool
evict_worst_peer m = elim (worst m.peers) [
  | none ↦ (m, false)
  | some p ↦ (record m { peers = remove p.peer_id m.peers }, true)
]

abbrev pub limit : PeerManagerConfig → Direction → ℕ
limit c inbound = c.max_inbound
limit c outbound = c.max_outbound

abbrev pub new_peer : PeerManager → ℕ → Direction → PeerInfo
new_peer m id d = record {
  peer_id = id;
  score = initial_score;
  direction = d;
  best_block = 0;
  chain_id = 0;
  connected_tick = m.current_tick;
  last_activity_tick = m.current_tick;
  good_messages = 0;
  bad_messages = 0;
  disconnect_pending = false;
}

-- The limit of the direction, once there is room.
abbrev pub connect_within : PeerManager → ℕ → Direction → PeerManager × Bool
connect_within m id d =
    if leb (limit m.config d) (direction_count d m.peers)
    then (m, false)
    else (record m { peers = insert id (new_peer m id d) m.peers }, true)

abbrev pub connect_evicted : PeerManager × Bool → ℕ → Direction → PeerManager × Bool
connect_evicted (m, evicted) id d = if evicted then connect_within m id d else (m, false)

unfoldable pub on_peer_connected : PeerManager → ℕ → Direction → PeerManager × Bool
on_peer_connected m id d =
    if is_banned m id
    then (m, false)
    else if leb m.config.max_peers (length m.peers)
    then connect_evicted (evict_worst_peer m) id d
    else connect_within m id d

unfoldable pub on_peer_disconnected : PeerManager → ℕ → PeerManager
on_peer_disconnected m id = record m { peers = remove id m.peers }

abbrev pub score_of : ScoreDelta → ℕ
score_of (gain n) = zero_score + n
score_of (loss n) = zero_score - n

-- The sum, clamped to the range of scores.
abbrev pub adjusted : ℕ → ScoreDelta → ℕ
adjusted score d = min max_score (max min_score (add_score score (score_of d)))

abbrev pub good_after : ℕ → ScoreDelta → ℕ
good_after n (gain d) = if ltb 0 d then add64 n 1 else n
good_after n (loss d) = n

abbrev pub bad_after : ℕ → ScoreDelta → ℕ
bad_after n (gain d) = n
bad_after n (loss d) = if ltb 0 d then add64 n 1 else n

abbrev pub scored : PeerManager → PeerInfo → ScoreDelta → PeerInfo
scored m p d = record p {
  score = adjusted p.score d;
  last_activity_tick = m.current_tick;
  good_messages = good_after p.good_messages d;
  bad_messages = bad_after p.bad_messages d;
  disconnect_pending =
      if leb (adjusted p.score d) disconnect_threshold then true else p.disconnect_pending;
}

abbrev pub record_found : PeerManager → ℕ → PeerInfo → PeerManager
record_found m id p = record m {
  peers = insert id p m.peers;
  banned = if leb p.score ban_threshold then insert id 0 m.banned else m.banned;
}

unfoldable pub record_event : PeerManager → ℕ → ScoreEvent → PeerManager
record_event m id event = elim (lookup id m.peers) [
  | none ↦ m
  | some p ↦ record_found m id (scored m p (score_delta event))
]

abbrev pub with_status : PeerManager → PeerInfo → ℕ → ℕ → PeerInfo
with_status m p best chain = record p {
  best_block = best;
  chain_id = chain;
  last_activity_tick = m.current_tick;
}

abbrev pub update_found : PeerManager → ℕ → PeerInfo → PeerManager
update_found m id p =
    let m' = record m { peers = insert id p m.peers } in
    if not (p.chain_id == 0) && not (p.chain_id == m.config.chain_id)
    then record_event m' id wrong_chain_id
    else m'

unfoldable pub update_peer_status : PeerManager → ℕ → ℕ → ℕ → PeerManager
update_peer_status m id best chain = elim (lookup id m.peers) [
  | none ↦ m
  | some p ↦ update_found m id (with_status m p best chain)
]

abbrev pub is_due : PeerManager → PeerInfo → Bool
is_due m p =
    p.disconnect_pending
    || ltb m.config.idle_timeout_ticks (sub64 m.current_tick p.last_activity_tick)

unfoldable pub due_ids : PeerManager → Map PeerInfo → List ℕ
due_ids m [] = []
due_ids m ((k, p) ∷ ps) = if is_due m p then p.peer_id ∷ due_ids m ps else due_ids m ps

unfoldable pub peers_to_disconnect : PeerManager → List ℕ
peers_to_disconnect m = due_ids m m.peers

abbrev pub decayed : ℕ → PeerInfo → PeerInfo
decayed amount p = record p {
  score =
      if ltb initial_score p.score
      then max (sub_score p.score amount) initial_score
      else if ltb p.score initial_score
      then min (add_score p.score amount) initial_score
      else p.score;
}

abbrev pub decay_scores : PeerManager → PeerManager
decay_scores m =
    if leb m.config.decay_interval_ticks (sub64 m.current_tick m.last_decay_tick)
    then record m {
      last_decay_tick = m.current_tick;
      peers = update_all (decayed m.config.decay_amount) m.peers;
    }
    else m

abbrev pub drop_bans : PeerManager → PeerManager
drop_bans m = record m { banned = keep (λ _ expiry. in_force m.current_tick expiry) m.banned }

unfoldable pub tick : PeerManager → PeerManager
tick m = drop_bans (decay_scores (record m { current_tick = add64 m.current_tick 1 }))

pub data Call : Type 0 where
  connected_call : ℕ → Direction → Call
  disconnected_call : ℕ → Call
  event_call : ℕ → ScoreEvent → Call
  status_call : ℕ → ℕ → ℕ → Call
  tick_call : Call

unfoldable pub step : PeerManager → Call → PeerManager
step m (connected_call id d) = (on_peer_connected m id d).0
step m (disconnected_call id) = on_peer_disconnected m id
step m (event_call id event) = record_event m id event
step m (status_call id best chain) = update_peer_status m id best chain
step m tick_call = tick m

unfoldable pub run : PeerManager → List Call → PeerManager
run m [] = m
run m (c ∷ cs) = run (step m c) cs
