-- ===== src/Network/Peers/Limits.antt =====
-- The limits on the peers hold after any sequence of calls.
use velochain.Prelude.{
  ℕ, ◌≤◌, ◌<◌, ◌≡◌, refl, ◌∙◌, subst, Bool, true, false, ◌&&◌, some, List, [], ◌∷◌, leb, not, ◌==◌,
  if◌then◌else◌, length, add64, sub64, ltb, ◌+◌, u64_mod, arith, inl, inr, Bool-cases, Option-cases,
}
use velochain.Map.{
  length-remove-present, Map, lookup, insert, remove, update_all, Unique, Every, Every-insert,
  Every-remove, Every-nil, insert-Unique, remove-Unique, keep-Unique, update_all-Unique,
  lookup-update_all, length-insert, length-update_all, length-remove-le,
}
use velochain.Network.Peers.{
  in_force, ban_threshold, max_score, min_score, zero_score, initial_score, add_score, sub_score,
  ScoreEvent, ScoreDelta, score_delta, wrong_chain_id, Direction, inbound, outbound, PeerInfo,
  PeerManagerConfig, PeerManager, new, direction_count, is_banned, worst, evict_worst_peer, limit,
  new_peer, connect_within, connect_evicted, on_peer_connected, on_peer_disconnected, adjusted,
  scored, record_found, record_event, with_status, update_peer_status, decayed, decay_scores, tick,
  Call, connected_call, disconnected_call, event_call, status_call, tick_call, step, run,
}
use velochain.Network.Peers.Counts.{
  IsPeer, direction_count-insert, direction_count-rewrite, direction_count-remove-le,
  direction_count-update_all, lookup-worst,
}

-- The decay is not negative, and from the initial score on it does not wrap.
abbrev pub IsMild : PeerManagerConfig → Type 0
IsMild c = (zero_score ≤ c.decay_amount) × (c.decay_amount + 100 < u64_mod)

pub record IsManaged (m : PeerManager) : Type 0 where
  pub mild : IsMild m.config
  pub own_id : Every IsPeer m.peers
  pub one_peer : Unique m.peers
  pub one_ban : Unique m.banned
  pub few : length m.peers ≤ m.config.max_peers
  pub few_of : (d : Direction) → direction_count d m.peers ≤ limit m.config d

-- A known peer is written back.
set-IsManaged :
    (m : PeerManager) (k : ℕ) (p q : PeerInfo) (bans : Map ℕ)
    → IsManaged m
    → lookup k m.peers ≡ some p
    → q.peer_id ≡ p.peer_id
    → q.direction ≡ p.direction
    → (min_score ≤ q.score) × (q.score ≤ max_score)
    → Unique bans
    → IsManaged (record m { peers = insert k q m.peers; banned = bans })
set-IsManaged m k p q bans v found id direction score one = record {
  mild = v.mild;
  own_id = Every-insert IsPeer k q m.peers (id ∙ (v.own_id k p found).0, score.0, score.1) v.own_id;
  one_peer = insert-Unique k q m.peers v.one_peer;
  one_ban = one;
  few = ground (arith, length-insert k q m.peers, v.few);
  few_of = λ d. omega (arith, direction_count-rewrite d k p q m.peers found direction, v.few_of d);
}

-- Peers are taken out.
remove-IsManaged :
    (m : PeerManager) (k : ℕ) → IsManaged m → IsManaged (record m { peers = remove k m.peers })
remove-IsManaged m k v = record {
  mild = v.mild;
  own_id = Every-remove IsPeer k m.peers v.own_id;
  one_peer = remove-Unique k m.peers v.one_peer;
  one_ban = v.one_ban;
  few = omega (arith, length-remove-le k m.peers, v.few);
  few_of = λ d. omega (arith, direction_count-remove-le d k m.peers, v.few_of d);
}

new_within :
    (m : PeerManager) (id : ℕ) (d x : Direction)
    → IsManaged m
    → leb (limit m.config d) (direction_count d m.peers) ≡ false
    → direction_count x (insert id (new_peer m id d) m.peers) ≤ limit m.config x
new_within m id inbound inbound v free =
    ground (arith, direction_count-insert inbound id (new_peer m id inbound) m.peers)
new_within m id inbound outbound v free =
    ground
      (arith, v.few_of outbound, direction_count-insert outbound id (new_peer m id inbound) m.peers)
new_within m id outbound inbound v free =
    ground
      (arith, v.few_of inbound, direction_count-insert inbound id (new_peer m id outbound) m.peers)
new_within m id outbound outbound v free =
    ground (arith, direction_count-insert outbound id (new_peer m id outbound) m.peers)

connect_within-IsManaged :
    (m : PeerManager) (id : ℕ) (d : Direction)
    → IsManaged m
    → length m.peers < m.config.max_peers
    → IsManaged (connect_within m id d).0
connect_within-IsManaged m id d v room =
    elim (Bool-cases (leb (limit m.config d) (direction_count d m.peers))) [
      | inl full ↦ rw full v
      | inr free ↦ rw free (record {
        mild = v.mild;
        own_id =
            Every-insert IsPeer id (new_peer m id d) m.peers (refl, omega arith, omega arith)
              v.own_id;
        one_peer = insert-Unique id (new_peer m id d) m.peers v.one_peer;
        one_ban = v.one_ban;
        few = ground (arith, length-insert id (new_peer m id d) m.peers);
        few_of = λ x. new_within m id d x v free;
      })
    ]

evict-IsManaged :
    (m : PeerManager) (id : ℕ) (d : Direction)
    → IsManaged m
    → IsManaged (connect_evicted (evict_worst_peer m) id d).0
unfolding evict_worst_peer
evict-IsManaged m id d v = elim (Option-cases (worst m.peers)) [
  | inl nobody ↦ rw (nobody, evict_worst_peer) v
  | inr (p, found) ↦
      let present = lookup-worst m.peers p v.one_peer v.own_id found in
      rw (found, evict_worst_peer)
        (connect_within-IsManaged (record m { peers = remove p.peer_id m.peers }) id d
          (remove-IsManaged m p.peer_id v)
          (omega (arith, v.few, length-remove-present p.peer_id p m.peers present)))
]

connected-IsManaged :
    (m : PeerManager) (id : ℕ) (d : Direction)
    → IsManaged m
    → IsManaged (on_peer_connected m id d).0
unfolding on_peer_connected
connected-IsManaged m id d v = elim (Bool-cases (is_banned m id)) [
  | inl banned ↦ rw (banned, on_peer_connected) v
  | inr welcome ↦ elim (Bool-cases (leb m.config.max_peers (length m.peers))) [
    | inl full ↦ rw (welcome, full, on_peer_connected) (evict-IsManaged m id d v)
    | inr room ↦
        rw (welcome, room, on_peer_connected) (connect_within-IsManaged m id d v (ground arith))
  ]
]

adjusted-range :
    (score : ℕ) (d : ScoreDelta) → (min_score ≤ adjusted score d) × (adjusted score d ≤ max_score)
adjusted-range score d = (omega arith, omega arith)

pub bans-Unique :
    (id : ℕ) (b : Bool) (bans : Map ℕ) → Unique bans → Unique (if b then insert id 0 bans else bans)
bans-Unique id true bans u = insert-Unique id 0 bans u
bans-Unique id false bans u = u

pub event-IsManaged :
    (m : PeerManager) (id : ℕ) (event : ScoreEvent)
    → IsManaged m
    → IsManaged (record_event m id event)
unfolding record_event
event-IsManaged m id event v = elim (Option-cases (lookup id m.peers)) [
  | inl unknown ↦ rw (unknown, record_event) v
  | inr (p, found) ↦
      let q = scored m p (score_delta event) in
      rw (found, record_event)
        (set-IsManaged m id p q (record_found m id q).banned v found refl refl
          (adjusted-range p.score (score_delta event))
          (bans-Unique id (leb q.score ban_threshold) m.banned v.one_ban))
]

status-IsManaged :
    (m : PeerManager) (id best chain : ℕ)
    → IsManaged m
    → IsManaged (update_peer_status m id best chain)
unfolding update_peer_status
status-IsManaged m id best chain v = elim (Option-cases (lookup id m.peers)) [
  | inl unknown ↦ rw (unknown, update_peer_status) v
  | inr (p, found) ↦
      let q = with_status m p best chain in
      let (own, low, high) = v.own_id id p found in
      let written = set-IsManaged m id p q m.banned v found refl refl (low, high) v.one_ban in
      elim (Bool-cases (not (chain == 0) && not (chain == m.config.chain_id))) [
        | inl wrong ↦
            rw (found, wrong, update_peer_status)
              (event-IsManaged (record m { peers = insert id q m.peers }) id wrong_chain_id written)
        | inr right ↦ rw (found, right, update_peer_status) written
      ]
]

sub_score-range :
    (score amount : ℕ)
    → initial_score < score
    → score ≤ max_score
    → zero_score ≤ amount
    → amount + 100 < u64_mod
    → sub_score score amount ≤ max_score
sub_score-range score amount above range mild small = omega arith

add_score-range :
    (score amount : ℕ)
    → min_score ≤ score
    → score < initial_score
    → zero_score ≤ amount
    → amount + 100 < u64_mod
    → min_score ≤ add_score score amount
add_score-range score amount above range mild small = omega arith

decayed-range :
    (c : PeerManagerConfig) (p : PeerInfo)
    → IsMild c
    → (min_score ≤ p.score) × (p.score ≤ max_score)
    → (min_score ≤ (decayed c.decay_amount p).score)
      × ((decayed c.decay_amount p).score ≤ max_score)
decayed-range c p (mild, small) (low, high) = elim (Bool-cases (ltb initial_score p.score)) [
  | inl above ↦
      let bound = sub_score-range p.score c.decay_amount (ground (arith, above)) high mild small in
      rw above (omega arith, omega (arith, bound))
  | inr other ↦ elim (Bool-cases (ltb p.score initial_score)) [
    | inl below ↦
        let bound = add_score-range p.score c.decay_amount low (ground (arith, below)) mild small in
        rw (other, below) (omega (arith, bound), omega arith)
    | inr same ↦ rw (other, same) (low, high)
  ]
]

decayed-IsPeer :
    (c : PeerManagerConfig) (m : Map PeerInfo)
    → IsMild c
    → Every IsPeer m
    → Every IsPeer (update_all (decayed c.decay_amount) m)
decayed-IsPeer c m mild own k p e = elim (Option-cases (lookup k m)) [
  | inl unknown ↦ absurd (cc (rw (lookup-update_all (decayed c.decay_amount) k m, unknown) at e))
  | inr (q, found) ↦
      let same : decayed c.decay_amount q ≡ p =
        ground (arith, lookup-update_all (decayed c.decay_amount) k m) in
      let (id, low, high) = own k q found in
      let (least, most) = decayed-range c q mild (low, high) in
      subst (IsPeer k) same (id, least, most)
]

decay-IsManaged : (m : PeerManager) → IsManaged m → IsManaged (decay_scores m)
decay-IsManaged m v =
    elim (Bool-cases (leb m.config.decay_interval_ticks (sub64 m.current_tick m.last_decay_tick))) [
      | inr early ↦ rw early v
      | inl due ↦ rw due (record {
        mild = v.mild;
        own_id = decayed-IsPeer m.config m.peers v.mild v.own_id;
        one_peer = update_all-Unique (decayed m.config.decay_amount) m.peers v.one_peer;
        one_ban = v.one_ban;
        few = omega (arith, v.few, length-update_all (decayed m.config.decay_amount) m.peers);
        few_of = λ d.
            omega (arith, v.few_of d, direction_count-update_all d m.config.decay_amount m.peers);
      })
    ]

tick-IsManaged : (m : PeerManager) → IsManaged m → IsManaged (tick m)
unfolding tick
tick-IsManaged m v =
    let n = record m { current_tick = add64 m.current_tick 1 } in
    let w = decay-IsManaged n (record {
      mild = v.mild;
      own_id = v.own_id;
      one_peer = v.one_peer;
      one_ban = v.one_ban;
      few = v.few;
      few_of = v.few_of;
    }) in
    record {
      mild = w.mild;
      own_id = w.own_id;
      one_peer = w.one_peer;
      one_ban =
          keep-Unique (λ _ expiry. in_force (decay_scores n).current_tick expiry)
            (decay_scores n).banned w.one_ban;
      few = w.few;
      few_of = w.few_of;
    }

pub step-IsManaged : (m : PeerManager) (c : Call) → IsManaged m → IsManaged (step m c)
unfolding step on_peer_disconnected
step-IsManaged m (connected_call id d) v = connected-IsManaged m id d v
step-IsManaged m (disconnected_call id) v = remove-IsManaged m id v
step-IsManaged m (event_call id event) v = event-IsManaged m id event v
step-IsManaged m (status_call id best chain) v = status-IsManaged m id best chain v
step-IsManaged m tick_call v = tick-IsManaged m v

run-IsManaged_from : (m : PeerManager) (cs : List Call) → IsManaged m → IsManaged (run m cs)
unfolding run
run-IsManaged_from m [] v = v
run-IsManaged_from m (c ∷ cs) v = run-IsManaged_from (step m c) cs (step-IsManaged m c v)

-- With a decay amount that is not negative and, with 100 more, still below 2^63, after any sequence of
-- connections, disconnections, events, status updates and ticks on a new manager, every peer stands
-- under its own id with a score from -500 to 500, no peer and no ban stands twice, and the numbers
-- of peers, of inbound peers and of outbound peers are within their limits.
pub run-IsManaged : (c : PeerManagerConfig) (cs : List Call) → IsMild c → IsManaged (run (new c) cs)
unfolding new direction_count
run-IsManaged c cs mild = run-IsManaged_from (new c) cs (record {
  mild = mild;
  own_id = Every-nil IsPeer;
  one_peer = tt;
  one_ban = tt;
  few = omega arith;
  few_of = λ d. omega arith;
})
