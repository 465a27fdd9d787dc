-- ===== src/Network/Peers/Bans.antt =====
-- A peer that is banned for its score stays banned.
use velochain.Prelude.{
  ℕ, ◌≤◌, ◌≡◌, sym, subst, false, ◌&&◌, some, List, [], ◌∷◌, not, leb, ◌==◌, add64, arith, inl, inr,
  Bool-cases, Option-cases,
}
use velochain.Map.{lookup-insert, lookup-keep, lookup, insert, Unique, keep-Unique}
use velochain.Network.Peers.{
  in_force, ban_threshold, ScoreEvent, score_delta, wrong_chain_id, Direction, PeerInfo,
  PeerManager, is_banned, evict_worst_peer, on_peer_connected, on_peer_disconnected, adjusted,
  scored, record_found, record_event, with_status, update_peer_status, decay_scores, tick, Call,
  connected_call, disconnected_call, event_call, status_call, tick_call, step, run,
}
use velochain.Network.Peers.Limits.{bans-Unique}

abbrev IsBarred : ℕ → PeerManager → Type 0
IsBarred id m = lookup id m.banned ≡ some 0

record_found-IsBarred :
    (m : PeerManager) (id k : ℕ) (p : PeerInfo) → IsBarred id m → IsBarred id (record_found m k p)
record_found-IsBarred m id k p h = ground (arith, lookup-insert k id 0 m.banned)

event-IsBarred :
    (m : PeerManager) (id k : ℕ) (event : ScoreEvent)
    → IsBarred id m
    → IsBarred id (record_event m k event)
unfolding record_event
event-IsBarred m id k event h = elim (Option-cases (lookup k m.peers)) [
  | inl unknown ↦ rw (unknown, record_event) h
  | inr (p, found) ↦
      rw (found, record_event) (record_found-IsBarred m id k (scored m p (score_delta event)) h)
]

status-IsBarred :
    (m : PeerManager) (id k best chain : ℕ)
    → IsBarred id m
    → IsBarred id (update_peer_status m k best chain)
unfolding update_peer_status
status-IsBarred m id k best chain h = elim (Option-cases (lookup k m.peers)) [
  | inl unknown ↦ rw (unknown, update_peer_status) h
  | inr (p, found) ↦
      let q = with_status m p best chain in
      let event = event-IsBarred (record m { peers = insert k q m.peers }) id k wrong_chain_id h in
      elim (Bool-cases (not (chain == 0) && not (chain == m.config.chain_id))) [
        | inl wrong ↦ rw (found, wrong, update_peer_status) event
        | inr right ↦ rw (found, right, update_peer_status) h
      ]
]

connected-banned :
    (m : PeerManager) (k : ℕ) (d : Direction) → (on_peer_connected m k d).0.banned ≡ m.banned
unfolding on_peer_connected evict_worst_peer
connected-banned m k d = ground arith

decay-banned : (m : PeerManager) → (decay_scores m).banned ≡ m.banned
decay-banned m = ground arith

tick-IsBarred : (m : PeerManager) (id : ℕ) → Unique m.banned → IsBarred id m → IsBarred id (tick m)
unfolding tick
tick-IsBarred m id one h =
    let n = decay_scores (record m { current_tick = add64 m.current_tick 1 }) in
    let same : n.banned ≡ m.banned =
      decay-banned (record m { current_tick = add64 m.current_tick 1 }) in
    ground (
      arith,
      lookup-keep (λ _ expiry. in_force n.current_tick expiry) id n.banned
          (subst Unique (sym same) one),
    )

record_found-Unique :
    (m : PeerManager) (k : ℕ) (p : PeerInfo) → Unique m.banned → Unique (record_found m k p).banned
record_found-Unique m k p one = bans-Unique k (leb p.score ban_threshold) m.banned one

event-Unique :
    (m : PeerManager) (k : ℕ) (event : ScoreEvent)
    → Unique m.banned
    → Unique (record_event m k event).banned
unfolding record_event
event-Unique m k event one = elim (Option-cases (lookup k m.peers)) [
  | inl unknown ↦ rw (unknown, record_event) one
  | inr (p, found) ↦
      rw (found, record_event) (record_found-Unique m k (scored m p (score_delta event)) one)
]

status-Unique :
    (m : PeerManager) (k best chain : ℕ)
    → Unique m.banned
    → Unique (update_peer_status m k best chain).banned
unfolding update_peer_status
status-Unique m k best chain one = elim (Option-cases (lookup k m.peers)) [
  | inl unknown ↦ rw (unknown, update_peer_status) one
  | inr (p, found) ↦
      let q = with_status m p best chain in
      let event = event-Unique (record m { peers = insert k q m.peers }) k wrong_chain_id one in
      elim (Bool-cases (not (chain == 0) && not (chain == m.config.chain_id))) [
        | inl wrong ↦ rw (found, wrong, update_peer_status) event
        | inr right ↦ rw (found, right, update_peer_status) one
      ]
]

tick-Unique : (m : PeerManager) → Unique m.banned → Unique (tick m).banned
unfolding tick
tick-Unique m one =
    let n = decay_scores (record m { current_tick = add64 m.current_tick 1 }) in
    let same : n.banned ≡ m.banned =
      decay-banned (record m { current_tick = add64 m.current_tick 1 }) in
    keep-Unique (λ _ expiry. in_force n.current_tick expiry) n.banned (subst Unique (sym same) one)

step-Unique : (m : PeerManager) (c : Call) → Unique m.banned → Unique (step m c).banned
unfolding step on_peer_disconnected
step-Unique m (connected_call k d) one = subst Unique (sym (connected-banned m k d)) one
step-Unique m (disconnected_call k) one = one
step-Unique m (event_call k event) one = event-Unique m k event one
step-Unique m (status_call k best chain) one = status-Unique m k best chain one
step-Unique m tick_call one = tick-Unique m one

step-IsBarred :
    (m : PeerManager) (c : Call) (id : ℕ) → Unique m.banned → IsBarred id m → IsBarred id (step m c)
unfolding step on_peer_disconnected
step-IsBarred m (connected_call k d) id one h =
    subst (λ bans. lookup id bans ≡ some 0) (sym (connected-banned m k d)) h
step-IsBarred m (disconnected_call k) id one h = h
step-IsBarred m (event_call k event) id one h = event-IsBarred m id k event h
step-IsBarred m (status_call k best chain) id one h = status-IsBarred m id k best chain h
step-IsBarred m tick_call id one h = tick-IsBarred m id one h

run-IsBarred :
    (m : PeerManager) (cs : List Call) (id : ℕ)
    → Unique m.banned
    → IsBarred id m
    → IsBarred id (run m cs)
unfolding run
run-IsBarred m [] id one h = h
run-IsBarred m (c ∷ cs) id one h =
    run-IsBarred (step m c) cs id (step-Unique m c one) (step-IsBarred m c id one h)

event-bans :
    (m : PeerManager) (id : ℕ) (event : ScoreEvent) (p : PeerInfo)
    → lookup id m.peers ≡ some p
    → adjusted p.score (score_delta event) ≤ ban_threshold
    → IsBarred id (record_event m id event)
unfolding record_event
event-bans m id event p found low =
    rw (found, record_event) (ground (arith, lookup-insert id id 0 m.banned))

barred-refused :
    (m : PeerManager) (id : ℕ) (d : Direction)
    → IsBarred id m
    → on_peer_connected m id d ≡ (m, false)
unfolding on_peer_connected is_banned
barred-refused m id d h = ground arith

-- With no peer banned twice, an event that takes the score of a peer to the ban threshold or below
-- bans it for good: after any further calls the peer is refused, in either direction, and nobody is
-- evicted for it.
pub refused_for_good :
    (m : PeerManager) (id : ℕ) (event : ScoreEvent) (p : PeerInfo) (cs : List Call) (d : Direction)
    → Unique m.banned
    → lookup id m.peers ≡ some p
    → adjusted p.score (score_delta event) ≤ ban_threshold
    → on_peer_connected (run (record_event m id event) cs) id d
      ≡ (run (record_event m id event) cs, false)
refused_for_good m id event p cs d one found low =
    let banned = record_event m id event in
    barred-refused (run banned cs) id d
      (run-IsBarred banned cs id (event-Unique m id event one) (event-bans m id event p found low))
