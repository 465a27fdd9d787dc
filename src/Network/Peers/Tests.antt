-- ===== src/Network/Peers/Tests.antt =====
-- Runs of the peer manager at concrete inputs.
use velochain.Prelude.{◌≡◌, refl, false, true, List, [], ◌∷◌, length, arith, ◌+◌, ◌-◌}
use velochain.Map.{lookup, insert, remove}
use velochain.Network.Peers.{
  zero_score, PeerInfo, PeerManagerConfig, inbound, outbound, invalid_block, wrong_chain_id, new,
  on_peer_connected, evict_worst_peer, worst, direction_count, is_banned, record_event, score_delta,
  Call, connected_call, event_call, tick_call, step, run,
}
use velochain.Network.Peers.Limits.{IsManaged, run-IsManaged}
use velochain.Network.Peers.Bans.{refused_for_good}

abbrev small : PeerManagerConfig
small = record {
  max_peers = 2;
  max_inbound = 1;
  max_outbound = 2;
  idle_timeout_ticks = 10;
  decay_interval_ticks = 5;
  decay_amount = zero_score + 5;
  chain_id = 1;
}

abbrev calls : List Call
calls =
    connected_call 1 inbound
    ∷ connected_call 2 outbound
    ∷ event_call 2 invalid_block
    ∷ connected_call 3 outbound
    ∷ tick_call
    ∷ []

run-IsManaged_example : IsManaged (run (new small) calls)
run-IsManaged_example = run-IsManaged small calls (omega arith, omega arith)

abbrev full_calls : List Call
full_calls = connected_call 1 inbound ∷ connected_call 2 outbound ∷ event_call 2 invalid_block ∷ []

-- A full node evicts its worst peer before it refuses an inbound one by the limit on inbound peers.
evicts_for_nobody :
    (length (on_peer_connected (run (new small) full_calls) 3 inbound).0.peers ≡ 1)
    × ((on_peer_connected (run (new small) full_calls) 3 inbound).1 ≡ false)
unfolding run step new on_peer_connected is_banned direction_count lookup insert remove record_event
    score_delta evict_worst_peer worst
evicts_for_nobody = (refl, refl)

abbrev twice_wrong : List Call
twice_wrong =
    connected_call 1 inbound ∷ event_call 1 wrong_chain_id ∷ event_call 1 wrong_chain_id ∷ []

abbrev wrong_peer : PeerInfo
wrong_peer = record {
  peer_id = 1;
  score = zero_score - 100;
  direction = inbound;
  best_block = 0;
  chain_id = 0;
  connected_tick = 0;
  last_activity_tick = 0;
  good_messages = 0;
  bad_messages = 2;
  disconnect_pending = true;
}

refused_for_good_example :
    on_peer_connected
      (run (record_event (run (new small) twice_wrong) 1 wrong_chain_id) (tick_call ∷ []))
      1
      inbound
    ≡ (run (record_event (run (new small) twice_wrong) 1 wrong_chain_id) (tick_call ∷ []), false)
unfolding run step new on_peer_connected is_banned direction_count lookup insert record_event
    score_delta
refused_for_good_example =
    let one_ban = (run-IsManaged small twice_wrong (omega arith, omega arith)).one_ban in
    refused_for_good (run (new small) twice_wrong) 1 wrong_chain_id wrong_peer (tick_call ∷ [])
      inbound one_ban refl (omega arith)
