-- ===== src/Game/Trading/Tests.antt =====
-- Runs of the trade manager at concrete inputs.
use velochain.Prelude.{◌≤◌, ◌≡◌, refl, some, List, [], ◌∷◌, arith}
use velochain.Map.{lookup, insert, remove}
use velochain.Game.Trading.{
  TradeManager, new, propose_trade, accept_trade, add_item, offer_item, confirm_trade,
}
use velochain.Game.Trading.Calls.{
  Call, propose_call, accept_call, add_call, confirm_call, step, executions,
}
use velochain.Game.Trading.Execution.{executes_once}
use velochain.Game.Trading.Offers.{confirmations, confirm-add_item}

-- Players 10 and 20 trade item 7 against item 8, and both confirm.
abbrev swap : List Call
swap =
    propose_call 10 20 0
    ∷ accept_call 1 20
    ∷ add_call 1 10 7 2
    ∷ add_call 1 20 8 1
    ∷ confirm_call 1 10
    ∷ confirm_call 1 20
    ∷ []

swap_runs : executions 1 new swap ≡ 1
unfolding executions step new propose_trade accept_trade add_item offer_item confirm_trade lookup
    insert remove
swap_runs = refl

executes_once_example : executions 1 new swap ≤ 1
executes_once_example = executes_once 1 swap (omega arith)

abbrev joined : TradeManager
unfolding new propose_trade accept_trade lookup insert
joined = (accept_trade (propose_trade new 10 20 0).0 1 20).0

confirm-add_item_example :
    executions 1 (add_item (confirm_trade joined 1 20).0 1 10 7 2).0 (confirmations 3 1 10) ≡ 0
unfolding joined new propose_trade accept_trade add_item confirm_trade lookup insert
confirm-add_item_example = confirm-add_item (confirm_trade joined 1 20).0 1 10 7 2 10 3 refl

-- A player who accepts a second trade leaves the first one open and is listed under the second only.
abbrev twice : TradeManager
unfolding new propose_trade accept_trade lookup insert
twice =
    (accept_trade (accept_trade (propose_trade (propose_trade new 10 20 0).0 30 20 0).0 1 20).0 2
      20).0

second_trade : (lookup 10 twice.active_trades ≡ some 1) × (lookup 20 twice.active_trades ≡ some 2)
unfolding twice new propose_trade accept_trade lookup insert
second_trade = (refl, refl)
