-- ===== src/Game/Trading/Calls.antt =====
-- One call on the trade manager, the keys of its trades and the trades that have come to their end.
use velochain.Prelude.{
  ℕ, ◌+◌, ◌<◌, ◌≡◌, Bool, true, false, Option, none, some, List, [], ◌∷◌, ◌==◌, if◌then◌else◌,
}
use velochain.Map.{lookup, Every}
use velochain.Game.Trading.{
  TradeSession, TradeManager, TradeResult, trade_created, trade_accepted, item_added,
  trade_confirmed, trade_executed, trade_cancelled, trade_error, propose_trade, accept_trade,
  add_item, confirm_trade, cancel_trade, tick_expirations, is_ended,
}

pub data Call : Type 0 where
  propose_call : ℕ → ℕ → ℕ → Call
  accept_call : ℕ → ℕ → Call
  add_call : ℕ → ℕ → ℕ → ℕ → Call
  confirm_call : ℕ → ℕ → Call
  cancel_call : ℕ → ℕ → Call
  tick_call : ℕ → Call

-- `none` is the answer of `tick_expirations`, which has none.
abbrev pub answered : TradeManager × TradeResult → TradeManager × Option TradeResult
answered (m, r) = (m, some r)

unfoldable pub step : TradeManager → Call → TradeManager × Option TradeResult
step m (propose_call i a tick) = answered (propose_trade m i a tick)
step m (accept_call id p) = answered (accept_trade m id p)
step m (add_call id p item n) = answered (add_item m id p item n)
step m (confirm_call id p) = answered (confirm_trade m id p)
step m (cancel_call id p) = answered (cancel_trade m id p)
step m (tick_call tick) = (tick_expirations m tick, none)

-- Every trade stands under its own number, which was given out.
abbrev pub Numbered : ℕ → ℕ → TradeSession → Type 0
Numbered next k t = (t.id ≡ k) × (k < next)

abbrev pub IsNumbered : TradeManager → Type 0
IsNumbered m = Every (Numbered m.next_id) m.trades

abbrev pub has_ended : ℕ → TradeManager → Bool
has_ended i m = elim (lookup i m.trades) [ none ↦ false | some t ↦ is_ended t.state ]

abbrev pub is_proposal : Call → Bool
is_proposal (propose_call i a tick) = true
is_proposal _ = false

-- An answer that executes the trade `i`.
abbrev pub is_execution : ℕ → Option TradeResult → Bool
is_execution i none = false
is_execution i (some (trade_executed j received given)) = j == i
is_execution i (some (trade_created j)) = false
is_execution i (some (trade_accepted j)) = false
is_execution i (some item_added) = false
is_execution i (some trade_confirmed) = false
is_execution i (some (trade_cancelled j)) = false
is_execution i (some (trade_error e)) = false

-- How often a sequence of calls executes the trade `i`.
unfoldable pub executions : ℕ → TradeManager → List Call → ℕ
executions i m [] = 0
executions i m (c ∷ cs) =
    (if is_execution i (step m c).1 then 1 else 0) + executions i (step m c).0 cs
