-- ===== src/Game/Trading.antt =====
-- crates/game-engine/src/trading.rs: trades between two players. Addresses and items are words; the
-- text of `InvalidState` is the reason that it states.
mod Calls
mod Evolution
mod Offers
mod Execution
mod Tests
use velochain.Prelude.{
  ℕ, Bool, true, false, Option, none, some, List, [], ◌∷◌, ◌++◌, ◌&&◌, ◌||◌, not, ◌==◌, ltb,
  if◌then◌else◌, ◌^◌, ◌+◌, ◌%◌, length, add64,
}
use velochain.Map.{Map, lookup, insert, remove, contains_key}

pub data TradeState : Type 0 where
  proposed : TradeState
  negotiating : TradeState
  initiator_confirmed : TradeState
  acceptor_confirmed : TradeState
  completed : TradeState
  cancelled : TradeState
  expired : TradeState

pub record TradeOffer : Type 0 where
  pub items : List (ℕ × ℕ)
  pub gold : ℕ
  pub confirmed : Bool

pub record TradeSession : Type 0 where
  pub id : ℕ
  pub initiator : ℕ
  pub acceptor : ℕ
  pub state : TradeState
  pub initiator_offer : TradeOffer
  pub acceptor_offer : TradeOffer
  pub created_tick : ℕ
  pub timeout_ticks : ℕ

pub data InvalidReason : Type 0 where
  not_proposed : InvalidReason
  not_modifiable : InvalidReason
  not_confirmable : InvalidReason

pub data TradeError : Type 0 where
  not_found : ℕ → TradeError
  not_participant : TradeError
  invalid_state : InvalidReason → TradeError
  insufficient_items : ℕ → ℕ → ℕ → TradeError
  has_expired : TradeError
  already_trading : TradeError

pub data TradeResult : Type 0 where
  trade_created : ℕ → TradeResult
  trade_accepted : ℕ → TradeResult
  item_added : TradeResult
  trade_confirmed : TradeResult
  trade_executed : ℕ → List (ℕ × ℕ) → List (ℕ × ℕ) → TradeResult
  trade_cancelled : ℕ → TradeResult
  trade_error : TradeError → TradeResult

pub record TradeManager : Type 0 where
  pub trades : Map TradeSession
  pub next_id : ℕ
  pub active_trades : Map ℕ
  pub default_timeout : ℕ

abbrev pub no_offer : TradeOffer
no_offer = record { items = []; gold = 0; confirmed = false }

unfoldable pub new : TradeManager
new = record { trades = []; next_id = 1; active_trades = []; default_timeout = 600 }

abbrev pub proposal : TradeManager → ℕ → ℕ → ℕ → TradeSession
proposal m initiator acceptor tick = record {
  id = m.next_id;
  initiator = initiator;
  acceptor = acceptor;
  state = proposed;
  initiator_offer = no_offer;
  acceptor_offer = no_offer;
  created_tick = tick;
  timeout_ticks = m.default_timeout;
}

unfoldable pub propose_trade : TradeManager → ℕ → ℕ → ℕ → TradeManager × TradeResult
propose_trade m initiator acceptor tick =
    if contains_key initiator m.active_trades || contains_key acceptor m.active_trades
    then (m, trade_error already_trading)
    else (
      record m {
        trades = insert m.next_id (proposal m initiator acceptor tick) m.trades;
        next_id = add64 m.next_id 1;
        active_trades = insert initiator m.next_id m.active_trades;
      },
      trade_created m.next_id,
    )

abbrev pub is_proposed : TradeState → Bool
is_proposed proposed = true
is_proposed _ = false

abbrev pub is_modifiable : TradeState → Bool
is_modifiable negotiating = true
is_modifiable initiator_confirmed = true
is_modifiable acceptor_confirmed = true
is_modifiable _ = false

abbrev pub is_completed : TradeState → Bool
is_completed completed = true
is_completed _ = false

-- A trade that came to its end.
abbrev pub is_ended : TradeState → Bool
is_ended completed = true
is_ended cancelled = true
is_ended expired = true
is_ended _ = false

abbrev pub set_trade : TradeManager → ℕ → TradeSession → TradeManager
set_trade m id t = record m { trades = insert id t m.trades }

-- Neither player is in a trade any longer.
abbrev pub release : TradeSession → TradeManager → TradeManager
release t m = record m { active_trades = remove t.acceptor (remove t.initiator m.active_trades) }

abbrev pub accept_found : TradeManager → ℕ → ℕ → TradeSession → TradeManager × TradeResult
accept_found m id player t =
    if not (t.acceptor == player)
    then (m, trade_error not_participant)
    else if not (is_proposed t.state)
    then (m, trade_error (invalid_state not_proposed))
    else (
      record (set_trade m id (record t { state = negotiating })) {
        active_trades = insert player id m.active_trades;
      },
      trade_accepted id,
    )

unfoldable pub accept_trade : TradeManager → ℕ → ℕ → TradeManager × TradeResult
accept_trade m id player = elim (lookup id m.trades) [
  | none ↦ (m, trade_error (not_found id))
  | some t ↦ accept_found m id player t
]

-- The first entry of the item grows, as a `u32`, or a new entry is pushed.
unfoldable pub offer_item : ℕ → ℕ → List (ℕ × ℕ) → List (ℕ × ℕ)
offer_item item quantity [] = (item, quantity) ∷ []
offer_item item quantity ((i, n) ∷ items) =
    if i == item
    then (i, (n + quantity) % 2 ^ 32) ∷ items
    else (i, n) ∷ offer_item item quantity items

abbrev pub extend_offer : ℕ → ℕ → TradeOffer → TradeOffer
extend_offer item quantity o = record o { items = offer_item item quantity o.items }

abbrev pub reset_confirmations : TradeSession → TradeSession
reset_confirmations t = record t {
  initiator_offer = record t.initiator_offer { confirmed = false };
  acceptor_offer = record t.acceptor_offer { confirmed = false };
  state = negotiating;
}

abbrev pub extend_initiator : ℕ → ℕ → TradeSession → TradeSession
extend_initiator item quantity t = record t {
  initiator_offer = extend_offer item quantity t.initiator_offer;
}

abbrev pub extend_acceptor : ℕ → ℕ → TradeSession → TradeSession
extend_acceptor item quantity t = record t {
  acceptor_offer = extend_offer item quantity t.acceptor_offer;
}

abbrev pub add_found : TradeManager → ℕ → ℕ → ℕ → ℕ → TradeSession → TradeManager × TradeResult
add_found m id player item quantity t =
    if not (is_modifiable t.state)
    then (m, trade_error (invalid_state not_modifiable))
    else if t.initiator == player
    then (set_trade m id (extend_initiator item quantity (reset_confirmations t)), item_added)
    else if t.acceptor == player
    then (set_trade m id (extend_acceptor item quantity (reset_confirmations t)), item_added)
    else (m, trade_error not_participant)

unfoldable pub add_item : TradeManager → ℕ → ℕ → ℕ → ℕ → TradeManager × TradeResult
add_item m id player item quantity = elim (lookup id m.trades) [
  | none ↦ (m, trade_error (not_found id))
  | some t ↦ add_found m id player item quantity t
]

abbrev pub confirm_initiator : TradeSession → TradeSession
confirm_initiator t = record t {
  initiator_offer = record t.initiator_offer { confirmed = true };
  state = if t.acceptor_offer.confirmed then completed else initiator_confirmed;
}

abbrev pub confirm_acceptor : TradeSession → TradeSession
confirm_acceptor t = record t {
  acceptor_offer = record t.acceptor_offer { confirmed = true };
  state = if t.initiator_offer.confirmed then completed else acceptor_confirmed;
}

-- The trade is written back, and executed where it is now complete.
abbrev pub finish : TradeManager → ℕ → TradeSession → TradeManager × TradeResult
finish m id t =
    if is_completed t.state
    then (
      release t (set_trade m id t),
      trade_executed t.id t.acceptor_offer.items t.initiator_offer.items,
    )
    else (set_trade m id t, trade_confirmed)

abbrev pub confirm_found : TradeManager → ℕ → ℕ → TradeSession → TradeManager × TradeResult
confirm_found m id player t =
    if not (is_modifiable t.state)
    then (m, trade_error (invalid_state not_confirmable))
    else if t.initiator == player
    then finish m id (confirm_initiator t)
    else if t.acceptor == player
    then finish m id (confirm_acceptor t)
    else (m, trade_error not_participant)

unfoldable pub confirm_trade : TradeManager → ℕ → ℕ → TradeManager × TradeResult
confirm_trade m id player = elim (lookup id m.trades) [
  | none ↦ (m, trade_error (not_found id))
  | some t ↦ confirm_found m id player t
]

abbrev pub cancel_found : TradeManager → ℕ → ℕ → TradeSession → TradeManager × TradeResult
cancel_found m id player t =
    if not (t.initiator == player) && not (t.acceptor == player)
    then (m, trade_error not_participant)
    else (release t (set_trade m id (record t { state = cancelled })), trade_cancelled id)

unfoldable pub cancel_trade : TradeManager → ℕ → ℕ → TradeManager × TradeResult
cancel_trade m id player = elim (lookup id m.trades) [
  | none ↦ (m, trade_error (not_found id))
  | some t ↦ cancel_found m id player t
]

abbrev pub is_overdue : ℕ → TradeSession → Bool
is_overdue tick t = not (is_ended t.state) && ltb (add64 t.created_tick t.timeout_ticks) tick

unfoldable pub overdue : ℕ → Map TradeSession → List ℕ
overdue tick [] = []
overdue tick ((id, t) ∷ trades) =
    if is_overdue tick t then id ∷ overdue tick trades else overdue tick trades

abbrev pub expire_one : TradeManager → ℕ → TradeManager
expire_one m id = elim (lookup id m.trades) [
  | none ↦ m
  | some t ↦ release t (set_trade m id (record t { state = expired }))
]

unfoldable pub expire_each : TradeManager → List ℕ → TradeManager
expire_each m [] = m
expire_each m (id ∷ ids) = expire_each (expire_one m id) ids

unfoldable pub tick_expirations : TradeManager → ℕ → TradeManager
tick_expirations m tick = expire_each m (overdue tick m.trades)

unfoldable pub get_player_trade : TradeManager → ℕ → Option TradeSession
get_player_trade m player = elim (lookup player m.active_trades) [
  | none ↦ none
  | some id ↦ lookup id m.trades
]

unfoldable pub active_count : TradeManager → ℕ
active_count m = length m.active_trades
