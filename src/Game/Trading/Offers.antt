-- ===== src/Game/Trading/Offers.antt =====
-- A changed offer has to be confirmed by both players again.
use velochain.Prelude.{
  ℕ, ◌≡◌, refl, false, some, ◌==◌, arith, inl, inr, Option-cases, Bool-cases, zero, suc, Bool, not,
  if◌then◌else◌, List, [], ◌∷◌,
}
use velochain.Map.{lookup, lookup-insert_self}
use velochain.Game.Trading.{
  TradeSession, TradeManager, item_added, add_item, add_found, confirm_trade, extend_initiator,
  extend_acceptor, reset_confirmations, confirm_initiator, confirm_acceptor, is_modifiable,
  is_completed, finish,
}
use velochain.Game.Trading.Calls.{Call, confirm_call, is_execution, executions, step}

-- Whether the other side than the player has confirmed its offer.
abbrev other_confirmed : ℕ → TradeSession → Bool
other_confirmed q t =
    if t.initiator == q then t.acceptor_offer.confirmed else t.initiator_offer.confirmed

abbrev IsOpen : ℕ → ℕ → TradeManager → Type 0
IsOpen k q m = (u : TradeSession) × (lookup k m.trades ≡ some u) × (other_confirmed q u ≡ false)

finish-IsOpen :
    (m : TradeManager) (k q : ℕ) (t : TradeSession)
    → is_completed t.state ≡ false
    → other_confirmed q t ≡ false
    → (is_execution k (some (finish m k t).1) ≡ false) × IsOpen k q (finish m k t).0
finish-IsOpen m k q t going waits =
    rw going (refl, (t, ground (arith, lookup-insert_self k t m.trades), waits))

-- Without the other side a confirmation does not execute the trade, and leaves the other side as
-- it was.
confirm-IsOpen :
    (m : TradeManager) (k q : ℕ)
    → IsOpen k q m
    → (is_execution k (some (confirm_trade m k q).1) ≡ false) × IsOpen k q (confirm_trade m k q).0
unfolding confirm_trade
confirm-IsOpen m k q (u, found, waits) = elim (Bool-cases (not (is_modifiable u.state))) [
  | inl over ↦ rw (found, over, confirm_trade) (refl, (u, found, waits))
  | inr live ↦ elim (Bool-cases (u.initiator == q)) [
    | inl starts ↦
        rw (found, live, starts, confirm_trade)
          (finish-IsOpen m k q (confirm_initiator u) (ground arith) (ground arith))
    | inr accepts ↦ elim (Bool-cases (u.acceptor == q)) [
      | inl joined ↦
          rw (found, live, accepts, joined, confirm_trade)
            (finish-IsOpen m k q (confirm_acceptor u) (ground arith) (ground arith))
      | inr stranger ↦ rw (found, live, accepts, stranger, confirm_trade) (refl, (u, found, waits))
    ]
  ]
]

abbrev pub confirmations : ℕ → ℕ → ℕ → List Call
confirmations zero k q = []
confirmations (suc count) k q = confirm_call k q ∷ confirmations count k q

confirmations-open :
    (count : ℕ) (m : TradeManager) (k q : ℕ)
    → IsOpen k q m
    → executions k m (confirmations count k q) ≡ 0
unfolding executions step
confirmations-open zero m k q v = refl
confirmations-open (suc count) m k q v =
    let (idle, still) = confirm-IsOpen m k q v in
    ground (arith, idle, confirmations-open count (confirm_trade m k q).0 k q still)

add_found-opens :
    (m : TradeManager) (k p item n : ℕ) (t : TradeSession)
    → (add_found m k p item n t).1 ≡ item_added
    → (u : TradeSession) × (lookup k (add_found m k p item n t).0.trades ≡ some u)
      × (u.initiator_offer.confirmed ≡ false)
      × (u.acceptor_offer.confirmed ≡ false)
add_found-opens m k p item n t e =
    let first = extend_initiator item n (reset_confirmations t) in
    let second = extend_acceptor item n (reset_confirmations t) in
    elim (Bool-cases (t.initiator == p)) [
      | inl starts ↦ (first, ground (arith, lookup-insert_self k first m.trades), refl, refl)
      | inr other ↦ (second, ground (arith, lookup-insert_self k second m.trades), refl, refl)
    ]

-- What an offer leaves under the number of its trade.
add_item-opens :
    (m : TradeManager) (k p item n : ℕ)
    → (add_item m k p item n).1 ≡ item_added
    → (u : TradeSession) × (lookup k (add_item m k p item n).0.trades ≡ some u)
      × (u.initiator_offer.confirmed ≡ false)
      × (u.acceptor_offer.confirmed ≡ false)
unfolding add_item
add_item-opens m k p item n = elim (Option-cases (lookup k m.trades)) [
  | inl unknown ↦ rw (unknown, add_item) (λ e. absurd cc)
  | inr (t, found) ↦ rw (found, add_item) (add_found-opens m k p item n t)
]

-- After an item has been added to a trade, no number of confirmations by one and the same player,
-- whichever it is, executes the trade.
pub confirm-add_item :
    (m : TradeManager) (k p item n q count : ℕ)
    → (add_item m k p item n).1 ≡ item_added
    → executions k (add_item m k p item n).0 (confirmations count k q) ≡ 0
confirm-add_item m k p item n q count e =
    let (u, found, first, second) = add_item-opens m k p item n e in
    confirmations-open count (add_item m k p item n).0 k q (u, found, ground (arith, first, second))
