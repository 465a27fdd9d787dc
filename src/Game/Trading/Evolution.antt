-- ===== src/Game/Trading/Evolution.antt =====
-- What the calls other than a proposal do to the trades: none is renumbered, and none that has
-- ended comes back.
use velochain.Prelude.{
  ℕ, ◌≡◌, refl, ◌∙◌, true, false, some, List, [], ◌∷◌, ◌==◌, arith, inl, inr, Option-cases,
  Bool-cases, not, ◌&&◌,
}
use velochain.Map.{Map, lookup, insert, lookup-insert, Every-insert}
use velochain.Game.Trading.{
  TradeState, proposed, negotiating, completed, cancelled, expired, initiator_confirmed,
  acceptor_confirmed, TradeSession, TradeManager, accept_trade, accept_found, add_item, add_found,
  confirm_trade, confirm_found, confirm_initiator, confirm_acceptor, finish, cancel_trade,
  cancel_found, tick_expirations, expire_each, expire_one, overdue, is_ended, is_proposed,
  is_modifiable, is_completed, set_trade, release, extend_initiator, extend_acceptor,
  reset_confirmations,
}
use velochain.Game.Trading.Calls.{
  Call, propose_call, accept_call, add_call, confirm_call, cancel_call, tick_call, step, Numbered,
  IsNumbered, has_ended, is_proposal,
}

-- Trades keep their numbers, and a trade that has ended stays so.
pub record Evolves (m n : TradeManager) : Type 0 where
  pub numbered : IsNumbered m → IsNumbered n
  pub ended : (i : ℕ) → has_ended i m ≡ true → has_ended i n ≡ true
  pub counted : n.next_id ≡ m.next_id

Evolves-refl : (m : TradeManager) → Evolves m m
Evolves-refl m = record { numbered = λ h. h; ended = λ i e. e; counted = refl }

Evolves-trans : (l m n : TradeManager) → Evolves l m → Evolves m n → Evolves l n
Evolves-trans l m n v w = record {
  numbered = λ h. w.numbered (v.numbered h);
  ended = λ i e. w.ended i (v.ended i e);
  counted = w.counted ∙ v.counted;
}

-- A known trade is written back under its number, and does not come back from its end.
set_trade-Evolves :
    (m : TradeManager) (k : ℕ) (t u : TradeSession) (active : Map ℕ)
    → lookup k m.trades ≡ some t
    → u.id ≡ t.id
    → (is_ended t.state && not (is_ended u.state)) ≡ false
    → Evolves m (record (set_trade m k u) { active_trades = active })
set_trade-Evolves m k t u active found same forward = record {
  numbered = λ h.
      let known = h k t found in
      Every-insert (Numbered m.next_id) k u m.trades (same ∙ known.0, known.1) h;
  ended = λ i e. ground (arith, lookup-insert k i u m.trades);
  counted = refl;
}

proposed_open : (s : TradeState) → not (is_proposed s) ≡ false → (is_ended s && true) ≡ false
proposed_open proposed e = refl
proposed_open negotiating e = refl
proposed_open initiator_confirmed e = refl
proposed_open acceptor_confirmed e = refl
proposed_open completed e = absurd (cc)
proposed_open cancelled e = absurd (cc)
proposed_open expired e = absurd (cc)

pub modifiable_open : (s : TradeState) → not (is_modifiable s) ≡ false → is_ended s ≡ false
modifiable_open proposed e = refl
modifiable_open negotiating e = refl
modifiable_open initiator_confirmed e = refl
modifiable_open acceptor_confirmed e = refl
modifiable_open completed e = absurd cc
modifiable_open cancelled e = absurd cc
modifiable_open expired e = absurd cc

accept-Evolves :
    (m : TradeManager) (k p : ℕ) (t : TradeSession)
    → lookup k m.trades ≡ some t
    → Evolves m (accept_found m k p t).0
accept-Evolves m k p t found = elim (Bool-cases (not (t.acceptor == p))) [
  | inl other ↦ rw other (Evolves-refl m)
  | inr joins ↦ elim (Bool-cases (not (is_proposed t.state))) [
    | inl late ↦ rw (joins, late) (Evolves-refl m)
    | inr early ↦
        rw (joins, early)
          (set_trade-Evolves m k t (record t { state = negotiating }) (insert p k m.active_trades)
            found refl (proposed_open t.state early))
  ]
]

add-Evolves :
    (m : TradeManager) (k p item n : ℕ) (t : TradeSession)
    → lookup k m.trades ≡ some t
    → Evolves m (add_found m k p item n t).0
add-Evolves m k p item n t found = elim (Bool-cases (not (is_modifiable t.state))) [
  | inl late ↦ rw late (Evolves-refl m)
  | inr live ↦
      let fresh = modifiable_open t.state live in
      elim (Bool-cases (t.initiator == p)) [
        | inl first ↦
            rw (live, first)
              (set_trade-Evolves m k t (extend_initiator item n (reset_confirmations t))
                m.active_trades found refl (ground arith))
        | inr other ↦ elim (Bool-cases (t.acceptor == p)) [
          | inl second ↦
              rw (live, other, second)
                (set_trade-Evolves m k t (extend_acceptor item n (reset_confirmations t))
                  m.active_trades found refl (ground arith))
          | inr stranger ↦ rw (live, other, stranger) (Evolves-refl m)
        ]
      ]
]

finish-Evolves :
    (m : TradeManager) (k : ℕ) (t u : TradeSession)
    → lookup k m.trades ≡ some t
    → u.id ≡ t.id
    → is_ended t.state ≡ false
    → Evolves m (finish m k u).0
finish-Evolves m k t u found same fresh = elim (Bool-cases (is_completed u.state)) [
  | inl complete ↦
      rw complete (set_trade-Evolves m k t u (release u m).active_trades found same (ground arith))
  | inr partial ↦ rw partial (set_trade-Evolves m k t u m.active_trades found same (ground arith))
]

confirm-Evolves :
    (m : TradeManager) (k p : ℕ) (t : TradeSession)
    → lookup k m.trades ≡ some t
    → Evolves m (confirm_found m k p t).0
confirm-Evolves m k p t found = elim (Bool-cases (not (is_modifiable t.state))) [
  | inl late ↦ rw late (Evolves-refl m)
  | inr live ↦
      let fresh = modifiable_open t.state live in
      elim (Bool-cases (t.initiator == p)) [
        | inl first ↦ rw (live, first) (finish-Evolves m k t (confirm_initiator t) found refl fresh)
        | inr other ↦ elim (Bool-cases (t.acceptor == p)) [
          | inl second ↦
              rw (live, other, second) (finish-Evolves m k t (confirm_acceptor t) found refl fresh)
          | inr stranger ↦ rw (live, other, stranger) (Evolves-refl m)
        ]
      ]
]

cancel-Evolves :
    (m : TradeManager) (k p : ℕ) (t : TradeSession)
    → lookup k m.trades ≡ some t
    → Evolves m (cancel_found m k p t).0
cancel-Evolves m k p t found = elim (Bool-cases (not (t.initiator == p) && not (t.acceptor == p))) [
  | inl stranger ↦ rw stranger (Evolves-refl m)
  | inr player ↦ rw player (
      set_trade-Evolves m k t (record t { state = cancelled }) (release t m).active_trades found
        refl (ground arith))
]

expire_one-Evolves : (m : TradeManager) (k : ℕ) → Evolves m (expire_one m k)
expire_one-Evolves m k = elim (Option-cases (lookup k m.trades)) [
  | inl unknown ↦ rw (unknown, expire_one) (Evolves-refl m)
  | inr (t, found) ↦
      rw (found, expire_one)
        (set_trade-Evolves m k t (record t { state = expired }) (release t m).active_trades found
          refl (ground arith))
]

expire_each-Evolves : (m : TradeManager) (ids : List ℕ) → Evolves m (expire_each m ids)
unfolding expire_each
expire_each-Evolves m [] = Evolves-refl m
expire_each-Evolves m (k ∷ ids) =
    Evolves-trans m (expire_one m k) (expire_each (expire_one m k) ids) (expire_one-Evolves m k)
      (expire_each-Evolves (expire_one m k) ids)

-- The calls on a found trade, and an unknown number that changes nothing.
accept_trade-Evolves : (m : TradeManager) (k p : ℕ) → Evolves m (accept_trade m k p).0
unfolding accept_trade
accept_trade-Evolves m k p = elim (Option-cases (lookup k m.trades)) [
  | inl unknown ↦ rw (unknown, accept_trade) (Evolves-refl m)
  | inr (t, found) ↦ rw (found, accept_trade) (accept-Evolves m k p t found)
]

add_item-Evolves : (m : TradeManager) (k p item n : ℕ) → Evolves m (add_item m k p item n).0
unfolding add_item
add_item-Evolves m k p item n = elim (Option-cases (lookup k m.trades)) [
  | inl unknown ↦ rw (unknown, add_item) (Evolves-refl m)
  | inr (t, found) ↦ rw (found, add_item) (add-Evolves m k p item n t found)
]

confirm_trade-Evolves : (m : TradeManager) (k p : ℕ) → Evolves m (confirm_trade m k p).0
unfolding confirm_trade
confirm_trade-Evolves m k p = elim (Option-cases (lookup k m.trades)) [
  | inl unknown ↦ rw (unknown, confirm_trade) (Evolves-refl m)
  | inr (t, found) ↦ rw (found, confirm_trade) (confirm-Evolves m k p t found)
]

cancel_trade-Evolves : (m : TradeManager) (k p : ℕ) → Evolves m (cancel_trade m k p).0
unfolding cancel_trade
cancel_trade-Evolves m k p = elim (Option-cases (lookup k m.trades)) [
  | inl unknown ↦ rw (unknown, cancel_trade) (Evolves-refl m)
  | inr (t, found) ↦ rw (found, cancel_trade) (cancel-Evolves m k p t found)
]

pub step-Evolves : (m : TradeManager) (c : Call) → is_proposal c ≡ false → Evolves m (step m c).0
unfolding step tick_expirations
step-Evolves m (propose_call i a tick) e = absurd cc
step-Evolves m (accept_call k p) e = accept_trade-Evolves m k p
step-Evolves m (add_call k p item n) e = add_item-Evolves m k p item n
step-Evolves m (confirm_call k p) e = confirm_trade-Evolves m k p
step-Evolves m (cancel_call k p) e = cancel_trade-Evolves m k p
step-Evolves m (tick_call tick) e = expire_each-Evolves m (overdue tick m.trades)
