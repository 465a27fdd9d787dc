-- ===== src/Game/Trading/Execution.antt =====
-- A trade is executed at most once.
use velochain.Prelude.{
  ℕ, ◌+◌, ◌<◌, ◌≡◌, refl, subst, sym, true, false, some, List, [], ◌∷◌, arith, ◌⊎◌, inl, inr, suc,
  length, ◌≤◌, Option-cases, Bool-cases, u64_mod, add64, ◌||◌,
}
use velochain.Map.{lookup, contains_key, lookup-insert, Every-insert, Every-nil}
use velochain.Game.Trading.{
  TradeSession, TradeManager, new, propose_trade, proposal, accept_trade, add_item, confirm_trade,
  confirm_found, confirm_initiator, confirm_acceptor, finish, cancel_trade, is_ended, is_modifiable,
  is_completed,
}
use velochain.Game.Trading.Calls.{
  Call, propose_call, accept_call, add_call, confirm_call, cancel_call, tick_call, step, Numbered,
  IsNumbered, has_ended, is_proposal, is_execution, executions,
}
use velochain.Game.Trading.Evolution.{modifiable_open, step-Evolves}

accept-none :
    (i : ℕ) (m : TradeManager) (k p : ℕ) → is_execution i (some (accept_trade m k p).1) ≡ false
unfolding accept_trade
accept-none i m k p = ground arith

propose-none :
    (i : ℕ) (m : TradeManager) (a b tick : ℕ)
    → is_execution i (some (propose_trade m a b tick).1) ≡ false
unfolding propose_trade
propose-none i m a b tick = ground arith

add-none :
    (i : ℕ) (m : TradeManager) (k p item n : ℕ)
    → is_execution i (some (add_item m k p item n).1) ≡ false
unfolding add_item
add-none i m k p item n = ground arith

cancel-none :
    (i : ℕ) (m : TradeManager) (k p : ℕ) → is_execution i (some (cancel_trade m k p).1) ≡ false
unfolding cancel_trade
cancel-none i m k p = ground arith

-- An execution ends a trade that had not ended.
finish-ends :
    (i : ℕ) (m : TradeManager) (k : ℕ) (t u : TradeSession)
    → lookup k m.trades ≡ some t
    → u.id ≡ k
    → is_ended t.state ≡ false
    → is_execution i (some (finish m k u).1) ≡ true
    → (has_ended i m ≡ false) × (has_ended i (finish m k u).0 ≡ true)
finish-ends i m k t u found same fresh e = elim (Bool-cases (is_completed u.state)) [
  | inl complete ↦ ground (arith, lookup-insert k i u m.trades)
  | inr partial ↦ ground arith
]

confirm-ends :
    (i : ℕ) (m : TradeManager) (k p : ℕ) (t : TradeSession)
    → lookup k m.trades ≡ some t
    → t.id ≡ k
    → is_execution i (some (confirm_found m k p t).1) ≡ true
    → (has_ended i m ≡ false) × (has_ended i (confirm_found m k p t).0 ≡ true)
confirm-ends i m k p t found same e = elim (Bool-cases (is_modifiable t.state)) [
  | inr late ↦ ground arith
  | inl live ↦
      let fresh = modifiable_open t.state (ground arith) in
      ground (
        arith,
        finish-ends i m k t (confirm_initiator t) found same fresh,
        finish-ends i m k t (confirm_acceptor t) found same fresh,
      )
]

confirm_trade-ends :
    (i : ℕ) (m : TradeManager) (k p : ℕ)
    → IsNumbered m
    → is_execution i (some (confirm_trade m k p).1) ≡ true
    → (has_ended i m ≡ false) × (has_ended i (confirm_trade m k p).0 ≡ true)
unfolding confirm_trade
confirm_trade-ends i m k p h = elim (Option-cases (lookup k m.trades)) [
  | inl unknown ↦ rw (unknown, confirm_trade) (λ e. absurd cc)
  | inr (t, found) ↦ rw (found, confirm_trade) (confirm-ends i m k p t found (h k t found).0)
]

-- Only a confirmation executes a trade, and the trade ends by it.
step-ends :
    (i : ℕ) (m : TradeManager) (c : Call)
    → IsNumbered m
    → is_execution i (step m c).1 ≡ true
    → (has_ended i m ≡ false) × (has_ended i (step m c).0 ≡ true)
unfolding step
step-ends i m (propose_call a b tick) h e = absurd (cc (propose-none i m a b tick))
step-ends i m (accept_call k p) h e = absurd (cc (accept-none i m k p))
step-ends i m (add_call k p item n) h e = absurd (cc (add-none i m k p item n))
step-ends i m (confirm_call k p) h e = confirm_trade-ends i m k p h e
step-ends i m (cancel_call k p) h e = absurd (cc (cancel-none i m k p))
step-ends i m (tick_call tick) h e = absurd cc

-- Every number given out is below the next one, and the next ones fit in a word.
abbrev HasRoom : ℕ → TradeManager → Type 0
HasRoom n m = IsNumbered m × (m.next_id + n < u64_mod)

Numbered-suc : (next k : ℕ) (t : TradeSession) → Numbered next k t → Numbered (next + 1) k t
Numbered-suc next k t h = (h.0, omega (arith, h.1))

propose-HasRoom :
    (m : TradeManager) (a b tick n : ℕ) → HasRoom (suc n) m → HasRoom n (propose_trade m a b tick).0
unfolding propose_trade
propose-HasRoom m a b tick n (h, room) =
    elim (Bool-cases (contains_key a m.active_trades || contains_key b m.active_trades)) [
      | inl busy ↦ rw (busy, propose_trade) (h, omega arith)
      | inr free ↦
          let next : add64 m.next_id 1 ≡ m.next_id + 1 = ground arith in
          rw (free, propose_trade, next)
            (
              Every-insert (Numbered (m.next_id + 1)) m.next_id (proposal m a b tick) m.trades
                  (refl, omega arith) (λ k t e. Numbered-suc m.next_id k t (h k t e)),
              omega arith,
            )
    ]

propose-ended :
    (m : TradeManager) (a b tick i : ℕ)
    → IsNumbered m
    → has_ended i m ≡ true
    → has_ended i (propose_trade m a b tick).0 ≡ true
unfolding propose_trade
propose-ended m a b tick i h e = elim (Option-cases (lookup i m.trades)) [
  | inl unknown ↦ absurd (cc)
  | inr (t, found) ↦
      ground (arith, h i t found, lookup-insert m.next_id i (proposal m a b tick) m.trades)
]

Call-cases : (c : Call) → (is_proposal c ≡ false) ⊎ ((a b tick : ℕ) × (c ≡ propose_call a b tick))
Call-cases (propose_call a b tick) = inr (a, b, tick, refl)
Call-cases (accept_call k p) = inl refl
Call-cases (add_call k p item n) = inl refl
Call-cases (confirm_call k p) = inl refl
Call-cases (cancel_call k p) = inl refl
Call-cases (tick_call tick) = inl refl

step-HasRoom : (m : TradeManager) (c : Call) (n : ℕ) → HasRoom (suc n) m → HasRoom n (step m c).0
unfolding step
step-HasRoom m c n (h, room) = elim (Call-cases c) [
  | inl other ↦ let v = step-Evolves m c other in (v.numbered h, omega (arith, v.counted, room))
  | inr (a, b, tick, same) ↦
      subst (λ x. HasRoom n (step m x).0) (sym same) (propose-HasRoom m a b tick n (h, room))
]

step-ended :
    (m : TradeManager) (c : Call) (i : ℕ)
    → IsNumbered m
    → has_ended i m ≡ true
    → has_ended i (step m c).0 ≡ true
unfolding step
step-ended m c i h e = elim (Call-cases c) [
  | inl other ↦ (step-Evolves m c other).ended i e
  | inr (a, b, tick, same) ↦
      subst (λ x. has_ended i (step m x).0 ≡ true) (sym same) (propose-ended m a b tick i h e)
]

executions_ended :
    (i : ℕ) (m : TradeManager) (cs : List Call)
    → HasRoom (length cs) m
    → has_ended i m ≡ true
    → executions i m cs ≡ 0
unfolding executions
executions_ended i m [] h e = refl
executions_ended i m (c ∷ cs) h e = elim (Bool-cases (is_execution i (step m c).1)) [
  | inl done ↦ absurd (cc (e, (step-ends i m c h.0 done).0))
  | inr other ↦ ground (
    arith,
    executions_ended i (step m c).0 cs (step-HasRoom m c (length cs) h) (step-ended m c i h.0 e),
  )
]

executions_bound :
    (i : ℕ) (m : TradeManager) (cs : List Call) → HasRoom (length cs) m → executions i m cs ≤ 1
unfolding executions
executions_bound i m [] h = omega arith
executions_bound i m (c ∷ cs) h =
    let after = step-HasRoom m c (length cs) h in
    elim (Bool-cases (is_execution i (step m c).1)) [
      | inl done ↦
          ground (arith, executions_ended i (step m c).0 cs after (step-ends i m c h.0 done).1)
      | inr other ↦ ground (arith, executions_bound i (step m c).0 cs after)
    ]

-- From an empty trade manager, no sequence of fewer than 2^64 - 1 proposals, acceptances, offers,
-- confirmations, cancellations and expiry ticks executes a trade twice.
pub executes_once : (i : ℕ) (cs : List Call) → length cs + 1 < u64_mod → executions i new cs ≤ 1
unfolding new
executes_once i cs h = executions_bound i new cs (Every-nil (Numbered 1), omega arith)
