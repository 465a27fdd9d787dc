-- ===== src/Game/Quests/Locks.antt =====
-- Quests that nothing can complete.
use velochain.Prelude.{
  ℕ, ◌<◌, ◌≡◌, refl, ap, subst, true, false, some, List, [], ◌∷◌, ltb, not, arith, All, ◌==◌, ==→eq,
  Bool-cases, inl, inr, contains, retain, length,
}
use velochain.Game.Quests.{
  PlayerQuestState, new, is_completed, QuestRegistry, QuestDef, get, accept_quest, after_prereqs,
  missing_prereqs,
}
use velochain.Game.Quests.Events.{Call, run}
use velochain.Game.Quests.Progress.{are_tracked}
use velochain.Game.Quests.Soundness.Kept.{IsCountable}
use velochain.Game.Quests.Soundness.{run-IsOrderly}

contains-IsCountable :
    (r : QuestRegistry) (id : ℕ) (q : QuestDef) (xs : List ℕ)
    → All (IsCountable r) xs
    → get r id ≡ some q
    → are_tracked q.objectives ≡ false
    → contains id xs ≡ false
contains-IsCountable r id q [] all known bad = refl
contains-IsCountable r id q (x ∷ xs) all known bad = elim (Bool-cases (id == x)) [
  | inl this ↦
      let (q', known', tracked) = all.0 in
      let eq = ==→eq id x this in
      let found : get r x ≡ some q = subst (λ y. get r y ≡ some q) eq known in
      let same : q' ≡ q = cc in
      let counted = ap (λ y. are_tracked y.objectives) same in
      absurd (ground (arith, counted, tracked, bad))
  | inr other ↦ ground (arith, other, contains-IsCountable r id q xs all.1 known bad)
]

missing-some :
    (s : PlayerQuestState) (id : ℕ) (ps : List ℕ)
    → is_completed s id ≡ false
    → contains id ps ≡ true
    → 0 < length (retain (λ p. not (is_completed s p)) ps)
missing-some s id [] undone needs = absurd cc
missing-some s id (p ∷ ps) undone needs = elim (Bool-cases (id == p)) [
  | inl this ↦
      let eq = ==→eq id p this in
      let open_yet : is_completed s p ≡ false = subst (λ y. is_completed s y ≡ false) eq undone in
      rw open_yet (omega arith)
  | inr other ↦ ground (arith, other, needs, missing-some s id ps undone)
]

after_prereqs-keeps :
    (s : PlayerQuestState) (id : ℕ) (q : QuestDef) (tick : ℕ) (missing : List ℕ)
    → 0 < length missing
    → (after_prereqs s id q tick missing).0 ≡ s
after_prereqs-keeps s id q tick [] h = absurd (omega (arith, h))
after_prereqs-keeps s id q tick (p ∷ ps) h = refl

accept-blocked :
    (r : QuestRegistry) (s : PlayerQuestState) (id next level tick : ℕ) (p : QuestDef)
    → get r next ≡ some p
    → is_completed s id ≡ false
    → contains id p.prerequisites ≡ true
    → (accept_quest r next level s tick).0 ≡ s
unfolding accept_quest
accept-blocked r s id next level tick p found undone needs =
    elim (Bool-cases (ltb level p.required_level)) [
      | inl low ↦ simp (found, low, accept_quest) refl
      | inr enough ↦
          simp (found, enough, accept_quest)
            (after_prereqs-keeps s next p tick (missing_prereqs s p)
              (missing-some s id p.prerequisites undone needs))
    ]

-- A quest one of whose objectives is to explore, to deliver or to talk is never completed, and a
-- quest with such a quest among its prerequisites is never accepted, whatever the calls before.
pub run-Locks :
    (r : QuestRegistry) (calls : List Call) (s : PlayerQuestState) (id : ℕ) (q : QuestDef)
    → run r new calls ≡ some s
    → get r id ≡ some q
    → are_tracked q.objectives ≡ false
    → (is_completed s id ≡ false)
      × ((next level tick : ℕ) (p : QuestDef)
          → get r next ≡ some p
          → contains id p.prerequisites ≡ true
          → (accept_quest r next level s tick).0 ≡ s)
unfolding is_completed
run-Locks r calls s id q ran known bad =
    let (s', ran', sound) = run-IsOrderly r calls in
    let same : s' ≡ s = cc in
    let undone =
      contains-IsCountable r id q s.completed
        (subst (λ x. All (IsCountable r) x.completed) same sound.countable) known bad in
    (
      undone,
      λ next level tick p found needs. accept-blocked r s id next level tick p found undone needs,
    )
