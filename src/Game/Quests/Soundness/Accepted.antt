-- ===== src/Game/Quests/Soundness/Accepted.antt =====
-- A quest is accepted only into a sound state.
use velochain.Prelude.{
  ℕ, ◌+◌, ◌≤◌, ◌≡◌, ap, sym, subst, false, ◌&&◌, some, List, [], ◌∷◌, ◌++◌, map, leb, ltb, not,
  arith, All-append, if◌then◌else◌, ◌==◌, ==→eq, Bool-cases, Option-cases, inl, inr, contains,
  length, length-append,
}
use velochain.Game.Quests.{
  ActiveQuest, PlayerQuestState, is_active, is_completed, QuestRegistry, QuestDef, get, initial,
  accept_quest, after_prereqs, accept_open, with_active, missing_prereqs,
}
use velochain.Game.Quests.Progress.{IsLined, ids, initial-Tracks}
use velochain.Game.Quests.Soundness.Kept.{
  IsOrderly, count, count-append, ids-append, count-is_among, count-contains,
}

-- A quest that is not active, has not been completed if it is not repeatable, and finds room.
with_active-IsOrderly :
    (r : QuestRegistry) (s : PlayerQuestState) (id : ℕ) (q : QuestDef) (tick : ℕ)
    → get r id ≡ some q
    → is_active s id ≡ false
    → (not q.repeatable && is_completed s id) ≡ false
    → leb s.max_active (length s.active) ≡ false
    → IsOrderly r s
    → IsOrderly r (with_active s id q tick)
unfolding is_active is_completed
with_active-IsOrderly r s id q tick known fresh again room v =
    let added : ActiveQuest = record {
      quest_id = id;
      objectives = map initial q.objectives;
      accepted_tick = tick;
    } in
    let same = ids-append s.active (added ∷ []) in
    let none_yet : count id (ids s.active) ≡ 0 = count-is_among id s.active fresh in
    let total : (x : ℕ)
        → count x (ids (s.active ++ added ∷ []))
          ≡ count x (ids s.active) + (if id == x then 1 else 0) =
      λ x. rw same (ground (arith, count-append x (ids s.active) (id ∷ []))) in
    record {
      lined =
          All-append (IsLined r) s.active (added ∷ []) v.lined
            ((q, known, initial-Tracks q.objectives), tt);
      few = ground (arith, room, length-append s.active (added ∷ []));
      apart = λ x. elim (Bool-cases (id == x)) [
        | inl this ↦ ground (arith, total x, this, ==→eq id x this, none_yet)
        | inr other ↦ ground (arith, total x, other, v.apart x)
      ];
      single = λ x p found once. elim (Bool-cases (id == x)) [
        | inl this ↦
            let eq = ==→eq id x this in
            let found' : get r id ≡ some p = subst (λ y. get r y ≡ some p) (sym eq) found in
            let same_quest : p ≡ q = cc in
            let final = ap (λ y. y.repeatable) same_quest in
            let undone : contains id s.completed ≡ false = ground (arith, once, again, final) in
            let never = count-contains id s.completed undone in
            subst (λ y. count y s.completed + count y (ids (s.active ++ added ∷ [])) ≤ 1) eq
              (ground (arith, total id, never, none_yet))
        | inr other ↦ ground (arith, total x, other, v.single x p found once)
      ];
      countable = v.countable;
    }

accept_open-IsOrderly :
    (r : QuestRegistry) (s : PlayerQuestState) (id : ℕ) (q : QuestDef) (tick : ℕ)
    → get r id ≡ some q
    → IsOrderly r s
    → IsOrderly r (accept_open s id q tick).0
accept_open-IsOrderly r s id q tick known v =
    ground (arith, v, with_active-IsOrderly r s id q tick known)

after_prereqs-IsOrderly :
    (r : QuestRegistry) (s : PlayerQuestState) (id : ℕ) (q : QuestDef) (tick : ℕ) (missing : List ℕ)
    → get r id ≡ some q
    → IsOrderly r s
    → IsOrderly r (after_prereqs s id q tick missing).0
after_prereqs-IsOrderly r s id q tick [] known v = accept_open-IsOrderly r s id q tick known v
after_prereqs-IsOrderly r s id q tick (p ∷ ps) known v = v

pub accept-IsOrderly :
    (r : QuestRegistry) (s : PlayerQuestState) (id level tick : ℕ)
    → IsOrderly r s
    → IsOrderly r (accept_quest r id level s tick).0
unfolding accept_quest
accept-IsOrderly r s id level tick v = elim (Option-cases (get r id)) [
  | inl unknown ↦ rw (unknown, accept_quest) v
  | inr (q, known) ↦ elim (Bool-cases (ltb level q.required_level)) [
    | inl low ↦ rw (known, low, accept_quest) v
    | inr enough ↦
        rw (known, enough, accept_quest)
          (after_prereqs-IsOrderly r s id q tick (missing_prereqs s q) known v)
  ]
]
