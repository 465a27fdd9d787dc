-- ===== src/Game/Quests/Soundness/Kept.antt =====
-- A sound state of a player's quests, and what a check for completions leaves of it.
use velochain.Prelude.{
  ℕ, suc, ◌+◌, ◌≤◌, ◌≡◌, refl, ap, true, false, some, List, [], ◌∷◌, ◌++◌, arith, All, All-append,
  if◌then◌else◌, ◌==◌, Bool-cases, inl, inr, contains, length,
}
use velochain.Game.Quests.{
  QuestObjective, ObjectiveProgress, ActiveQuest, PlayerQuestState, is_among, QuestRegistry,
  QuestDef, get, are_complete, is_complete,
}
use velochain.Game.Quests.Events.{is_done, kept, done_reversed}
use velochain.Game.Quests.Progress.{IsLined, Tracks, ids, are_tracked}

-- How often a word stands in a list.
abbrev pub count : ℕ → List ℕ → ℕ
count x [] = 0
count x (y ∷ ys) = if y == x then suc (count x ys) else count x ys

pub count-append : (x : ℕ) (ys zs : List ℕ) → count x (ys ++ zs) ≡ count x ys + count x zs
count-append x [] zs = omega arith
count-append x (y ∷ ys) zs = ground (arith, count-append x ys zs)

pub ids-append : (qs more : List ActiveQuest) → ids (qs ++ more) ≡ ids qs ++ ids more
ids-append [] more = refl
ids-append (a ∷ qs) more = ap (λ ns. a.quest_id ∷ ns) (ids-append qs more)

-- Only quests whose objectives are all counted by some handler.
abbrev pub IsCountable : QuestRegistry → ℕ → Type 0
IsCountable r id = (q : QuestDef) × (get r id ≡ some q) × (are_tracked q.objectives ≡ true)

pub record IsOrderly (r : QuestRegistry) (s : PlayerQuestState) : Type 0 where
  pub lined : All (IsLined r) s.active
  pub few : length s.active ≤ s.max_active
  pub apart : (id : ℕ) → count id (ids s.active) ≤ 1
  pub single :
      (id : ℕ) (q : QuestDef)
      → get r id ≡ some q
      → q.repeatable ≡ false
      → count id s.completed + count id (ids s.active) ≤ 1
  pub countable : All (IsCountable r) s.completed

pub count-is_among :
    (id : ℕ) (qs : List ActiveQuest) → is_among id qs ≡ false → count id (ids qs) ≡ 0
unfolding is_among
count-is_among id [] h = refl
count-is_among id (a ∷ qs) h = ground (arith, count-is_among id qs)

pub count-contains : (id : ℕ) (xs : List ℕ) → contains id xs ≡ false → count id xs ≡ 0
count-contains id [] h = refl
count-contains id (x ∷ xs) h = ground (arith, count-contains id xs)

complete-tracked :
    (os : List QuestObjective) (ps : List ObjectiveProgress)
    → Tracks os ps
    → are_complete ps ≡ true
    → are_tracked os ≡ true
unfolding are_complete
complete-tracked [] [] t h = refl
complete-tracked [] (p ∷ ps) t h = refl
complete-tracked (o ∷ os) [] t h = elim t [ ]
complete-tracked (o ∷ os) (p ∷ ps) t h = ground (arith, t.1, complete-tracked os ps t.3)

pub kept-IsLined :
    (r : QuestRegistry) (qs : List ActiveQuest) → All (IsLined r) qs → All (IsLined r) (kept r qs)
unfolding kept
kept-IsLined r [] l = tt
kept-IsLined r (a ∷ qs) l = ground (arith, l.0, kept-IsLined r qs l.1)

pub done_reversed-IsCountable :
    (r : QuestRegistry) (qs : List ActiveQuest)
    → All (IsLined r) qs
    → All (IsCountable r) (done_reversed r qs)
unfolding done_reversed is_complete
done_reversed-IsCountable r [] l = tt
done_reversed-IsCountable r (a ∷ qs) l = elim (Bool-cases (is_done r a)) [
  | inl done ↦
      let (q, known, t) = l.0 in
      let counted = complete-tracked q.objectives a.objectives t (ground (arith, done)) in
      rw (done, done_reversed)
        (All-append (IsCountable r) (done_reversed r qs) (a.quest_id ∷ [])
          (done_reversed-IsCountable r qs l.1) ((q, known, counted), tt))
  | inr not_yet ↦ rw (not_yet, done_reversed) (done_reversed-IsCountable r qs l.1)
]

-- The completed quests are those that are no longer active.
pub count-completions :
    (r : QuestRegistry) (id : ℕ) (qs : List ActiveQuest)
    → count id (done_reversed r qs) + count id (ids (kept r qs)) ≡ count id (ids qs)
unfolding done_reversed kept
count-completions r id [] = refl
count-completions r id (a ∷ qs) =
    ground
      (arith, count-completions r id qs, count-append id (done_reversed r qs) (a.quest_id ∷ []))

pub length-kept-le : (r : QuestRegistry) (qs : List ActiveQuest) → length (kept r qs) ≤ length qs
unfolding kept
length-kept-le r [] = omega arith
length-kept-le r (a ∷ qs) = ground (arith, length-kept-le r qs)
