-- ===== src/Game/Quests/Events.antt =====
-- crates/game-engine/src/quests.rs: the events that count towards objectives, and completions.
use velochain.Prelude.{
  ℕ, suc, ◌+◌, ◌%◌, ◌^◌, Bool, true, false, Option, none, some, List, [], ◌∷◌, ◌++◌, leb, ◌==◌,
  ◌&&◌, not, if◌then◌else◌,
}
use velochain.Game.Quests.{
  QuestObjective, kill, gather, craft, ObjectiveProgress, ActiveQuest, PlayerQuestState,
  QuestResult, progress_updated, quest_completed, QuestRegistry, get, is_complete, accept_quest,
}

-- What the three handlers are called with.
pub data Event : Type 0 where
  killed : ℕ → Event
  gathered crafted : ℕ → ℕ → Event

-- The `if let` of the handlers and the test of the kind.
unfoldable pub does_count : Event → QuestObjective → Bool
does_count (killed npc) (kill qt count) = qt == npc
does_count (gathered item n) (gather qi count) = qi == item
does_count (crafted item n) (craft qi count) = qi == item
does_count _ _ = false

abbrev pub counted : ObjectiveProgress → ℕ → ℕ
counted o n = (o.current + n) % 2 ^ 32

-- A kill leaves `current` where it is when it reaches `required`; the other handlers clamp it,
-- which is seen only when a quantity overshoots.
unfoldable pub advanced : Event → ObjectiveProgress → ObjectiveProgress
advanced (killed npc) o =
    if leb o.required (counted o 1)
    then record o { current = counted o 1; complete = true }
    else record o { current = counted o 1 }
advanced (gathered item n) o =
    if leb o.required (counted o n)
    then record o { current = o.required; complete = true }
    else record o { current = counted o n }
advanced (crafted item n) o =
    if leb o.required (counted o n)
    then record o { current = o.required; complete = true }
    else record o { current = counted o n }

-- The loop over the objectives of one quest, at the index of the first; `none` is the panic of an
-- index out of range.
unfoldable pub advance_objectives :
    Event
    → ℕ
    → ℕ
    → List QuestObjective
    → List ObjectiveProgress
    → Option (List ObjectiveProgress × List QuestResult)
advance_objectives ev id i [] ps = some (ps, [])
advance_objectives ev id i (obj ∷ objs) [] =
    let rest = advance_objectives ev id (suc i) objs [] in if does_count ev obj then none else rest
advance_objectives ev id i (obj ∷ objs) (p ∷ ps) = elim (advance_objectives ev id (suc i) objs ps) [
  | none ↦ none
  | some (ps', results) ↦
      if does_count ev obj && not p.complete
      then (let p' = advanced ev p in
          some (p' ∷ ps', progress_updated id i p'.current p'.required ∷ results))
      else some (p ∷ ps', results)
]

abbrev pub with_objectives : ActiveQuest → List ObjectiveProgress → ActiveQuest
with_objectives q ps = record q { objectives = ps }

unfoldable pub advance_quest :
    QuestRegistry → Event → ActiveQuest → Option (ActiveQuest × List QuestResult)
advance_quest r ev a = elim (get r a.quest_id) [
  | none ↦ some (a, [])
  | some q ↦ elim (advance_objectives ev a.quest_id 0 q.objectives a.objectives) [
    | none ↦ none
    | some (ps, results) ↦ some (with_objectives a ps, results)
  ]
]

unfoldable pub advance_all :
    QuestRegistry → Event → List ActiveQuest → Option (List ActiveQuest × List QuestResult)
advance_all r ev [] = some ([], [])
advance_all r ev (a ∷ qs) = elim (advance_quest r ev a) [
  | none ↦ none
  | some (a', results) ↦ elim (advance_all r ev qs) [
    | none ↦ none
    | some (qs', rest) ↦ some (a' ∷ qs', results ++ rest)
  ]
]

abbrev pub on_event :
    QuestRegistry → Event → PlayerQuestState → Option (PlayerQuestState × List QuestResult)
on_event r ev s = elim (advance_all r ev s.active) [
  | none ↦ none
  | some (qs, results) ↦ some (record s { active = qs }, results)
]

unfoldable pub on_kill :
    QuestRegistry → ℕ → PlayerQuestState → Option (PlayerQuestState × List QuestResult)
on_kill r npc s = on_event r (killed npc) s

unfoldable pub on_gather :
    QuestRegistry → ℕ → ℕ → PlayerQuestState → Option (PlayerQuestState × List QuestResult)
on_gather r item n s = on_event r (gathered item n) s

unfoldable pub on_craft :
    QuestRegistry → ℕ → ℕ → PlayerQuestState → Option (PlayerQuestState × List QuestResult)
on_craft r item n s = on_event r (crafted item n) s

abbrev pub is_done : QuestRegistry → ActiveQuest → Bool
is_done r a = is_complete a && (elim (get r a.quest_id) [ none ↦ false | some _ ↦ true ])

-- The quests that stay active.
unfoldable pub kept : QuestRegistry → List ActiveQuest → List ActiveQuest
kept r [] = []
kept r (a ∷ qs) = if is_done r a then kept r qs else a ∷ kept r qs

-- The ids of the completed ones: they are removed from the last to the first.
unfoldable pub done_reversed : QuestRegistry → List ActiveQuest → List ℕ
done_reversed r [] = []
done_reversed r (a ∷ qs) =
    if is_done r a then done_reversed r qs ++ a.quest_id ∷ [] else done_reversed r qs

unfoldable pub completions : QuestRegistry → List ActiveQuest → List QuestResult
completions r [] = []
completions r (a ∷ qs) = elim (get r a.quest_id) [
  | none ↦ completions r qs
  | some q ↦
      let rest = completions r qs in
      if is_complete a then quest_completed a.quest_id q.reward ∷ rest else rest
]

unfoldable pub check_completions :
    QuestRegistry → PlayerQuestState → PlayerQuestState × List QuestResult
check_completions r s = (
  record s { active = kept r s.active; completed = s.completed ++ done_reversed r s.active },
  completions r s.active,
)

pub data Call : Type 0 where
  -- The quest, the player's level and the tick.
  accept_call : ℕ → ℕ → ℕ → Call
  kill_call : ℕ → Call
  gather_call craft_call : ℕ → ℕ → Call
  completions_call : Call

abbrev pub state_after : Option (PlayerQuestState × List QuestResult) → Option PlayerQuestState
state_after none = none
state_after (some (s, results)) = some s

-- `none` is a panic.
unfoldable pub step : QuestRegistry → PlayerQuestState → Call → Option PlayerQuestState
step r s (accept_call id level tick) = some (accept_quest r id level s tick).0
step r s (kill_call npc) = state_after (on_kill r npc s)
step r s (gather_call item n) = state_after (on_gather r item n s)
step r s (craft_call item n) = state_after (on_craft r item n s)
step r s completions_call = some (check_completions r s).0

unfoldable pub run : QuestRegistry → PlayerQuestState → List Call → Option PlayerQuestState
run r s [] = some s
run r s (c ∷ cs) = elim (step r s c) [ none ↦ none | some s' ↦ run r s' cs ]
