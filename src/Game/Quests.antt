-- ===== src/Game/Quests.antt =====
-- crates/game-engine/src/quests.rs: quests, the progress on their objectives, and rewards. The types
-- of NPCs are words; `f32` coordinates are kept as bits and never read.
pub mod Events
mod Progress
mod Soundness
mod Locks
pub mod Defaults
mod Tests
use velochain.Prelude.{
  ℕ, ◌+◌, ◌%◌, ◌^◌, Bool, true, false, ◌&&◌, ◌||◌, Option, none, some, List, [], ◌∷◌, ◌++◌, map,
  ltb, leb, not, ◌==◌, if◌then◌else◌, length, contains, retain,
}
use velochain.Map.{Map, lookup, insert, values}

pub data QuestObjective : Type 0 where
  kill : ℕ → ℕ → QuestObjective
  gather : ℕ → ℕ → QuestObjective
  explore : ℕ → ℕ → ℕ → QuestObjective
  deliver : ℕ → ℕ → ℕ → QuestObjective
  talk_to : ℕ → QuestObjective
  craft : ℕ → ℕ → QuestObjective

pub record QuestReward : Type 0 where
  pub experience : ℕ
  pub items : List (ℕ × ℕ)
  pub gold : ℕ

pub record QuestDef : Type 0 where
  pub id : ℕ
  pub objectives : List QuestObjective
  pub reward : QuestReward
  pub required_level : ℕ
  pub prerequisites : List ℕ
  pub repeatable : Bool

pub record ObjectiveProgress : Type 0 where
  pub current : ℕ
  pub required : ℕ
  pub complete : Bool

pub record ActiveQuest : Type 0 where
  pub quest_id : ℕ
  pub objectives : List ObjectiveProgress
  pub accepted_tick : ℕ

unfoldable pub are_complete : List ObjectiveProgress → Bool
are_complete [] = true
are_complete (o ∷ os) = o.complete && are_complete os

unfoldable pub is_complete : ActiveQuest → Bool
is_complete q = are_complete q.objectives

pub record PlayerQuestState : Type 0 where
  pub active : List ActiveQuest
  pub completed : List ℕ
  pub max_active : ℕ

unfoldable pub new : PlayerQuestState
new = record { active = []; completed = []; max_active = 5 }

unfoldable pub is_among : ℕ → List ActiveQuest → Bool
is_among id [] = false
is_among id (q ∷ qs) = (q.quest_id == id) || is_among id qs

unfoldable pub is_active : PlayerQuestState → ℕ → Bool
is_active s id = is_among id s.active

unfoldable pub is_completed : PlayerQuestState → ℕ → Bool
is_completed s id = contains id s.completed

pub data QuestError : Type 0 where
  not_found already_active already_completed : ℕ → QuestError
  level_too_low : ℕ → ℕ → QuestError
  prerequisites_not_met : List ℕ → QuestError
  too_many_active : QuestError

pub data QuestResult : Type 0 where
  accepted : ℕ → QuestResult
  progress_updated : ℕ → ℕ → ℕ → ℕ → QuestResult
  quest_completed : ℕ → QuestReward → QuestResult
  quest_error : QuestError → QuestResult

abbrev pub QuestRegistry : Type 0
QuestRegistry = Map QuestDef

unfoldable pub register : QuestRegistry → QuestDef → QuestRegistry
register r def = insert def.id def r

unfoldable pub get : QuestRegistry → ℕ → Option QuestDef
get r id = lookup id r

abbrev pub are_all_contained : List ℕ → List ℕ → Bool
are_all_contained set [] = true
are_all_contained set (p ∷ ps) = contains p set && are_all_contained set ps

unfoldable pub is_available : ℕ → List ℕ → List ℕ → QuestDef → Bool
is_available level completed active q =
    leb q.required_level level
    && not (contains q.id active)
    && (q.repeatable || not (contains q.id completed))
    && are_all_contained completed q.prerequisites

unfoldable pub available_quests : QuestRegistry → ℕ → List ℕ → List ℕ → List QuestDef
available_quests r level completed active = retain (is_available level completed active) (values r)

unfoldable pub required_of : QuestObjective → ℕ
required_of (kill npc count) = count
required_of (gather item count) = count
required_of (explore x y radius) = 1
required_of (deliver item count npc) = count
required_of (talk_to npc) = 1
required_of (craft item count) = count

abbrev pub initial : QuestObjective → ObjectiveProgress
initial obj = record { current = 0; required = required_of obj; complete = false }

abbrev pub missing_prereqs : PlayerQuestState → QuestDef → List ℕ
missing_prereqs s q = retain (λ p. not (is_completed s p)) q.prerequisites

abbrev pub with_active : PlayerQuestState → ℕ → QuestDef → ℕ → PlayerQuestState
with_active s id q tick = record s {
  active =
      s.active
      ++ record { quest_id = id; objectives = map initial q.objectives; accepted_tick = tick } ∷ [];
}

-- The checks after the prerequisites.
abbrev pub accept_open : PlayerQuestState → ℕ → QuestDef → ℕ → PlayerQuestState × QuestResult
accept_open s id q tick =
    if is_active s id
    then (s, quest_error (already_active id))
    else (if not q.repeatable && is_completed s id
        then (s, quest_error (already_completed id))
        else (if leb s.max_active (length s.active)
            then (s, quest_error too_many_active)
            else (with_active s id q tick, accepted id)))

abbrev pub after_prereqs :
    PlayerQuestState → ℕ → QuestDef → ℕ → List ℕ → PlayerQuestState × QuestResult
after_prereqs s id q tick [] = accept_open s id q tick
after_prereqs s id q tick (p ∷ ps) = (s, quest_error (prerequisites_not_met (p ∷ ps)))

abbrev pub accept_known : PlayerQuestState → ℕ → QuestDef → ℕ → ℕ → PlayerQuestState × QuestResult
accept_known s id q level tick =
    if ltb level q.required_level
    then (s, quest_error (level_too_low q.required_level level))
    else after_prereqs s id q tick (missing_prereqs s q)

unfoldable pub accept_quest :
    QuestRegistry → ℕ → ℕ → PlayerQuestState → ℕ → PlayerQuestState × QuestResult
accept_quest r id level s tick = elim (get r id) [
  | none ↦ (s, quest_error (not_found id))
  | some q ↦ accept_known s id q level tick
]
