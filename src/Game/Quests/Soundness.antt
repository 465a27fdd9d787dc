-- ===== src/Game/Quests/Soundness.antt =====
-- What holds of a player's quests after any sequence of calls.
pub mod Kept
mod Accepted
use velochain.Prelude.{
  ℕ, zero, suc, ◌+◌, ◌≤◌, ◌<◌, ◌≡◌, refl, ap, sym, subst, ◌∙◌, Bool, true, false, ◌&&◌, ◌||◌,
  Option, none, some, List, [], ◌∷◌, ◌++◌, map, leb, ltb, not, arith, All, All-append,
  if◌then◌else◌, ◌==◌, ==→eq, Bool-cases, Option-cases, inl, inr, contains, contains-append, retain,
  length, length-append,
}
use velochain.Game.Quests.{
  QuestObjective, ObjectiveProgress, ActiveQuest, QuestResult, PlayerQuestState, new, is_among,
  is_active, is_completed, QuestRegistry, QuestDef, get, initial, are_complete, is_complete,
  accept_quest, accept_known, after_prereqs, accept_open, with_active, missing_prereqs,
}
use velochain.Game.Quests.Events.{
  Event, killed, gathered, crafted, advance_all, on_event, on_kill, on_gather, on_craft, is_done,
  kept, done_reversed, check_completions, Call, accept_call, kill_call, gather_call, craft_call,
  completions_call, state_after, step, run,
}
use velochain.Game.Quests.Progress.{
  IsLined, Tracks, ids, advance_all-IsLined, initial-Tracks, are_tracked, is_tracked,
}
use velochain.Game.Quests.Soundness.Kept.{
  IsOrderly, IsCountable, count, count-append, kept-IsLined, done_reversed-IsCountable,
  count-completions, length-kept-le,
}
use velochain.Game.Quests.Soundness.Accepted.{accept-IsOrderly}

length-ids : (qs : List ActiveQuest) → length (ids qs) ≡ length qs
length-ids [] = refl
length-ids (a ∷ qs) = omega (arith, length-ids qs)

event-IsOrderly :
    (r : QuestRegistry) (ev : Event) (s : PlayerQuestState)
    → IsOrderly r s
    → (s' : PlayerQuestState) × (state_after (on_event r ev s) ≡ some s') × IsOrderly r s'
event-IsOrderly r ev s v =
    let (o, ran, same, lined) = advance_all-IsLined r ev s.active v.lined in
    (
      record s { active = o.0 },
      rw (ran, state_after) refl,
      record {
        lined = lined;
        few = omega (arith, v.few, length-ids o.0, length-ids s.active, ap (λ ns. length ns) same);
        apart = λ id. rw same (v.apart id);
        single = λ id q known once. rw same (v.single id q known once);
        countable = v.countable;
      },
    )

completions-IsOrderly :
    (r : QuestRegistry) (s : PlayerQuestState)
    → IsOrderly r s
    → IsOrderly r (check_completions r s).0
unfolding check_completions
completions-IsOrderly r s v = record {
  lined = kept-IsLined r s.active v.lined;
  few = omega (arith, v.few, length-kept-le r s.active);
  apart = λ id. omega (arith, v.apart id, count-completions r id s.active);
  single = λ id q known once. omega (
    arith,
    v.single id q known once,
    count-completions r id s.active,
    count-append id s.completed (done_reversed r s.active),
  );
  countable =
      All-append (IsCountable r) s.completed (done_reversed r s.active) v.countable
        (done_reversed-IsCountable r s.active v.lined);
}

step-IsOrderly :
    (r : QuestRegistry) (s : PlayerQuestState) (c : Call)
    → IsOrderly r s
    → (s' : PlayerQuestState) × (step r s c ≡ some s') × IsOrderly r s'
unfolding step on_kill on_gather on_craft
step-IsOrderly r s (accept_call id level tick) v =
    ((accept_quest r id level s tick).0, refl, accept-IsOrderly r s id level tick v)
step-IsOrderly r s (kill_call npc) v = event-IsOrderly r (killed npc) s v
step-IsOrderly r s (gather_call item n) v = event-IsOrderly r (gathered item n) s v
step-IsOrderly r s (craft_call item n) v = event-IsOrderly r (crafted item n) s v
step-IsOrderly r s completions_call v =
    ((check_completions r s).0, refl, completions-IsOrderly r s v)

run-IsOrderly_from :
    (r : QuestRegistry) (s : PlayerQuestState) (calls : List Call)
    → IsOrderly r s
    → (s' : PlayerQuestState) × (run r s calls ≡ some s') × IsOrderly r s'
unfolding run
run-IsOrderly_from r s [] v = (s, refl, v)
run-IsOrderly_from r s (c ∷ calls) v =
    let (s', stepped, sound) = step-IsOrderly r s c v in
    let (s'', ran, result) = run-IsOrderly_from r s' calls sound in
    (s'', rw (stepped, run) ran, result)

-- No sequence of calls for a new player panics; after it at most the maximal number of quests is
-- active, none twice, each a quest of the registry with its progress in the order of its
-- objectives; a quest that is not repeatable has been completed at most once and is then not
-- active; and every completed quest has only objectives of the kinds that the handlers count.
pub run-IsOrderly :
    (r : QuestRegistry) (calls : List Call)
    → (s : PlayerQuestState) × (run r new calls ≡ some s) × IsOrderly r s
unfolding new
run-IsOrderly r calls = run-IsOrderly_from r new calls (record {
  lined = tt;
  few = omega arith;
  apart = λ id. omega arith;
  single = λ id q known once. omega arith;
  countable = tt;
})
