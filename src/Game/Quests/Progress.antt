-- ===== src/Game/Quests/Progress.antt =====
-- What the events do to the progress on objectives.
use velochain.Prelude.{
  ℕ, suc, ◌≤◌, ◌≡◌, refl, Bool, true, false, ◌&&◌, some, List, [], ◌∷◌, ◌++◌, ◌∙◌, map, not, arith,
  All, Bool-cases, inl, inr,
}
use velochain.Game.Quests.{
  QuestObjective, kill, gather, explore, deliver, talk_to, craft, ObjectiveProgress, ActiveQuest,
  QuestResult, progress_updated, QuestRegistry, QuestDef, get, required_of, initial,
}
use velochain.Game.Quests.Events.{
  Event, killed, gathered, crafted, does_count, advanced, advance_objectives, advance_quest,
  advance_all, with_objectives,
}

-- The kinds of objectives that some handler counts.
abbrev pub is_tracked : QuestObjective → Bool
is_tracked (kill npc count) = true
is_tracked (gather item count) = true
is_tracked (craft item count) = true
is_tracked _ = false

abbrev pub are_tracked : List QuestObjective → Bool
are_tracked [] = true
are_tracked (o ∷ os) = is_tracked o && are_tracked os

-- The progress stands in the order of the objectives: what is complete is of a kind that is counted
-- and has reached what its objective requires.
abbrev pub Tracks : List QuestObjective → List ObjectiveProgress → Type 0
Tracks [] [] = Unit
Tracks [] (p ∷ ps) = ⊥
Tracks (o ∷ os) [] = ⊥
Tracks (o ∷ os) (p ∷ ps) =
    (p.required ≡ required_of o)
    × (p.complete ≡ true → is_tracked o ≡ true)
    × (p.complete ≡ true → p.required ≤ p.current)
    × Tracks os ps

pub initial-Tracks : (os : List QuestObjective) → Tracks os (map initial os)
initial-Tracks [] = tt
initial-Tracks (o ∷ os) = (refl, λ h. absurd cc, λ h. absurd cc, initial-Tracks os)

does_count-is_tracked :
    (ev : Event) (o : QuestObjective) → does_count ev o ≡ true → is_tracked o ≡ true
unfolding does_count
does_count-is_tracked (killed npc) (kill t count) h = refl
does_count-is_tracked (killed npc) (gather i count) h = refl
does_count-is_tracked (killed npc) (explore x y radius) h = absurd cc
does_count-is_tracked (killed npc) (deliver i count t) h = absurd cc
does_count-is_tracked (killed npc) (talk_to t) h = absurd cc
does_count-is_tracked (killed npc) (craft i count) h = refl
does_count-is_tracked (gathered item n) (kill t count) h = refl
does_count-is_tracked (gathered item n) (gather i count) h = refl
does_count-is_tracked (gathered item n) (explore x y radius) h = absurd cc
does_count-is_tracked (gathered item n) (deliver i count t) h = absurd cc
does_count-is_tracked (gathered item n) (talk_to t) h = absurd cc
does_count-is_tracked (gathered item n) (craft i count) h = refl
does_count-is_tracked (crafted item n) (kill t count) h = refl
does_count-is_tracked (crafted item n) (gather i count) h = refl
does_count-is_tracked (crafted item n) (explore x y radius) h = absurd cc
does_count-is_tracked (crafted item n) (deliver i count t) h = absurd cc
does_count-is_tracked (crafted item n) (talk_to t) h = absurd cc
does_count-is_tracked (crafted item n) (craft i count) h = refl

advanced-required : (ev : Event) (p : ObjectiveProgress) → (advanced ev p).required ≡ p.required
unfolding advanced
advanced-required (killed npc) p = ground arith
advanced-required (gathered item n) p = ground arith
advanced-required (crafted item n) p = ground arith

advanced-reaches :
    (ev : Event) (p : ObjectiveProgress)
    → p.complete ≡ false
    → (advanced ev p).complete ≡ true
    → (advanced ev p).required ≤ (advanced ev p).current
unfolding advanced
advanced-reaches (killed npc) p before after = ground (arith, before, after)
advanced-reaches (gathered item n) p before after = ground (arith, before, after)
advanced-reaches (crafted item n) p before after = ground (arith, before, after)

pub advance_objectives-Tracks :
    (ev : Event) (id i : ℕ) (os : List QuestObjective) (ps : List ObjectiveProgress)
    → Tracks os ps
    → (r : List ObjectiveProgress × List QuestResult) × (advance_objectives ev id i os ps ≡ some r)
      × Tracks os r.0
unfolding advance_objectives
advance_objectives-Tracks ev id i [] [] t = (([], []), refl, tt)
advance_objectives-Tracks ev id i [] (p ∷ ps) t = elim t [ ]
advance_objectives-Tracks ev id i (o ∷ os) [] t = elim t [ ]
advance_objectives-Tracks ev id i (o ∷ os) (p ∷ ps) t =
    let (rest, ran, further) = advance_objectives-Tracks ev id (suc i) os ps t.3 in
    elim (Bool-cases (does_count ev o && not p.complete)) [
      | inl counts ↦
          let p' = advanced ev p in
          let open_yet : p.complete ≡ false = ground arith in
          let kind = does_count-is_tracked ev o (ground arith) in
          (
            (p' ∷ rest.0, progress_updated id i p'.current p'.required ∷ rest.1),
            rw (ran, counts, advance_objectives) refl,
            (advanced-required ev p ∙ t.0, λ h. kind, advanced-reaches ev p open_yet, further),
          )
      | inr passes ↦ (
        (p ∷ rest.0, rest.1),
        rw (ran, passes, advance_objectives) refl,
        (t.0, t.1, t.2, further),
      )
    ]

-- A quest of the registry, with progress in the order of its objectives.
abbrev pub IsLined : QuestRegistry → ActiveQuest → Type 0
IsLined r a = (q : QuestDef) × (get r a.quest_id ≡ some q) × Tracks q.objectives a.objectives

advance_quest-IsLined :
    (r : QuestRegistry) (ev : Event) (a : ActiveQuest)
    → IsLined r a
    → (o : ActiveQuest × List QuestResult) × (advance_quest r ev a ≡ some o)
      × (o.0.quest_id ≡ a.quest_id)
      × IsLined r o.0
unfolding advance_quest
advance_quest-IsLined r ev a (q, known, t) =
    let (o, ran, further) = advance_objectives-Tracks ev a.quest_id 0 q.objectives a.objectives t in
    ((with_objectives a o.0, o.1), rw (known, ran, advance_quest) refl, refl, (q, known, further))

abbrev pub ids : List ActiveQuest → List ℕ
ids [] = []
ids (a ∷ rest) = a.quest_id ∷ ids rest

-- An event panics on no list of quests in order, and keeps it in order.
pub advance_all-IsLined :
    (r : QuestRegistry) (ev : Event) (active : List ActiveQuest)
    → All (IsLined r) active
    → (o : List ActiveQuest × List QuestResult) × (advance_all r ev active ≡ some o)
      × (ids o.0 ≡ ids active)
      × All (IsLined r) o.0
unfolding advance_all
advance_all-IsLined r ev [] l = (([], []), refl, refl, tt)
advance_all-IsLined r ev (a ∷ active) l =
    let (first, ran, same, lined) = advance_quest-IsLined r ev a l.0 in
    let (rest, ran', same', lined') = advance_all-IsLined r ev active l.1 in
    ((first.0 ∷ rest.0, first.1 ++ rest.1), rw (ran, ran', advance_all) refl, cc, (lined, lined'))
