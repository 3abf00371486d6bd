-- ===== src/Collections/Raising.antt =====
-- Reminders and escalations keep the cases of a schedule valid (`schedule_reminders` and `escalate_case`
-- of app/services/collections.py).
use inpockets.Base.{
  ℕ, ◌≤◌, ◌<◌, ltb, leb, ◌≡◌, refl, Bool, true, false, [], Option, none, some, Bool-cases, arith,
  inl, inr,
}
use inpockets.Collections.{
  due_reminder_milestone, escalation_level_for, level_in, escalation_thresholds,
}
use inpockets.Collections.Cases.{CollectionCase, CaseDesk}
use inpockets.Collections.Working.{
  remind_at, remind_case, schedule_reminders, raised_case, raise_case, escalate_case,
}
use inpockets.Collections.Keeping.{
  IsValidCase, IsValidDesk, KeepsCases, append_none, RisesLive-refl, KeepsCases-refl,
  changed_in_place, valid_live,
}

remind_at-KeepsCases :
    (milestone : Option ℕ) (c : CollectionCase) (d : CaseDesk)
    → IsValidDesk d
    → KeepsCases d (remind_at milestone c d).1
unfolding remind_at
remind_at-KeepsCases none c d v = KeepsCases-refl d v
remind_at-KeepsCases (some m) c d v = (
  record { for_live = v.for_live; for_closed = v.for_closed },
  RisesLive-refl d.live,
  ([], append_none d.closed),
)

remind_case-KeepsCases :
    (live : Option CollectionCase) (d : CaseDesk)
    → IsValidDesk d
    → KeepsCases d (remind_case live d).1
unfolding remind_case
remind_case-KeepsCases none d v = KeepsCases-refl d v
remind_case-KeepsCases (some c) d v = elim (Bool-cases (ltb c.dpd 1)) [
  | inl e ↦ rw e (KeepsCases-refl d v)
  | inr e ↦ rw e (remind_at-KeepsCases (due_reminder_milestone c.dpd) c d v)
]

pub schedule_reminders-KeepsCases :
    (enabled : Bool) (d : CaseDesk) → IsValidDesk d → KeepsCases d (schedule_reminders enabled d).1
unfolding schedule_reminders
schedule_reminders-KeepsCases false d v = KeepsCases-refl d v
schedule_reminders-KeepsCases true d v = remind_case-KeepsCases d.live d v

escalation_level-max : (dpd : ℕ) → escalation_level_for dpd ≤ 3
unfolding escalation_level_for level_in escalation_thresholds
escalation_level-max dpd = ground arith

-- A case that is raised above its level.
pub raised_case-IsValidCase :
    (level now : ℕ) (c : CollectionCase)
    → 0 < level
    → level ≤ 3
    → IsValidCase c
    → IsValidCase (raised_case level now c)
raised_case-IsValidCase level now c positive bound v = record {
  overdue = v.overdue;
  level = bound;
  escalated_iff = ground (arith, positive);
  not_closed = refl;
}

raise_case-KeepsCases :
    (now : ℕ) (live : Option CollectionCase) (d : CaseDesk)
    → IsValidDesk d
    → d.live ≡ live
    → KeepsCases d (raise_case now live d).1
unfolding raise_case
raise_case-KeepsCases now none d v at = KeepsCases-refl d v
raise_case-KeepsCases now (some c) d v at =
    let target = escalation_level_for c.dpd in
    let bound = escalation_level-max c.dpd in
    elim (Bool-cases (leb target c.escalation_level)) [
      | inl e ↦ rw e (KeepsCases-refl d v)
      | inr e ↦
          (let above : c.escalation_level < target = ground (arith, e) in
            rw e (
              changed_in_place d _ c (raised_case target now c) v at refl refl
                (raised_case-IsValidCase target now c (omega (arith, above)) bound
                  (valid_live d c v at))
                refl (omega (arith, above))))
    ]

pub escalate_case-KeepsCases :
    (enabled : Bool) (now : ℕ) (d : CaseDesk)
    → IsValidDesk d
    → KeepsCases d (escalate_case enabled now d).1
unfolding escalate_case
escalate_case-KeepsCases false now d v = KeepsCases-refl d v
escalate_case-KeepsCases true now d v = raise_case-KeepsCases now d.live d v refl
