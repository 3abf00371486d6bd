-- ===== src/Examples/Collecting.antt =====
-- Runs of the collections service (app/services/collections.py): a loan falls overdue, is reminded and
-- escalated, and is paid.
use inpockets.Base.{◌≡◌, true, false, List, [], ◌∷◌, none, some, refl, arith}
use inpockets.Base.Int.{pos}
use inpockets.Collections.{days_1_7, due_reminder_milestone, largest_reached, reminder_milestones}
use inpockets.Collections.Cases.{
  CaseDesk, CollectionCase, CollectedSchedule, open_case, overdue_on, sync_schedule,
}
use inpockets.Collections.Working.{Worker, schedule_reminders, reminder_channels}
use inpockets.Collections.Mirroring.{Synced, sync_schedule-Synced}
use inpockets.Collections.Keeping.{IsValidDesk, KeepsCases}
use inpockets.Collections.Calls.{
  CaseCall, sync, remind, escalate, write_note, escalate_by_hand, call_case, run_cases,
  call_case-KeepsCases,
}
use inpockets.Collections.Repeating.{AllReminded, schedule_reminders_once}
use inpockets.Examples.Lending.{both}

abbrev overdue_loan : CollectedSchedule
overdue_loan = record { is_active = true; installments = both }

-- Four days late.
abbrev late_case : CollectionCase
late_case = record {
  id = 1;
  oldest_installment_id = 11;
  status = open_case;
  dpd = 4;
  dpd_bucket = some days_1_7;
  overdue_principal = pos 40000;
  overdue_interest = pos 1000;
  overdue_fees = pos 500;
  escalation_level = 0;
  assigned_to = none;
  next_action = none;
  next_action_at = none;
  close_reason = none;
}

abbrev late_desk : CaseDesk
late_desk = record { live = some late_case; closed = []; events = []; next_id = 2 }

late_desk-IsValidDesk : IsValidDesk late_desk
late_desk-IsValidDesk = record {
  for_live = record {
    overdue = omega arith;
    level = omega arith;
    escalated_iff = refl;
    not_closed = refl;
  };
  for_closed = tt;
}

sync_schedule-Synced_example :
    Synced true
      (overdue_on 70 overdue_loan)
      (some late_case)
      late_desk
      (sync_schedule 70 false (some overdue_loan) late_desk).1
sync_schedule-Synced_example = sync_schedule-Synced 70 overdue_loan late_desk

abbrev manager : Worker
manager = record { id = 8; is_manager = true }

abbrev work : List CaseCall
work =
    sync 70 false (some overdue_loan) ∷ remind true ∷ escalate true 5 ∷ write_note manager 1 20 ∷ []

call_case-KeepsCases_example :
    KeepsCases
      (run_cases work late_desk)
      (call_case (escalate_by_hand manager 1 30 9) (run_cases work late_desk))
call_case-KeepsCases_example =
    call_case-KeepsCases work (escalate_by_hand manager 1 30 9) late_desk late_desk-IsValidDesk

milestone_three : due_reminder_milestone 4 ≡ some 3
unfolding due_reminder_milestone largest_reached reminder_milestones
milestone_three = refl

schedule_reminders_once_example :
    let d = (schedule_reminders true late_desk).1 in
    AllReminded late_case 3 (reminder_channels 3) d.events × (schedule_reminders true d ≡ (0, d))
schedule_reminders_once_example =
    schedule_reminders_once true late_desk late_case 3 refl (omega arith) milestone_three
