-- ===== src/Collections/Calls.antt =====
-- The calls of the collections service on the cases of one schedule, in any order
-- (app/services/collections.py).
use inpockets.Base.{ℕ, Bool, Option, List, [], ◌∷◌, Result, ok, err}
use inpockets.Collections.Cases.{NextAction, CaseDesk, CollectedSchedule, sync_schedule}
use inpockets.Collections.Working.{
  Worker, CollectionsError, schedule_reminders, escalate_case, add_note, log_contact,
  set_next_action, escalate_manually, assign,
}
use inpockets.Collections.Keeping.{IsValidDesk, KeepsCases, KeepsCases-refl}
use inpockets.Collections.Syncing.{sync_schedule-KeepsCases}
use inpockets.Collections.Raising.{schedule_reminders-KeepsCases, escalate_case-KeepsCases}
use inpockets.Collections.Agents.{
  Kept, add_note-Kept, log_contact-Kept, set_next_action-Kept, escalate_manually-Kept, assign-Kept,
}

pub data CaseCall : Type 0 where
  sync : ℕ → Bool → Option CollectedSchedule → CaseCall
  remind : Bool → CaseCall
  escalate : Bool → ℕ → CaseCall
  write_note : Worker → ℕ → ℕ → CaseCall
  report_contact : Worker → ℕ → CaseCall
  plan : Worker → ℕ → NextAction → ℕ → ℕ → CaseCall
  escalate_by_hand : Worker → ℕ → ℕ → ℕ → CaseCall
  assign_to : Worker → Bool → Option ℕ → ℕ → CaseCall

-- An error leaves the database as it is.
abbrev committed : CaseDesk → Result CollectionsError CaseDesk → CaseDesk
committed d (ok d') = d'
committed d (err e) = d

unfoldable pub call_case : CaseCall → CaseDesk → CaseDesk
call_case (sync today raced schedule) d = (sync_schedule today raced schedule d).1
call_case (remind enabled) d = (schedule_reminders enabled d).1
call_case (escalate enabled now) d = (escalate_case enabled now d).1
call_case (write_note w id length) d = committed d (add_note w id length d)
call_case (report_contact w id) d = committed d (log_contact w id d)
call_case (plan w id action due now) d = committed d (set_next_action w id action due now d)
call_case (escalate_by_hand w id length now) d = committed d (escalate_manually w id length now d)
call_case (assign_to me can_take assignee id) d = committed d (assign me can_take assignee id d)

unfoldable pub run_cases : List CaseCall → CaseDesk → CaseDesk
run_cases [] d = d
run_cases (call ∷ calls) d = run_cases calls (call_case call d)

committed-KeepsCases :
    (d : CaseDesk) (r : Result CollectionsError CaseDesk)
    → IsValidDesk d
    → Kept d r
    → KeepsCases d (committed d r)
committed-KeepsCases d (ok d') v h = h
committed-KeepsCases d (err e) v h = KeepsCases-refl d v

step-KeepsCases : (call : CaseCall) (d : CaseDesk) → IsValidDesk d → KeepsCases d (call_case call d)
unfolding call_case
step-KeepsCases (sync today raced schedule) d v = sync_schedule-KeepsCases today raced schedule d v
step-KeepsCases (remind enabled) d v = schedule_reminders-KeepsCases enabled d v
step-KeepsCases (escalate enabled now) d v = escalate_case-KeepsCases enabled now d v
step-KeepsCases (write_note w id length) d v =
    committed-KeepsCases d _ v (add_note-Kept w id length d v)
step-KeepsCases (report_contact w id) d v = committed-KeepsCases d _ v (log_contact-Kept w id d v)
step-KeepsCases (plan w id action due now) d v =
    committed-KeepsCases d _ v (set_next_action-Kept w id action due now d v)
step-KeepsCases (escalate_by_hand w id length now) d v =
    committed-KeepsCases d _ v (escalate_manually-Kept w id length now d v)
step-KeepsCases (assign_to me can_take assignee id) d v =
    committed-KeepsCases d _ v (assign-Kept me can_take assignee id d v)

run_cases-IsValidDesk :
    (calls : List CaseCall) (d : CaseDesk) → IsValidDesk d → IsValidDesk (run_cases calls d)
unfolding run_cases
run_cases-IsValidDesk [] d v = v
run_cases-IsValidDesk (call ∷ calls) d v =
    run_cases-IsValidDesk calls (call_case call d) (step-KeepsCases call d v).0

-- After any calls of workers and agents on the cases of a schedule, from a valid state, a further call
-- leaves a valid state: the live case is overdue by a day at least, on a level of at most three, is
-- escalated exactly where its level is positive, and the closed cases are closed. If a case stays
-- live it keeps its id and its level does not fall, and the closed cases stay as they are, with those
-- that the call closes behind them.
pub call_case-KeepsCases :
    (calls : List CaseCall) (call : CaseCall) (d : CaseDesk)
    → IsValidDesk d
    → KeepsCases (run_cases calls d) (call_case call (run_cases calls d))
call_case-KeepsCases calls call d v =
    step-KeepsCases call (run_cases calls d) (run_cases-IsValidDesk calls d v)
