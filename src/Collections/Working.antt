-- ===== src/Collections/Working.antt =====
-- The work on a live collection case (app/services/collections.py): reminders, escalations, and what
-- agents do. Times are in seconds.
use inpockets.Base.{
  ℕ, ◌+◌, ltb, leb, ◌==◌, Bool, true, false, not, ◌&&◌, ◌||◌, List, [], ◌∷◌, Option, none, some,
  if◌then◌else◌, Result, ok, err, raise_if, ◌>>=◌, ◌>>◌, find,
}
use inpockets.Collections.{due_reminder_milestone, escalation_level_for}
use inpockets.Collections.Cases.{
  CaseStatus, open_case, in_progress, escalated, NextAction, escalation_review, Channel, sms, push,
  email, EventType, assigned, note_added, contact_attempt, next_action_set, reminder_scheduled,
  raised, reminder_key, escalation_key, CollectionEvent, CollectionCase, CaseDesk, add_event,
  record_event,
}

-- The channels of `REMINDER_MILESTONES`.
unfoldable pub reminder_channels : ℕ → List Channel
reminder_channels milestone =
    if milestone == 1
    then sms ∷ push ∷ []
    else if milestone == 3
    then sms ∷ []
    else if milestone == 7
    then sms ∷ push ∷ []
    else if milestone == 15
    then sms ∷ []
    else if milestone == 30
    then sms ∷ email ∷ []
    else []

abbrev pub reminder_event : CollectionCase → ℕ → Channel → CollectionEvent
reminder_event c milestone channel = record {
  case_id = c.id;
  event_type = reminder_scheduled;
  dedupe_key = some (reminder_key c.oldest_installment_id milestone channel);
}

-- The loop over the channels, with how many reminders are new.
unfoldable pub remind :
    CollectionCase → ℕ → List Channel → List CollectionEvent → ℕ × List CollectionEvent
remind c milestone [] events = (0, events)
remind c milestone (channel ∷ rest) events =
    let added = add_event (reminder_event c milestone channel) events in
    let later = remind c milestone rest added.1 in ((if added.0 then 1 else 0) + later.0, later.1)

unfoldable pub remind_at : Option ℕ → CollectionCase → CaseDesk → ℕ × CaseDesk
remind_at none c d = (0, d)
remind_at (some milestone) c d =
    let made = remind c milestone (reminder_channels milestone) d.events in
    (made.0, record d { events = made.1 })

unfoldable pub remind_case : Option CollectionCase → CaseDesk → ℕ × CaseDesk
remind_case none d = (0, d)
remind_case (some c) d =
    if ltb c.dpd 1 then (0, d) else remind_at (due_reminder_milestone c.dpd) c d

-- `schedule_reminders`; the flag is the setting.
unfoldable pub schedule_reminders : Bool → CaseDesk → ℕ × CaseDesk
schedule_reminders false d = (0, d)
schedule_reminders true d = remind_case d.live d

abbrev pub raised_case : ℕ → ℕ → CollectionCase → CollectionCase
raised_case level now c = record c {
  escalation_level = level;
  status = escalated;
  next_action = some escalation_review;
  next_action_at = some now;
}

unfoldable pub raise_case : ℕ → Option CollectionCase → CaseDesk → Option ℕ × CaseDesk
raise_case now none d = (none, d)
raise_case now (some c) d =
    let target = escalation_level_for c.dpd in
    let event : CollectionEvent = record {
      case_id = c.id;
      event_type = raised;
      dedupe_key = some (escalation_key c.oldest_installment_id target);
    } in
    if leb target c.escalation_level then (none, d) else (
      some target,
      record d { live = some (raised_case target now c); events = (add_event event d.events).1 },
    )

-- `escalate_case`; the flag is the setting.
unfoldable pub escalate_case : Bool → ℕ → CaseDesk → Option ℕ × CaseDesk
escalate_case false now d = (none, d)
escalate_case true now d = raise_case now d.live d

-- An admin who may update cases; a manager may work on any.
pub record Worker : Type 0 where
  pub id : ℕ
  pub is_manager : Bool

pub data CollectionsError : Type 0 where
  invalid not_found conflict not_permitted : CollectionsError

abbrev pub find_closed : ℕ → List CollectionCase → CollectionsError
find_closed id cases = elim (find (λ c. c.id == id) cases) [ none ↦ not_found | some _ ↦ conflict ]

-- The case with the id, which has to be the live one.
unfoldable pub live_case :
    ℕ → Option CollectionCase → List CollectionCase → Result CollectionsError CollectionCase
live_case id none closed = err (find_closed id closed)
live_case id (some c) closed = if c.id == id then ok c else err (find_closed id closed)

abbrev pub is_assigned : ℕ → Option ℕ → Bool
is_assigned id none = false
is_assigned id (some other) = other == id

-- `_workable`
unfoldable pub workable : Worker → ℕ → CaseDesk → Result CollectionsError CollectionCase
workable w id d = live_case id d.live d.closed >>= λ c.
    raise_if (not (w.is_manager || is_assigned w.id c.assigned_to)) not_permitted >> ok c

abbrev pub worked_status : CaseStatus → CaseStatus
worked_status open_case = in_progress
worked_status status = status

-- `_worked`
abbrev pub worked : CollectionCase → CollectionCase
worked c = record c { status = worked_status c.status }

abbrev pub put_case : CollectionCase → EventType → CaseDesk → CaseDesk
put_case c kind d = record_event c kind (record d { live = some c })

abbrev max_level : ℕ
max_level = 3

-- `add_note`, by the length of the note.
unfoldable pub add_note : Worker → ℕ → ℕ → CaseDesk → Result CollectionsError CaseDesk
add_note w id length d =
    raise_if (not (leb 3 length && leb length 2000)) invalid
    >> (workable w id d >>= λ c. ok (put_case (worked c) note_added d))

-- `log_contact`
unfoldable pub log_contact : Worker → ℕ → CaseDesk → Result CollectionsError CaseDesk
log_contact w id d = workable w id d >>= λ c. ok (put_case (worked c) contact_attempt d)

-- `set_next_action`, of a time with a zone.
unfoldable pub set_next_action :
    Worker → ℕ → NextAction → ℕ → ℕ → CaseDesk → Result CollectionsError CaseDesk
set_next_action w id action due now d =
    raise_if (leb due now) invalid
    >> (raise_if (ltb (now + 7776000) due) invalid
        >> (workable w id d >>= λ c. ok (
            put_case (record (worked c) { next_action = some action; next_action_at = some due })
              next_action_set d)))

-- `escalate_manually`, by the length of the reason.
unfoldable pub escalate_manually : Worker → ℕ → ℕ → ℕ → CaseDesk → Result CollectionsError CaseDesk
unfolding max_level
escalate_manually w id length now d =
    raise_if (ltb length 10) invalid
    >> (raise_if (not w.is_manager) not_permitted
        >> (workable w id d >>= λ c.
            raise_if (leb max_level c.escalation_level) conflict
            >> ok (put_case (raised_case (c.escalation_level + 1) now c) raised d)))

-- The checks of `assign`: on another admin, or on oneself.
unfoldable pub may_assign :
    Worker → Bool → ℕ → CollectionCase → Result CollectionsError CollectionCase
may_assign me can_take target c =
    if not (target == me.id)
    then raise_if (not me.is_manager) not_permitted >> (raise_if (not can_take) invalid >> ok c)
    else raise_if
        (not (me.is_manager || (is_unassigned c.assigned_to || is_assigned me.id c.assigned_to)))
        conflict
      >> ok c
  where
    is_unassigned : Option ℕ → Bool
    is_unassigned none = true
    is_unassigned (some _) = false

-- `assignee_admin_id or me.id`
abbrev pub target_of : Worker → Option ℕ → ℕ
target_of me none = me.id
target_of me (some other) = other

-- `assign`; the flag says whether the other admin is active, with a role that may update cases.
unfoldable pub assign : Worker → Bool → Option ℕ → ℕ → CaseDesk → Result CollectionsError CaseDesk
assign me can_take assignee id d =
    let target = target_of me assignee in
    live_case id d.live d.closed >>= λ found. may_assign me can_take target found >>= λ c. ok (
      if is_assigned target c.assigned_to
      then d
      else put_case (record c { assigned_to = some target }) assigned d)
