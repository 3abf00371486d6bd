-- ===== src/Collections/Cases.antt =====
-- The collection cases of one schedule (app/services/collections.py, app/repositories/collection.py and
-- app/models/collection.py), under the lock of the schedule: the live case, of which the index allows
-- one, the closed ones and their history. Time stamps but the due time of the next action, notes,
-- payloads and audit entries are left out.
use inpockets.Base.{
  ℕ, ◌+◌, ◌==◌, Bool, true, false, ◌&&◌, List, [], ◌∷◌, ◌++◌, Option, none, some, if◌then◌else◌,
  map,
}
use inpockets.Base.Int.{ℤ, ◌-ℤ◌, eqb_ℤ}
use inpockets.Repayment.{InstallmentState}
use inpockets.Collections.{Bucket, same_bucket, bucket_for, InstallmentView, Overdue, overdue_of}

pub data CaseStatus : Type 0 where
  open_case in_progress escalated closed_case : CaseStatus

pub data CloseReason : Type 0 where
  cured loan_inactive : CloseReason

pub data NextAction : Type 0 where
  call send_reminder follow_up escalation_review : NextAction

pub data Channel : Type 0 where
  sms push email phone whatsapp : Channel

pub data EventType : Type 0 where
  case_opened bucket_changed assigned note_added contact_attempt next_action_set : EventType
  reminder_scheduled raised case_closed : EventType

-- The texts of `reminder_key` and `escalation_key`.
pub data DedupeKey : Type 0 where
  reminder_key : ℕ → ℕ → Channel → DedupeKey
  escalation_key : ℕ → ℕ → DedupeKey

pub record CollectionEvent : Type 0 where
  pub case_id : ℕ
  pub event_type : EventType
  pub dedupe_key : Option DedupeKey

pub record CollectionCase : Type 0 where
  pub id : ℕ
  pub oldest_installment_id : ℕ
  pub status : CaseStatus
  pub dpd : ℕ
  pub dpd_bucket : Option Bucket
  pub overdue_principal : ℤ
  pub overdue_interest : ℤ
  pub overdue_fees : ℤ
  pub escalation_level : ℕ
  pub assigned_to : Option ℕ
  pub next_action : Option NextAction
  pub next_action_at : Option ℕ
  pub close_reason : Option CloseReason

pub record CaseDesk : Type 0 where
  pub live : Option CollectionCase
  pub closed : List CollectionCase
  pub events : List CollectionEvent
  pub next_id : ℕ

-- What `sync_schedule` reads of a schedule.
pub record CollectedSchedule : Type 0 where
  pub is_active : Bool
  pub installments : List InstallmentState

-- `SyncResult.action`
pub data SyncAction : Type 0 where
  sync_opened sync_updated sync_unchanged sync_closed sync_none : SyncAction

abbrev pub same_channel : Channel → Channel → Bool
same_channel sms sms = true
same_channel push push = true
same_channel email email = true
same_channel phone phone = true
same_channel whatsapp whatsapp = true
same_channel _ _ = false

abbrev pub same_dedupe_key : DedupeKey → DedupeKey → Bool
same_dedupe_key (reminder_key i m c) (reminder_key j n d) = i == j && (m == n && same_channel c d)
same_dedupe_key (escalation_key i m) (escalation_key j n) = i == j && m == n
same_dedupe_key _ _ = false

abbrev pub has_dedupe_key : Option DedupeKey → DedupeKey → Bool
has_dedupe_key none key = false
has_dedupe_key (some k) key = same_dedupe_key k key

-- The index `uq_collection_event_dedupe` has the key of the case.
unfoldable pub key_taken : ℕ → DedupeKey → List CollectionEvent → Bool
key_taken case_id key [] = false
key_taken case_id key (e ∷ events) =
    let rest = key_taken case_id key events in
    if e.case_id == case_id && has_dedupe_key e.dedupe_key key then true else rest

abbrev pub is_duplicate : CollectionEvent → List CollectionEvent → Bool
is_duplicate e events = elim e.dedupe_key [
  | none ↦ false
  | some key ↦ key_taken e.case_id key events
]

-- `add_event`, with whether the event was inserted.
unfoldable pub add_event : CollectionEvent → List CollectionEvent → Bool × List CollectionEvent
add_event e events = if is_duplicate e events then (false, events) else (true, events ++ e ∷ [])

-- `_event` of an event without a key.
abbrev pub record_event : CollectionCase → EventType → CaseDesk → CaseDesk
record_event c kind d = record d {
  events = (add_event (record { case_id = c.id; event_type = kind; dedupe_key = none }) d.events).1;
}

abbrev pub view_of : InstallmentState → InstallmentView
view_of i = record {
  id = i.id;
  number = i.number;
  due_date = i.due_date;
  principal_outstanding = i.principal_due -ℤ i.principal_paid;
  interest_outstanding = i.interest_due -ℤ i.interest_paid;
  fee_outstanding = i.fee_due -ℤ i.fee_paid;
}

-- What is overdue of a schedule, if it is active.
unfoldable pub overdue_on : ℕ → CollectedSchedule → Option Overdue
overdue_on today s = if s.is_active then overdue_of (map view_of s.installments) today else none

-- `_close`
unfoldable pub close_case : CloseReason → CollectionCase → CaseDesk → CaseDesk
close_case reason c d =
    let c' = record c {
      status = closed_case;
      close_reason = some reason;
      next_action = none;
      next_action_at = none;
    } in
    record_event c' case_closed (record d { live = none; closed = d.closed ++ c' ∷ [] })

unfoldable pub new_case : ℕ → Overdue → CollectionCase
new_case id o = record {
  id = id;
  oldest_installment_id = o.oldest_installment_id;
  status = open_case;
  dpd = o.dpd;
  dpd_bucket = bucket_for o.dpd;
  overdue_principal = o.principal;
  overdue_interest = o.interest;
  overdue_fees = o.fees;
  escalation_level = 0;
  assigned_to = none;
  next_action = none;
  next_action_at = none;
  close_reason = none;
}

-- A case is opened, unless the index has one that another worker has opened first.
unfoldable pub open_new_case : Bool → Overdue → CaseDesk → SyncAction × CaseDesk
open_new_case true o d = (sync_none, d)
open_new_case false o d =
    let c = new_case d.next_id o in
    (sync_opened, record_event c case_opened (record d { live = some c; next_id = d.next_id + 1 }))

-- The columns of `new_values`.
unfoldable pub mirrored : Overdue → CollectionCase → CollectionCase
mirrored o c = record c {
  oldest_installment_id = o.oldest_installment_id;
  dpd = o.dpd;
  dpd_bucket = bucket_for o.dpd;
  overdue_principal = o.principal;
  overdue_interest = o.interest;
  overdue_fees = o.fees;
}

abbrev pub same_label : Option Bucket → Option Bucket → Bool
same_label none none = true
same_label (some a) (some b) = same_bucket a b
same_label _ _ = false

-- No value of `new_values` differs.
unfoldable pub is_mirrored : Overdue → CollectionCase → Bool
is_mirrored o c =
    c.oldest_installment_id == o.oldest_installment_id
    && (c.dpd == o.dpd
        && (same_label c.dpd_bucket (bucket_for o.dpd)
            && (eqb_ℤ c.overdue_principal o.principal
                && (eqb_ℤ c.overdue_interest o.interest && eqb_ℤ c.overdue_fees o.fees))))

unfoldable pub update_case : Overdue → CollectionCase → CaseDesk → SyncAction × CaseDesk
update_case o c d =
    let d' = record d { live = some (mirrored o c) } in
    if is_mirrored o c
    then (sync_unchanged, d)
    else if same_label c.dpd_bucket (bucket_for o.dpd)
    then (sync_updated, d')
    else (sync_updated, record_event c bucket_changed d')

-- By what is overdue and whether there is a live case.
unfoldable pub sync_case :
    Bool → CloseReason → Option Overdue → Option CollectionCase → CaseDesk → SyncAction × CaseDesk
sync_case raced reason none none d = (sync_none, d)
sync_case raced reason none (some c) d = (sync_closed, close_case reason c d)
sync_case raced reason (some o) none d = open_new_case raced o d
sync_case raced reason (some o) (some c) d = update_case o c d

-- `sync_schedule`; the flag says whether another worker opens a case in the meantime.
unfoldable pub sync_schedule :
    ℕ → Bool → Option CollectedSchedule → CaseDesk → SyncAction × CaseDesk
sync_schedule today raced none d = (sync_none, d)
sync_schedule today raced (some s) d =
    sync_case raced (if s.is_active then cured else loan_inactive) (overdue_on today s) d.live d
