-- ===== src/Collections/Agents.antt =====
-- What agents do keeps the cases of a schedule valid (the admin writes of app/services/collections.py).
use inpockets.Base.{
  ℕ, ◌+◌, ◌≤◌, ltb, leb, ◌≡◌, refl, ap, ◌∙◌, Bool, not, ◌&&◌, List, Option, none, some, Result, ok,
  err, ◌>>=◌, Bool-cases, Result-cases, arith, inl, inr,
}
use inpockets.Collections.Cases.{
  CaseStatus, note_added, contact_attempt, next_action_set, raised, assigned, NextAction, EventType,
  CollectionCase, CaseDesk,
}
use inpockets.Collections.Working.{
  Worker, CollectionsError, target_of, is_assigned, raised_case, live_case, workable, worked,
  worked_status, add_note, log_contact, set_next_action, escalate_manually, put_case, may_assign,
  assign,
}
use inpockets.Collections.Keeping.{
  is_escalated, is_closed, IsValidCase, IsValidDesk, KeepsCases, KeepsCases-refl, changed_in_place,
  valid_live,
}
use inpockets.Collections.Raising.{raised_case-IsValidCase}

abbrev pub Kept : CaseDesk → Result CollectionsError CaseDesk → Type 0
Kept d (ok d') = KeepsCases d d'
Kept d (err e) = Unit

live_case-eq-ok :
    (id : ℕ) (live : Option CollectionCase) (closed : List CollectionCase) (c : CollectionCase)
    → live_case id live closed ≡ ok c
    → live ≡ some c
unfolding live_case
live_case-eq-ok id none closed c h = cc
live_case-eq-ok id (some k) closed c h = ground (arith, h)

workable-eq-ok :
    (w : Worker) (id : ℕ) (d : CaseDesk) (c : CollectionCase)
    → workable w id d ≡ ok c
    → d.live ≡ some c
unfolding workable
workable-eq-ok w id d c h = elim (Result-cases (live_case id d.live d.closed)) [
  | inr (e, bad) ↦ absurd (ground (arith, h, bad))
  | inl (k, found) ↦
      (let at = live_case-eq-ok id d.live d.closed k found in
        let same : k ≡ c = ground (arith, h, found) in rw (← same) at)
]

worked-IsValidCase : (c : CollectionCase) → IsValidCase c → IsValidCase (worked c)
worked-IsValidCase c v = record {
  overdue = v.overdue;
  level = v.level;
  escalated_iff = same_escalated c.status ∙ v.escalated_iff;
  not_closed = same_closed c.status ∙ v.not_closed;
}
  where
    same_escalated : (s : CaseStatus) → is_escalated (worked_status s) ≡ is_escalated s
    same_escalated s = ground arith

    same_closed : (s : CaseStatus) → is_closed (worked_status s) ≡ is_closed s
    same_closed s = ground arith

-- A live case of the same id and level, written back with an event.
put_case-KeepsCases :
    (d : CaseDesk) (c c' : CollectionCase) (kind : EventType)
    → IsValidDesk d
    → d.live ≡ some c
    → IsValidCase c'
    → c'.id ≡ c.id
    → c.escalation_level ≤ c'.escalation_level
    → KeepsCases d (put_case c' kind d)
put_case-KeepsCases d c c' kind v at valid same rises =
    changed_in_place d _ c c' v at refl refl valid same rises

-- A change of the live case by an agent who may work on it.
workable-Kept :
    (w : Worker) (id : ℕ) (d : CaseDesk) (change : CollectionCase → CollectionCase)
    (kind : EventType)
    → IsValidDesk d
    → ((c : CollectionCase) → IsValidCase c → IsValidCase (change c))
    → ((c : CollectionCase) → (change c).id ≡ c.id)
    → ((c : CollectionCase) → (change c).escalation_level ≡ c.escalation_level)
    → Kept d (workable w id d >>= λ c. ok (put_case (change c) kind d))
workable-Kept w id d change kind v valid same level = elim (Result-cases (workable w id d)) [
  | inr (e, bad) ↦ rw bad tt
  | inl (c, found) ↦
      (let at = workable-eq-ok w id d c found in
        rw found (
          put_case-KeepsCases d c (change c) kind v at (valid c (valid_live d c v at)) (same c)
            (omega (arith, level c))))
]

pub add_note-Kept :
    (w : Worker) (id length : ℕ) (d : CaseDesk) → IsValidDesk d → Kept d (add_note w id length d)
unfolding add_note
add_note-Kept w id length d v = elim (Bool-cases (leb 3 length && leb length 2000)) [
  | inr e ↦ rw e tt
  | inl e ↦
      rw e (workable-Kept w id d worked note_added v worked-IsValidCase (λ c. refl) (λ c. refl))
]

pub log_contact-Kept :
    (w : Worker) (id : ℕ) (d : CaseDesk) → IsValidDesk d → Kept d (log_contact w id d)
unfolding log_contact
log_contact-Kept w id d v =
    workable-Kept w id d worked contact_attempt v worked-IsValidCase (λ c. refl) (λ c. refl)

pub set_next_action-Kept :
    (w : Worker) (id : ℕ) (action : NextAction) (due now : ℕ) (d : CaseDesk)
    → IsValidDesk d
    → Kept d (set_next_action w id action due now d)
unfolding set_next_action
set_next_action-Kept w id action due now d v = elim (Bool-cases (leb due now)) [
  | inl e ↦ rw e tt
  | inr e ↦ elim (Bool-cases (ltb (now + 7776000) due)) [
    | inl f ↦ rw (e, f) tt
    | inr f ↦
        rw (e, f)
          (workable-Kept w id d planned next_action_set v planned-IsValidCase (λ c. refl)
            (λ c. refl))
  ]
]
  where
    planned : CollectionCase → CollectionCase
    planned c = record (worked c) { next_action = some action; next_action_at = some due }

    planned-IsValidCase : (c : CollectionCase) → IsValidCase c → IsValidCase (planned c)
    planned-IsValidCase c v =
        let valid = worked-IsValidCase c v in
        record {
          overdue = valid.overdue;
          level = valid.level;
          escalated_iff = valid.escalated_iff;
          not_closed = valid.not_closed;
        }

pub escalate_manually-Kept :
    (w : Worker) (id length now : ℕ) (d : CaseDesk)
    → IsValidDesk d
    → Kept d (escalate_manually w id length now d)
unfolding escalate_manually
escalate_manually-Kept w id length now d v = elim (Bool-cases (ltb length 10)) [
  | inl e ↦ rw e tt
  | inr e ↦ elim (Bool-cases (not w.is_manager)) [
    | inl f ↦ rw (e, f) tt
    | inr f ↦ elim (Result-cases (workable w id d)) [
      | inr (x, bad) ↦ rw (e, f, bad) tt
      | inl (c, found) ↦ elim (Bool-cases (leb 3 c.escalation_level)) [
        | inl top ↦ rw (e, f, found, top) tt
        | inr below ↦
            (let at = workable-eq-ok w id d c found in
              let bound : c.escalation_level + 1 ≤ 3 = ground (arith, below) in
              rw (e, f, found, below)
                (put_case-KeepsCases d c (raised_case (c.escalation_level + 1) now c) raised v at
                  (raised_case-IsValidCase (c.escalation_level + 1) now c (omega arith) bound
                    (valid_live d c v at))
                  refl (omega arith)))
      ]
    ]
  ]
]

may_assign-eq-ok :
    (me : Worker) (can_take : Bool) (target : ℕ) (c k : CollectionCase)
    → may_assign me can_take target c ≡ ok k
    → k ≡ c
unfolding may_assign
may_assign-eq-ok me can_take target c k h = ground (arith, h)

pub assign-Kept :
    (me : Worker) (can_take : Bool) (assignee : Option ℕ) (id : ℕ) (d : CaseDesk)
    → IsValidDesk d
    → Kept d (assign me can_take assignee id d)
unfolding assign
assign-Kept me can_take assignee id d v = elim (Result-cases (live_case id d.live d.closed)) [
  | inr (e, bad) ↦ rw bad tt
  | inl (c, found) ↦ elim (Result-cases (may_assign me can_take (target_of me assignee) c)) [
    | inr (e, bad) ↦ rw (found, bad) tt
    | inl (k, allowed) ↦
        (let at = live_case-eq-ok id d.live d.closed c found in
          let same = may_assign-eq-ok me can_take (target_of me assignee) c k allowed in
          elim (Bool-cases (is_assigned (target_of me assignee) k.assigned_to)) [
            | inl e ↦ rw (found, allowed, e) (KeepsCases-refl d v)
            | inr e ↦
                rw (found, allowed, e)
                  (put_case-KeepsCases d c (record k { assigned_to = some (target_of me assignee) })
                    assigned v at (assigned_valid c k same (valid_live d c v at))
                    (ap (λ x. x.id) same) (omega (arith, ap (λ x. x.escalation_level) same)))
          ])
  ]
]
  where
    assigned_valid :
        (c k : CollectionCase)
        → k ≡ c
        → IsValidCase c
        → IsValidCase (record k { assigned_to = some (target_of me assignee) })
    assigned_valid c k same v = record {
      overdue = rw same v.overdue;
      level = rw same v.level;
      escalated_iff = rw same v.escalated_iff;
      not_closed = rw same v.not_closed;
    }
