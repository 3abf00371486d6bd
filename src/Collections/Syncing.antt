-- ===== src/Collections/Syncing.antt =====
-- A synchronisation keeps the cases of a schedule valid (`sync_schedule` of app/services/collections.py).
use inpockets.Base.{
  ℕ, ◌≤◌, ◌≡◌, refl, subst, sym, Bool, true, false, [], ◌∷◌, Option, none, some, Bool-cases, arith,
  inl, inr, All-append, map,
}
use inpockets.Collections.{Overdue, bucket_for}
use inpockets.Collections.Oldest.{overdue_of-oldest}
use inpockets.Collections.Cases.{
  CloseReason, CollectionCase, CaseDesk, CollectedSchedule, view_of, same_label, overdue_on,
  close_case, new_case, open_new_case, mirrored, is_mirrored, update_case, sync_case, sync_schedule,
}
use inpockets.Collections.Keeping.{
  IsValidCase, IsValidDesk, RisesLive, KeepsCases, append_none, KeepsCases-refl, changed_in_place,
  valid_live,
}

overdue_on_days :
    (today : ℕ) (s : CollectedSchedule) (o : Overdue) → overdue_on today s ≡ some o → 1 ≤ o.dpd
unfolding overdue_on
overdue_on_days today s o h = elim (Bool-cases s.is_active) [
  | inl e ↦ (overdue_of-oldest (map view_of s.installments) today o (ground (arith, h, e))).0
  | inr e ↦ absurd (ground (arith, h, e))
]

mirrored-IsValidCase :
    (o : Overdue) (c : CollectionCase) → 1 ≤ o.dpd → IsValidCase c → IsValidCase (mirrored o c)
unfolding mirrored
mirrored-IsValidCase o c days v = record {
  overdue = days;
  level = v.level;
  escalated_iff = v.escalated_iff;
  not_closed = v.not_closed;
}

mirrored_same :
    (o : Overdue) (c : CollectionCase)
    → ((mirrored o c).id ≡ c.id) × (c.escalation_level ≤ (mirrored o c).escalation_level)
unfolding mirrored
mirrored_same o c = (refl, omega arith)

update_case-KeepsCases :
    (o : Overdue) (c : CollectionCase) (d : CaseDesk)
    → 1 ≤ o.dpd
    → IsValidDesk d
    → d.live ≡ some c
    → KeepsCases d (update_case o c d).1
unfolding update_case
update_case-KeepsCases o c d days v at =
    let valid = mirrored-IsValidCase o c days (valid_live d c v at) in
    let (same, rises) = mirrored_same o c in
    elim (Bool-cases (is_mirrored o c)) [
      | inl e ↦ rw e (KeepsCases-refl d v)
      | inr e ↦ elim (Bool-cases (same_label c.dpd_bucket (bucket_for o.dpd))) [
        | inl f ↦ rw (e, f) (changed_in_place d _ c (mirrored o c) v at refl refl valid same rises)
        | inr f ↦ rw (e, f) (changed_in_place d _ c (mirrored o c) v at refl refl valid same rises)
      ]
    ]

open_new_case-KeepsCases :
    (raced : Bool) (o : Overdue) (d : CaseDesk)
    → 1 ≤ o.dpd
    → IsValidDesk d
    → d.live ≡ none
    → KeepsCases d (open_new_case raced o d).1
unfolding open_new_case new_case
open_new_case-KeepsCases true o d days v at = KeepsCases-refl d v
open_new_case-KeepsCases false o d days v at = (
  record {
    for_live = record {
      overdue = days;
      level = omega arith;
      escalated_iff = refl;
      not_closed = refl;
    };
    for_closed = v.for_closed;
  },
  subst (λ k. RisesLive k (some (new_case d.next_id o))) (sym at) tt,
  ([], append_none d.closed),
)

close_case-KeepsCases :
    (reason : CloseReason) (c : CollectionCase) (d : CaseDesk)
    → IsValidDesk d
    → d.live ≡ some c
    → KeepsCases d (close_case reason c d)
unfolding close_case
close_case-KeepsCases reason c d v at = (
  record { for_live = tt; for_closed = All-append _ d.closed (_ ∷ []) v.for_closed (refl, tt) },
  subst (λ k. RisesLive k none) (sym at) tt,
  (_, refl),
)

sync_case-KeepsCases :
    (raced : Bool) (reason : CloseReason) (overdue : Option Overdue) (live : Option CollectionCase)
    (d : CaseDesk)
    → ((o : Overdue) → overdue ≡ some o → 1 ≤ o.dpd)
    → IsValidDesk d
    → d.live ≡ live
    → KeepsCases d (sync_case raced reason overdue live d).1
unfolding sync_case
sync_case-KeepsCases raced reason none none d days v at = KeepsCases-refl d v
sync_case-KeepsCases raced reason none (some c) d days v at = close_case-KeepsCases reason c d v at
sync_case-KeepsCases raced reason (some o) none d days v at =
    open_new_case-KeepsCases raced o d (days o refl) v at
sync_case-KeepsCases raced reason (some o) (some c) d days v at =
    update_case-KeepsCases o c d (days o refl) v at

pub sync_schedule-KeepsCases :
    (today : ℕ) (raced : Bool) (schedule : Option CollectedSchedule) (d : CaseDesk)
    → IsValidDesk d
    → KeepsCases d (sync_schedule today raced schedule d).1
unfolding sync_schedule
sync_schedule-KeepsCases today raced none d v = KeepsCases-refl d v
sync_schedule-KeepsCases today raced (some s) d v =
    sync_case-KeepsCases raced _ (overdue_on today s) d.live d (overdue_on_days today s) v refl
