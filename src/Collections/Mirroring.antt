-- ===== src/Collections/Mirroring.antt =====
-- After a synchronisation the live case of a schedule says what is overdue of it (`sync_schedule` of
-- app/services/collections.py against `overdue_of` of app/domain/collections.py).
use inpockets.Base.{
  ℕ, ◌≡◌, refl, ap, Bool, true, false, [], ◌∷◌, ◌++◌, Option, none, some, Bool-cases, if◌then◌else◌,
  arith, inl, inr,
}
use inpockets.Base.Int.{eqb_ℤ→eq}
use inpockets.Collections.{Bucket, same_bucket, bucket_for, Overdue}
use inpockets.Collections.Cases.{
  closed_case, cured, loan_inactive, CollectionCase, CaseDesk, CollectedSchedule, same_label,
  overdue_on, close_case, new_case, open_new_case, mirrored, is_mirrored, update_case, sync_case,
  sync_schedule,
}

-- The case says what is overdue.
pub record Mirrors (o : Overdue) (c : CollectionCase) : Type 0 where
  pub oldest : c.oldest_installment_id ≡ o.oldest_installment_id
  pub dpd : c.dpd ≡ o.dpd
  pub bucket : c.dpd_bucket ≡ bucket_for o.dpd
  pub principal : c.overdue_principal ≡ o.principal
  pub interest : c.overdue_interest ≡ o.interest
  pub fees : c.overdue_fees ≡ o.fees

-- What agents have done on a case.
abbrev pub SameWork : CollectionCase → CollectionCase → Type 0
SameWork c c' =
    (c'.id ≡ c.id)
    × (c'.status ≡ c.status)
    × (c'.escalation_level ≡ c.escalation_level)
    × (c'.assigned_to ≡ c.assigned_to)
    × (c'.next_action ≡ c.next_action)

-- The live case after a synchronisation, by what is overdue and the live case before.
abbrev pub Synced : Bool → Option Overdue → Option CollectionCase → CaseDesk → CaseDesk → Type 0
Synced active none none d d' = (d'.live ≡ none) × (d'.closed ≡ d.closed)
Synced active none (some c) d d' =
    (d'.live ≡ none)
    × ((c' : CollectionCase) × (d'.closed ≡ d.closed ++ c' ∷ [])
        × (c'.id ≡ c.id)
        × (c'.status ≡ closed_case)
        × (c'.close_reason ≡ some (if active then cured else loan_inactive)))
Synced active (some o) none d d' =
    (c' : CollectionCase) × (d'.live ≡ some c')
    × Mirrors o c'
    × (c'.id ≡ d.next_id)
    × (c'.escalation_level ≡ 0)
    × (d'.closed ≡ d.closed)
Synced active (some o) (some c) d d' =
    (c' : CollectionCase) × (d'.live ≡ some c')
    × Mirrors o c'
    × SameWork c c'
    × (d'.closed ≡ d.closed)

same_bucket-eq : (a b : Bucket) → same_bucket a b ≡ true → a ≡ b
same_bucket-eq a b h = ground (arith, h)

same_label-eq : (a b : Option Bucket) → same_label a b ≡ true → a ≡ b
same_label-eq none none h = refl
same_label-eq none (some b) h = cc
same_label-eq (some a) none h = cc
same_label-eq (some a) (some b) h = ap some (same_bucket-eq a b h)

is_mirrored-Mirrors : (o : Overdue) (c : CollectionCase) → is_mirrored o c ≡ true → Mirrors o c
unfolding is_mirrored
is_mirrored-Mirrors o c h = record {
  oldest = ground (arith, h);
  dpd = ground (arith, h);
  bucket = same_label-eq _ _ (ground (arith, h));
  principal = eqb_ℤ→eq _ _ (ground (arith, h));
  interest = eqb_ℤ→eq _ _ (ground (arith, h));
  fees = eqb_ℤ→eq _ _ (ground (arith, h));
}

mirrored-Mirrors : (o : Overdue) (c : CollectionCase) → Mirrors o (mirrored o c)
unfolding mirrored
mirrored-Mirrors o c = record {
  oldest = refl;
  dpd = refl;
  bucket = refl;
  principal = refl;
  interest = refl;
  fees = refl;
}

new_case-Mirrors : (id : ℕ) (o : Overdue) → Mirrors o (new_case id o)
unfolding new_case
new_case-Mirrors id o = record {
  oldest = refl;
  dpd = refl;
  bucket = refl;
  principal = refl;
  interest = refl;
  fees = refl;
}

update_case-Synced :
    (active : Bool) (o : Overdue) (c : CollectionCase) (d : CaseDesk)
    → d.live ≡ some c
    → Synced active (some o) (some c) d (update_case o c d).1
unfolding update_case mirrored
update_case-Synced active o c d at = elim (Bool-cases (is_mirrored o c)) [
  | inl e ↦ rw e (c, at, is_mirrored-Mirrors o c e, (refl, refl, refl, refl, refl), refl)
  | inr e ↦ elim (Bool-cases (same_label c.dpd_bucket (bucket_for o.dpd))) [
    | inl f ↦
        rw (e, f) (mirrored o c, refl, mirrored-Mirrors o c, (refl, refl, refl, refl, refl), refl)
    | inr f ↦
        rw (e, f) (mirrored o c, refl, mirrored-Mirrors o c, (refl, refl, refl, refl, refl), refl)
  ]
]

new_case_level : (id : ℕ) (o : Overdue) → (new_case id o).escalation_level ≡ 0
unfolding new_case
new_case_level id o = refl

sync_case-Synced :
    (active : Bool) (overdue : Option Overdue) (live : Option CollectionCase) (d : CaseDesk)
    → d.live ≡ live
    → Synced active overdue live d
        (sync_case false (if active then cured else loan_inactive) overdue live d).1
unfolding sync_case close_case open_new_case new_case
sync_case-Synced active none none d at = (at, refl)
sync_case-Synced active none (some c) d at = (refl, (_, refl, refl, refl, refl))
sync_case-Synced active (some o) none d at = (
  new_case d.next_id o,
  refl,
  new_case-Mirrors d.next_id o,
  refl,
  new_case_level d.next_id o,
  refl,
)
sync_case-Synced active (some o) (some c) d at = update_case-Synced active o c d at

-- A synchronisation makes the live case of a schedule say what is overdue of it, unless another
-- worker opens a case in the meantime. Where nothing is overdue, or the schedule is not active, no
-- case is live afterwards, and one that was is closed, as cured if the schedule is active and as
-- inactive otherwise. Where something is overdue, the live case has its oldest installment, days,
-- bucket and amounts: a new case on level 0, or the case that was live, with its status, level,
-- assignee and next action unchanged.
pub sync_schedule-Synced :
    (today : ℕ) (s : CollectedSchedule) (d : CaseDesk)
    → Synced s.is_active (overdue_on today s) d.live d (sync_schedule today false (some s) d).1
unfolding sync_schedule
sync_schedule-Synced today s d = sync_case-Synced s.is_active (overdue_on today s) d.live d refl
