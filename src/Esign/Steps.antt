-- ===== src/Esign/Steps.antt =====
-- The steps of the e-signature service but callbacks follow the table, and sign only with a proof
-- (app/services/esign.py).
use inpockets.Base.{
  ltb, ℕ, ◌≡◌, refl, Bool, true, false, Option, none, some, if◌then◌else◌, Result, ok, err, ◌>>=◌,
  Bool-cases, arith, inl, inr,
}
use inpockets.Repayment.Payments.Applying.{is_among}
use inpockets.Statuses.{here}
use inpockets.Statuses.Esign.{
  EsignStatus, initiated, pending, failed, expired, manual_review, can_transition,
}
use inpockets.Esign.{
  EsignSays, says_pending, says_signed, says_failed, says_expired, says_other, EsignOutcome,
  was_signed, EsignError, invalid_transition, integrity_error, esign_unavailable, esign_conflict,
  not_permitted, not_found, EsignReviewer, EsignDesk, EsignCircumstances, EsignReport,
  same_esign_status, move_signature, complete_signing, is_checksum, EsignStart, started,
  start_timeout, start_rejected, start_with_provider, resume_signing, EsignDecision, decide_recheck,
  decide_failed, EsignLookup, looked_up, no_reference, unreachable, confirms_signed, if_signed,
  recheck_signature, resolve, resolve_review, without_outcome, sync_report, sync_lookup,
  sync_initiated, sync_signature,
}
use inpockets.Esign.Proving.{IsProof, Ends, Leads, move_signature-Ends, complete_signing-Leads}
use inpockets.Esign.Signing.{confirms_signed-IsProof, apply_esign_report-Leads}

abbrev pub LookupProof : EsignLookup → EsignDesk → Type 0
LookupProof (looked_up r) d = IsProof r d
LookupProof lookup d = ⊥

pub without_outcome-Ends :
    (Proof : Type 0) (d : EsignDesk) (r : Result EsignError (EsignOutcome × EsignDesk))
    → Leads Proof d r
    → Ends Proof d (without_outcome r)
without_outcome-Ends Proof d (ok (outcome, d')) h = h
without_outcome-Ends Proof d (err invalid_transition) h = h
without_outcome-Ends Proof d (err integrity_error) h = tt
without_outcome-Ends Proof d (err esign_unavailable) h = tt
without_outcome-Ends Proof d (err esign_conflict) h = tt
without_outcome-Ends Proof d (err not_permitted) h = tt
without_outcome-Ends Proof d (err not_found) h = tt

at_initiated : (s : EsignStatus) → same_esign_status s initiated ≡ true → s ≡ initiated
at_initiated s h = ground (arith, h)

start_with_provider-Ends :
    (Proof : Type 0) (answer : EsignStart) (d : EsignDesk)
    → d.tx.status ≡ initiated
    → Ends Proof d (start_with_provider answer d)
unfolding start_with_provider can_transition
start_with_provider-Ends Proof start_timeout d at = tt
start_with_provider-Ends Proof start_rejected d at =
    move_signature-Ends Proof d d failed refl refl (rw at refl) (λ s. absurd (cc (s)))
start_with_provider-Ends Proof (started ref) d at =
    let t = d.tx in
    elim (Bool-cases (is_among ref d.refs_of_others)) [
      | inl e ↦ rw e tt
      | inr e ↦ rw e (
          move_signature-Ends Proof d (record d { tx = record t { provider_ref = some ref } })
            pending refl refl (rw at refl) (λ s. absurd (cc (s))))
    ]

pub resume_signing-Ends :
    (Proof : Type 0) (agreement : Option ℕ) (answer : EsignStart) (d : EsignDesk)
    → Ends Proof d (resume_signing agreement answer d)
unfolding resume_signing
resume_signing-Ends Proof agreement answer d =
    elim (Bool-cases (same_esign_status d.tx.status initiated)) [
      | inr f ↦ rw f (here, refl, (λ s. inl s))
      | inl f ↦ elim (Bool-cases (is_checksum d.tx.document_checksum agreement)) [
        | inr g ↦ rw (f, g) tt
        | inl g ↦ rw (f, g) (start_with_provider-Ends Proof answer d (at_initiated d.tx.status f))
      ]
    ]

if_signed-Ends :
    (Proof : Type 0) (d : EsignDesk) (r : Result EsignError (EsignOutcome × EsignDesk))
    → Leads Proof d r
    → Ends Proof d (r >>= if_signed)
if_signed-Ends Proof d (ok (was_signed, d')) h = h
if_signed-Ends Proof d (ok (outcome, d')) h = tt
if_signed-Ends Proof d (err invalid_transition) h = h
if_signed-Ends Proof d (err integrity_error) h = tt
if_signed-Ends Proof d (err esign_unavailable) h = tt
if_signed-Ends Proof d (err esign_conflict) h = tt
if_signed-Ends Proof d (err not_permitted) h = tt
if_signed-Ends Proof d (err not_found) h = tt

fail-Ends :
    (Proof : Type 0) (d : EsignDesk)
    → d.tx.status ≡ manual_review
    → Ends Proof d (move_signature failed d)
unfolding can_transition
fail-Ends Proof d at =
    move_signature-Ends Proof d d failed refl refl (rw at refl) (λ s. absurd (cc (s)))

recheck_signature-Ends :
    (says : EsignSays) (e : EsignCircumstances) (r : EsignReport) (d : EsignDesk)
    → d.tx.status ≡ manual_review
    → Ends (IsProof r d) d (recheck_signature says e r d)
unfolding recheck_signature can_transition
recheck_signature-Ends says_pending e r d at = tt
recheck_signature-Ends says_failed e r d at = fail-Ends _ d at
recheck_signature-Ends says_expired e r d at = fail-Ends _ d at
recheck_signature-Ends says_other e r d at = fail-Ends _ d at
recheck_signature-Ends says_signed e r d at = elim (Bool-cases (confirms_signed r d)) [
  | inr f ↦ rw f tt
  | inl f ↦ rw f (
      if_signed-Ends (IsProof r d) d (complete_signing e none none d) (
        complete_signing-Leads (IsProof r d) e none none d (rw at refl)
          (confirms_signed-IsProof r d f)))
]

resolve-Ends :
    (decision : EsignDecision) (lookup : EsignLookup) (e : EsignCircumstances) (d : EsignDesk)
    → d.tx.status ≡ manual_review
    → Ends (LookupProof lookup d) d (resolve decision lookup e d)
unfolding resolve
resolve-Ends decide_recheck unreachable e d at = tt
resolve-Ends decide_failed unreachable e d at = tt
resolve-Ends decide_recheck no_reference e d at = tt
resolve-Ends decide_failed no_reference e d at = fail-Ends _ d at
resolve-Ends decide_recheck (looked_up r) e d at = recheck_signature-Ends r.status e r d at
resolve-Ends decide_failed (looked_up r) e d at = elim (Bool-cases (confirms_signed r d)) [
  | inl f ↦ rw f tt
  | inr f ↦ rw f (fail-Ends _ d at)
]

at_review : (s : EsignStatus) → same_esign_status s manual_review ≡ true → s ≡ manual_review
at_review s h = ground (arith, h)

pub resolve_review-Ends :
    (a : EsignReviewer) (decision : EsignDecision) (lookup : EsignLookup) (e : EsignCircumstances)
    (d : EsignDesk)
    → Ends (LookupProof lookup d) d (resolve_review a decision lookup e d)
unfolding resolve_review
resolve_review-Ends a decision lookup e d = elim (Bool-cases a.is_permitted) [
  | inr f ↦ rw f tt
  | inl f ↦ elim (Bool-cases (ltb a.reason_length 10)) [
    | inl g ↦ rw (f, g) tt
    | inr g ↦ elim (Bool-cases (same_esign_status d.tx.status manual_review)) [
      | inr h ↦ rw (f, g, h) tt
      | inl h ↦ elim (Bool-cases a.is_signer) [
        | inl i ↦ rw (f, g, h, i) tt
        | inr i ↦ rw (f, g, h, i) (resolve-Ends decision lookup e d (at_review d.tx.status h))
      ]
    ]
  ]
]

expire-Ends :
    (Proof : Type 0) (b : Bool) (d : EsignDesk) (rest : Result EsignError EsignDesk)
    → can_transition d.tx.status expired ≡ true
    → Ends Proof d rest
    → Ends Proof d (if b then move_signature expired d else rest)
expire-Ends Proof true d rest way h =
    move_signature-Ends Proof d d expired refl refl way (λ s. absurd (cc (s)))
expire-Ends Proof false d rest way h = h

sync_report-Ends :
    (says : EsignSays) (e : EsignCircumstances) (r : EsignReport) (d : EsignDesk)
    → d.tx.status ≡ pending
    → Ends (IsProof r d) d (sync_report says e r d)
unfolding sync_report can_transition
sync_report-Ends says_pending e r d at =
    expire-Ends _ _ d (ok d) (rw at refl) (here, refl, (λ s. inl s))
sync_report-Ends says_other e r d at =
    expire-Ends _ _ d (ok d) (rw at refl) (here, refl, (λ s. inl s))
sync_report-Ends says_signed e r d at =
    without_outcome-Ends _ d _
      (apply_esign_report-Leads e (record r { occurred_at = none; document = none }) d)
sync_report-Ends says_failed e r d at =
    without_outcome-Ends _ d _
      (apply_esign_report-Leads e (record r { occurred_at = none; document = none }) d)
sync_report-Ends says_expired e r d at =
    without_outcome-Ends _ d _
      (apply_esign_report-Leads e (record r { occurred_at = none; document = none }) d)

sync_lookup-Ends :
    (lookup : EsignLookup) (e : EsignCircumstances) (d : EsignDesk)
    → d.tx.status ≡ pending
    → Ends (LookupProof lookup d) d (sync_lookup lookup e d)
unfolding sync_lookup
sync_lookup-Ends (looked_up r) e d at = sync_report-Ends r.status e r d at
sync_lookup-Ends no_reference e d at = tt
sync_lookup-Ends unreachable e d at = tt

sync_initiated-Ends :
    (Proof : Type 0) (is_intact : Bool) (answer : EsignStart) (e : EsignCircumstances)
    (d : EsignDesk)
    → d.tx.status ≡ initiated
    → Ends Proof d (sync_initiated is_intact answer e d)
unfolding sync_initiated can_transition
sync_initiated-Ends Proof true answer e d at =
    expire-Ends Proof _ d _ (rw at refl) (start_with_provider-Ends Proof answer d at)
sync_initiated-Ends Proof false answer e d at =
    expire-Ends Proof _ d (err esign_conflict) (rw at refl) tt

at_pending : (s : EsignStatus) → same_esign_status s pending ≡ true → s ≡ pending
at_pending s h = ground (arith, h)

pub sync_signature-Ends :
    (is_intact : Bool) (answer : EsignStart) (lookup : EsignLookup) (e : EsignCircumstances)
    (d : EsignDesk)
    → Ends (LookupProof lookup d) d (sync_signature is_intact answer lookup e d)
unfolding sync_signature
sync_signature-Ends is_intact answer lookup e d =
    elim (Bool-cases (same_esign_status d.tx.status initiated)) [
      | inl f ↦ rw f (sync_initiated-Ends _ is_intact answer e d (at_initiated d.tx.status f))
      | inr f ↦ elim (Bool-cases (same_esign_status d.tx.status pending)) [
        | inl g ↦ rw (f, g) (sync_lookup-Ends lookup e d (at_pending d.tx.status g))
        | inr g ↦ rw (f, g) (here, refl, (λ s. inl s))
      ]
    ]
