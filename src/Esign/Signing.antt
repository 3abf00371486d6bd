-- ===== src/Esign/Signing.antt =====
-- Every call on a transaction follows the table of moves, and signs only with a proof
-- (app/services/esign.py).
use inpockets.Base.{
  ℕ, ltb, ◌≡◌, refl, true, false, not, ◌&&◌, ◌||◌, Option, none, some, Bool-cases, arith, inl, inr,
}
use inpockets.Statuses.{here}
use inpockets.Statuses.Esign.{
  EsignStatus, initiated, pending, signed, manual_review, can_transition,
}
use inpockets.Esign.{
  EsignSays, says_pending, says_signed, says_failed, says_expired, says_other, document_mismatch,
  late_signed, signed_without_reference, signed_after_expiry, EsignDesk, EsignCircumstances,
  EsignReport, same_esign_status, is_checksum, contradicts, is_after, says_that_signed,
  has_checksum, apply_signed, end_status, apply_ended, apply_esign_status, apply_esign_report,
  confirms_signed, processed,
}
use inpockets.Esign.Proving.{
  IsProof, Leads, Leads-of, move_signature-Ends, review_signature-Leads, complete_signing-Leads,
}

confirmed :
    (sum : ℕ) (c : Option ℕ) → has_checksum c ≡ true → contradicts sum c ≡ false → c ≡ some sum
confirmed sum none h e = cc
confirmed sum (some c) h e = ground (arith, e)

pub confirms_signed-IsProof :
    (r : EsignReport) (d : EsignDesk) → confirms_signed r d ≡ true → IsProof r d
confirms_signed-IsProof r d h = (
  signed_says r.status (ground (arith, h)),
  summed d.tx.document_checksum r.checksum (ground (arith, h)),
)
  where
    signed_says : (s : EsignSays) → says_that_signed s ≡ true → s ≡ says_signed
    signed_says s e = ground (arith, e)

    summed : (sum : ℕ) (c : Option ℕ) → is_checksum sum c ≡ true → c ≡ some sum
    summed sum none e = cc
    summed sum (some c) e = ground (arith, e)

pending_way :
    (s : EsignStatus) → same_esign_status s pending ≡ true → can_transition s signed ≡ true
unfolding can_transition
pending_way s h = ground (arith, h)

apply_signed-Leads :
    (e : EsignCircumstances) (r : EsignReport) (d : EsignDesk)
    → same_esign_status d.tx.status signed ≡ false
    → contradicts d.tx.document_checksum r.checksum ≡ false
    → r.status ≡ says_signed
    → Leads (IsProof r d) d (apply_signed e r d)
unfolding apply_signed
apply_signed-Leads e r d open_ agrees says =
    elim (Bool-cases (same_esign_status d.tx.status pending)) [
      | inr f ↦ rw f (review_signature-Leads (IsProof r d) late_signed d open_)
      | inl f ↦ elim (Bool-cases (has_checksum r.checksum)) [
        | inr g ↦ rw (f, g) (review_signature-Leads (IsProof r d) signed_without_reference d open_)
        | inl g ↦
            elim (Bool-cases
              (ltb d.tx.expires_at e.now && is_after d.tx.expires_at r.occurred_at)) [
                | inl h ↦
                    rw (f, g, h) (review_signature-Leads (IsProof r d) signed_after_expiry d open_)
                | inr h ↦
                    rw (f, g, h)
                      (complete_signing-Leads (IsProof r d) e r.occurred_at r.document d
                        (pending_way d.tx.status f)
                        (says, confirmed d.tx.document_checksum r.checksum g agrees))
              ]
      ]
    ]

ending_way :
    (s : EsignStatus) (says : EsignSays)
    → not (same_esign_status s pending || same_esign_status s initiated) ≡ false
    → can_transition s (end_status says) ≡ true
unfolding can_transition
ending_way s says h = ground (arith, h)

never_ends_signed : (says : EsignSays) → end_status says ≡ signed → ⊥
never_ends_signed says h = ground (arith, h)

apply_ended-Leads :
    (Proof : Type 0) (says : EsignSays) (d : EsignDesk) → Leads Proof d (apply_ended says d)
unfolding apply_ended
apply_ended-Leads Proof says d =
    elim (Bool-cases
      (not (same_esign_status d.tx.status pending || same_esign_status d.tx.status initiated))) [
        | inl f ↦ rw f (here, refl, (λ s. inl s))
        | inr f ↦ rw f (
            Leads-of Proof d _ processed (
              move_signature-Ends Proof d d (end_status says) refl refl
                (ending_way d.tx.status says f) (λ s. absurd (never_ends_signed says s))))
      ]

apply_esign_status-Leads :
    (says : EsignSays) (e : EsignCircumstances) (r : EsignReport) (d : EsignDesk)
    → same_esign_status d.tx.status signed ≡ false
    → contradicts d.tx.document_checksum r.checksum ≡ false
    → r.status ≡ says
    → Leads (IsProof r d) d (apply_esign_status says e r d)
unfolding apply_esign_status
apply_esign_status-Leads says_pending e r d open_ agrees at = (here, refl, (λ s. inl s))
apply_esign_status-Leads says_signed e r d open_ agrees at =
    apply_signed-Leads e r d open_ agrees at
apply_esign_status-Leads says_failed e r d open_ agrees at = apply_ended-Leads _ says_failed d
apply_esign_status-Leads says_expired e r d open_ agrees at = apply_ended-Leads _ says_expired d
apply_esign_status-Leads says_other e r d open_ agrees at = apply_ended-Leads _ says_other d

pub apply_esign_report-Leads :
    (e : EsignCircumstances) (r : EsignReport) (d : EsignDesk)
    → Leads (IsProof r d) d (apply_esign_report e r d)
unfolding apply_esign_report
apply_esign_report-Leads e r d = elim (Bool-cases (same_esign_status d.tx.status signed)) [
  | inl f ↦
      elim (Bool-cases
        (says_that_signed r.status && is_checksum d.tx.document_checksum r.checksum)) [
          | inl g ↦ rw (f, g) (here, refl, (λ s. inl s))
          | inr g ↦ rw (f, g) (here, refl, (λ s. inl s))
        ]
  | inr open_ ↦ elim (Bool-cases (same_esign_status d.tx.status manual_review)) [
    | inl g ↦ rw (open_, g) (here, refl, (λ s. inl s))
    | inr g ↦ elim (Bool-cases (contradicts d.tx.document_checksum r.checksum)) [
      | inl h ↦ rw (open_, g, h) (review_signature-Leads (IsProof r d) document_mismatch d open_)
      | inr h ↦ rw (open_, g, h) (apply_esign_status-Leads r.status e r d open_ h refl)
    ]
  ]
]
