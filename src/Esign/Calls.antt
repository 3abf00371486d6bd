-- ===== src/Esign/Calls.antt =====
-- The calls of the e-signature service on one transaction (app/services/esign.py).
use inpockets.Base.{ℕ, Bool, Option, Result}
use inpockets.Esign.{
  EsignError, EsignDesk, EsignCircumstances, EsignReport, apply_esign_report, EsignStart,
  resume_signing, EsignReviewer, EsignDecision, EsignLookup, resolve_review, without_outcome,
  sync_signature,
}
use inpockets.Esign.Proving.{IsProof, Ends}
use inpockets.Esign.Signing.{apply_esign_report-Leads}
use inpockets.Esign.Steps.{
  LookupProof, without_outcome-Ends, resume_signing-Ends, resolve_review-Ends, sync_signature-Ends,
}

pub data EsignCall : Type 0 where
  esign_callback : EsignCircumstances → EsignReport → EsignCall
  resume : Option ℕ → EsignStart → EsignCall
  sync_due : Bool → EsignStart → EsignLookup → EsignCircumstances → EsignCall
  review : EsignReviewer → EsignDecision → EsignLookup → EsignCircumstances → EsignCall

unfoldable pub call_esign : EsignCall → EsignDesk → Result EsignError EsignDesk
call_esign (esign_callback e r) d = without_outcome (apply_esign_report e r d)
call_esign (resume agreement answer) d = resume_signing agreement answer d
call_esign (sync_due is_intact answer lookup e) d = sync_signature is_intact answer lookup e d
call_esign (review a decision lookup e) d = resolve_review a decision lookup e d

-- The proof of a signature that a call brings: the provider's report, where it has one.
abbrev pub CallProof : EsignCall → EsignDesk → Type 0
CallProof (esign_callback e r) d = IsProof r d
CallProof (resume agreement answer) d = ⊥
CallProof (sync_due is_intact answer lookup e) d = LookupProof lookup d
CallProof (review a decision lookup e) d = LookupProof lookup d

-- Whatever is done to a transaction (callbacks, polls, starts of signing, reviews), in whatever status:
-- no call fails on a forbidden move, and one that returns moves the transaction along the table and
-- keeps the checksum of its document. A transaction that was not signed becomes signed only by a
-- report of the provider that says so for exactly that document: an admin alone never signs.
pub call_esign-Ends :
    (call : EsignCall) (d : EsignDesk) → Ends (CallProof call d) d (call_esign call d)
unfolding call_esign
call_esign-Ends (esign_callback e r) d =
    without_outcome-Ends (IsProof r d) d (apply_esign_report e r d) (apply_esign_report-Leads e r d)
call_esign-Ends (resume agreement answer) d = resume_signing-Ends ⊥ agreement answer d
call_esign-Ends (sync_due is_intact answer lookup e) d =
    sync_signature-Ends is_intact answer lookup e d
call_esign-Ends (review a decision lookup e) d = resolve_review-Ends a decision lookup e d
