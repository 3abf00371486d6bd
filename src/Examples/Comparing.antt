-- ===== src/Examples/Comparing.antt =====
-- Runs of the reconciliation and of the status machines (app/domain/reconciliation.py,
-- app/domain/disbursement.py, app/domain/esign.py and app/domain/bank_verification.py).
use inpockets.Base.{false, [], ◌∷◌, Option, some, length, sum_of, All, ◌≡◌, refl, String}
use inpockets.Base.Int.{pos}
use inpockets.Base.Precision.{whole}
use inpockets.Reconciliation.{
  collection, settled, was_success, matched, InternalItem, ExternalLine, Finding, reconcile,
}
use inpockets.Reconciliation.Matching.{Agree, reconcile-Agree}
use inpockets.Reconciliation.Counting.{reconcile-lines}
use inpockets.Statuses.{here, by_move}
use inpockets.Statuses.Disbursement
use inpockets.Statuses.BankVerification
use inpockets.Statuses.Finality.{PayoutReaches}

abbrev our_item : InternalItem
our_item = record {
  id = 21;
  ref = "ref-1";
  amount = pos 50000;
  status = was_success;
  ledger_net = pos 50000;
}

abbrev their_line : ExternalLine
their_line = record { line_id = "1"; ref = "ref-1"; amount = whole 500; status = settled }

abbrev look_up : String → Option InternalItem
look_up ref = some our_item

reconcile-Agree_example :
    All
      (λ f. f.status ≡ matched → Agree collection look_up (their_line ∷ []) f)
      (reconcile collection (our_item ∷ []) look_up (their_line ∷ []))
reconcile-Agree_example = reconcile-Agree collection (our_item ∷ []) look_up (their_line ∷ [])

reconcile-lines_example :
    sum_of
      (λ (f : Finding). f.external_count)
      (reconcile collection (our_item ∷ []) look_up (their_line ∷ their_line ∷ []))
    ≡ length (their_line ∷ their_line ∷ [])
reconcile-lines_example =
    reconcile-lines collection (our_item ∷ []) look_up (their_line ∷ their_line ∷ [])

failed_payout : PayoutReaches Disbursement.failed Disbursement.success
unfolding Disbursement.can_transition
failed_payout =
    by_move {t = Disbursement.requires_review} refl (by_move {t = Disbursement.success} refl here)

verified_landed : BankVerification.is_in_flight BankVerification.verified ≡ false
unfolding BankVerification.is_in_flight
verified_landed = refl
