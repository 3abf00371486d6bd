-- ===== src/Statuses/Finality.antt =====
-- Which statuses are final, and which are left by a review only (`can_transition` of
-- app/domain/disbursement.py, app/domain/esign.py and app/domain/bank_verification.py).
use inpockets.Base.{false, ◌≡◌, ◌⊎◌, inl, inr, refl, subst, arith}
use inpockets.Statuses.{Reaches, here, by_move}
use inpockets.Statuses.Disbursement
use inpockets.Statuses.Esign
use inpockets.Statuses.BankVerification
use inpockets.Statuses.BankVerification.{is_in_flight}

abbrev pub BankReaches :
    BankVerification.BankVerificationStatus → BankVerification.BankVerificationStatus → Type 0
BankReaches = Reaches BankVerification.BankVerificationStatus BankVerification.can_transition

abbrev pub EsignReaches : Esign.EsignStatus → Esign.EsignStatus → Type 0
EsignReaches = Reaches Esign.EsignStatus Esign.can_transition

abbrev pub PayoutReaches :
    Disbursement.DisbursementStatus → Disbursement.DisbursementStatus → Type 0
PayoutReaches = Reaches Disbursement.DisbursementStatus Disbursement.can_transition

-- A check of a bank account that is no longer in flight keeps its status for good.
pub in_flight-final :
    (s t : BankVerification.BankVerificationStatus)
    → is_in_flight s ≡ false
    → BankReaches s t
    → t ≡ s
unfolding BankVerification.is_in_flight BankVerification.can_transition
in_flight-final s t h here = refl
in_flight-final s t h (by_move m rest) = absurd (ground (arith, h, m))

-- A signature is final; one that failed or expired changes only by a review.
pub signature-final :
    (s t : Esign.EsignStatus)
    → EsignReaches s t
    → (s ≡ Esign.signed → t ≡ Esign.signed)
      × (Esign.is_live s ≡ false → (t ≡ s) ⊎ EsignReaches Esign.manual_review t)
unfolding Esign.is_live Esign.can_transition
signature-final s t here = ((λ e. e), (λ h. inl refl))
signature-final s t (by_move {t = u} m rest) = (
  (λ e. absurd (ground (arith, e, m))),
  (λ h.
      (let e : u ≡ Esign.manual_review = ground (arith, h, m) in
        inr (subst (λ k. EsignReaches k t) e rest))),
)

-- A payout that is not live was reversed, which is final, or failed, and then it becomes something
-- else only by a review: a success that arrives late is never trusted on its own.
pub payout-final :
    (s t : Disbursement.DisbursementStatus)
    → PayoutReaches s t
    → (s ≡ Disbursement.reversed → t ≡ Disbursement.reversed)
      × (Disbursement.is_live s ≡ false → (t ≡ s) ⊎ PayoutReaches Disbursement.requires_review t)
unfolding Disbursement.is_live Disbursement.can_transition
payout-final s t here = ((λ e. e), (λ h. inl refl))
payout-final s t (by_move {t = u} m rest) = (
  (λ e. absurd (ground (arith, e, m))),
  (λ h.
      (let e : u ≡ Disbursement.requires_review = ground (arith, h, m) in
        inr (subst (λ k. PayoutReaches k t) e rest))),
)
