-- ===== src/Repayment/Following.antt =====
-- Whatever the provider reports, a payment follows the allowed moves (`_apply` of
-- app/services/repayment.py).
use inpockets.Base.{
  ℕ, String, Bool, true, false, Option, none, some, Result, ok, err, ◌>>=◌, ◌≡◌, ◌≢◌, refl, sym,
  subst, ◌∙◌, arith, inl, inr, Bool-cases,
}
use inpockets.Ledger.{Payload}
use inpockets.Ledger.Tables.{Books}
use inpockets.Repayment.{
  PaymentStatus, initiated, pending, success, failed, reversed, requires_review, can_transition,
  is_open,
}
use inpockets.Repayment.Payments.{
  Reported, says_pending, says_failed, says_other, says_success, says_reversed,
  late_success_after_failure, amount_mismatch, provider_ref_mismatch, success_without_provider_ref,
  unexpected_provider_status, was_success, was_reversed, failure, Outcome, Payment, Desk,
  RepaymentError, integrity_error, same_status, settle, reverse_payment,
}
use inpockets.Repayment.Payments.Applying.{
  Report, differs, present, takes_ref, attach_ref, if_referenced, apply_open, apply_status,
  apply_agreed, apply_attached, apply,
}
use inpockets.Repayment.Lifecycle.{
  step, here, after, Follows, the_desk, same_status_eq, review-Follows, moved_status, move-ok,
  open_moves, settle-success, settle-Follows, reverse_payment-Follows, Follows-bind, open_ne,
  from_initiated, to_reversed,
}

if_referenced-Follows :
    (o : Option String) (d : Desk) (rest : Result RepaymentError (Outcome × Desk))
    → is_open d.payment.status ≡ true
    → Follows the_desk d.payment.status rest
    → Follows the_desk d.payment.status (if_referenced o d rest)
unfolding if_referenced
if_referenced-Follows none d rest h f =
    review-Follows success_without_provider_ref d (open_ne _ h).0 (open_ne _ h).1
if_referenced-Follows (some _) d rest h f = f

-- An open payment follows the transitions.
apply_open-Follows :
    (sha256 : Payload → ℕ) (others : Books → Books) (says : Reported) (r : Report) (d : Desk)
    → is_open d.payment.status ≡ true
    → Follows the_desk d.payment.status (apply_open sha256 others says r d)
unfolding apply_open can_transition
apply_open-Follows sha256 others says_pending r d h =
    elim (Bool-cases (same_status d.payment.status initiated)) [
      | inl e ↦
          (let q = same_status_eq _ _ e in
            rw e (
              rw (move-ok d.payment pending none (rw q) (rw q))
                (rw (moved_status d.payment pending none) (from_initiated _ q))))
      | inr e ↦ rw e here
    ]
apply_open-Follows sha256 others says_failed r d h =
    let m = open_moves d.payment.status h in
    let code = some (failure r.failure_code) in
    rw (move-ok d.payment failed code m.2 m.3)
      (rw (moved_status d.payment failed code) (after (step m.3) here))
apply_open-Follows sha256 others says_success r d h =
    if_referenced-Follows d.payment.provider_ref d _ h (
      Follows-bind (λ d'. d') the_desk d.payment.status (settle sha256 others d)
        (λ d'. ok (was_success, d')) (settle-Follows sha256 others d h) (λ d' e reached. reached))
apply_open-Follows sha256 others says_reversed r d h =
    if_referenced-Follows d.payment.provider_ref d _ h (
      Follows-bind (λ d'. d') the_desk d.payment.status (settle sha256 others d)
        (λ d'. reverse_payment sha256 others d' >>= λ d''. ok (was_reversed, d''))
        (settle-Follows sha256 others d h)
        (λ d' e _.
          Follows-bind (λ x. x) the_desk d.payment.status (reverse_payment sha256 others d')
            (λ d''. ok (was_reversed, d''))
            (reverse_payment-Follows sha256 others d' d.payment.status
              (settle-success sha256 others d d' h e) (to_reversed _ h))
            (λ d'' e' reached. reached)))
apply_open-Follows sha256 others says_other r d h =
    review-Follows unexpected_provider_status d (open_ne _ h).0 (open_ne _ h).1

-- Once the reference and the amount agree.
apply_status-Follows :
    (sha256 : Payload → ℕ) (others : Books → Books) (s : PaymentStatus) (says : Reported)
    (r : Report) (from_review : Bool) (d : Desk)
    → d.payment.status ≡ s
    → s ≢ reversed
    → Follows the_desk d.payment.status (apply_status sha256 others s says r from_review d)
unfolding apply_status can_transition is_open
apply_status-Follows sha256 others success says_success r v d e n = here
apply_status-Follows sha256 others success says_reversed r v d e n =
    Follows-bind (λ x. x) the_desk d.payment.status (reverse_payment sha256 others d)
      (λ d'. ok (was_reversed, d'))
      (reverse_payment-Follows sha256 others d d.payment.status e (rw e (after (step refl) here)))
      (λ d' e' reached. reached)
apply_status-Follows sha256 others success says_pending r v d e n = here
apply_status-Follows sha256 others success says_failed r v d e n = here
apply_status-Follows sha256 others success says_other r v d e n = here
apply_status-Follows sha256 others failed says_success r v d e n =
    review-Follows late_success_after_failure d (λ q. cc) (λ q. cc)
apply_status-Follows sha256 others failed says_reversed r v d e n =
    review-Follows late_success_after_failure d (λ q. cc) (λ q. cc)
apply_status-Follows sha256 others failed says_pending r v d e n = here
apply_status-Follows sha256 others failed says_failed r v d e n = here
apply_status-Follows sha256 others failed says_other r v d e n = here
apply_status-Follows sha256 others requires_review says r false d e n = here
apply_status-Follows sha256 others requires_review says r true d e n =
    apply_open-Follows sha256 others says r d (rw e)
apply_status-Follows sha256 others initiated says r v d e n =
    apply_open-Follows sha256 others says r d (rw e)
apply_status-Follows sha256 others pending says r v d e n =
    apply_open-Follows sha256 others says r d (rw e)
apply_status-Follows sha256 others reversed says r v d e n = absurd (n refl)

same_status_ne : (s t : PaymentStatus) → same_status s t ≡ false → s ≢ t
same_status_ne s t h = λ e. ground (arith, e)

apply_agreed-Follows :
    (sha256 : Payload → ℕ) (others : Books → Books) (s : PaymentStatus) (r : Report)
    (from_review : Bool) (d : Desk)
    → d.payment.status ≡ s
    → Follows the_desk d.payment.status (apply_agreed sha256 others s r from_review d)
unfolding apply_agreed
apply_agreed-Follows sha256 others s r from_review d e =
    elim (Bool-cases (same_status s reversed)) [
      | inl t ↦ rw t here
      | inr f ↦ elim (Bool-cases (differs r.amount d.payment.amount)) [
        | inr agree ↦
            rw (f, agree)
              (apply_status-Follows sha256 others s r.status r from_review d e
                (same_status_ne s reversed f))
        | inl differ ↦ elim (Bool-cases (same_status s success)) [
          | inl t ↦ rw (f, differ, t) here
          | inr g ↦
              rw (f, differ, g)
                (review-Follows amount_mismatch d (λ q. same_status_ne s success g (sym e ∙ q))
                  (λ q. same_status_ne s reversed f (sym e ∙ q)))
        ]
      ]
    ]

attach_ref_status :
    (ref : Option String) (p p' : Payment) → attach_ref ref p ≡ some p' → p'.status ≡ p.status
unfolding attach_ref
attach_ref_status none p p' h = ground arith
attach_ref_status (some ref) p p' h = ground arith

apply_attached-Follows :
    (sha256 : Payload → ℕ) (others : Books → Books) (o : Option Payment) (r : Report)
    (from_review : Bool) (d : Desk)
    → ((p : Payment) → o ≡ some p → p.status ≡ d.payment.status)
    → Follows the_desk d.payment.status (apply_attached sha256 others o r from_review d)
unfolding apply_attached
apply_attached-Follows sha256 others (some p) r from_review d h =
    let e = h p refl in
    subst
      (λ s.
        Follows the_desk s
          (apply_agreed sha256 others d.payment.status r from_review (record d { payment = p })))
      e
      (apply_agreed-Follows sha256 others d.payment.status r from_review (record d { payment = p })
        e)
apply_attached-Follows sha256 others none r from_review d h =
    elim (Bool-cases (same_status d.payment.status success)) [
      | inl t ↦ rw t here
      | inr f ↦ elim (Bool-cases (same_status d.payment.status reversed)) [
        | inl t ↦ rw (f, t) here
        | inr g ↦
            rw (f, g)
              (review-Follows provider_ref_mismatch d (same_status_ne _ success f)
                (same_status_ne _ reversed g))
      ]
    ]

-- What applying a report does; the flag says that the report has the reference of another payment.
abbrev pub Applies : Bool → PaymentStatus → Result RepaymentError (Outcome × Desk) → Type 0
Applies true s r = r ≡ err integrity_error
Applies false s r = Follows the_desk s r

-- Whatever the provider reports, a payment moves along the allowed transitions only: no report
-- makes the service attempt a forbidden move, and an error can only come from the ledger, or from
-- the index on provider references. It is the latter exactly where the payment has no reference
-- and the report has that of another payment.
pub apply-Follows :
    (sha256 : Payload → ℕ) (others : Books → Books) (r : Report) (from_review : Bool) (d : Desk)
    → Applies
        (takes_ref (present r.provider_ref) d.payment.provider_ref d.refs_of_others)
        d.payment.status
        (apply sha256 others r from_review d)
unfolding apply
apply-Follows sha256 others r from_review d =
    elim (Bool-cases (takes_ref (present r.provider_ref) d.payment.provider_ref d.refs_of_others)) [
      | inl e ↦ rw e refl
      | inr e ↦ rw e (
          apply_attached-Follows sha256 others (attach_ref (present r.provider_ref) d.payment) r
            from_review d (λ p q. attach_ref_status (present r.provider_ref) d.payment p q))
    ]
