-- ===== src/Repayment/Initiation.antt =====
-- Asking to pay twice (`initiate_payment` of app/services/repayment.py).
use text.Mathlib.TextPositions.{eq_refl}
use inpockets.Base.{
  ℕ, ◌<◌, leb, ◌==◌, ==_iff, ==_refl, String, Bool, true, false, ◌&&◌, List, [], ◌∷◌, ◌++◌, Option,
  none, some, find, ok, Bool-cases, ◌≡◌, inl, inr, refl, arith,
}
use inpockets.Base.Int.{ℤ, pos, ◌≤ℤ◌, ltb_ℤ, ltb_ℤ→ge, leb_ℤ, eqb_ℤ, eqb_ℤ_iff, sum_ℤ}
use inpockets.Base.Decimal.{Decimal, is_positive, has_two_decimals, paise}
use inpockets.Repayment.{outstanding}
use inpockets.Repayment.Payments.Initiating.{
  Attempt, Attempts, Offer, ActiveSchedule, is_client_key, attempt_by_key, count_open,
  max_open_payments, new_attempt, record_attempt, attempt_on, initiate_payment,
}

last_found {ℓ} :
    {A : Type ℓ} (test : A → Bool) (rows : List A) (row : A)
    → find test rows ≡ none
    → test row ≡ true
    → find test (rows ++ row ∷ []) ≡ some row
last_found test [] row absent t = ground arith
last_found test (r ∷ rows) row absent t = ground (arith, last_found test rows row)

same_amount : (z : ℤ) → eqb_ℤ z z ≡ true
same_amount z = (eqb_ℤ_iff z z).1 refl

-- What a call left: the attempt under its key, for that offer and amount.
record IsRecorded (actor : ℕ) (offer : Offer) (requested : ℤ) (key : String) (a : Attempt)
    (after : Attempts) : Type 0 where
  held : attempt_by_key actor key after.rows ≡ some a
  offered : (a.loan_offer_id == offer.id) ≡ true
  amount : eqb_ℤ a.amount requested ≡ true

-- What a call that made an attempt found and did.
record_attempt-new :
    (actor : ℕ) (offer : Offer) (schedule : ActiveSchedule) (requested : ℤ) (key : String)
    (b : Attempts) (a : Attempt) (is_new : Bool) (after : Attempts)
    → record_attempt actor offer schedule requested key b none ≡ ok (a, is_new, after)
    → (requested ≤ℤ sum_ℤ outstanding schedule.installments)
      × (count_open schedule.id b.rows < max_open_payments)
      × (a ≡ new_attempt offer schedule requested key b)
      × (after.rows ≡ b.rows ++ new_attempt offer schedule requested key b ∷ [])
      × (is_new ≡ true)
unfolding record_attempt
record_attempt-new actor offer schedule requested key b a is_new after h =
    elim (Bool-cases (leb_ℤ (sum_ℤ outstanding schedule.installments) (pos 0))) [
      | inl t ↦ absurd (ground (arith, t, h))
      | inr paid ↦ elim (Bool-cases (ltb_ℤ (sum_ℤ outstanding schedule.installments) requested)) [
        | inl t ↦ absurd (ground (arith, paid, t, h))
        | inr fits ↦ elim (Bool-cases (leb max_open_payments (count_open schedule.id b.rows))) [
          | inl t ↦ absurd (ground (arith, paid, fits, t, h))
          | inr few ↦ (
            ltb_ℤ→ge (sum_ℤ outstanding schedule.installments) requested fits,
            ground (arith, few),
            ground (arith, paid, fits, few, h),
            ground (arith, paid, fits, few, h),
            ground (arith, paid, fits, few, h),
          )
        ]
      ]
    ]

record_attempt-IsRecorded :
    (actor : ℕ) (offer : Offer) (schedule : ActiveSchedule) (requested : ℤ) (key : String)
    (b : Attempts) (o : Option Attempt) (a : Attempt) (is_new : Bool) (after : Attempts)
    → offer.user_id ≡ actor
    → attempt_by_key actor key b.rows ≡ o
    → record_attempt actor offer schedule requested key b o ≡ ok (a, is_new, after)
    → IsRecorded actor offer requested key a after
unfolding record_attempt attempt_by_key new_attempt
record_attempt-IsRecorded actor offer schedule requested key b (some existing) a is_new after own
      found h =
    elim (Bool-cases (existing.loan_offer_id == offer.id && eqb_ℤ existing.amount requested)) [
      | inr f ↦ absurd (ground (arith, f, h))
      | inl t ↦
          (let same : existing ≡ a = ground (arith, t, h) in
            let kept : b ≡ after = ground (arith, t, h) in
            rw (← same) (
              rw (← kept)
                (record { held = found; offered = ground (arith, t); amount = ground (arith, t) })))
    ]
record_attempt-IsRecorded actor offer schedule requested key b none a is_new after own found h =
    let row = new_attempt offer schedule requested key b in
    let (_, _, made, rows, _) =
      record_attempt-new actor offer schedule requested key b a is_new after h in
    rw made (record {
      held = rw rows (last_found _ b.rows row found (rw (own, ==_refl actor) (eq_refl key)));
      offered = ==_refl offer.id;
      amount = same_amount requested;
    })

record_attempt-replay :
    (actor : ℕ) (offer : Offer) (schedule : ActiveSchedule) (requested : ℤ) (key : String)
    (a : Attempt) (after : Attempts)
    → IsRecorded actor offer requested key a after
    → record_attempt actor offer schedule requested key after (attempt_by_key actor key after.rows)
      ≡ ok (a, false, after)
unfolding record_attempt
record_attempt-replay actor offer schedule requested key a after r =
    rw (r.held, r.offered, r.amount) refl

attempt_on-replay :
    (actor : ℕ) (offer : Offer) (o : Option ActiveSchedule) (amount : Decimal) (key : String)
    (b : Attempts) (a : Attempt) (is_new : Bool) (after : Attempts)
    → offer.user_id ≡ actor
    → attempt_on actor offer o amount key b ≡ ok (a, is_new, after)
    → attempt_on actor offer o amount key after ≡ ok (a, false, after)
unfolding attempt_on
attempt_on-replay actor offer none amount key b a is_new after own h = absurd (ground (arith, h))
attempt_on-replay actor offer (some schedule) amount key b a is_new after own h =
    elim (Bool-cases (is_positive amount && has_two_decimals amount)) [
      | inr f ↦ absurd (ground (arith, f, h))
      | inl t ↦
          (let requested = pos (paise amount) in
            let made : record_attempt actor offer schedule requested key b
                  (attempt_by_key actor key b.rows)
                ≡ ok (a, is_new, after) =
              rw t at h in
            let r =
              record_attempt-IsRecorded actor offer schedule requested key b _ a is_new after own
                refl made in
            rw t (record_attempt-replay actor offer schedule requested key a after r))
    ]

-- A request to pay that succeeded can be repeated under its key: the repetition returns the same
-- payment, reports it as not new and records nothing.
pub initiate_payment-replay :
    (actor : ℕ) (o : Option Offer) (amount : Decimal) (key : String) (b : Attempts) (a : Attempt)
    (is_new : Bool) (after : Attempts)
    → initiate_payment actor o amount key b ≡ ok (a, is_new, after)
    → initiate_payment actor o amount key after ≡ ok (a, false, after)
unfolding initiate_payment
initiate_payment-replay actor none amount key b a is_new after h = absurd (ground (arith, h))
initiate_payment-replay actor (some offer) amount key b a is_new after h =
    elim (Bool-cases (is_client_key key)) [
      | inr f ↦ absurd (ground (arith, f, h))
      | inl t ↦ elim (Bool-cases (offer.user_id == actor)) [
        | inr f ↦ absurd (ground (arith, t, f, h))
        | inl own ↦
            (let inner : attempt_on actor offer offer.schedule amount key b
                  ≡ ok (a, is_new, after) =
                rw (t, own) at h in
              rw (t, own)
                (attempt_on-replay actor offer offer.schedule amount key b a is_new after
                  ((==_iff _ _).0 own) inner))
      ]
    ]
