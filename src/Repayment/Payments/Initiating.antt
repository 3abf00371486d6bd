-- ===== src/Repayment/Payments/Initiating.antt =====
-- `initiate_payment` of app/services/repayment.py, under the lock of the schedule: a customer asks to
-- pay, and the attempt is recorded. Audit entries and time stamps are left out.
use text.Mathlib.Text.{◌==◌ as str_eq}
use inpockets.Base.{
  ℕ, suc, leb, ◌==◌, String, Bool, true, false, not, ◌&&◌, ◌||◌, List, [], ◌∷◌, ◌++◌, Option, none,
  some, if◌then◌else◌, find, keep, length, Result, ok, err, raise_if, ◌>>◌,
}
use inpockets.Base.Int.{ℤ, pos, ltb_ℤ, leb_ℤ, eqb_ℤ, sum_ℤ}
use inpockets.Base.Decimal.{Decimal, is_positive, has_two_decimals, paise}
use inpockets.Ledger.{codes}
use inpockets.Repayment.{PaymentStatus, initiated, is_open, InstallmentState, outstanding}

-- `MAX_OPEN_PAYMENTS_PER_SCHEDULE`
abbrev pub max_open_payments : ℕ
max_open_payments = 5

pub data InitiateError : Type 0 where
  bad_key loan_not_found no_active_schedule bad_amount key_reused fully_repaid : InitiateError
  exceeds_outstanding too_many_open : InitiateError

-- A row of the payments, as far as this call reads and writes it.
pub record Attempt : Type 0 where
  pub id : ℕ
  pub user_id : ℕ
  pub loan_offer_id : ℕ
  pub schedule_id : ℕ
  pub amount : ℤ
  pub status : PaymentStatus
  pub client_idempotency_key : String

-- The active schedule of an offer, with its installments.
pub record ActiveSchedule : Type 0 where
  pub id : ℕ
  pub installments : List InstallmentState

pub record Offer : Type 0 where
  pub id : ℕ
  pub user_id : ℕ
  pub schedule : Option ActiveSchedule

pub record Attempts : Type 0 where
  pub rows : List Attempt
  pub next_id : ℕ

-- `[A-Za-z0-9._:-]`
abbrev pub is_key_code : ℕ → Bool
is_key_code c =
    (leb b'A' c && leb c b'Z')
    || (leb b'a' c && leb c b'z')
    || (leb b'0' c && leb c b'9')
    || c == b'.'
    || c == b'_'
    || c == b':'
    || c == b'-'

abbrev pub all_key_codes : List ℕ → Bool
all_key_codes [] = true
all_key_codes (c ∷ rest) = is_key_code c && all_key_codes rest

-- `$` matches before a line end that closes the text, too.
abbrev pub without_line_end : List ℕ → List ℕ
without_line_end [] = []
without_line_end (c ∷ []) = if c == 10 then [] else c ∷ []
without_line_end (c ∷ d ∷ rest) = let end = without_line_end (d ∷ rest) in c ∷ end

-- `_CLIENT_KEY.match`
unfoldable pub is_client_key : String → Bool
is_client_key key =
    let text = without_line_end (codes key) in
    leb 8 (length text) && leb (length text) 100 && all_key_codes text

-- `get_payment_by_client_key`
unfoldable pub attempt_by_key : ℕ → String → List Attempt → Option Attempt
attempt_by_key user key rows =
    find (λ (a : Attempt). a.user_id == user && str_eq a.client_idempotency_key key) rows

-- `count_open_payments`
unfoldable pub count_open : ℕ → List Attempt → ℕ
count_open schedule rows =
    length (keep (λ (a : Attempt). a.schedule_id == schedule && is_open a.status) rows)

-- The arguments of `create_payment`.
unfoldable pub new_attempt : Offer → ActiveSchedule → ℤ → String → Attempts → Attempt
new_attempt offer schedule requested key attempts = record {
  id = attempts.next_id;
  user_id = offer.user_id;
  loan_offer_id = offer.id;
  schedule_id = schedule.id;
  amount = requested;
  status = initiated;
  client_idempotency_key = key;
}

-- From the look-up of the key on.
unfoldable pub record_attempt :
    ℕ
    → Offer
    → ActiveSchedule
    → ℤ
    → String
    → Attempts
    → Option Attempt
    → Result InitiateError (Attempt × Bool × Attempts)
record_attempt actor offer schedule requested key attempts (some existing) =
    if existing.loan_offer_id == offer.id && eqb_ℤ existing.amount requested
    then ok (existing, false, attempts)
    else err key_reused
record_attempt actor offer schedule requested key attempts none = do
  let due = sum_ℤ outstanding schedule.installments
  raise_if (leb_ℤ due (pos 0)) fully_repaid
  raise_if (ltb_ℤ due requested) exceeds_outstanding
  raise_if (leb max_open_payments (count_open schedule.id attempts.rows)) too_many_open
  let row = new_attempt offer schedule requested key attempts
  ok (row, true, record { rows = attempts.rows ++ row ∷ []; next_id = suc attempts.next_id })

-- With the active schedule of the offer.
unfoldable pub attempt_on :
    ℕ
    → Offer
    → Option ActiveSchedule
    → Decimal
    → String
    → Attempts
    → Result InitiateError (Attempt × Bool × Attempts)
attempt_on actor offer none amount key attempts = err no_active_schedule
attempt_on actor offer (some schedule) amount key attempts = do
  raise_if (not (is_positive amount && has_two_decimals amount)) bad_amount
  record_attempt actor offer schedule (pos (paise amount)) key attempts
      (attempt_by_key actor key attempts.rows)

-- `initiate_payment`: the payment, and whether it is new.
unfoldable pub initiate_payment :
    ℕ
    → Option Offer
    → Decimal
    → String
    → Attempts
    → Result InitiateError (Attempt × Bool × Attempts)
initiate_payment actor none amount key attempts = do
  raise_if (not (is_client_key key)) bad_key
  err loan_not_found
initiate_payment actor (some offer) amount key attempts = do
  raise_if (not (is_client_key key)) bad_key
  raise_if (not (offer.user_id == actor)) loan_not_found
  attempt_on actor offer offer.schedule amount key attempts
