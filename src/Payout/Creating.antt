-- ===== src/Payout/Creating.antt =====
-- The creation of payouts (`create_for_offer`, `_new_row` and `retry` of app/services/disbursement.py)
-- on the table of payouts, under the lock of the offer, by admins who may do it. The idempotency key of
-- a payout is the text of its offer and attempt, so two payouts have one key where these are the same.
use inpockets.Base.{
  ℕ, ◌+◌, ◌==◌, ltb, Bool, true, false, not, ◌&&◌, ◌||◌, List, [], ◌∷◌, ◌++◌, Option, none, some,
  if◌then◌else◌, Result, ok, err, raise_if, ◌>>=◌, ◌>>◌, find,
}
use inpockets.Base.Int.{ℤ, pos, ltb_ℤ}
use inpockets.Ledger.Business.{Snapshot}
use inpockets.Statuses.Disbursement.{pending, failed, reversed, is_live, requires_review}
use inpockets.Payout.{
  says_failed, retry_blocked, Payout, PayoutError, invalid_transition, integrity_error, ledger,
  PayoutSays, same_payout_status, move_payout,
}
use inpockets.Payout.Submitting.{PayoutLookup, found, not_found, unreachable}

-- What is read of the offer, its agreement, its customer and its pricing.
pub record PayoutOffer : Type 0 where
  pub id : ℕ
  pub user_id : ℕ
  pub principal_amount : ℤ
  pub is_accepted : Bool
  pub is_signed : Bool
  pub has_verified_account : Bool
  pub pricing : Option Snapshot

pub record PayoutTable : Type 0 where
  pub rows : List Payout
  pub next_id : ℕ

pub data CreateError : Type 0 where
  offer_not_found payout_not_found create_conflict provider_unavailable violation : CreateError

-- `_payout_amount`
abbrev pub payout_amount : PayoutOffer → ℤ
payout_amount o = elim o.pricing [ none ↦ o.principal_amount | some s ↦ s.net_payout ]

abbrev pub is_live_of : ℕ → Payout → Bool
is_live_of offer p = p.loan_offer_id == offer && is_live p.status

-- `get_live_for_offer`
unfoldable pub live_for_offer : ℕ → List Payout → Option Payout
live_for_offer offer rows = find (is_live_of offer) rows

-- `count_for_offer`
unfoldable pub count_for_offer : ℕ → List Payout → ℕ
count_for_offer offer [] = 0
count_for_offer offer (p ∷ rows) =
    let rest = count_for_offer offer rows in if p.loan_offer_id == offer then rest + 1 else rest

-- The unique constraint on the keys has the key of the offer and the attempt.
unfoldable pub key_is_used : ℕ → ℕ → List Payout → Bool
key_is_used offer attempt [] = false
key_is_used offer attempt (p ∷ rows) =
    let rest = key_is_used offer attempt rows in
    if p.loan_offer_id == offer && p.attempt == attempt then true else rest

abbrev pub exists_live : Option Payout → Bool
exists_live none = false
exists_live (some _) = true

-- `repository.create`, with the constraints of the table.
unfoldable pub insert_payout : Payout → PayoutTable → Result CreateError (Payout × PayoutTable)
insert_payout p t =
    raise_if (not (ltb_ℤ (pos 0) p.amount)) violation
    >> (raise_if (key_is_used p.loan_offer_id p.attempt t.rows) violation
        >> (raise_if (exists_live (live_for_offer p.loan_offer_id t.rows)) violation
            >> ok (p, record t { rows = t.rows ++ p ∷ []; next_id = t.next_id + 1 })))

abbrev pub new_payout_row : ℕ → PayoutOffer → PayoutTable → Payout
new_payout_row now o t = record {
  id = t.next_id;
  user_id = o.user_id;
  loan_offer_id = o.id;
  amount = payout_amount o;
  status = pending;
  attempt = count_for_offer o.id t.rows + 1;
  provider_ref = none;
  utr = none;
  failure_code = none;
  review_reason = none;
  dispatch_attempts = 0;
  requested_at = now;
  dispatched_at = none;
}

-- `_new_row`
unfoldable pub new_row : ℕ → PayoutOffer → PayoutTable → Result CreateError (Payout × PayoutTable)
new_row now o t =
    raise_if (not o.is_accepted) create_conflict
    >> (raise_if (not o.is_signed) create_conflict
        >> (raise_if (not o.has_verified_account) create_conflict
            >> insert_payout (new_payout_row now o t) t))

abbrev pub existing_or_new :
    Option Payout → ℕ → PayoutOffer → PayoutTable → Result CreateError (Payout × PayoutTable)
existing_or_new (some live) now o t = ok (live, t)
existing_or_new none now o t = new_row now o t

-- `create_for_offer`
unfoldable pub create_for_offer :
    ℕ → Option PayoutOffer → PayoutTable → Result CreateError (Payout × PayoutTable)
create_for_offer now none t = err offer_not_found
create_for_offer now (some o) t = existing_or_new (live_for_offer o.id t.rows) now o t

-- The columns that changed are written back.
unfoldable pub put_payout : Payout → List Payout → List Payout
put_payout p [] = []
put_payout p (q ∷ rows) =
    let rest = put_payout p rows in if q.id == p.id then p ∷ rows else q ∷ rest

-- What `retry` returns: a new payout, or a refusal whose review is committed.
pub data RetryOutcome : Type 0 where
  retried : Payout → RetryOutcome
  refused : RetryOutcome

abbrev pub lift_payout_error : {A : Type 0} → Result PayoutError A → Result CreateError A
lift_payout_error (ok a) = ok a
lift_payout_error (err invalid_transition) = err create_conflict
lift_payout_error (err integrity_error) = err violation
lift_payout_error (err (ledger e)) = err create_conflict

-- The failed payout under review.
unfoldable pub block_retry : Payout → PayoutTable → Result CreateError (RetryOutcome × PayoutTable)
block_retry p t = lift_payout_error (move_payout p requires_review none) >>= λ q. ok (
  refused,
  record t { rows = put_payout (record q { review_reason = some retry_blocked }) t.rows },
)

abbrev pub as_retried :
    Result CreateError (Payout × PayoutTable) → Result CreateError (RetryOutcome × PayoutTable)
as_retried (ok (p, t)) = ok (retried p, t)
as_retried (err e) = err e

abbrev pub says_that_failed : PayoutSays → Bool
says_that_failed says_failed = true
says_that_failed _ = false

-- A failed payout is retried once the provider confirms that it did not pay.
unfoldable pub retry_failed :
    ℕ
    → PayoutLookup
    → Payout
    → PayoutOffer
    → PayoutTable
    → Result CreateError (RetryOutcome × PayoutTable)
retry_failed now unreachable p o t = err provider_unavailable
retry_failed now not_found p o t = as_retried (new_row now o t)
retry_failed now (found r) p o t =
    if says_that_failed r.status then as_retried (new_row now o t) else block_retry p t

abbrev pub retry_found :
    ℕ
    → PayoutLookup
    → Option Payout
    → PayoutOffer
    → PayoutTable
    → Result CreateError (RetryOutcome × PayoutTable)
retry_found now lookup none o t = err payout_not_found
retry_found now lookup (some p) o t =
    raise_if (not (same_payout_status p.status failed || same_payout_status p.status reversed))
      create_conflict
    >> (raise_if (exists_live (live_for_offer o.id t.rows)) create_conflict
        >> (if same_payout_status p.status failed
            then retry_failed now lookup p o t
            else as_retried (new_row now o t)))

-- `retry` of the payout with the id, by the length of the reason and with the offer of the payout.
unfoldable pub retry_payout :
    ℕ
    → PayoutLookup
    → ℕ
    → ℕ
    → PayoutOffer
    → PayoutTable
    → Result CreateError (RetryOutcome × PayoutTable)
retry_payout now lookup reason_length id o t =
    raise_if (ltb reason_length 10) create_conflict
    >> retry_found now lookup (find (λ p. p.id == id) t.rows) o t
