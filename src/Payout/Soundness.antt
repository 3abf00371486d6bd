-- ===== src/Payout/Soundness.antt =====
-- What every step of the payout service keeps (app/services/disbursement.py): the status follows the
-- table of moves, the ledger holds the posting of a paid payout, and the payout is the only live one
-- of its offer.
use inpockets.Base.{
  ◌∙◌, ℕ, ◌≡◌, refl, Bool, true, false, ◌&&◌, Option, Result, ok, err, ◌>>=◌, Bool-cases, arith,
  inl, inr,
}
use inpockets.Ledger.Tables.{disbursement_paid}
use inpockets.Ledger.Replay.{IsFresh}
use inpockets.Ledger.Keys.{has_key}
use inpockets.Statuses.{here, by_move}
use inpockets.Statuses.Finality.{PayoutReaches}
use inpockets.Statuses.Disbursement.{
  DisbursementStatus, success, failed, reversed, requires_review, can_transition, is_live,
}
use inpockets.Payout.{
  PayoutFailure, PayoutAction, PayoutOutcome, was_processing, was_success, was_failed, was_reversed,
  in_review, Payout, PayoutDesk, PayoutError, invalid_transition, integrity_error, ledger,
  same_payout_status, moved_payout, move_payout, note, flush,
}

-- The money has left: the provider paid it, whether or not it came back.
unfoldable pub is_paid : DisbursementStatus → Bool
is_paid success = true
is_paid reversed = true
is_paid _ = false

-- The books hold the posting of the payout exactly where it is paid, and no other payout of its offer
-- is live beside it.
pub record IsSettled (id : ℕ) (d : PayoutDesk) : Type 0 where
  pub own : d.payout.id ≡ id
  pub fresh : IsFresh d.books
  pub booked : has_key (disbursement_paid id) d.books ≡ is_paid d.payout.status
  pub single : (is_live d.payout.status && d.another_live) ≡ false

abbrev pub Moves : PayoutDesk → PayoutDesk → Type 0
Moves d d' = PayoutReaches d.payout.status d'.payout.status

-- The step fails for a reason other than a forbidden move, or follows the table and leaves a settled
-- payout.
abbrev pub Ends : ℕ → PayoutDesk → Result PayoutError PayoutDesk → Type 0
Ends id d (ok d') = Moves d d' × IsSettled id d'
Ends id d (err invalid_transition) = ⊥
Ends id d (err _) = Unit

-- What the service answers agrees with the status that it leaves.
unfoldable pub Agrees : PayoutOutcome → DisbursementStatus → Type 0
Agrees was_processing s = is_paid s ≡ false
Agrees was_success s = s ≡ success
Agrees was_failed s = s ≡ failed
Agrees was_reversed s = s ≡ reversed
Agrees (in_review reason) s = s ≡ requires_review
Agrees _ s = Unit

abbrev pub Leads : ℕ → PayoutDesk → Result PayoutError (PayoutOutcome × PayoutDesk) → Type 0
Leads id d (ok (outcome, d')) = Moves d d' × IsSettled id d' × Agrees outcome d'.payout.status
Leads id d (err invalid_transition) = ⊥
Leads id d (err _) = Unit

pub IsSettled-note :
    (id : ℕ) (action : PayoutAction) (d : PayoutDesk)
    → IsSettled id d
    → IsSettled id (note action d)
IsSettled-note id action d s = record {
  own = s.own;
  fresh = s.fresh;
  booked = s.booked;
  single = s.single;
}

-- Other columns of the payout do not matter.
pub IsSettled-same :
    (id : ℕ) (d : PayoutDesk) (p : Payout)
    → (p.id ≡ d.payout.id) × (p.status ≡ d.payout.status)
    → IsSettled id d
    → IsSettled id (record d { payout = p })
IsSettled-same id d p (same, at) s = record {
  own = same ∙ s.own;
  fresh = s.fresh;
  booked = rw at s.booked;
  single = rw at s.single;
}

pub Reaches-trans :
    {s t u : DisbursementStatus} → PayoutReaches s t → PayoutReaches t u → PayoutReaches s u
Reaches-trans here q = q
Reaches-trans (by_move m p) q = by_move m (Reaches-trans p q)

pub Leads-from :
    (id : ℕ) (d d' : PayoutDesk) (r : Result PayoutError (PayoutOutcome × PayoutDesk))
    → Moves d d'
    → Leads id d' r
    → Leads id d r
Leads-from id d d' (ok (_, d'')) p (moves, s, told) = (Reaches-trans p moves, s, told)
Leads-from id d d' (err invalid_transition) p h = h
Leads-from id d d' (err integrity_error) p h = tt
Leads-from id d d' (err (ledger e)) p h = tt

pub Ends-bind :
    (id : ℕ) (d : PayoutDesk) (r : Result PayoutError PayoutDesk)
    (k : PayoutDesk → Result PayoutError (PayoutOutcome × PayoutDesk))
    → Ends id d r
    → ((d' : PayoutDesk) → IsSettled id d' → r ≡ ok d' → Leads id d' (k d'))
    → Leads id d (r >>= k)
Ends-bind id d (ok d') k h f = Leads-from id d d' (k d') h.0 (f d' h.1 refl)
Ends-bind id d (err invalid_transition) k h f = h
Ends-bind id d (err integrity_error) k h f = tt
Ends-bind id d (err (ledger e)) k h f = tt

-- The flush of a payout that has moved.
pub flush-Leads :
    (id : ℕ) (d x : PayoutDesk) (k : PayoutDesk → Result PayoutError (PayoutOutcome × PayoutDesk))
    → ((is_live x.payout.status && x.another_live) ≡ false → Leads id d (k x))
    → Leads id d (flush x >>= k)
unfolding flush
flush-Leads id d x k f = elim (Bool-cases (is_live x.payout.status && x.another_live)) [
  | inl e ↦ rw e tt
  | inr e ↦ rw e (f e)
]

pub can-distinct :
    (s t : DisbursementStatus) → can_transition s t ≡ true → same_payout_status s t ≡ false
unfolding can_transition
can-distinct s t h = ground (arith, h)

pub move_payout-ok :
    (p : Payout) (new : DisbursementStatus) (code : Option PayoutFailure)
    → can_transition p.status new ≡ true
    → move_payout p new code ≡ ok (moved_payout p new code)
unfolding move_payout
move_payout-ok p new code h = ground (arith, h, can-distinct p.status new h)
