-- ===== src/Payout/Running.antt =====
-- The life of one payout as a sequence of calls of the service (app/services/disbursement.py), with
-- what other sessions commit between them: the status follows the table of moves, and the ledger
-- holds the posting of the payout exactly where it is paid.
use inpockets.Base.{
  ℕ, ◌≡◌, refl, ◌∙◌, String, Bool, true, false, ◌&&◌, ◌||◌, ◌++◌, List, [], ◌∷◌, Result, ok, err,
  ◌>>=◌, Bool-cases, inl, inr, if◌then◌else◌,
}
use inpockets.Ledger.{Payload}
use inpockets.Ledger.Tables.{Books, disbursement_paid}
use inpockets.Ledger.Keys.{IsQuiet}
use inpockets.Repayment.Payments.Callers.{seen}
use inpockets.Statuses.{here}
use inpockets.Statuses.Finality.{PayoutReaches}
use inpockets.Statuses.Disbursement.{processing, requires_review, is_live}
use inpockets.Payout.{
  invalid_transition, integrity_error, ledger, PayoutError, PayoutOutcome, PayoutDesk,
  payout_rechecked, same_payout_status, note,
}
use inpockets.Payout.Applying.{PayoutReport, apply_payout}
use inpockets.Payout.Submitting.{
  PayoutLookup, found, not_found, unreachable, RecheckError, handle_payout_webhook, gone,
  lift_recheck, rechecked, recheck_payout,
}
use inpockets.Payout.Calls.{
  PayoutWorld, PayoutCall, claim_due, submit_due, poll, callback, recheck, elsewhere, with_events,
  with_same_events, kept_world, LeadsWorld, TellsStatus, call_payout, run_payout,
}
use inpockets.Payout.Soundness.{IsSettled, IsSettled-note, Agrees, Leads, Reaches-trans}
use inpockets.Payout.Following.{apply_payout-Leads}
use inpockets.Payout.Calling.{claim-Leads, submit_claimed-Leads, reconcile_payout-Leads}

LeadsWorld-events :
    (id : ℕ) (events events' : List String) (d : PayoutDesk)
    (r : Result PayoutError (PayoutOutcome × PayoutDesk))
    → Leads id d r
    → LeadsWorld id (events, d) (with_events events' r)
LeadsWorld-events id events events' d (ok (outcome, d')) h = h
LeadsWorld-events id events events' d (err invalid_transition) h = absurd h
LeadsWorld-events id events events' d (err integrity_error) h = λ e. cc
LeadsWorld-events id events events' d (err (ledger x)) h = λ e. cc

LeadsWorld-same_events :
    (id : ℕ) (events events' : List String) (d : PayoutDesk)
    (r : Result PayoutError (PayoutOutcome × PayoutDesk))
    → Leads id d r
    → LeadsWorld id (events, d) (with_same_events events' (lift_recheck r))
LeadsWorld-same_events id events events' d (ok (outcome, d')) h = h
LeadsWorld-same_events id events events' d (err invalid_transition) h = absurd h
LeadsWorld-same_events id events events' d (err integrity_error) h = λ e. cc
LeadsWorld-same_events id events events' d (err (ledger x)) h = λ e. cc

module _ (sha256 : Payload → ℕ) (others : Books → Books) (id : ℕ)
    (quiet : IsQuiet (disbursement_paid id) others) where
  rechecked-LeadsWorld :
      (events : List String) (lookup : PayoutLookup) (d : PayoutDesk)
      → IsSettled id d
      → LeadsWorld id (events, d) (with_same_events events (rechecked sha256 others lookup d))
  unfolding rechecked Agrees
  rechecked-LeadsWorld events unreachable d s = λ e. cc
  rechecked-LeadsWorld events (found r) d s =
      LeadsWorld-same_events id events events d _
        (apply_payout-Leads sha256 others id quiet r _ d s)
  rechecked-LeadsWorld events not_found d s =
      elim (Bool-cases (same_payout_status d.payout.status requires_review)) [
        | inr e ↦ rw e (here, s, tt)
        | inl e ↦ rw e (
            LeadsWorld-same_events id events events d _
              (apply_payout-Leads sha256 others id quiet gone true d s))
      ]

  -- The audit entry of a recheck changes nothing else.
  noted-LeadsWorld :
      (events : List String) (d : PayoutDesk) (r : Result RecheckError (PayoutOutcome × PayoutDesk))
      → LeadsWorld id (events, d) (with_same_events events r)
      → LeadsWorld id
          (events, d)
          (with_same_events events (r >>= λ (outcome, d'). ok (outcome, note payout_rechecked d')))
  noted-LeadsWorld events d (ok (outcome, d')) (moves, s, told) =
      (moves, IsSettled-note id payout_rechecked d' s, told)
  noted-LeadsWorld events d (err e) h = h

  recheck_payout-LeadsWorld :
      (events : List String) (lookup : PayoutLookup) (d : PayoutDesk)
      → IsSettled id d
      → LeadsWorld id (events, d) (with_same_events events (recheck_payout sha256 others lookup d))
  unfolding recheck_payout
  recheck_payout-LeadsWorld events lookup d s =
      elim (Bool-cases (
        same_payout_status d.payout.status processing
        || same_payout_status d.payout.status requires_review)) [
          | inr e ↦ rw e (λ x. cc)
          | inl e ↦ rw e (
              noted-LeadsWorld events d (rechecked sha256 others lookup d)
                (rechecked-LeadsWorld events lookup d s))
        ]

  handle_payout_webhook-LeadsWorld :
      (event : String) (r : PayoutReport) (events : List String) (d : PayoutDesk)
      → IsSettled id d
      → LeadsWorld id
          (events, d)
          (lift_recheck (handle_payout_webhook sha256 others event r (events, d)))
  unfolding handle_payout_webhook Agrees
  handle_payout_webhook-LeadsWorld event r events d s = elim (Bool-cases (seen event events)) [
    | inl e ↦ rw e (here, s, tt)
    | inr e ↦ rw e (
        applied (apply_payout sha256 others r false d)
          (apply_payout-Leads sha256 others id quiet r false d s))
  ]
    where
      applied :
          (x : Result PayoutError (PayoutOutcome × PayoutDesk))
          → Leads id d x
          → LeadsWorld id
              (events, d)
              (lift_recheck (x >>= λ (outcome, d'). ok (outcome, (events ++ event ∷ [], d'))))
      applied (ok (outcome, d')) h = h
      applied (err invalid_transition) h = absurd h
      applied (err integrity_error) h = λ e. cc
      applied (err (ledger y)) h = λ e. cc

  call_payout-LeadsWorld :
      (call : PayoutCall) (w : PayoutWorld)
      → IsSettled id w.1
      → LeadsWorld id w (call_payout sha256 others call w)
  unfolding call_payout Agrees
  call_payout-LeadsWorld (claim_due now) (events, d) s =
      LeadsWorld-events id events events d _ (claim-Leads sha256 others id quiet now d s)
  call_payout-LeadsWorld (submit_due beneficiary answer) (events, d) s =
      LeadsWorld-events id events events d _
        (submit_claimed-Leads sha256 others id quiet beneficiary answer d s)
  call_payout-LeadsWorld (poll now limit lookup beneficiary answer) (events, d) s =
      LeadsWorld-events id events events d _
        (reconcile_payout-Leads sha256 others id quiet now limit lookup beneficiary answer d s)
  call_payout-LeadsWorld (callback event r) (events, d) s =
      handle_payout_webhook-LeadsWorld event r events d s
  call_payout-LeadsWorld (recheck lookup) (events, d) s =
      recheck_payout-LeadsWorld events lookup d s
  call_payout-LeadsWorld (elsewhere rival refs) (events, d) s =
      let (fresh, same) = quiet d.books s.fresh in
      (
        here,
        record {
          own = s.own;
          fresh = fresh;
          booked = same ∙ s.booked;
          single = allowed (is_live d.payout.status) d.another_live rival s.single;
        },
        tt,
      )
    where
      allowed :
          (live another rival : Bool)
          → (live && another) ≡ false
          → (live && (if live then another else rival)) ≡ false
      allowed true another rival h = h
      allowed false another rival h = refl

  kept-LeadsWorld :
      (w : PayoutWorld) (r : Result RecheckError (PayoutOutcome × PayoutWorld))
      → IsSettled id w.1
      → LeadsWorld id w r
      → PayoutReaches w.1.payout.status (kept_world w r).1.payout.status
        × IsSettled id (kept_world w r).1
  kept-LeadsWorld w (ok (outcome, w')) s (moves, s', told) = (moves, s')
  kept-LeadsWorld w (err e) s h = (here, s)

  run_payout-follows :
      (calls : List PayoutCall) (w : PayoutWorld)
      → IsSettled id w.1
      → PayoutReaches w.1.payout.status (run_payout sha256 others calls w).1.payout.status
        × IsSettled id (run_payout sha256 others calls w).1
  unfolding run_payout
  run_payout-follows [] w s = (here, s)
  run_payout-follows (call ∷ calls) w s =
      let (moves, s') = kept-LeadsWorld w _ s (call_payout-LeadsWorld call w s) in
      let (rest, s'') =
        run_payout-follows calls (kept_world w (call_payout sha256 others call w)) s' in
      (Reaches-trans moves rest, s'')

  -- The service refines the table of moves: whatever calls, callbacks, polls and rechecks reach a
  -- settled payout, and whatever other sessions commit between them without touching the key of its
  -- posting, its status at the end is one that the table leads to from its status at the start.
  pub run_payout-Reaches :
      (calls : List PayoutCall) (w : PayoutWorld)
      → IsSettled id w.1
      → PayoutReaches w.1.payout.status (run_payout sha256 others calls w).1.payout.status
  run_payout-Reaches calls w s = (run_payout-follows calls w s).0

  -- A payout stays settled: if the ledger holds its posting exactly where the payout is paid (or was
  -- paid and came back), and no other payout of the offer is live beside a live one, then both hold
  -- after any calls, with what other sessions commit between them without touching the key of the
  -- posting.
  pub run_payout-IsSettled :
      (calls : List PayoutCall) (w : PayoutWorld)
      → IsSettled id w.1
      → IsSettled id (run_payout sha256 others calls w).1
  run_payout-IsSettled calls w s = (run_payout-follows calls w s).1

  -- After any calls on a settled payout, a further call never fails on a forbidden move, and what it
  -- answers is true of the status that it leaves: an outcome of success, failure, reversal or review
  -- names the status, and one of processing means that nothing is paid.
  pub call_payout-Agrees :
      (calls : List PayoutCall) (call : PayoutCall) (w : PayoutWorld)
      → IsSettled id w.1
      → TellsStatus (call_payout sha256 others call (run_payout sha256 others calls w))
  call_payout-Agrees calls call w s = told (run_payout sha256 others calls w) _ (
      call_payout-LeadsWorld call (run_payout sha256 others calls w)
        (run_payout-IsSettled calls w s))
    where
      told :
          (v : PayoutWorld) (r : Result RecheckError (PayoutOutcome × PayoutWorld))
          → LeadsWorld id v r
          → TellsStatus r
      told v (ok (outcome, w')) h = h.2
      told v (err e) h = h
