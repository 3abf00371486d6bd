-- ===== src/Payout/Calls.antt =====
-- The life of one payout as a sequence of calls of the service (app/services/disbursement.py), with
-- what other sessions commit between them.
use inpockets.Base.{ℕ, ◌≢◌, String, Bool, List, [], ◌∷◌, Result, ok, err, if◌then◌else◌}
use inpockets.Ledger.{Payload}
use inpockets.Ledger.Tables.{Books}
use inpockets.Statuses.Finality.{PayoutReaches}
use inpockets.Statuses.Disbursement.{is_live}
use inpockets.Payout.{invalid_transition, PayoutError, PayoutOutcome, PayoutDesk}
use inpockets.Payout.Applying.{PayoutReport}
use inpockets.Payout.Submitting.{
  PayoutAnswer, PayoutLookup, RecheckError, failed_with, claim, submit_claimed, reconcile_payout,
  handle_payout_webhook, lift_recheck, recheck_payout,
}
use inpockets.Payout.Soundness.{IsSettled, Agrees}

-- The events that are handled already, and the payout.
abbrev pub PayoutWorld : Type 0
PayoutWorld = List String × PayoutDesk

-- `elsewhere` is what other sessions do: they commit to the ledger, and other payouts of the offer
-- become live or not, as the index allows, and get references.
pub data PayoutCall : Type 0 where
  claim_due : ℕ → PayoutCall
  submit_due : Bool → PayoutAnswer → PayoutCall
  poll : ℕ → ℕ → PayoutLookup → Bool → PayoutAnswer → PayoutCall
  callback : String → PayoutReport → PayoutCall
  recheck : PayoutLookup → PayoutCall
  elsewhere : Bool → List String → PayoutCall

abbrev pub with_events :
    List String
    → Result PayoutError (PayoutOutcome × PayoutDesk)
    → Result RecheckError (PayoutOutcome × PayoutWorld)
with_events events (ok (outcome, d)) = ok (outcome, (events, d))
with_events events (err e) = err (failed_with e)

abbrev pub with_same_events :
    List String
    → Result RecheckError (PayoutOutcome × PayoutDesk)
    → Result RecheckError (PayoutOutcome × PayoutWorld)
with_same_events events (ok (outcome, d)) = ok (outcome, (events, d))
with_same_events events (err e) = err e

abbrev pub kept_world :
    PayoutWorld → Result RecheckError (PayoutOutcome × PayoutWorld) → PayoutWorld
kept_world w (ok (_, w')) = w'
kept_world w (err _) = w

-- A call that fails does so for another reason than a forbidden move; one that returns follows the
-- table, leaves the payout settled, and answers what the status is.
abbrev pub LeadsWorld : ℕ → PayoutWorld → Result RecheckError (PayoutOutcome × PayoutWorld) → Type 0
LeadsWorld id w (ok (outcome, w')) =
    PayoutReaches w.1.payout.status w'.1.payout.status
    × IsSettled id w'.1
    × Agrees outcome w'.1.payout.status
LeadsWorld id w (err e) = e ≢ failed_with invalid_transition

-- The last part of it.
abbrev pub TellsStatus : Result RecheckError (PayoutOutcome × PayoutWorld) → Type 0
TellsStatus (ok (outcome, w')) = Agrees outcome w'.1.payout.status
TellsStatus (err e) = e ≢ failed_with invalid_transition

module _ (sha256 : Payload → ℕ) (others : Books → Books) where
  -- What a call returns.
  unfoldable pub call_payout :
      PayoutCall → PayoutWorld → Result RecheckError (PayoutOutcome × PayoutWorld)
  call_payout (claim_due now) (events, d) = with_events events (claim sha256 others now d)
  call_payout (submit_due beneficiary answer) (events, d) =
      with_events events (submit_claimed sha256 others beneficiary answer d)
  call_payout (poll now limit lookup beneficiary answer) (events, d) =
      with_events events (reconcile_payout sha256 others now limit lookup beneficiary answer d)
  call_payout (callback event r) w = lift_recheck (handle_payout_webhook sha256 others event r w)
  call_payout (recheck lookup) (events, d) =
      with_same_events events (recheck_payout sha256 others lookup d)
  call_payout (elsewhere rival refs) (events, d) = ok (
    PayoutOutcome.unknown,
    (
      events,
      record d {
        books = others d.books;
        another_live = if is_live d.payout.status then d.another_live else rival;
        refs_of_others = refs;
      },
    ),
  )

  -- A sequence of calls; the database rolls a call that fails back.
  unfoldable pub run_payout : List PayoutCall → PayoutWorld → PayoutWorld
  run_payout [] w = w
  run_payout (call ∷ calls) w = run_payout calls (kept_world w (call_payout call w))
