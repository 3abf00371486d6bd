-- ===== src/Payout/Paying.antt =====
-- A payout that is paid, and one that comes back, with the ledger (`_apply` of
-- app/services/disbursement.py): both leave it settled.
use inpockets.Base.{
  ℕ, ◌≡◌, refl, sym, ap, ◌∙◌, true, false, ◌&&◌, Option, none, ok, Result-cases, Option-cases,
  Bool-cases, >>=-eq-ok, arith, inl, inr, String,
}
use inpockets.Ledger.{Payload}
use inpockets.Ledger.Tables.{
  Books, disbursement_paid, disbursement_reversed, key_eq, get_by_key, Transaction,
}
use inpockets.Ledger.Replay.{IsFresh}
use inpockets.Ledger.Keys.{has_key, IsQuiet, post-has_key, post-own_key, reverse-has_key}
use inpockets.Ledger.Business.{
  Source, Snapshot, disbursement_lines, post_disbursement, reverse_disbursement,
}
use inpockets.Statuses.{here, by_move}
use inpockets.Statuses.Disbursement.{DisbursementStatus, success, reversed, can_transition, is_live}
use inpockets.Payout.{
  PayoutDesk, moved_payout, flush, source_of_payout, book_payout, pay, unbook_payout, take_back,
}
use inpockets.Payout.Soundness.{is_paid, IsSettled, Moves, Ends, move_payout-ok}

-- The payout that `pay` flushes.
abbrev succeeded : Option String → PayoutDesk → PayoutDesk
succeeded utr d = record d {
  payout = record (moved_payout d.payout success none) { utr = utr; review_reason = none };
}

module _ (sha256 : Payload → ℕ) (others : Books → Books) (id : ℕ)
    (quiet : IsQuiet (disbursement_paid id) others) where
  post_disbursement-booked :
      (d : Source) (snapshot : Option Snapshot) (b : Books) (t : Option Transaction) (b' : Books)
      → d.id ≡ id
      → IsFresh b
      → post_disbursement sha256 others d snapshot b ≡ ok (t, b')
      → IsFresh b' × (has_key (disbursement_paid id) b' ≡ true)
  unfolding post_disbursement
  post_disbursement-booked d snapshot b t b' own fresh h =
      let (lines, _, posted) = >>=-eq-ok (disbursement_lines d.amount snapshot) _ h in
      (
        (post-has_key others (disbursement_paid id) quiet sha256 _ b t b' fresh posted).0,
        post-own_key others (disbursement_paid id) quiet sha256 _ b t b' fresh
            (ap disbursement_paid own) posted,
      )

  reverse_disbursement-booked :
      (d : Source) (b : Books) (t : Option Transaction) (b' : Books)
      → IsFresh b
      → reverse_disbursement sha256 others d b ≡ ok (t, b')
      → IsFresh b' × (has_key (disbursement_paid id) b' ≡ has_key (disbursement_paid id) b)
  unfolding reverse_disbursement key_eq
  reverse_disbursement-booked d b t b' fresh h =
      elim (Option-cases (get_by_key (disbursement_paid d.id) b)) [
        | inl e ↦ let same : b' ≡ b = ground (arith, e) in rw same (fresh, refl)
        | inr (original, e) ↦
            reverse-has_key others (disbursement_paid id) quiet sha256 original.id
              (disbursement_reversed d.id) "disbursement" d.id
              "Provider reported the disbursement reversed" b t b' fresh refl (ground (arith, e))
      ]

  paying-way : (s : DisbursementStatus) → can_transition s success ≡ true → is_paid s ≡ false
  unfolding is_paid can_transition
  paying-way s h = ground (arith, h)

  -- The books follow a payout that has just become paid.
  book_payout-Ends :
      (d x : PayoutDesk)
      → Moves d x
      → x.payout.id ≡ id
      → IsFresh x.books
      → is_paid x.payout.status ≡ true
      → (is_live x.payout.status && x.another_live) ≡ false
      → Ends id d (book_payout sha256 others x)
  unfolding book_payout
  book_payout-Ends d x moves own fresh paid single =
      elim (Result-cases
        (post_disbursement sha256 others (source_of_payout x.payout) x.pricing x.books)) [
          | inr (e, bad) ↦ rw bad tt
          | inl ((t, b'), posted) ↦
              (let (fresh', booked) =
                  post_disbursement-booked (source_of_payout x.payout) x.pricing x.books t b' own
                    fresh posted in
                rw posted (
                  moves,
                  record { own = own; fresh = fresh'; booked = booked ∙ sym paid; single = single },
                ))
        ]

  unbook_payout-Ends :
      (d x : PayoutDesk)
      → Moves d x
      → x.payout.id ≡ id
      → IsFresh x.books
      → has_key (disbursement_paid id) x.books ≡ is_paid x.payout.status
      → (is_live x.payout.status && x.another_live) ≡ false
      → Ends id d (unbook_payout sha256 others x)
  unfolding unbook_payout
  unbook_payout-Ends d x moves own fresh booked single =
      elim (Result-cases (reverse_disbursement sha256 others (source_of_payout x.payout) x.books)) [
        | inr (e, bad) ↦ rw bad tt
        | inl ((t, b'), posted) ↦
            (let (fresh', kept) =
                reverse_disbursement-booked (source_of_payout x.payout) x.books t b' fresh posted in
              rw posted (
                moves,
                record { own = own; fresh = fresh'; booked = kept ∙ booked; single = single },
              ))
      ]

  pub pay-Ends :
      (utr : Option String) (d : PayoutDesk)
      → can_transition d.payout.status success ≡ true
      → IsSettled id d
      → Ends id d (pay sha256 others utr d)
  unfolding pay moved_payout flush is_paid
  pay-Ends utr d way s =
      let x = succeeded utr d in
      elim (Bool-cases (is_live success && d.another_live)) [
        | inl e ↦ rw (move_payout-ok d.payout success none way, e) tt
        | inr e ↦
            rw (move_payout-ok d.payout success none way, e)
              (book_payout-Ends d x (by_move way here) s.own s.fresh refl e)
      ]

  pub take_back-Ends :
      (d : PayoutDesk)
      → d.payout.status ≡ success
      → IsSettled id d
      → Ends id d (take_back sha256 others d)
  unfolding take_back moved_payout flush is_paid can_transition is_live
  take_back-Ends d at s =
      let x : PayoutDesk = record d { payout = moved_payout d.payout reversed none } in
      let way : can_transition d.payout.status reversed ≡ true = rw at refl in
      rw (move_payout-ok d.payout reversed none way)
        (unbook_payout-Ends d x (by_move way here) s.own s.fresh (s.booked ∙ ap is_paid at) refl)

  book_payout-same :
      (x d' : PayoutDesk) → book_payout sha256 others x ≡ ok d' → d'.payout ≡ x.payout
  unfolding book_payout
  book_payout-same x d' h =
      elim (Result-cases
        (post_disbursement sha256 others (source_of_payout x.payout) x.pricing x.books)) [
          | inr (e, bad) ↦ absurd (ground (arith, bad))
          | inl ((t, b'), posted) ↦ ground (arith, posted)
        ]

  pub pay-success :
      (utr : Option String) (d d' : PayoutDesk)
      → can_transition d.payout.status success ≡ true
      → pay sha256 others utr d ≡ ok d'
      → d'.payout.status ≡ success
  unfolding pay moved_payout flush
  pay-success utr d d' way h =
      let moved = move_payout-ok d.payout success none way in
      elim (Bool-cases (is_live success && d.another_live)) [
        | inl e ↦ absurd (ground (arith, moved, e))
        | inr e ↦
            ap (λ p. p.status) (book_payout-same (succeeded utr d) d' (ground (arith, moved, e)))
      ]

  unbook_payout-same :
      (x d' : PayoutDesk) → unbook_payout sha256 others x ≡ ok d' → d'.payout ≡ x.payout
  unfolding unbook_payout
  unbook_payout-same x d' h =
      elim (Result-cases (reverse_disbursement sha256 others (source_of_payout x.payout) x.books)) [
        | inr (e, bad) ↦ absurd (ground (arith, bad))
        | inl ((t, b'), posted) ↦ ground (arith, posted)
      ]

  pub take_back-reversed :
      (d d' : PayoutDesk)
      → d.payout.status ≡ success
      → take_back sha256 others d ≡ ok d'
      → d'.payout.status ≡ reversed
  unfolding take_back moved_payout flush can_transition is_live
  take_back-reversed d d' at h =
      let way : can_transition d.payout.status reversed ≡ true = rw at refl in
      let moved = move_payout-ok d.payout reversed none way in
      ap (λ p. p.status)
        (unbook_payout-same (record d { payout = moved_payout d.payout reversed none }) d'
          (ground (arith, moved)))
