-- ===== src/Payout/Ordering.antt =====
-- Creating and retrying keep the payouts of an offer in order (`create_for_offer` and `retry` of
-- app/services/disbursement.py).
use inpockets.Base.{
  ℕ, ◌+◌, ◌≡◌, refl, true, false, List, [], ◌∷◌, ◌++◌, none, some, ok, arith, inl, inr,
  Option-cases, Bool-cases, ==_refl,
}
use inpockets.Base.Int.{pos, ltb_ℤ}
use inpockets.Statuses.Disbursement.{is_live}
use inpockets.Payout.{Payout}
use inpockets.Payout.Creating.{
  PayoutOffer, PayoutTable, payout_amount, is_live_of, live_for_offer, count_for_offer, key_is_used,
  insert_payout, new_payout_row, new_row, create_for_offer,
}
use inpockets.Payout.Numbering.{IsOrderly, appended-IsOrderly}

-- The offer can be paid out.
pub record IsPayable (o : PayoutOffer) : Type 0 where
  pub accepted : o.is_accepted ≡ true
  pub signed : o.is_signed ≡ true
  pub account : o.has_verified_account ≡ true
  pub positive : ltb_ℤ (pos 0) (payout_amount o) ≡ true

next_is_unused :
    (o : ℕ) (rows : List Payout)
    → IsOrderly rows
    → key_is_used o (count_for_offer o rows + 1) rows ≡ false
next_is_unused o rows v = elim (Bool-cases (key_is_used o (count_for_offer o rows + 1) rows)) [
  | inr e ↦ e
  | inl e ↦ absurd (omega (arith, v.numbered o (count_for_offer o rows + 1) e))
]

new_row_succeeds :
    (now : ℕ) (o : PayoutOffer) (t : PayoutTable)
    → IsPayable o
    → IsOrderly t.rows
    → live_for_offer o.id t.rows ≡ none
    → new_row now o t
      ≡ ok (
        new_payout_row now o t,
        record t { rows = t.rows ++ new_payout_row now o t ∷ []; next_id = t.next_id + 1 },
      )
unfolding new_row insert_payout
new_row_succeeds now o t can v free =
    let unused = next_is_unused o.id t.rows v in
    rw (can.accepted, can.signed, can.account, can.positive, unused, free) refl

-- What a row that was made tells of the table.
pub new_row_made :
    (now : ℕ) (o : PayoutOffer) (t : PayoutTable) (p : Payout) (t' : PayoutTable)
    → new_row now o t ≡ ok (p, t')
    → (live_for_offer o.id t.rows ≡ none) × (t'.rows ≡ t.rows ++ new_payout_row now o t ∷ [])
unfolding new_row insert_payout
new_row_made now o t p t' h = elim (Option-cases (live_for_offer o.id t.rows)) [
  | inl e ↦ (e, ground (arith, h, e))
  | inr (q, e) ↦ absurd (ground (arith, h, e))
]

pub new_row-IsOrderly :
    (now : ℕ) (o : PayoutOffer) (t : PayoutTable) (p : Payout) (t' : PayoutTable)
    → IsOrderly t.rows
    → new_row now o t ≡ ok (p, t')
    → IsOrderly t'.rows
new_row-IsOrderly now o t p t' v h =
    let (free, rows) = new_row_made now o t p t' h in
    rw rows (appended-IsOrderly t.rows (new_payout_row now o t) v refl free)

live-append :
    (o : ℕ) (rows : List Payout) (p : Payout)
    → live_for_offer o rows ≡ none
    → is_live_of o p ≡ true
    → live_for_offer o (rows ++ p ∷ []) ≡ some p
unfolding live_for_offer
live-append o [] p h e = rw e refl
live-append o (q ∷ rows) p h e = elim (Bool-cases (is_live_of o q)) [
  | inl t ↦ absurd (ground (arith, h, t))
  | inr f ↦ rw f (live-append o rows p (rw f at h) e)
]

-- A payable offer with payouts in order gets a live payout: creating one always succeeds, keeps the
-- order, and creating again, at any time, returns the same payout and changes nothing.
pub create_for_offer_once :
    (now : ℕ) (o : PayoutOffer) (t : PayoutTable)
    → IsPayable o
    → IsOrderly t.rows
    → (p : Payout) × (t' : PayoutTable) × (create_for_offer now (some o) t ≡ ok (p, t'))
      × (live_for_offer o.id t'.rows ≡ some p)
      × IsOrderly t'.rows
      × ((later : ℕ) → create_for_offer later (some o) t' ≡ ok (p, t'))
unfolding create_for_offer is_live
create_for_offer_once now o t can v = elim (Option-cases (live_for_offer o.id t.rows)) [
  | inr (p, e) ↦ (p, t, rw e refl, e, v, (λ later. rw e refl))
  | inl e ↦
      (let made = new_row_succeeds now o t can v e in
        let p = new_payout_row now o t in
        let t' : PayoutTable = record t { rows = t.rows ++ p ∷ []; next_id = t.next_id + 1 } in
        let live = live-append o.id t.rows p e (rw (==_refl o.id) refl) in
        (p, t', rw e made, live, new_row-IsOrderly now o t p t' v made, (λ later. rw live refl)))
]
