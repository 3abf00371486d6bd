-- ===== src/Payout/Numbering.antt =====
-- The payouts of an offer are numbered, so that a new one never takes the key of another, and one of
-- them is live at most (`_new_row`, `create_for_offer` and `retry` of app/services/disbursement.py).
use inpockets.Base.{
  ℕ, ◌+◌, ◌==◌, ◌≤◌, ◌≡◌, ◌⊎◌, refl, true, ◌&&◌, List, [], ◌∷◌, ◌++◌, none, if◌then◌else◌, arith,
  inl, inr, Bool-cases, ==_refl,
}
use inpockets.Payout.{Payout}
use inpockets.Payout.Creating.{is_live_of, live_for_offer, count_for_offer, key_is_used}

abbrev pub count_live : ℕ → List Payout → ℕ
count_live offer [] = 0
count_live offer (p ∷ rows) =
    let rest = count_live offer rows in if is_live_of offer p then rest + 1 else rest

-- No attempt of an offer is above the number of its payouts, and one of them is live at most.
pub record IsOrderly (rows : List Payout) : Type 0 where
  pub numbered : (o n : ℕ) → key_is_used o n rows ≡ true → n ≤ count_for_offer o rows
  pub single : (o : ℕ) → count_live o rows ≤ 1

key_is_used-append :
    (o n : ℕ) (rows : List Payout) (p : Payout)
    → key_is_used o n (rows ++ p ∷ []) ≡ true
    → (key_is_used o n rows ≡ true) ⊎ ((p.loan_offer_id ≡ o) × (p.attempt ≡ n))
unfolding key_is_used
key_is_used-append o n [] p h = ground (arith, h)
key_is_used-append o n (q ∷ rows) p h = elim (Bool-cases (q.loan_offer_id == o && q.attempt == n)) [
  | inl e ↦ inl (rw e refl)
  | inr e ↦ elim (key_is_used-append o n rows p (rw e at h)) [
    | inl used ↦ inl (rw e used)
    | inr own ↦ inr own
  ]
]

count_for_offer-append :
    (o : ℕ) (rows : List Payout) (p : Payout)
    → count_for_offer o (rows ++ p ∷ [])
      ≡ count_for_offer o rows + (if p.loan_offer_id == o then 1 else 0)
unfolding count_for_offer
count_for_offer-append o [] p = ground arith
count_for_offer-append o (q ∷ rows) p = ground (arith, count_for_offer-append o rows p)

count_live-append :
    (o : ℕ) (rows : List Payout) (p : Payout)
    → count_live o (rows ++ p ∷ []) ≡ count_live o rows + (if is_live_of o p then 1 else 0)
count_live-append o [] p = ground arith
count_live-append o (q ∷ rows) p = ground (arith, count_live-append o rows p)

pub none_live : (o : ℕ) (rows : List Payout) → live_for_offer o rows ≡ none → count_live o rows ≡ 0
unfolding live_for_offer
none_live o [] h = refl
none_live o (q ∷ rows) h = elim (Bool-cases (is_live_of o q)) [
  | inl e ↦ absurd (ground (arith, h, e))
  | inr e ↦ rw e (none_live o rows (rw e at h))
]

-- A payout with the next number, of an offer without a live one.
pub appended-IsOrderly :
    (rows : List Payout) (p : Payout)
    → IsOrderly rows
    → p.attempt ≡ count_for_offer p.loan_offer_id rows + 1
    → live_for_offer p.loan_offer_id rows ≡ none
    → IsOrderly (rows ++ p ∷ [])
appended-IsOrderly rows p v next free = record {
  numbered = (λ o n used. elim (key_is_used-append o n rows p used) [
    | inl old ↦ omega (arith, v.numbered o n old, count_for_offer-append o rows p)
    | inr (offer, attempt) ↦
        (let e : p.loan_offer_id == o ≡ true = rw offer (==_refl o) in
          let counted = count_for_offer-append o rows p in
          let next' : p.attempt ≡ count_for_offer o rows + 1 = rw offer at next in
          let counted' : count_for_offer o (rows ++ p ∷ []) ≡ count_for_offer o rows + 1 =
            rw e at counted in
          omega (arith, attempt, next', counted'))
  ]);
  single = (λ o. elim (Bool-cases (is_live_of o p)) [
    | inr e ↦
        (let counted : count_live o (rows ++ p ∷ []) ≡ count_live o rows + 0 =
            rw e at (count_live-append o rows p) in
          omega (arith, counted, v.single o))
    | inl e ↦
        (let offer : p.loan_offer_id ≡ o = ground (arith, e) in
          let counted : count_live o (rows ++ p ∷ []) ≡ count_live o rows + 1 =
            rw e at (count_live-append o rows p) in
          let free' : live_for_offer o rows ≡ none = rw offer at free in
          omega (arith, counted, none_live o rows free'))
  ]);
}
