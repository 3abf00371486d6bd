-- ===== src/Collections/Oldest.antt =====
-- What is overdue of a loan (`overdue_of` of app/domain/collections.py).
use inpockets.Base.{
  ℕ, ◌+◌, ◌-◌, ◌≤◌, ◌<◌, Bool, true, false, List, [], ◌∷◌, some, if◌then◌else◌, keep, All, All-mono,
  Among, All-Among, Bool-cases, ◌≡◌, inl, inr, sym, ap, subst, arith,
}
use inpockets.Collections.{
  InstallmentView, Overdue, is_late, is_before, oldest_of, overdue_among, overdue_of,
}

oldest_of-All :
    (P : InstallmentView → Type 0) (best : InstallmentView) (is : List InstallmentView)
    → P best
    → All P is
    → P (oldest_of best is)
unfolding oldest_of
oldest_of-All P best [] p h = p
oldest_of-All P best (i ∷ is) p h = elim (Bool-cases (is_before i best)) [
  | inl t ↦ rw t (oldest_of-All P i is h.0 h.1)
  | inr f ↦ rw f (oldest_of-All P best is p h.1)
]

before_due : (i j : InstallmentView) → is_before i j ≡ true → i.due_date ≤ j.due_date
before_due i j h = ground arith

not_before_due : (i j : InstallmentView) → is_before i j ≡ false → j.due_date ≤ i.due_date
not_before_due i j h = ground arith

-- The one that `min` gives is due no later than any other.
oldest_of-first :
    (best : InstallmentView) (is : List InstallmentView)
    → ((oldest_of best is).due_date ≤ best.due_date)
      × All (λ i. (oldest_of best is).due_date ≤ i.due_date) is
unfolding oldest_of
oldest_of-first best [] = (omega arith, tt)
oldest_of-first best (i ∷ is) =
    let First = λ (k : InstallmentView).
      (k.due_date ≤ best.due_date) × All (λ j. k.due_date ≤ j.due_date) (i ∷ is) in
    elim (Bool-cases (is_before i best)) [
      | inl t ↦
          (let rest = oldest_of-first i is in
            let next : oldest_of best (i ∷ is) ≡ oldest_of i is =
              ap (λ b. oldest_of (if b then i else best) is) t in
            subst First (sym next) (omega (arith, rest.0, before_due i best t), (rest.0, rest.1)))
      | inr f ↦
          (let rest = oldest_of-first best is in
            let next : oldest_of best (i ∷ is) ≡ oldest_of best is =
              ap (λ b. oldest_of (if b then i else best) is) f in
            subst First (sym next)
              (rest.0, (omega (arith, rest.0, not_before_due i best f), rest.1)))
    ]

-- What holds of the installments kept by a test holds of all that pass it.
All-keep :
    (q : InstallmentView → Bool) (P : InstallmentView → Type 0) (is : List InstallmentView)
    → All P (keep q is)
    → All (λ i. q i ≡ true → P i) is
All-keep q P [] h = tt
All-keep q P (i ∷ is) h = elim (Bool-cases (q i)) [
  | inl t ↦
      (let kept : P i × All P (keep q is) = rw t at h in ((λ _. kept.0), All-keep q P is kept.1))
  | inr f ↦
      (let kept : All P (keep q is) = rw f at h in
        ((λ t. absurd (cc (t, f))), All-keep q P is kept))
]

keep-passes :
    (q : InstallmentView → Bool) (is : List InstallmentView) → All (λ i. q i ≡ true) (keep q is)
keep-passes q [] = tt
keep-passes q (i ∷ is) = elim (Bool-cases (q i)) [
  | inl t ↦ rw t (t, keep-passes q is)
  | inr f ↦ rw f (keep-passes q is)
]

late_due : (today : ℕ) (i : InstallmentView) → is_late today i ≡ true → i.due_date < today
late_due today i h = ground arith

keep-All :
    (P : InstallmentView → Type 0) (q : InstallmentView → Bool) (is : List InstallmentView)
    → All P is
    → All P (keep q is)
keep-All P q [] h = tt
keep-All P q (i ∷ is) h = elim (Bool-cases (q i)) [
  | inl t ↦ rw t (h.0, keep-All P q is h.1)
  | inr f ↦ rw f (keep-All P q is h.1)
]

-- One of the installments is late and is the one that the summary names.
abbrev pub IsNamed : ℕ → List InstallmentView → Overdue → Type 0
IsNamed today installments o =
    (i : InstallmentView) × Among i installments
    × (is_late today i ≡ true)
    × (o.oldest_installment_id ≡ i.id)
    × (o.oldest_due_date ≡ i.due_date)

overdue_among-oldest :
    (today : ℕ) (installments late : List InstallmentView) (o : Overdue)
    → overdue_among today late ≡ some o
    → All (λ i. is_late today i ≡ true) late
    → All (λ i. Among i installments) late
    → (1 ≤ o.dpd)
      × (o.oldest_due_date + o.dpd ≡ today)
      × IsNamed today installments o
      × All (λ i. o.oldest_due_date ≤ i.due_date) late
unfolding overdue_among
overdue_among-oldest today installments [] o h p m = cc
overdue_among-oldest today installments (i ∷ is) o h p m =
    let is_late_one = oldest_of-All (λ j. is_late today j ≡ true) i is p.0 p.1 in
    let due = late_due today (oldest_of i is) is_late_one in
    let id : (oldest_of i is).id ≡ o.oldest_installment_id = ground (arith, h) in
    let date : (oldest_of i is).due_date ≡ o.oldest_due_date = ground (arith, h) in
    let days : today - (oldest_of i is).due_date ≡ o.dpd = ground (arith, h) in
    let first = oldest_of-first i is in
    (
      omega (arith, due, days),
      omega (arith, due, date, days),
      (
        oldest_of i is,
        oldest_of-All (λ j. Among j installments) i is m.0 m.1,
        is_late_one,
        sym id,
        sym date,
      ),
      (
        omega (arith, date, first.0),
        All-mono (λ j. (oldest_of i is).due_date ≤ j.due_date) (λ j. o.oldest_due_date ≤ j.due_date)
            is (λ j le. omega (arith, date, le)) first.1,
      ),
    )

-- A loan that is overdue is so by one day at least, counted from the due date of the installment that
-- is named: it is one of the loan, it is late, and no late installment is due before it.
pub overdue_of-oldest :
    (installments : List InstallmentView) (today : ℕ) (o : Overdue)
    → overdue_of installments today ≡ some o
    → (1 ≤ o.dpd)
      × (o.oldest_due_date + o.dpd ≡ today)
      × IsNamed today installments o
      × All (λ i. is_late today i ≡ true → o.oldest_due_date ≤ i.due_date) installments
unfolding overdue_of
overdue_of-oldest installments today o h =
    let late = keep (is_late today) installments in
    let among =
      keep-All (λ i. Among i installments) (is_late today) installments (All-Among installments) in
    let (days, date, named, first) =
      overdue_among-oldest today installments late o h (keep-passes (is_late today) installments)
        among in
    (
      days,
      date,
      named,
      All-keep (is_late today) (λ i. o.oldest_due_date ≤ i.due_date) installments first,
    )
