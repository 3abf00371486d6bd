-- ===== src/Ledger/Succeeding.antt =====
-- When a posting succeeds (`post` and `post_disbursement` of app/services/ledger.py): its lines are
-- balanced, their accounts are active, and its key is new.
use inpockets.Base.{
  ℕ, ◌≡◌, refl, ◌∙◌, String, true, false, List, [], ◌∷◌, Option, none, some, Result, ok,
  Result-cases, Option-cases, All, All-append, arith, inl, inr, subst, sym, Bool-cases,
}
use inpockets.Base.Int.{ℤ, pos, ltb_ℤ, ◌<ℤ◌, ◌≤ℤ◌}
use inpockets.Ledger.{
  Line, LedgerError, bank, loan_principal, fee_income, gst_payable, Payload, payload,
}
use inpockets.Ledger.Lines.{IsBalanced, validate_lines_complete}
use inpockets.Ledger.Tables.{
  Account, Transaction, Books, IdempotencyKey, disbursement_paid, account_by_code, get_by_key,
  has_right_link, insert_header,
}
use inpockets.Ledger.Posting.{Posting, header, check_accounts, finish_post, post_new, post}
use inpockets.Ledger.Business.{
  Source, Snapshot, credit_if_positive, disbursement_lines, post_disbursement,
}
use inpockets.Ledger.Postings.{Agrees, disbursement_lines_priced, disbursement_lines-IsBalanced}
use inpockets.Ledger.Replay.{IsFresh}
use inpockets.Ledger.Keys.{has_key, IsQuiet}

-- An active account has the code.
abbrev pub HasAccount : Books → String → Type 0
HasAccount b code = (a : Account) × (account_by_code code b ≡ some a) × (a.is_active ≡ true)

-- The accounts that a disbursement posts to.
pub record HasChart (b : Books) : Type 0 where
  pub for_principal : HasAccount b loan_principal
  pub for_bank : HasAccount b bank
  pub for_fee : HasAccount b fee_income
  pub for_gst : HasAccount b gst_payable

check_accounts-ok :
    (b : Books) (lines : List Line)
    → All (λ ln. HasAccount b ln.account_code) lines
    → (ids : List ℕ) × (check_accounts b lines ≡ ok ids)
unfolding check_accounts
check_accounts-ok b [] h = ([], refl)
check_accounts-ok b (ln ∷ rest) ((a, found, active), h) =
    let (ids, e) = check_accounts-ok b rest h in (a.id ∷ ids, rw (found, active, e) refl)

without_key : (key : IdempotencyKey) (b : Books) → has_key key b ≡ false → get_by_key key b ≡ none
unfolding has_key
without_key key b h = elim (Option-cases (get_by_key key b)) [
  | inl e ↦ e
  | inr (t, e) ↦ absurd (ground (arith, h, e))
]

-- The payout agrees with the pricing of the offer, where it has one.
abbrev pub IsPriced : ℤ → Option Snapshot → Type 0
IsPriced amount none = Unit
IsPriced amount (some s) = Agrees amount s × (pos 0 ≤ℤ s.processing_fee) × (pos 0 ≤ℤ s.gst_amount)

priced_parts :
    (amount : ℤ) (o : Option Snapshot)
    → IsPriced amount o
    → (s : Snapshot) → o ≡ some s
    → (pos 0 ≤ℤ s.processing_fee) × (pos 0 ≤ℤ s.gst_amount)
priced_parts amount o h s e = let p = subst (IsPriced amount) e h in (p.1, p.2)

disbursement_lines-made :
    (amount : ℤ) (o : Option Snapshot)
    → IsPriced amount o
    → (lines : List Line) × (disbursement_lines amount o ≡ ok lines)
unfolding disbursement_lines
disbursement_lines-made amount none h = (_, refl)
disbursement_lines-made amount (some s) h = (_, (disbursement_lines_priced amount s).0 h.0)

credit_if_positive-accounts :
    (b : Books) (code : String) (amount : ℤ)
    → HasAccount b code
    → All (λ ln. HasAccount b ln.account_code) (credit_if_positive code amount)
credit_if_positive-accounts b code amount h = elim (Bool-cases (ltb_ℤ (pos 0) amount)) [
  | inl e ↦ rw e (h, tt)
  | inr e ↦ rw e tt
]

ok_same : (xs ys : List Line) → ◌≡◌ {A = Result LedgerError (List Line)} (ok xs) (ok ys) → xs ≡ ys
ok_same xs ys h = cc

disbursement_lines-accounts :
    (b : Books)
    → HasChart b
    → (amount : ℤ) (o : Option Snapshot) (lines : List Line) → IsPriced amount o
    → disbursement_lines amount o ≡ ok lines
    → All (λ ln. HasAccount b ln.account_code) lines
unfolding disbursement_lines
disbursement_lines-accounts b chart amount none lines priced h =
    subst (All (λ ln. HasAccount b ln.account_code)) (ok_same _ _ h)
      (chart.for_principal, (chart.for_bank, tt))
disbursement_lines-accounts b chart amount (some s) lines priced h =
    subst (All (λ ln. HasAccount b ln.account_code))
      (ok_same _ _ (sym ((disbursement_lines_priced amount s).0 priced.0) ∙ h))
      (
        chart.for_principal,
        (
          chart.for_bank,
          All-append _ (credit_if_positive fee_income s.processing_fee)
              (credit_if_positive gst_payable s.gst_amount)
              (credit_if_positive-accounts b fee_income s.processing_fee chart.for_fee)
              (credit_if_positive-accounts b gst_payable s.gst_amount chart.for_gst),
        ),
      )

module _ (sha256 : Payload → ℕ) (others : Books → Books) (key : IdempotencyKey)
    (quiet : IsQuiet key others) where
  post_new_succeeds :
      (p : Posting) (digest : ℕ) (clean : List Line) (b : Books)
      → p.idempotency_key ≡ key
      → p.reverses_transaction_id ≡ none
      → has_right_link p.kind none ≡ true
      → get_by_key key (others b) ≡ none
      → All (λ ln. HasAccount b ln.account_code) clean
      → (x : Option Transaction × Books) × (post_new sha256 others p digest clean b ≡ ok x)
  unfolding post_new finish_post insert_header header
  post_new_succeeds p digest clean b own original right new accounts =
      let (ids, known) = check_accounts-ok b clean accounts in
      let new' : get_by_key p.idempotency_key (others b) ≡ none = rw own new in
      let linked : has_right_link p.kind p.reverses_transaction_id ≡ true = rw original right in
      elim (Result-cases (post_new sha256 others p digest clean b)) [
        | inl (x, e) ↦ (x, e)
        | inr (e, bad) ↦ absurd (ground (arith, known, new', original, linked, bad))
      ]

  -- A posting with balanced lines, active accounts and a new key succeeds.
  pub post_succeeds :
      (p : Posting) (b : Books)
      → IsBalanced p.lines
      → All (λ ln. HasAccount b ln.account_code) p.lines
      → p.idempotency_key ≡ key
      → p.reverses_transaction_id ≡ none
      → has_right_link p.kind none ≡ true
      → IsFresh b
      → has_key key b ≡ false
      → (x : Option Transaction × Books) × (post sha256 others p b ≡ ok x)
  unfolding post
  post_succeeds p b balanced accounts own original right fresh new =
      let valid = validate_lines_complete p.lines balanced in
      let none_here = without_key key b new in
      let none_there = without_key key (others b) ((quiet b fresh).1 ∙ new) in
      let digest = sha256 (payload p.kind p.loan_offer_id p.lines) in
      let (x, done) = post_new_succeeds p digest p.lines b own original right none_there accounts in
      (x, rw (valid, own, none_here) done)

  -- The posting of a payout succeeds where the chart has its accounts, the payout agrees with its
  -- pricing, and it has not been posted.
  pub post_disbursement_succeeds :
      (d : Source) (snapshot : Option Snapshot) (b : Books)
      → pos 0 <ℤ d.amount
      → IsPriced d.amount snapshot
      → HasChart b
      → disbursement_paid d.id ≡ key
      → IsFresh b
      → has_key key b ≡ false
      → (x : Option Transaction × Books) × (post_disbursement sha256 others d snapshot b ≡ ok x)
  unfolding post_disbursement
  post_disbursement_succeeds d snapshot b positive priced chart own fresh new =
      let (lines, made) = disbursement_lines-made d.amount snapshot priced in
      let balanced =
        disbursement_lines-IsBalanced d.amount snapshot lines positive
          (priced_parts d.amount snapshot priced) made in
      let accounts = disbursement_lines-accounts b chart d.amount snapshot lines priced made in
      rw made (post_succeeds _ b balanced accounts own refl refl fresh new)
