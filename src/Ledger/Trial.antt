-- ===== src/Ledger/Trial.antt =====
-- The books stay even: postings and reversals keep the debits of every set of transactions equal
-- to their credits (app/services/ledger.py).
use text.Mathlib.Text.{◌==◌ as str_eq}
use inpockets.Base.{
  ℕ, String, suc, ◌≡◌, sym, subst, ◌∙◌, Bool, List, [], ◌∷◌, ◌++◌, arith, Option, none, some, ok,
  Result-cases, Option-cases, length, sum_of, sum_of-append, All, All-find, All-append,
  if◌then◌else◌, inl, inr, ◌==◌,
}
use inpockets.Ledger.{Direction, Line, is_debit, is_credit, side_total, Payload}
use inpockets.Ledger.Lines.{IsBalanced}
use inpockets.Ledger.Tables.{
  Account, account_by_code, Transaction, Entry, Books, IdempotencyKey, insert_header,
  insert_entries,
}
use inpockets.Ledger.Inversion.{Inserted, post_inversion, reverse_inversion}
use inpockets.Ledger.Posting.{Posting, check_accounts, entry_rows, post, reverse, reversal_posting}
use inpockets.Ledger.Balances.{entry_total}

-- Whichever transactions are counted, their debits equal their credits.
abbrev pub IsEven : Books → Type 0
IsEven b = (p : ℕ → Bool) → entry_total is_debit p b.entries ≡ entry_total is_credit p b.entries

pub length-check_accounts :
    (b : Books) (lines : List Line) (ids : List ℕ)
    → check_accounts b lines ≡ ok ids
    → length ids ≡ length lines
unfolding check_accounts
length-check_accounts b [] ids h = ground arith
length-check_accounts b (ln ∷ rest) ids h = elim (Result-cases (check_accounts b rest)) [
  | inl (r, e) ↦ ground (arith, length-check_accounts b rest r e)
  | inr (x, e) ↦ ground arith
]

pub entry_total-entry_rows :
    (side : Direction → Bool) (p : ℕ → Bool) (tx i : ℕ) (ids : List ℕ) (lines : List Line)
    → length ids ≡ length lines
    → entry_total side p (entry_rows tx i ids lines) ≡ (if p tx then side_total side lines else 0)
unfolding entry_rows
entry_total-entry_rows side p tx i [] [] h = ground arith
entry_total-entry_rows side p tx i [] (ln ∷ lines) h = absurd (omega arith)
entry_total-entry_rows side p tx i (a ∷ ids) [] h = absurd (omega arith)
entry_total-entry_rows side p tx i (a ∷ ids) (ln ∷ lines) h =
    ground (arith, entry_total-entry_rows side p tx (suc i) ids lines)

pub insert_header_keeps :
    (row : ℕ → Transaction) (b : Books) (o : Option ℕ) (b' : Books)
    → insert_header row b ≡ ok (o, b')
    → (b'.entries ≡ b.entries) × (b'.accounts ≡ b.accounts)
unfolding insert_header
insert_header_keeps row b o b' h = ground arith

pub insert_header-none :
    (row : ℕ → Transaction) (b b' : Books) → insert_header row b ≡ ok (none, b') → b' ≡ b
unfolding insert_header
insert_header-none row b b' h = ground arith

insert_entries-IsEven :
    (tx i : ℕ) (ids : List ℕ) (lines : List Line) (b : Books)
    → length ids ≡ length lines
    → side_total is_debit lines ≡ side_total is_credit lines
    → IsEven b
    → IsEven (insert_entries (entry_rows tx i ids lines) b)
unfolding insert_entries
insert_entries-IsEven tx i ids lines b l e h p =
    let d = entry_total-entry_rows is_debit p tx i ids lines l in
    let c = entry_total-entry_rows is_credit p tx i ids lines l in
    rw sum_of-append (rw sum_of-append (ground (arith, h p, d, c)))

-- How many accounts have an id.
abbrev pub occurrences : ℕ → List Account → ℕ
occurrences id = sum_of (λ a. if a.id == id then 1 else 0)

-- Every entry is in one account.
abbrev pub IsPlaced : List Account → List Entry → Type 0
IsPlaced accounts = All (λ e. occurrences e.account_id accounts ≡ 1)

-- The books are even, ids of accounts are unique, and every entry is in an account.
pub record IsSound (b : Books) : Type 0 where
  pub is_even : IsEven b
  pub unique : All (λ a. occurrences a.id b.accounts ≡ 1) b.accounts
  pub placed : IsPlaced b.accounts b.entries

-- What other sessions may do meanwhile: they keep the books sound and the chart of accounts.
abbrev pub IsFair : (Books → Books) → Type 0
IsFair others = (b : Books) → IsSound b → IsSound (others b) × ((others b).accounts ≡ b.accounts)

-- What an accepted look-up of the accounts found.
pub check_accounts-cons :
    (b : Books) (ln : Line) (rest : List Line) (ids : List ℕ)
    → check_accounts b (ln ∷ rest) ≡ ok ids
    → (a : Account) × (r : List ℕ) × (account_by_code ln.account_code b ≡ some a)
      × (check_accounts b rest ≡ ok r)
      × (ids ≡ a.id ∷ r)
unfolding check_accounts
check_accounts-cons b ln rest ids h = elim (Option-cases (account_by_code ln.account_code b)) [
  | inl e ↦ absurd (ground arith)
  | inr (a, e) ↦ elim (Result-cases (check_accounts b rest)) [
    | inl (r, f) ↦ (a, r, e, f, ground arith)
    | inr (x, f) ↦ absurd (ground arith)
  ]
]

check_accounts-placed :
    (b : Books) (lines : List Line) (ids : List ℕ)
    → IsSound b
    → check_accounts b lines ≡ ok ids
    → All (λ id. occurrences id b.accounts ≡ 1) ids
unfolding check_accounts
check_accounts-placed b [] ids v h = let e : [] ≡ ids = ground arith in rw (← e) tt
check_accounts-placed b (ln ∷ rest) ids v h =
    let (a, r, found, more, e) = check_accounts-cons b ln rest ids h in
    rw e (
      All-find (λ (x : Account). occurrences x.id b.accounts ≡ 1)
          (λ x. str_eq x.code ln.account_code) b.accounts a v.unique found,
      check_accounts-placed b rest r v more,
    )

entry_rows-placed :
    (P : ℕ → Type 0) (tx i : ℕ) (ids : List ℕ) (lines : List Line)
    → All P ids
    → All (λ e. P e.account_id) (entry_rows tx i ids lines)
unfolding entry_rows
entry_rows-placed P tx i [] lines h = tt
entry_rows-placed P tx i (a ∷ ids) [] h = tt
entry_rows-placed P tx i (a ∷ ids) (ln ∷ lines) h =
    (h.0, entry_rows-placed P tx (suc i) ids lines h.1)

module _ (sha256 : Payload → ℕ) (others : Books → Books) (fair : IsFair others) where
  Inserted-IsSound :
      (p : Posting) (digest : ℕ) (clean : List Line) (b : Books) (t : Option Transaction)
      (b' : Books)
      → IsBalanced clean
      → IsSound b
      → Inserted others p digest clean b t b'
      → IsSound b'
  unfolding insert_entries
  Inserted-IsSound p digest clean b t b' balanced v i =
      let (entries, accounts) = insert_header_keeps _ _ _ _ i.header_in in
      let o = fair b v in
      let chart = accounts ∙ o.1 in
      let length_eq = length-check_accounts b clean i.ids i.accounts_known in
      let held : IsEven i.held = λ q. rw entries (o.0.is_even q) in
      let rows = entry_rows i.id 1 i.ids clean in
      let old : IsPlaced b.accounts i.held.entries =
        rw entries (subst (λ c. IsPlaced c (others b).entries) o.1 o.0.placed) in
      let new =
        entry_rows-placed (λ id. occurrences id b.accounts ≡ 1) i.id 1 i.ids clean
          (check_accounts-placed b clean i.ids v i.accounts_known) in
      rw i.books (record {
        is_even = insert_entries-IsEven i.id 1 i.ids clean i.held length_eq balanced.even held;
        unique = rw chart v.unique;
        placed =
            subst (λ c. IsPlaced c (i.held.entries ++ rows)) (sym chart)
              (All-append _ _ rows old new);
      })

  -- A posting that succeeds leaves the books sound, where other sessions keep them sound and keep
  -- the chart of accounts.
  pub post-IsSound :
      (p : Posting) (b : Books) (t : Option Transaction) (b' : Books)
      → IsSound b
      → post sha256 others p b ≡ ok (t, b')
      → IsSound b'
  post-IsSound p b t b' v h =
      let (balanced, way) = post_inversion sha256 others p b t b' h in
      elim way [
        | inl i ↦ Inserted-IsSound p _ p.lines b t b' balanced v i
        | inr (inl l) ↦ rw (insert_header-none _ _ _ l.header_out) (fair b v).0
        | inr (inr r) ↦ rw r.unchanged v
      ]

  -- A reversal that succeeds leaves the books sound, where other sessions keep them sound and keep
  -- the chart of accounts.
  pub reverse-IsSound :
      (id : ℕ) (key : IdempotencyKey) (source : String) (source_id : ℕ) (reason : String)
      (b : Books) (t : Option Transaction) (b' : Books)
      → IsSound b
      → reverse sha256 others id key source source_id reason b ≡ ok (t, b')
      → IsSound b'
  reverse-IsSound id key source source_id reason b t b' v h =
      let r = reverse_inversion sha256 others id key source source_id reason b t b' h in
      elim r.outcome [
        | inl (done, _, _, same) ↦ rw same v
        | inr (_, posted) ↦
            post-IsSound (reversal_posting r.original r.kind key source source_id reason b) b t b' v
              posted
      ]
