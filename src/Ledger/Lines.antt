-- ===== src/Ledger/Lines.antt =====
-- The check of a transaction's lines (`validate_lines`, `mirror`, `total_of` and `payload_hash` of
-- app/domain/ledger.py) against what a balanced transaction is.
use inpockets.Base.{
  ◌≤◌, ◌≡◌, refl, sym, ap, ◌∙◌, ◌↔◌, inl, inr, true, List, [], ◌∷◌, arith, ok, err, length, All,
  Result-cases,
}
use inpockets.Base.Decimal.{is_positive, has_two_decimals}
use inpockets.Ledger.{
  Line, LedgerError, unbalanced, is_debit, is_credit, side_total, check_line, check_lines,
  validate_lines, mirror,
}

-- An amount that may be posted: positive, and in whole paise.
abbrev pub IsPostable : Line → Type 0
IsPostable ln = (is_positive ln.amount ≡ true) × (has_two_decimals ln.amount ≡ true)

-- What the books require of a transaction: two lines at least, postable amounts, and as much on
-- the debit side as on the credit side.
pub record IsBalanced (lines : List Line) : Type 0 where
  pub enough : 2 ≤ length lines
  pub postable : All IsPostable lines
  pub even : side_total is_debit lines ≡ side_total is_credit lines

check_lines_sound :
    (lines clean : List Line)
    → check_lines lines ≡ ok clean
    → (clean ≡ lines) × All IsPostable lines
unfolding check_lines check_line
check_lines_sound [] clean h = ground arith
check_lines_sound (ln ∷ rest) clean h = elim (Result-cases (check_lines rest)) [
  | inl (c, e) ↦ ground (arith, check_lines_sound rest c e)
  | inr (x, e) ↦ ground arith
]

check_lines_complete : (lines : List Line) → All IsPostable lines → check_lines lines ≡ ok lines
unfolding check_lines check_line
check_lines_complete [] h = refl
check_lines_complete (ln ∷ rest) h = ground (arith, check_lines_complete rest h.1)

check_lines_errors :
    (lines : List Line) (e : LedgerError) → check_lines lines ≡ err e → e ≡ unbalanced
unfolding check_lines check_line
check_lines_errors [] e h = cc
check_lines_errors (ln ∷ rest) e h = ground (arith, check_lines_errors rest e)

length-mirror : (lines : List Line) → length (mirror lines) ≡ length lines
unfolding mirror
length-mirror [] = refl
length-mirror (ln ∷ rest) = ground (arith, length-mirror rest)

pub mirror-mirror : (lines : List Line) → mirror (mirror lines) ≡ lines
unfolding mirror
mirror-mirror [] = refl
mirror-mirror (ln ∷ rest) = ground (arith, mirror-mirror rest)

side_total-mirror :
    (lines : List Line)
    → (side_total is_debit (mirror lines) ≡ side_total is_credit lines)
      × (side_total is_credit (mirror lines) ≡ side_total is_debit lines)
unfolding mirror
side_total-mirror [] = (refl, refl)
side_total-mirror (ln ∷ rest) = ground (arith, side_total-mirror rest)

mirror-IsPostable : (lines : List Line) → All IsPostable lines → All IsPostable (mirror lines)
unfolding mirror
mirror-IsPostable [] h = tt
mirror-IsPostable (ln ∷ rest) h = (h.0, mirror-IsPostable rest h.1)

validate_lines_sound :
    (lines clean : List Line) → validate_lines lines ≡ ok clean → (clean ≡ lines) × IsBalanced lines
unfolding validate_lines
validate_lines_sound lines clean h = elim (Result-cases (check_lines lines)) [
  | inl (c, e) ↦ let f = check_lines_sound lines c e in ground (arith, f)
  | inr (x, e) ↦ ground arith
]

pub validate_lines_complete :
    (lines : List Line) → IsBalanced lines → validate_lines lines ≡ ok lines
unfolding validate_lines
validate_lines_complete lines h = let c = check_lines_complete lines h.postable in ground (arith, c)

pub validate_lines_errors :
    (lines : List Line) (e : LedgerError) → validate_lines lines ≡ err e → e ≡ unbalanced
unfolding validate_lines
validate_lines_errors lines e h = elim (Result-cases (check_lines lines)) [
  | inl (c, r) ↦ ground arith
  | inr (x, r) ↦ ground (arith, check_lines_errors lines x r)
]

-- A list of lines is accepted exactly when it is balanced, and then it is returned as it stands.
pub validate_lines_iff :
    (lines clean : List Line)
    → (validate_lines lines ≡ ok clean) ↔ ((clean ≡ lines) × IsBalanced lines)
validate_lines_iff lines clean =
    (validate_lines_sound lines clean, λ h. validate_lines_complete lines h.1 ∙ ap ok (sym h.0))

-- The mirror of a balanced transaction is balanced, so it is accepted too.
pub mirror-IsBalanced : (lines : List Line) → IsBalanced lines → IsBalanced (mirror lines)
mirror-IsBalanced lines h =
    let l = length-mirror lines in
    let t = side_total-mirror lines in
    record {
      enough = omega (arith, h.enough);
      postable = mirror-IsPostable lines h.postable;
      even = t.0 ∙ sym h.even ∙ sym t.1;
    }
