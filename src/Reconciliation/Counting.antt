-- ===== src/Reconciliation/Counting.antt =====
-- Nothing is lost or counted twice (`reconcile` and `summarize` of app/domain/reconciliation.py).
use text.Mathlib.Text.{◌==◌ as str_eq}
use inpockets.Base.{
  ℕ, suc, ◌+◌, String, Option, List, [], ◌∷◌, map, length, length-append, sum_of, sum_of-append,
  Bool-cases, inl, inr, ◌≡◌, refl, arith,
}
use inpockets.Reconciliation.{
  RecordStatus, matched, unmatched, mismatch, requires_review, Finding, Flow, InternalItem,
  ExternalLine, Group, add_line, group_from, group_lines, group_finding, missing_finding,
  missing_findings, in_groups, reconcile, Summary, count_in, summarize_from, summarize,
}

abbrev pub counted : Summary → ℕ
counted s = s.matched + s.unmatched + s.mismatch + s.requires_review

count_in-counted : (r : RecordStatus) (s : Summary) → counted (count_in r s) ≡ counted s + 1
unfolding count_in
count_in-counted matched s = omega arith
count_in-counted unmatched s = omega arith
count_in-counted mismatch s = omega arith
count_in-counted requires_review s = omega arith

summarize_from-counted :
    (fs : List Finding) (s : Summary) → counted (summarize_from fs s) ≡ counted s + length fs
unfolding summarize_from
summarize_from-counted [] s = omega arith
summarize_from-counted (f ∷ fs) s =
    omega (arith, summarize_from-counted fs (count_in f.status s), count_in-counted f.status s)

-- The four numbers of a summary add up to the number of the findings.
pub summarize-counted : (fs : List Finding) → counted (summarize fs) ≡ length fs
unfolding summarize
summarize-counted fs = omega (
  arith,
  summarize_from-counted fs
      (record { matched = 0; unmatched = 0; mismatch = 0; requires_review = 0 }),
)

-- The lines of a group.
abbrev group_size : Group → ℕ
group_size g = suc (length g.others)

add_line-size :
    (line : ExternalLine) (gs : List Group)
    → sum_of group_size (add_line line gs) ≡ suc (sum_of group_size gs)
unfolding add_line
add_line-size line [] = refl
add_line-size line (g ∷ gs) = elim (Bool-cases (str_eq g.ref line.ref)) [
  | inl t ↦ rw t (omega (arith, length-append g.others (line ∷ [])))
  | inr f ↦ rw f (omega (arith, add_line-size line gs))
]

group_from-size :
    (ls : List ExternalLine) (gs : List Group)
    → sum_of group_size (group_from ls gs) ≡ length ls + sum_of group_size gs
unfolding group_from
group_from-size [] gs = omega arith
group_from-size (line ∷ ls) gs =
    omega (arith, group_from-size ls (add_line line gs), add_line-size line gs)

abbrev lines_of : Finding → ℕ
lines_of f = f.external_count

group_findings-lines :
    (flow : Flow) (lookup : String → Option InternalItem) (gs : List Group)
    → sum_of lines_of (map (group_finding flow lookup) gs) ≡ sum_of group_size gs
unfolding group_finding
group_findings-lines flow lookup [] = refl
group_findings-lines flow lookup (g ∷ gs) = omega (arith, group_findings-lines flow lookup gs)

missing_findings-lines :
    (flow : Flow) (gs : List Group) (items : List InternalItem)
    → sum_of lines_of (missing_findings flow gs items) ≡ 0
unfolding missing_findings missing_finding
missing_findings-lines flow gs [] = refl
missing_findings-lines flow gs (item ∷ rest) = elim (Bool-cases (in_groups item.ref gs)) [
  | inl t ↦ rw t (omega (arith, missing_findings-lines flow gs rest))
  | inr f ↦ rw f (omega (arith, missing_findings-lines flow gs rest))
]

-- Every line of the provider's report is counted in one finding: the counts of the findings add up to
-- the number of the lines.
pub reconcile-lines :
    (flow : Flow) (items : List InternalItem) (lookup : String → Option InternalItem)
    (external : List ExternalLine)
    → sum_of (λ (f : Finding). f.external_count) (reconcile flow items lookup external)
      ≡ length external
unfolding reconcile group_lines
reconcile-lines flow items lookup external =
    let gs = group_lines external in
    omega (
      arith,
      sum_of-append lines_of (map (group_finding flow lookup) gs) (missing_findings flow gs items),
      group_findings-lines flow lookup gs,
      missing_findings-lines flow gs items,
      group_from-size external [],
    )
