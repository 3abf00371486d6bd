-- ===== src/Reconciliation/Matching.antt =====
-- What a finding says (`reconcile` of app/domain/reconciliation.py).
use inpockets.Base.{
  ltb, String, Bool, true, false, List, [], ◌∷◌, map, Option, none, some, length, All, All-append,
  Bool-cases, ap, ◌∙◌, ◌≡◌, inl, inr, refl, arith,
}
use inpockets.Base.Int.{pos, eqb_ℤ, eqb_ℤ_iff}
use inpockets.Base.Precision.{to_paise}
use inpockets.Reconciliation.{
  Flow, matched, InternalItem, ExternalLine, Finding, Group, ProviderStatus, expected_external,
  expected_ledger_net, status_differs, compare_item, classify, group_finding, missing_finding,
  missing_findings, in_groups, group_lines, reconcile,
}
use inpockets.Reconciliation.Grouping.{lines_of_ref, Holds, group_lines-Holds}

-- Both sides have the reference and agree: one line of the report has it, of the expected status, for
-- the amount that we recorded, which is also what the books moved.
pub record Agree (flow : Flow) (lookup : String → Option InternalItem)
    (external : List ExternalLine) (f : Finding) : Type 0 where
  pub item : InternalItem
  pub line : ExternalLine
  pub ours : lookup f.provider_ref ≡ some item
  pub theirs : f.external ≡ some line
  pub once : lines_of_ref f.provider_ref external ≡ line ∷ []
  pub status : expected_external item.status ≡ some line.status
  pub amount : pos (to_paise line.amount) ≡ item.amount
  pub books : item.ledger_net ≡ expected_ledger_net flow item.status item.amount

status_agrees :
    (wanted : Option ProviderStatus) (reported : ProviderStatus)
    → status_differs wanted reported ≡ false
    → wanted ≡ some reported
status_agrees none reported h = cc
status_agrees (some wanted) reported h = ground arith

compare_item-matched :
    (flow : Flow) (item : InternalItem) (line : ExternalLine)
    → (compare_item flow item line).0 ≡ matched
    → (expected_external item.status ≡ some line.status)
      × (pos (to_paise line.amount) ≡ item.amount)
      × (item.ledger_net ≡ expected_ledger_net flow item.status item.amount)
unfolding compare_item
compare_item-matched flow item line h =
    elim (Bool-cases (status_differs (expected_external item.status) line.status)) [
      | inl s ↦ absurd (ground (arith, s, h))
      | inr s ↦ elim (Bool-cases (eqb_ℤ (pos (to_paise line.amount)) item.amount)) [
        | inr a ↦ absurd (ground (arith, s, a, h))
        | inl a ↦
            elim (Bool-cases
              (eqb_ℤ item.ledger_net (expected_ledger_net flow item.status item.amount))) [
                | inr b ↦ absurd (ground (arith, s, a, b, h))
                | inl b ↦ (status_agrees _ _ s, (eqb_ℤ_iff _ _).0 a, (eqb_ℤ_iff _ _).0 b)
              ]
      ]
    ]

classify-matched :
    (flow : Flow) (found : Option InternalItem) (twice : Bool) (line : ExternalLine)
    → (classify flow found twice line).0 ≡ matched
    → (item : InternalItem) × (found ≡ some item)
      × (twice ≡ false)
      × ((compare_item flow item line).0 ≡ matched)
unfolding classify
classify-matched flow found true line h = absurd (ground (arith, h))
classify-matched flow none false line h = absurd (ground (arith, h))
classify-matched flow (some item) false line h = (item, refl, refl, h)

no_others : (ls : List ExternalLine) → ltb 0 (length ls) ≡ false → ls ≡ []
no_others [] h = refl
no_others (l ∷ ls) h = absurd (ground (arith, h))

group_finding-Agree :
    (flow : Flow) (lookup : String → Option InternalItem) (external : List ExternalLine) (g : Group)
    → Holds external g
    → (group_finding flow lookup g).status ≡ matched
    → Agree flow lookup external (group_finding flow lookup g)
unfolding group_finding
group_finding-Agree flow lookup external g holds h =
    let (item, ours, single, agreed) =
      classify-matched flow (lookup g.ref) (ltb 0 (length g.others)) g.first h in
    let parts = compare_item-matched flow item g.first agreed in
    record {
      item = item;
      line = g.first;
      ours = ours;
      theirs = refl;
      once = holds ∙ ap (λ rest. g.first ∷ rest) (no_others g.others single);
      status = parts.0;
      amount = parts.1;
      books = parts.2;
    }

group_findings-Agree :
    (flow : Flow) (lookup : String → Option InternalItem) (external : List ExternalLine)
    (gs : List Group)
    → All (Holds external) gs
    → All
        (λ f. f.status ≡ matched → Agree flow lookup external f)
        (map (group_finding flow lookup) gs)
group_findings-Agree flow lookup external [] h = tt
group_findings-Agree flow lookup external (g ∷ gs) h = (
  group_finding-Agree flow lookup external g h.0,
  group_findings-Agree flow lookup external gs h.1,
)

missing_findings-Agree :
    (flow : Flow) (lookup : String → Option InternalItem) (external : List ExternalLine)
    (gs : List Group) (items : List InternalItem)
    → All (λ f. f.status ≡ matched → Agree flow lookup external f) (missing_findings flow gs items)
unfolding missing_findings missing_finding
missing_findings-Agree flow lookup external gs [] = tt
missing_findings-Agree flow lookup external gs (item ∷ rest) =
    elim (Bool-cases (in_groups item.ref gs)) [
      | inl t ↦ rw (t) (missing_findings-Agree flow lookup external gs rest)
      | inr f ↦
          rw (f)
            ((λ h. absurd (ground (arith, h))), missing_findings-Agree flow lookup external gs rest)
    ]

-- A reference is reported as matched only if both sides agree on it: we have a record of it, the
-- report has exactly one line with it, the statuses and the amounts are the same, and the books
-- moved by that amount.
pub reconcile-Agree :
    (flow : Flow) (items : List InternalItem) (lookup : String → Option InternalItem)
    (external : List ExternalLine)
    → All
        (λ f. f.status ≡ matched → Agree flow lookup external f)
        (reconcile flow items lookup external)
unfolding reconcile
reconcile-Agree flow items lookup external =
    let gs = group_lines external in
    All-append _ (map (group_finding flow lookup) gs) _
      (group_findings-Agree flow lookup external gs (group_lines-Holds external))
      (missing_findings-Agree flow lookup external gs items)
