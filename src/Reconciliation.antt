-- ===== src/Reconciliation.antt =====
-- Reconciliation with the provider's report (app/domain/reconciliation.py). Our amounts are signed paise;
-- an amount of the report is a `Decimal` that is not negative, as the service has checked.
-- A dictionary is a list of its items in the order of insertion; a reference is a text, and the
-- sentence that a finding carries for its reader is left out.
pub mod Grouping
pub mod Matching
pub mod Counting
use text.Mathlib.Text.{◌==◌ as str_eq}
use inpockets.Base.{
  ℕ, zero, suc, ◌+◌, ltb, String, Bool, true, false, not, ◌&&◌, ◌||◌, List, [], ◌∷◌, ◌++◌, map,
  Option, none, some, if◌then◌else◌, length,
}
use inpockets.Base.Int.{ℤ, pos, negate, eqb_ℤ}
use inpockets.Base.Precision.{Number, to_paise}

pub data Flow : Type 0 where
  collection disbursement : Flow

pub data RecordStatus : Type 0 where
  matched unmatched mismatch requires_review : RecordStatus

pub data Discrepancy : Type 0 where
  missing_external missing_internal amount_mismatch status_mismatch duplicate_external
        ledger_mismatch :
      Discrepancy

pub data ProviderStatus : Type 0 where
  settled failed reversed other : ProviderStatus

-- Our statuses: those that have an expected external status, and the others.
pub data OurStatus : Type 0 where
  was_success was_reversed was_failed unsettled : OurStatus

-- The table `EXPECTED_EXTERNAL`.
unfoldable pub expected_external : OurStatus → Option ProviderStatus
expected_external was_success = some settled
expected_external was_reversed = some reversed
expected_external was_failed = some failed
expected_external unsettled = none

pub record InternalItem : Type 0 where
  pub id : ℕ
  pub ref : String
  pub amount : ℤ
  pub status : OurStatus
  pub ledger_net : ℤ

pub record ExternalLine : Type 0 where
  pub line_id : String
  pub ref : String
  pub amount : Number
  pub status : ProviderStatus

pub record Finding : Type 0 where
  pub provider_ref : String
  pub status : RecordStatus
  pub discrepancy : Option Discrepancy
  pub internal : Option InternalItem
  pub external : Option ExternalLine
  pub external_count : ℕ
  pub expected_ledger_net : Option ℤ

unfoldable pub expected_ledger_net : Flow → OurStatus → ℤ → ℤ
expected_ledger_net collection was_success amount = amount
expected_ledger_net disbursement was_success amount = negate amount
expected_ledger_net flow _ amount = pos 0

-- `groups.setdefault(line.ref, []).append(line)`; a group has a first line and the others.
pub record Group : Type 0 where
  pub ref : String
  pub first : ExternalLine
  pub others : List ExternalLine

unfoldable pub add_line : ExternalLine → List Group → List Group
add_line line [] = record { ref = line.ref; first = line; others = [] } ∷ []
add_line line (g ∷ rest) =
    let further = add_line line rest in
    if str_eq g.ref line.ref
    then record g { others = g.others ++ line ∷ [] } ∷ rest
    else g ∷ further

unfoldable pub group_from : List ExternalLine → List Group → List Group
group_from [] groups = groups
group_from (line ∷ rest) groups = group_from rest (add_line line groups)

unfoldable pub group_lines : List ExternalLine → List Group
group_lines external = group_from external []

abbrev pub same_provider_status : ProviderStatus → ProviderStatus → Bool
same_provider_status settled settled = true
same_provider_status failed failed = true
same_provider_status reversed reversed = true
same_provider_status _ _ = false

-- `wanted is None or first.status != wanted`
abbrev pub status_differs : Option ProviderStatus → ProviderStatus → Bool
status_differs none reported = true
status_differs (some wanted) reported = not (same_provider_status reported wanted)

-- What is found of an item and the one line of its reference.
unfoldable pub compare_item : Flow → InternalItem → ExternalLine → RecordStatus × Option Discrepancy
compare_item flow item first =
    if status_differs (expected_external item.status) first.status
    then (mismatch, some status_mismatch)
    else if not (eqb_ℤ (pos (to_paise first.amount)) item.amount)
    then (mismatch, some amount_mismatch)
    else if not (eqb_ℤ item.ledger_net (expected_ledger_net flow item.status item.amount))
    then (requires_review, some ledger_mismatch)
    else (matched, none)

unfoldable pub classify :
    Flow → Option InternalItem → Bool → ExternalLine → RecordStatus × Option Discrepancy
classify flow item true first = (requires_review, some duplicate_external)
classify flow none false first = (unmatched, some missing_internal)
classify flow (some item) false first = compare_item flow item first

abbrev pub expected_of : Flow → Option InternalItem → Option ℤ
expected_of flow none = none
expected_of flow (some item) = some (expected_ledger_net flow item.status item.amount)

-- The finding of a group.
unfoldable pub group_finding : Flow → (String → Option InternalItem) → Group → Finding
group_finding flow lookup g =
    let item = lookup g.ref in
    let found = classify flow item (ltb 0 (length g.others)) g.first in
    record {
      provider_ref = g.ref;
      status = found.0;
      discrepancy = found.1;
      internal = item;
      external = some g.first;
      external_count = suc (length g.others);
      expected_ledger_net = expected_of flow item;
    }

abbrev pub in_groups : String → List Group → Bool
in_groups ref [] = false
in_groups ref (g ∷ rest) = str_eq g.ref ref || in_groups ref rest

unfoldable pub missing_finding : Flow → InternalItem → Finding
missing_finding flow item = record {
  provider_ref = item.ref;
  status = unmatched;
  discrepancy = some missing_external;
  internal = some item;
  external = none;
  external_count = 0;
  expected_ledger_net = some (expected_ledger_net flow item.status item.amount);
}

-- The items of the day that the report does not list.
unfoldable pub missing_findings : Flow → List Group → List InternalItem → List Finding
missing_findings flow groups [] = []
missing_findings flow groups (item ∷ rest) =
    let further = missing_findings flow groups rest in
    if in_groups item.ref groups then further else missing_finding flow item ∷ further

unfoldable pub reconcile :
    Flow → List InternalItem → (String → Option InternalItem) → List ExternalLine → List Finding
reconcile flow window_items lookup external =
    let groups = group_lines external in
    map (group_finding flow lookup) groups ++ missing_findings flow groups window_items

pub record Summary : Type 0 where
  pub matched : ℕ
  pub unmatched : ℕ
  pub mismatch : ℕ
  pub requires_review : ℕ

unfoldable pub count_in : RecordStatus → Summary → Summary
count_in matched s = record s { matched = s.matched + 1 }
count_in unmatched s = record s { unmatched = s.unmatched + 1 }
count_in mismatch s = record s { mismatch = s.mismatch + 1 }
count_in requires_review s = record s { requires_review = s.requires_review + 1 }

unfoldable pub summarize_from : List Finding → Summary → Summary
summarize_from [] s = s
summarize_from (f ∷ rest) s = summarize_from rest (count_in f.status s)

unfoldable pub summarize : List Finding → Summary
summarize findings =
    summarize_from findings
      (record { matched = 0; unmatched = 0; mismatch = 0; requires_review = 0 })
