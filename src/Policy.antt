-- ===== src/Policy.antt =====
-- The policy engine (app/services/policy_engine.py and app/domain/policy.py): rules against the
-- snapshot of an application. A snapshot and a condition are lists of fields; what values there are,
-- and when two are equal, are parameters. The two amounts that are copied from the snapshot, ids and
-- times are left out.
pub mod Routing
use text.Mathlib.Text.{◌==◌ as str_eq}
use inpockets.Base.{
  ℕ, ltb, ◌==◌, String, Bool, true, false, not, ◌&&◌, ◌||◌, List, [], ◌∷◌, ◌++◌, Option, none, some,
  if◌then◌else◌, Result, ok, err, raise_if, ◌>>=◌, ◌>>◌, length,
}
use inpockets.Ledger.{codes, text_le}

pub data PolicyRuleEffect : Type 0 where
  allow require_manual_review require_additional_information require_external_provider reject :
      PolicyRuleEffect

pub data DecisionRoute : Type 0 where
  auto_approved manual_review auto_rejected : DecisionRoute
  pending_additional_information pending_external_provider error_requires_review : DecisionRoute

pub data PolicyError : Type 0 where
  snapshot_required rules_required explanation_required : PolicyError

pub record PolicyRule (Value : Type 0) : Type 0 where
  pub code : String
  pub order : ℕ
  pub effect : PolicyRuleEffect
  pub condition : List (String × Value)
  pub reason_code : Option String
  pub description : Option String

pub record PolicyEvaluation : Type 0 where
  pub decision_route : DecisionRoute
  pub matched_rule_codes : List String
  pub reasons : List String

-- `_route_for_effect`; no effect is left for its last line.
unfoldable pub route_for_effect : PolicyRuleEffect → DecisionRoute → DecisionRoute
route_for_effect require_manual_review current = manual_review
route_for_effect require_additional_information current = pending_additional_information
route_for_effect require_external_provider current = pending_external_provider
route_for_effect reject current = auto_rejected
route_for_effect allow current = current

-- The routes after which no further rule is read.
unfoldable pub is_terminal : DecisionRoute → Bool
is_terminal auto_approved = false
is_terminal manual_review = false
is_terminal _ = true

abbrev pub is_empty_text : Option String → Bool
is_empty_text none = true
is_empty_text (some s) = str_eq s ""

abbrev text_of : Option String → List String
text_of none = []
text_of (some s) = s ∷ []

-- The reason code of a rule, or else its description, or else nothing.
unfoldable pub reason_of : {Value : Type 0} → PolicyRule Value → List String
reason_of r =
    if not (is_empty_text r.reason_code)
    then text_of r.reason_code
    else if not (is_empty_text r.description)
    then text_of r.description
    else []

-- `(rule.order, rule.code)`
abbrev pub sorts_first : {Value : Type 0} → PolicyRule Value → PolicyRule Value → Bool
sorts_first r s =
    ltb r.order s.order || (r.order == s.order && text_le (codes r.code) (codes s.code))

unfoldable pub insert_rule :
    {Value : Type 0} → PolicyRule Value → List (PolicyRule Value) → List (PolicyRule Value)
insert_rule r [] = r ∷ []
insert_rule r (s ∷ rest) =
    let later = insert_rule r rest in if sorts_first r s then r ∷ s ∷ rest else s ∷ later

-- `sorted(rules, key=...)`
unfoldable pub sort_rules : {Value : Type 0} → List (PolicyRule Value) → List (PolicyRule Value)
sort_rules [] = []
sort_rules (r ∷ rest) = insert_rule r (sort_rules rest)

module _ {Value : Type 0} (missing : Value) (same : Value → Value → Bool) where
  -- `input_snapshot.get(field)`
  abbrev pub get : String → List (String × Value) → Value
  get field [] = missing
  get field ((name, value) ∷ rest) =
      let other = get field rest in if str_eq name field then value else other

  -- `_matches`
  unfoldable pub matches : List (String × Value) → List (String × Value) → Bool
  matches [] snapshot = true
  matches ((field, expected) ∷ rest) snapshot =
      same (get field snapshot) expected && matches rest snapshot

  -- The loop over the ordered rules, with what it has so far.
  unfoldable pub run_rules :
      List (PolicyRule Value) → List (String × Value) → PolicyEvaluation → PolicyEvaluation
  run_rules [] snapshot e = e
  run_rules (r ∷ rest) snapshot e =
      let route = route_for_effect r.effect e.decision_route in
      let next : PolicyEvaluation = record {
        decision_route = route;
        matched_rule_codes = e.matched_rule_codes ++ r.code ∷ [];
        reasons = e.reasons ++ reason_of r;
      } in
      let skipped = run_rules rest snapshot e in
      let further = run_rules rest snapshot next in
      if not (matches r.condition snapshot)
      then skipped
      else if is_terminal route
      then next
      else further

  -- The closing route, and the check of `PolicyEvaluation` that something explains it.
  unfoldable pub conclude : PolicyEvaluation → Result PolicyError PolicyEvaluation
  conclude e = do
    raise_if (length e.matched_rule_codes == 0 && length e.reasons == 0) explanation_required
    ok (elim e.decision_route [
      | auto_approved ↦ record e { decision_route = manual_review }
      | _ ↦ e
    ])

  unfoldable pub evaluate :
      List (PolicyRule Value) → List (String × Value) → Result PolicyError PolicyEvaluation
  evaluate rules snapshot = do
    raise_if (length snapshot == 0) snapshot_required
    raise_if (length rules == 0) rules_required
    conclude (
        run_rules (sort_rules rules) snapshot
          (record { decision_route = manual_review; matched_rule_codes = []; reasons = [] }))
