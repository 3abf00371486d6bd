-- ===== src/Examples/Deciding.antt =====
-- Runs of the policy engine (app/services/policy_engine.py): fields that hold a truth value.
use inpockets.Base.{
  String, Bool, true, false, List, [], ◌∷◌, ◌++◌, All, Option, none, some, ok, err, ◌≡◌, refl,
}
use inpockets.Policy.{
  PolicyRule, require_manual_review, reject, manual_review, auto_rejected, PolicyEvaluation,
  explanation_required, route_for_effect, is_terminal, reason_of, insert_rule, sort_rules, matches,
  run_rules, conclude, evaluate,
}
use inpockets.Policy.Routing.{matched_codes, evaluate_decided, evaluate_unmatched}

-- A missing field reads as `none`.
abbrev equal : Option Bool → Option Bool → Bool
equal none none = true
equal (some true) (some true) = true
equal (some false) (some false) = true
equal _ _ = false

abbrev look_closer : PolicyRule (Option Bool)
look_closer = record {
  code = "new_customer";
  order = 1;
  effect = require_manual_review;
  condition = ("new", some true) ∷ [];
  reason_code = none;
  description = none;
}

abbrev turn_down : PolicyRule (Option Bool)
turn_down = record {
  code = "fraud";
  order = 2;
  effect = reject;
  condition = ("fraud", some true) ∷ [];
  reason_code = some "FRAUD";
  description = none;
}

abbrev rules : List (PolicyRule (Option Bool))
rules = turn_down ∷ look_closer ∷ []

abbrev snapshot : List (String × Option Bool)
snapshot = ("new", some true) ∷ ("fraud", some true) ∷ []

abbrev quiet : List (String × Option Bool)
quiet = ("new", some false) ∷ []

ordered : sort_rules rules ≡ look_closer ∷ turn_down ∷ []
unfolding sort_rules insert_rule
ordered = refl

turn_down-matches : matches none equal turn_down.condition snapshot ≡ true
unfolding matches
turn_down-matches = refl

look_closer-matches : matches none equal look_closer.condition snapshot ≡ true
unfolding matches
look_closer-matches = refl

evaluate_decided_example :
    (e : PolicyEvaluation) × (evaluate none equal rules snapshot ≡ ok e)
    × (e.decision_route ≡ route_for_effect reject manual_review)
    × (e.matched_rule_codes ≡ matched_codes none equal snapshot (look_closer ∷ []) ++ "fraud" ∷ [])
evaluate_decided_example =
    evaluate_decided none equal rules snapshot (look_closer ∷ []) [] turn_down refl refl ordered
      (rw look_closer-matches (refl, tt)) (rw turn_down-matches refl)

abbrev rejected : PolicyEvaluation
rejected = record {
  decision_route = auto_rejected;
  matched_rule_codes = "new_customer" ∷ "fraud" ∷ [];
  reasons = "FRAUD" ∷ [];
}

rejected_ok : evaluate none equal rules snapshot ≡ ok rejected
unfolding evaluate conclude run_rules sort_rules insert_rule matches route_for_effect is_terminal
    reason_of
rejected_ok = refl

nothing_matches : All (λ r. matches none equal r.condition quiet ≡ false) (sort_rules rules)
unfolding matches sort_rules insert_rule
nothing_matches = (refl, (refl, tt))

evaluate_unmatched_example : evaluate none equal rules quiet ≡ err explanation_required
evaluate_unmatched_example = evaluate_unmatched none equal rules quiet refl refl nothing_matches
