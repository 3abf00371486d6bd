-- ===== src/Policy/Routing.antt =====
-- Which rule decides (`evaluate` of app/services/policy_engine.py).
use inpockets.Base.{
  ◌==◌, String, Bool, true, false, ◌&&◌, List, [], ◌∷◌, ◌++◌, map, if◌then◌else◌, ok, err, length,
  keep, All, Bool-cases, ◌≡◌, ◌≢◌, inl, inr, refl, ap, ◌∙◌, arith,
}
use inpockets.Policy.{
  PolicyRuleEffect, allow, require_manual_review, auto_approved, manual_review,
  explanation_required, PolicyRule, PolicyEvaluation, route_for_effect, is_terminal, reason_of,
  sort_rules, matches, run_rules, conclude, evaluate,
}

abbrev pub start : PolicyEvaluation
start = record { decision_route = manual_review; matched_rule_codes = []; reasons = [] }

-- An effect that ends the evaluation.
abbrev pub ends : PolicyRuleEffect → Bool
ends allow = false
ends require_manual_review = false
ends _ = true

module _ {Value : Type 0} (missing : Value) (same : Value → Value → Bool) where
  -- A rule that matches and ends the evaluation.
  abbrev pub decides : List (String × Value) → PolicyRule Value → Bool
  decides snapshot r = matches missing same r.condition snapshot && ends r.effect

  abbrev pub matched_codes : List (String × Value) → List (PolicyRule Value) → List String
  matched_codes snapshot rules =
      map (λ r. r.code) (keep (λ r. matches missing same r.condition snapshot) rules)

  -- What the loop has after rules of which none decides.
  abbrev pub after_rules :
      List (String × Value) → List (PolicyRule Value) → PolicyEvaluation → PolicyEvaluation
  after_rules snapshot [] e = e
  after_rules snapshot (r ∷ rest) e =
      let next : PolicyEvaluation = record {
        decision_route = manual_review;
        matched_rule_codes = e.matched_rule_codes ++ r.code ∷ [];
        reasons = e.reasons ++ reason_of r;
      } in
      let taken = after_rules snapshot rest next in
      let skipped = after_rules snapshot rest e in
      if matches missing same r.condition snapshot then taken else skipped

  route_stays :
      (f : PolicyRuleEffect) → ends f ≡ false → route_for_effect f manual_review ≡ manual_review
  unfolding route_for_effect
  route_stays f h = ground arith

  run_rules-passes :
      (snapshot : List (String × Value)) (before after : List (PolicyRule Value))
      (e : PolicyEvaluation)
      → All (λ r. decides snapshot r ≡ false) before
      → e.decision_route ≡ manual_review
      → run_rules missing same (before ++ after) snapshot e
        ≡ run_rules missing same after snapshot (after_rules snapshot before e)
  unfolding run_rules is_terminal
  run_rules-passes snapshot [] after e h m = refl
  run_rules-passes snapshot (r ∷ before) after e h m =
      elim (Bool-cases (matches missing same r.condition snapshot)) [
        | inr f ↦ rw f (run_rules-passes snapshot before after e h.1 m)
        | inl t ↦
            (let stays : route_for_effect r.effect e.decision_route ≡ manual_review =
                rw m (route_stays r.effect (ground (arith, t, h.0))) in
              rw (t, stays) (run_rules-passes snapshot before after _ h.1 refl))
      ]

  after_rules-route :
      (snapshot : List (String × Value)) (rules : List (PolicyRule Value)) (e : PolicyEvaluation)
      → e.decision_route ≡ manual_review
      → (after_rules snapshot rules e).decision_route ≡ manual_review
  after_rules-route snapshot [] e m = m
  after_rules-route snapshot (r ∷ rest) e m =
      elim (Bool-cases (matches missing same r.condition snapshot)) [
        | inl t ↦ rw t (after_rules-route snapshot rest _ refl)
        | inr f ↦ rw f (after_rules-route snapshot rest e m)
      ]

  append_assoc : (xs ys zs : List String) → (xs ++ ys) ++ zs ≡ xs ++ (ys ++ zs)
  append_assoc [] ys zs = refl
  append_assoc (x ∷ xs) ys zs = ap (λ k. x ∷ k) (append_assoc xs ys zs)

  append_nil : (xs : List String) → xs ≡ xs ++ []
  append_nil [] = refl
  append_nil (x ∷ xs) = ap (λ k. x ∷ k) (append_nil xs)

  after_rules-matched_codes :
      (snapshot : List (String × Value)) (rules : List (PolicyRule Value)) (e : PolicyEvaluation)
      → (after_rules snapshot rules e).matched_rule_codes
        ≡ e.matched_rule_codes ++ matched_codes snapshot rules
  after_rules-matched_codes snapshot [] e = append_nil e.matched_rule_codes
  after_rules-matched_codes snapshot (r ∷ rest) e =
      elim (Bool-cases (matches missing same r.condition snapshot)) [
        | inl t ↦ rw t (
            after_rules-matched_codes snapshot rest _
            ∙ append_assoc e.matched_rule_codes (r.code ∷ []) _)
        | inr f ↦ rw f (after_rules-matched_codes snapshot rest e)
      ]

  run_rules_decided :
      (snapshot : List (String × Value)) (before after : List (PolicyRule Value))
      (r : PolicyRule Value)
      → All (λ b. decides snapshot b ≡ false) before
      → decides snapshot r ≡ true
      → let e = run_rules missing same (before ++ r ∷ after) snapshot start in
        (e.decision_route ≡ route_for_effect r.effect manual_review)
        × (e.matched_rule_codes ≡ matched_codes snapshot before ++ r.code ∷ [])
        × (is_terminal e.decision_route ≡ true)
  unfolding run_rules is_terminal route_for_effect
  run_rules_decided snapshot before after r h d =
      let mid = after_rules snapshot before start in
      let m = after_rules-route snapshot before start refl in
      let c = after_rules-matched_codes snapshot before start in
      let t : matches missing same r.condition snapshot ≡ true = ground (arith, d) in
      let over : is_terminal (route_for_effect r.effect mid.decision_route) ≡ true =
        rw m (ground (arith, d)) in
      rw (run_rules-passes snapshot before (r ∷ after) start h refl) (
        rw (t, over)
          (ap (route_for_effect r.effect) m, ap (λ (k : List String). k ++ r.code ∷ []) c, over))

  conclude_decided :
      (e : PolicyEvaluation) (cs : List String) (c : String)
      → is_terminal e.decision_route ≡ true
      → e.matched_rule_codes ≡ cs ++ c ∷ []
      → conclude missing same e ≡ ok e
  unfolding conclude is_terminal
  conclude_decided e [] c t h = ground (arith, t, h)
  conclude_decided e (d ∷ cs) c t h = ground (arith, t, h)

  -- The first rule of the order that matches and ends the evaluation decides the route, whatever
  -- comes after it, and the codes that are reported are those of the matching rules up to it, where
  -- the snapshot and the rules are not empty.
  pub evaluate_decided :
      (rules : List (PolicyRule Value)) (snapshot : List (String × Value))
      (before after : List (PolicyRule Value)) (r : PolicyRule Value)
      → (length snapshot == 0) ≡ false
      → (length rules == 0) ≡ false
      → sort_rules rules ≡ before ++ r ∷ after
      → All (λ b. decides snapshot b ≡ false) before
      → decides snapshot r ≡ true
      → (e : PolicyEvaluation) × (evaluate missing same rules snapshot ≡ ok e)
        × (e.decision_route ≡ route_for_effect r.effect manual_review)
        × (e.matched_rule_codes ≡ matched_codes snapshot before ++ r.code ∷ [])
  unfolding evaluate
  evaluate_decided rules snapshot before after r s n o h d =
      let e = run_rules missing same (before ++ r ∷ after) snapshot start in
      let (route, codes, over) = run_rules_decided snapshot before after r h d in
      (
        e,
        rw (s, n, o) (conclude_decided e (matched_codes snapshot before) r.code over codes),
        route,
        codes,
      )

  conclude-route :
      (e e' : PolicyEvaluation)
      → conclude missing same e ≡ ok e'
      → e'.decision_route ≢ auto_approved
  unfolding conclude
  conclude-route e e' h a =
      elim (Bool-cases (length e.matched_rule_codes == 0 && length e.reasons == 0)) [
        | inl t ↦ ground (arith, t, h)
        | inr f ↦ ground (arith, f, h, a)
      ]

  -- No application is approved by the rules alone.
  pub evaluate-route :
      (rules : List (PolicyRule Value)) (snapshot : List (String × Value)) (e : PolicyEvaluation)
      → evaluate missing same rules snapshot ≡ ok e
      → e.decision_route ≢ auto_approved
  unfolding evaluate
  evaluate-route rules snapshot e h = elim (Bool-cases (length snapshot == 0)) [
    | inl t ↦ absurd (ground (arith, t, h))
    | inr f ↦ elim (Bool-cases (length rules == 0)) [
      | inl t ↦ absurd (ground (arith, f, t, h))
      | inr g ↦
          conclude-route (run_rules missing same (sort_rules rules) snapshot start) e
            (ground (arith, f, g, h))
    ]
  ]

  unmatched :
      (snapshot : List (String × Value)) (rules : List (PolicyRule Value)) (e : PolicyEvaluation)
      → All (λ r. matches missing same r.condition snapshot ≡ false) rules
      → run_rules missing same rules snapshot e ≡ e
  unfolding run_rules
  unmatched snapshot [] e h = refl
  unmatched snapshot (r ∷ rest) e h = rw (h.0) (unmatched snapshot rest e h.1)

  -- Where no rule matches there is no evaluation: the lack of an explanation is an error, with a
  -- snapshot and rules that are not empty.
  pub evaluate_unmatched :
      (rules : List (PolicyRule Value)) (snapshot : List (String × Value))
      → (length snapshot == 0) ≡ false
      → (length rules == 0) ≡ false
      → All (λ r. matches missing same r.condition snapshot ≡ false) (sort_rules rules)
      → evaluate missing same rules snapshot ≡ err explanation_required
  unfolding evaluate conclude
  evaluate_unmatched rules snapshot s n h = rw (s, n, unmatched snapshot (sort_rules rules) start h)
