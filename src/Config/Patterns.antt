-- ===== src/Config/Patterns.antt =====
-- The checks of a route rule of src/config/rule.rs, and that what they let through is what `Router::new`
-- of src/router.rs accepts.
use load_ants.Prelude.{
  false, Bool, ◌≡◌, refl, ◌||◌, List, [], ◌∷◌, Option, none, some, is_empty, All, All-append, map,
  Bool-cases, Option-cases, inl, inr, if◌then◌else◌, arith,
}
use load_ants.Prelude.Texts.{Text, codes, dot, text_eq, strip_prefix}
use load_ants.Prelude.Words.{trim_end_matches, has_pair, starts_with}
use load_ants.Errors.{Result, ok, err, Result-cases}
use load_ants.Metrics.{Metrics}
use load_ants.Config.Rule.{RouteRuleConfig, MatchType, RouteAction, exact, wildcard, regex}
use load_ants.Router.{Patterns, Router}
use load_ants.Router.Build.{new}
use load_ants.Router.Suffix.{first_some}
use load_ants.Router.Entries.{Entry, entry, entries, entries_of, entry_error}
use load_ants.Router.Spec.{new-error}

unfoldable pub validate_patterns_not_empty : List Text → Result (Unit {0}) Text
validate_patterns_not_empty patterns =
    if is_empty patterns then err (codes "empty_patterns") else ok tt

abbrev invalid_wildcard : Text
invalid_wildcard = codes "invalid_wildcard_pattern"

-- The domain of a wildcard pattern, with the dots at its end taken off.
abbrev pub is_bad_suffix : Text → Bool
is_bad_suffix suffix = is_empty suffix || (starts_with suffix dot || has_pair dot suffix)

-- One round of the loop over the wildcard patterns.
abbrev pub check_suffix : Option Text → Result (Unit {0}) Text → Result (Unit {0}) Text
check_suffix none rest = err invalid_wildcard
check_suffix (some suffix) rest =
    if is_bad_suffix (trim_end_matches suffix dot) then err invalid_wildcard else rest

unfoldable pub validate_wildcards : List Text → Result (Unit {0}) Text
validate_wildcards [] = ok tt
validate_wildcards (pattern ∷ patterns) =
    let rest = validate_wildcards patterns in
    if text_eq pattern (codes "*")
    then rest
    else check_suffix (strip_prefix (codes "*.") pattern) rest

module _ (P : Patterns) where
  open P use {Regex, regex_new}

  abbrev pub check_regex : Result Regex Text → Result (Unit {0}) Text → Result (Unit {0}) Text
  check_regex (err e) rest = err (codes "invalid_regex_pattern")
  check_regex (ok re) rest = rest

  unfoldable pub validate_regexes : List Text → Result (Unit {0}) Text
  validate_regexes [] = ok tt
  validate_regexes (pattern ∷ patterns) =
      check_regex (regex_new pattern) (validate_regexes patterns)

  abbrev pub validate_patterns : MatchType → List Text → Result (Unit {0}) Text
  validate_patterns exact patterns = ok tt
  validate_patterns wildcard patterns = validate_wildcards patterns
  validate_patterns regex patterns = validate_regexes patterns

  unfoldable pub validate_route_rule_patterns : RouteRuleConfig → Result (Unit {0}) Text
  validate_route_rule_patterns rule = validate_patterns rule.match_type rule.patterns

  -- An entry that the router does not refuse.
  abbrev pub Fine : Entry → Type 0
  Fine e = entry_error P e ≡ none

  wildcard-Fine :
      (a : RouteAction) (target : Option Text) (pattern : Text) (rest : Result (Unit {0}) Text)
      → text_eq pattern (codes "*") ≡ false
      → check_suffix (strip_prefix (codes "*.") pattern) rest ≡ ok tt
      → Fine (entry wildcard a target pattern) × (rest ≡ ok tt)
  wildcard-Fine a target pattern rest e h =
      elim (Option-cases (strip_prefix (codes "*.") pattern)) [
        | inl f ↦ absurd (ground (arith, f, h))
        | inr (suffix, f) ↦ (rw (e, f) refl, ground (arith, f, h))
      ]

  wildcards-Fine :
      (a : RouteAction) (target : Option Text) (patterns : List Text)
      → validate_wildcards patterns ≡ ok tt
      → All Fine (map (entry wildcard a target) patterns)
  unfolding validate_wildcards
  wildcards-Fine a target [] h = tt
  wildcards-Fine a target (pattern ∷ patterns) h = elim (Bool-cases (text_eq pattern (codes "*"))) [
    | inl e ↦ (rw e refl, wildcards-Fine a target patterns (rw e at h))
    | inr e ↦
        let (fine, rest) =
          wildcard-Fine a target pattern (validate_wildcards patterns) e (rw e at h) in
        (fine, wildcards-Fine a target patterns rest)
  ]

  regexes-Fine :
      (a : RouteAction) (target : Option Text) (patterns : List Text)
      → validate_regexes patterns ≡ ok tt
      → All Fine (map (entry regex a target) patterns)
  unfolding validate_regexes
  regexes-Fine a target [] h = tt
  regexes-Fine a target (pattern ∷ patterns) h = elim (Result-cases (regex_new pattern)) [
    | inl (re, e) ↦ (rw e refl, regexes-Fine a target patterns (rw e at h))
    | inr (x, e) ↦ absurd (ground (arith, e, h))
  ]

  exacts-Fine :
      (a : RouteAction) (target : Option Text) (patterns : List Text)
      → All Fine (map (entry exact a target) patterns)
  exacts-Fine a target [] = tt
  exacts-Fine a target (pattern ∷ patterns) = (refl, exacts-Fine a target patterns)

  patterns-Fine :
      (t : MatchType) (a : RouteAction) (target : Option Text) (patterns : List Text)
      → validate_patterns t patterns ≡ ok tt
      → All Fine (map (entry t a target) patterns)
  patterns-Fine exact a target patterns h = exacts-Fine a target patterns
  patterns-Fine wildcard a target patterns h = wildcards-Fine a target patterns h
  patterns-Fine regex a target patterns h = regexes-Fine a target patterns h

  pub entries-Fine :
      (rules : List RouteRuleConfig)
      → All (λ rule. validate_route_rule_patterns rule ≡ ok tt) rules
      → All Fine (entries rules)
  unfolding validate_route_rule_patterns
  entries-Fine [] h = tt
  entries-Fine (rule ∷ rules) h =
      All-append Fine (entries_of rule) (entries rules)
        (patterns-Fine rule.match_type rule.action rule.target rule.patterns h.0)
        (entries-Fine rules h.1)

  pub first_some-none : (es : List Entry) → All Fine es → first_some (entry_error P) es ≡ none
  first_some-none [] h = refl
  first_some-none (e ∷ es) h = ground (arith, h.0, first_some-none es h.1)

  -- Rules whose patterns pass the check of the configuration always make a router.
  pub validate_route_rule_patterns-new :
      (rules : List RouteRuleConfig) (m : Metrics)
      → All (λ rule. validate_route_rule_patterns rule ≡ ok tt) rules
      → (router : Router Regex) × ((new P rules m).0 ≡ ok router)
  validate_route_rule_patterns-new rules m h = elim (Result-cases (new P rules m).0) [
    | inl made ↦ made
    | inr (e, failed) ↦
        let refused = (new-error P rules e m).0 failed in
        let fine = first_some-none (entries rules) (entries-Fine rules h) in absurd (cc)
  ]
