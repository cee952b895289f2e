-- ===== src/Router/Find.antt =====
-- `find_match` of src/router.rs and the four ways to match.
use load_ants.Prelude.{
  ℕ, zero, suc, List, [], ◌∷◌, ◌++◌, Option, none, some, length, ltb, leb, ◌==◌, if◌then◌else◌,
  reverse, is_empty, get_elem?,
}
use load_ants.Prelude.Texts.{Text, codes, dot, utf8_len, ends_with, pop, split}
use load_ants.Prelude.Assoc.{Assoc, get}
use load_ants.Errors.{Result, ok, err, AppError, no_route_match}
use load_ants.Metrics.{Metrics, ◌▸◌, inc, route_matches_total}
use load_ants.Config.Rule.{RouteAction, block, forward, action_label}
use load_ants.Router.{Patterns, CompiledRegexRule, WildcardRule, Prefilter, Router, RouteMatch}
use load_ants.Router.Names.{lower, reverse_domain_labels}

-- The label of a target: "none" where there is none.
abbrev pub target_label : Option Text → Text
target_label none = codes "none"
target_label (some t) = t

-- The counter of matches under the labels of a match.
abbrev pub count_match : Text → Option Text → RouteAction → Metrics → Metrics
count_match rule_type target action m =
    m
    ▸ inc route_matches_total
        (rule_type ∷ target_label target ∷ codes "static" ∷ action_label action ∷ [])

abbrev pub exact_rules : {R : Type 0} → Router R → RouteAction → Assoc (Option Text)
exact_rules r block = r.exact_block_rules
exact_rules r forward = r.exact_forward_rules

abbrev pub wildcard_rules : {R : Type 0} → Router R → RouteAction → Assoc WildcardRule
wildcard_rules r block = r.wildcard_block_rules
wildcard_rules r forward = r.wildcard_forward_rules

abbrev pub regex_rules : {R : Type 0} → Router R → RouteAction → List (CompiledRegexRule R)
regex_rules r block = r.regex_block_rules
regex_rules r forward = r.regex_forward_rules

abbrev pub regex_prefilter : {R : Type 0} → Router R → RouteAction → Prefilter
regex_prefilter r block = r.regex_block_prefilter
regex_prefilter r forward = r.regex_forward_prefilter

abbrev pub global_rule : {R : Type 0} → Router R → RouteAction → Option WildcardRule
global_rule r block = r.global_wildcard_block_rule
global_rule r forward = r.global_wildcard_forward_rule

-- `&key[..key.rfind('.')?]`
unfoldable pub before_last_dot : Text → Option Text
before_last_dot [] = none
before_last_dot (c ∷ s) = elim (before_last_dot s) [
  | some r ↦ some (c ∷ r)
  | none ↦ if c == dot then some [] else none
]

-- The loop of `try_wildcard_match` over ever shorter keys. The fuel is the length of the first key
-- and one: each round drops a dot.
unfoldable pub longest_key : ℕ → Assoc WildcardRule → Text → Option WildcardRule
longest_key zero rules key = none
longest_key (suc fuel) rules key = elim (get key rules) [
  | some rule ↦ some rule
  | none ↦ elim (before_last_dot key) [ some rest ↦ longest_key fuel rules rest | none ↦ none ]
]

-- `candidates.extend(...)` over the labels; a label shorter than two bytes is skipped.
unfoldable pub candidates_of : Prefilter → List Text → List ℕ
candidates_of prefilter [] = []
candidates_of prefilter (label ∷ labels) =
    (if ltb (utf8_len label) 2
      then []
      else elim (get label prefilter) [ some indices ↦ indices | none ↦ [] ])
    ++ candidates_of prefilter labels

-- `sort_unstable` and `dedup`
unfoldable pub insert_sorted : ℕ → List ℕ → List ℕ
insert_sorted i [] = i ∷ []
insert_sorted i (j ∷ js) = let rest = insert_sorted i js in if leb i j then i ∷ j ∷ js else j ∷ rest

unfoldable pub sort : List ℕ → List ℕ
sort [] = []
sort (i ∷ is) = insert_sorted i (sort is)

unfoldable pub dedup : List ℕ → List ℕ
dedup [] = []
dedup (i ∷ []) = i ∷ []
dedup (i ∷ j ∷ is) = let rest = dedup (j ∷ is) in if i == j then rest else i ∷ rest

module _ (P : Patterns) where
  open P use {Regex, is_match, to_lowercase}

  unfoldable pub try_exact_match :
      Router Regex → Text → RouteAction → Metrics → Option RouteMatch × Metrics
  try_exact_match r domain action m = elim (get domain (exact_rules r action)) [
    | none ↦ (none, m)
    | some target ↦ (
      some (record {
        domain = domain;
        action = action;
        target = target;
        rule_type = codes "exact";
        pattern = domain;
      }),
      count_match (codes "exact") target action m,
    )
  ]

  -- The match by a wildcard rule.
  abbrev pub wildcard_hit : Text → RouteAction → WildcardRule → RouteMatch
  wildcard_hit domain action rule = record {
    domain = domain;
    action = action;
    target = rule.target;
    rule_type = codes "wildcard";
    pattern = rule.pattern;
  }

  unfoldable pub try_wildcard_match :
      Router Regex → Text → RouteAction → Metrics → Option RouteMatch × Metrics
  try_wildcard_match r domain action m =
      let reversed = reverse_domain_labels domain in
      elim (longest_key (suc (length reversed)) (wildcard_rules r action) reversed) [
        | none ↦ (none, m)
        | some rule ↦ (
          some (wildcard_hit domain action rule),
          count_match (codes "wildcard") rule.target action m,
        )
      ]

  -- The loop over the candidates. An index out of range panics in the source; `Router.RegexSpec`
  -- shows that none is stored.
  unfoldable pub first_regex :
      List (CompiledRegexRule Regex) → Text → List ℕ → Option (CompiledRegexRule Regex)
  first_regex rules domain [] = none
  first_regex rules domain (i ∷ is) = elim (get_elem? rules i) [
    | none ↦ none
    | some rule ↦ if is_match rule.regex domain then some rule else first_regex rules domain is
  ]

  -- The candidates of a domain, in the order in which they are tried.
  unfoldable pub candidates : Prefilter → Text → List ℕ
  candidates prefilter domain = reverse (dedup (sort (candidates_of prefilter (split dot domain))))

  unfoldable pub try_regex_match :
      Router Regex → Text → RouteAction → Metrics → Option RouteMatch × Metrics
  try_regex_match r domain action m =
      if is_empty (regex_rules r action)
      then (none, m)
      else elim (first_regex (regex_rules r action) domain
          (candidates (regex_prefilter r action) domain)) [
            | none ↦ (none, m)
            | some rule ↦ (
              some (record {
                domain = domain;
                action = action;
                target = rule.target;
                rule_type = codes "regex";
                pattern = rule.pattern;
              }),
              count_match (codes "regex") rule.target action m,
            )
          ]

  unfoldable pub try_global_wildcard_match :
      Router Regex → Text → RouteAction → Metrics → Option RouteMatch × Metrics
  try_global_wildcard_match r domain action m = elim (global_rule r action) [
    | none ↦ (none, m)
    | some rule ↦ (
      some (wildcard_hit domain action rule),
      count_match (codes "wildcard") rule.target action m,
    )
  ]

  -- `if let Some(match_result) = attempt { return Ok(match_result) }`, then the rest
  abbrev pub or_else :
      Option RouteMatch × Metrics
      → (Metrics → Result RouteMatch AppError × Metrics)
      → Result RouteMatch AppError × Metrics
  or_else (some found, m) rest = (ok found, m)
  or_else (none, m) rest = rest m

  -- The four ways to match under one action.
  abbrev pub try_action :
      Router Regex
      → Text
      → RouteAction
      → Metrics
      → (Metrics → Result RouteMatch AppError × Metrics)
      → Result RouteMatch AppError × Metrics
  try_action r domain action m rest = or_else (try_exact_match r domain action m) λ m.
      or_else (try_wildcard_match r domain action m) λ m.
        or_else (try_regex_match r domain action m)
          λ m. or_else (try_global_wildcard_match r domain action m) rest

  -- `query_name` is what `Name::to_string` displays.
  unfoldable pub find_match : Router Regex → Text → Metrics → Result RouteMatch AppError × Metrics
  find_match r query_name m =
      let name = if ends_with query_name dot then pop query_name else query_name in
      if is_empty name
      then (err (no_route_match name), m)
      else let domain = lower to_lowercase name in
        try_action r domain block m
          λ m. try_action r domain forward m λ m. (err (no_route_match domain), m)
