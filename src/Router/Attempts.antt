-- ===== src/Router/Attempts.antt =====
-- The four ways to match of src/router.rs, each against its description, for a router that holds
-- what the entries say.
use mathlib.Core.Path.{fun_ext}
use load_ants.Prelude.{◌≡◌, refl, ap, ◌∙◌, true, List, [], ◌∷◌, Option, none, some, arith, is_empty}
use load_ants.Prelude.Texts.{Text, dot, split}
use load_ants.Prelude.Assoc.{get}
use load_ants.Errors.{Result, ok, AppError}
use load_ants.Metrics.{Metrics}
use load_ants.Config.Rule.{RouteAction, block, forward, RouteRuleConfig}
use load_ants.Router.{Patterns, Router, RouteMatch}
use load_ants.Router.Names.{reverse_domain_labels}
use load_ants.Router.Suffix.{first_some, suffixes, longest_key-eq-first_some}
use load_ants.Router.LastRegex.{last_some}
use load_ants.Router.RegexSpec.{chosen, first_regex-candidates}
use load_ants.Router.Prefilter.{build_regex_prefilter}
use load_ants.Router.Entries.{
  Entry, entries, exact_entry, suffix_entry, global_entry, regex_entries,
}
use load_ants.Router.Build.{Tables, fill_tables, finish}
use load_ants.Router.BuildSpec.{
  fill_tables-exact, fill_tables-suffix, fill_tables-global, fill_tables-regex,
}
use load_ants.Router.Find.{
  count_match, exact_rules, wildcard_rules, regex_rules, regex_prefilter, global_rule, first_regex,
  candidates, try_exact_match, try_wildcard_match, try_regex_match, try_global_wildcard_match,
  try_action, or_else,
}
use load_ants.Router.Route.{or, counted_hit, exact_match, wildcard_match, regex_match, route_action}

-- The hit, counted, or what the rest does.
abbrev pub serve :
    Option RouteMatch
    → (Metrics → Result RouteMatch AppError × Metrics)
    → Metrics
    → Result RouteMatch AppError × Metrics
serve (some x) rest m = (ok x, count_match x.rule_type x.target x.action m)
serve none rest m = rest m

module _ (P : Patterns) (attempt : Metrics → Option RouteMatch × Metrics)
    (a : Option RouteMatch) where
  or_else_last :
      (rest : Metrics → Result RouteMatch AppError × Metrics)
      → ((m : Metrics) → attempt m ≡ counted_hit a m)
      → (m : Metrics) → or_else P (attempt m) rest ≡ serve a rest m
  or_else_last rest tried m = ground (arith, tried m)

  or_else-serve :
      (b : Option RouteMatch) (next rest : Metrics → Result RouteMatch AppError × Metrics)
      → ((m : Metrics) → attempt m ≡ counted_hit a m)
      → ((m : Metrics) → next m ≡ serve b rest m)
      → (m : Metrics) → or_else P (attempt m) next ≡ serve (or a b) rest m
  or_else-serve b next rest tried after m = ground (arith, tried m, after m)

module _ (P : Patterns) where
  open P use {Regex, to_lowercase}

  last_some_of_empty :
      {A B : Type 0} (f : A → Option B) (l : List A) → is_empty l ≡ true → last_some f l ≡ none
  last_some_of_empty f [] e = refl
  last_some_of_empty f (x ∷ l) e = cc

  -- A router that holds what the entries say.
  pub record Holds (es : List Entry) (r : Router Regex) (action : RouteAction) : Type 0 where
    by_domain : (d : Text) → get d (exact_rules r action) ≡ last_some (exact_entry P action d) es
    by_suffix :
        (s : Text)
        → get (reverse_domain_labels s) (wildcard_rules r action)
          ≡ last_some (suffix_entry P action s) es
    for_all : global_rule r action ≡ last_some (global_entry P action) es
    by_regex : regex_rules r action ≡ regex_entries P action es
    filtered : regex_prefilter r action ≡ build_regex_prefilter to_lowercase (regex_rules r action)

  pub finish-Holds :
      (rules : List RouteRuleConfig) (t : Tables Regex)
      → fill_tables P rules ≡ ok t
      → (action : RouteAction) → Holds (entries rules) (finish P t) action
  unfolding finish
  finish-Holds rules t h block = record {
    by_domain = fill_tables-exact P rules t h block;
    by_suffix = fill_tables-suffix P rules t h block;
    for_all = fill_tables-global P rules t h block;
    by_regex = fill_tables-regex P rules t h block;
    filtered = refl;
  }
  finish-Holds rules t h forward = record {
    by_domain = fill_tables-exact P rules t h forward;
    by_suffix = fill_tables-suffix P rules t h forward;
    for_all = fill_tables-global P rules t h forward;
    by_regex = fill_tables-regex P rules t h forward;
    filtered = refl;
  }

  module _ (es : List Entry) (r : Router Regex) (action : RouteAction) (holds : Holds es r action)
      (domain : Text) (m : Metrics) where
    try_exact_match_lem :
        try_exact_match P r domain action m
        ≡ counted_hit (exact_match action domain (last_some (exact_entry P action domain) es)) m
    unfolding try_exact_match
    try_exact_match_lem = ground (arith, holds.by_domain domain)

    try_wildcard_match_lem :
        try_wildcard_match P r domain action m
        ≡ counted_hit
            (wildcard_match action domain (
              first_some
                (λ s. last_some (suffix_entry P action s) es)
                (suffixes (split dot domain))))
            m
    unfolding try_wildcard_match
    try_wildcard_match_lem =
        let e =
          longest_key-eq-first_some (wildcard_rules r action) domain
          ∙ ap (λ f. first_some f (suffixes (split dot domain))) (fun_ext holds.by_suffix) in
        ground (arith, e)

    first_regex-chosen :
        first_regex P (regex_rules r action) domain (candidates P (regex_prefilter r action) domain)
        ≡ last_some (chosen P domain) (regex_entries P action es)
    first_regex-chosen =
        ap (λ f. first_regex P (regex_rules r action) domain (candidates P f domain)) holds.filtered
        ∙ first_regex-candidates P domain (regex_rules r action)
        ∙ ap (last_some (chosen P domain)) holds.by_regex

    try_regex_match_lem :
        try_regex_match P r domain action m
        ≡ counted_hit
            (regex_match action domain (last_some (chosen P domain) (regex_entries P action es)))
            m
    unfolding try_regex_match
    try_regex_match_lem =
        let none_left = last_some_of_empty (chosen P domain) (regex_entries P action es) in
        ground (arith, first_regex-chosen, none_left, holds.by_regex)

    try_global_wildcard_match_lem :
        try_global_wildcard_match P r domain action m
        ≡ counted_hit (wildcard_match action domain (last_some (global_entry P action) es)) m
    unfolding try_global_wildcard_match
    try_global_wildcard_match_lem = ground (arith, holds.for_all)

  module _ (es : List Entry) (r : Router Regex) (action : RouteAction) (holds : Holds es r action)
      (domain : Text) where
    -- Under one action: the described hit, counted, or the rest.
    pub try_action_lem :
        (rest : Metrics → Result RouteMatch AppError × Metrics) (m : Metrics)
        → try_action P r domain action m rest ≡ serve (route_action P es action domain) rest m
    try_action_lem rest =
        or_else-serve P _ _ _ _ rest (try_exact_match_lem es r action holds domain) (
          or_else-serve P _ _ _ _ rest (try_wildcard_match_lem es r action holds domain) (
            or_else-serve P _ _ _ _ rest (try_regex_match_lem es r action holds domain)
              (or_else_last P _ _ rest (try_global_wildcard_match_lem es r action holds domain))))
