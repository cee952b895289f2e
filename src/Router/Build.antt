-- ===== src/Router/Build.antt =====
-- `Router::new` of src/router.rs.
use load_ants.Prelude.{ℕ, ◌+◌, List, [], ◌∷◌, ◌++◌, Option, none, some, length, if◌then◌else◌}
use load_ants.Prelude.Texts.{Text, codes, text_eq, strip_prefix}
use load_ants.Prelude.Assoc.{Assoc, insert}
use load_ants.Errors.{Result, ok, err, ◌>>=◌, map_err, try_fold, ConfigError}
use load_ants.Metrics.{Metrics, ◌▸◌, set, route_rules_count}
use load_ants.Config.Rule.{
  RouteAction, MatchType, block, forward, exact, wildcard, regex, RouteRuleConfig,
}
use load_ants.Router.{Patterns, CompiledRegexRule, WildcardRule, Router}
use load_ants.Router.Names.{normalize_domain_like, reverse_domain_labels}
use load_ants.Router.Prefilter.{build_regex_prefilter}

abbrev pub global_pattern : Text
global_pattern = codes "*"

-- The local variables of `new`, before the prefilters are built.
pub record Tables (Regex : Type 0) : Type 0 where
  pub exact_block : Assoc (Option Text)
  pub exact_forward : Assoc (Option Text)
  pub wildcard_block : Assoc WildcardRule
  pub wildcard_forward : Assoc WildcardRule
  pub global_block : Option WildcardRule
  pub global_forward : Option WildcardRule
  pub regex_block : List (CompiledRegexRule Regex)
  pub regex_forward : List (CompiledRegexRule Regex)

abbrev pub no_tables : {Regex : Type 0} → Tables Regex
no_tables = record {
  exact_block = [];
  exact_forward = [];
  wildcard_block = [];
  wildcard_forward = [];
  global_block = none;
  global_forward = none;
  regex_block = [];
  regex_forward = [];
}

abbrev pub invalid_wildcard : Text → ConfigError
invalid_wildcard pattern =
    ConfigError.invalid_route_rule
      (codes "Invalid wildcard pattern '" ++ pattern ++ codes "': expected '*.domain.tld' or '*'")

module _ (P : Patterns) where
  open P use {Regex, regex_new, to_lowercase}

  -- The body of the loop over the patterns, for each match type.
  unfoldable pub add_exact : RouteAction → Option Text → Tables Regex → Text → Tables Regex
  add_exact block target t pattern = record t {
    exact_block = insert (normalize_domain_like to_lowercase pattern) target t.exact_block;
  }
  add_exact forward target t pattern = record t {
    exact_forward = insert (normalize_domain_like to_lowercase pattern) target t.exact_forward;
  }

  unfoldable pub add_global : RouteAction → Option Text → Tables Regex → Text → Tables Regex
  add_global block target t pattern = record t {
    global_block = some (record { target = target; pattern = pattern });
  }
  add_global forward target t pattern = record t {
    global_forward = some (record { target = target; pattern = pattern });
  }

  unfoldable pub add_suffix : RouteAction → Option Text → Tables Regex → Text → Tables Regex
  add_suffix block target t suffix = record t {
    wildcard_block =
        insert (reverse_domain_labels suffix)
          (record { target = target; pattern = codes "*." ++ suffix }) t.wildcard_block;
  }
  add_suffix forward target t suffix = record t {
    wildcard_forward =
        insert (reverse_domain_labels suffix)
          (record { target = target; pattern = codes "*." ++ suffix }) t.wildcard_forward;
  }

  unfoldable pub add_wildcard :
      RouteAction → Option Text → Tables Regex → Text → Result (Tables Regex) ConfigError
  add_wildcard action target t pattern =
      if text_eq pattern global_pattern
      then ok (add_global action target t pattern)
      else elim (strip_prefix (codes "*.") pattern) [
        | none ↦ err (invalid_wildcard pattern)
        | some suffix ↦ ok (add_suffix action target t (normalize_domain_like to_lowercase suffix))
      ]

  unfoldable pub push_regex : RouteAction → Option Text → Tables Regex → Text → Regex → Tables Regex
  push_regex block target t pattern re = record t {
    regex_block =
        t.regex_block
        ++ record { pattern = pattern; regex = re; action = block; target = target } ∷ [];
  }
  push_regex forward target t pattern re = record t {
    regex_forward =
        t.regex_forward
        ++ record { pattern = pattern; regex = re; action = forward; target = target } ∷ [];
  }

  unfoldable pub add_regex :
      RouteAction → Option Text → Tables Regex → Text → Result (Tables Regex) ConfigError
  add_regex action target t pattern = do
    re ← map_err ConfigError.invalid_regex (regex_new pattern)
    ok (push_regex action target t pattern re)

  unfoldable pub add_pattern :
      MatchType
      → RouteAction
      → Option Text
      → Tables Regex
      → Text
      → Result (Tables Regex) ConfigError
  add_pattern exact action target t pattern = ok (add_exact action target t pattern)
  add_pattern wildcard action target t pattern = add_wildcard action target t pattern
  add_pattern regex action target t pattern = add_regex action target t pattern

  -- One round of the loop over the rules.
  unfoldable pub add_rule : Tables Regex → RouteRuleConfig → Result (Tables Regex) ConfigError
  add_rule t rule = try_fold (add_pattern rule.match_type rule.action rule.target) t rule.patterns

  unfoldable pub fill_tables : List RouteRuleConfig → Result (Tables Regex) ConfigError
  fill_tables rules = try_fold add_rule no_tables rules

  unfoldable pub finish : Tables Regex → Router Regex
  finish t = record {
    exact_block_rules = t.exact_block;
    exact_forward_rules = t.exact_forward;
    wildcard_block_rules = t.wildcard_block;
    wildcard_forward_rules = t.wildcard_forward;
    global_wildcard_block_rule = t.global_block;
    global_wildcard_forward_rule = t.global_forward;
    regex_block_rules = t.regex_block;
    regex_forward_rules = t.regex_forward;
    regex_block_prefilter = build_regex_prefilter to_lowercase t.regex_block;
    regex_forward_prefilter = build_regex_prefilter to_lowercase t.regex_forward;
  }

  -- `is_some() as usize`
  abbrev count_some : Option WildcardRule → ℕ
  count_some none = 0
  count_some (some r) = 1

  -- The three gauges of rules.
  abbrev pub record_rule_counts : Tables Regex → Metrics → Metrics
  record_rule_counts t m =
      m
      ▸ set route_rules_count (codes "exact" ∷ codes "static" ∷ [])
          (length t.exact_block + length t.exact_forward)
      ▸ set route_rules_count (codes "wildcard" ∷ codes "static" ∷ []) (
          length t.wildcard_block
          + length t.wildcard_forward
          + count_some t.global_block
          + count_some t.global_forward)
      ▸ set route_rules_count (codes "regex" ∷ codes "static" ∷ [])
          (length t.regex_block + length t.regex_forward)

  unfoldable pub new : List RouteRuleConfig → Metrics → Result (Router Regex) ConfigError × Metrics
  new rules m = elim (fill_tables rules) [
    | err e ↦ (err e, m)
    | ok t ↦ (ok (finish t), record_rule_counts t m)
  ]
