-- ===== src/Router/Entries.antt =====
-- What the list of route rules says, read from the rules alone: the reference for `Router::new` of
-- src/router.rs. Each pattern of a rule is one entry.
use load_ants.Prelude.{
  Bool, true, false, ◌&&◌, List, [], ◌∷◌, ◌++◌, Option, none, some, map, if◌then◌else◌,
}
use load_ants.Prelude.Texts.{Text, codes, text_eq, strip_prefix}
use load_ants.Errors.{Result, ok, err, ConfigError}
use load_ants.Config.Rule.{
  MatchType, RouteAction, block, forward, exact, wildcard, regex, RouteRuleConfig,
}
use load_ants.Router.{Patterns, CompiledRegexRule, WildcardRule}
use load_ants.Router.Names.{normalize_domain_like}
use load_ants.Router.Build.{global_pattern, invalid_wildcard}

pub data Entry : Type 0 where
  entry : MatchType → RouteAction → Option Text → Text → Entry

abbrev pub entries_of : RouteRuleConfig → List Entry
entries_of rule = map (entry rule.match_type rule.action rule.target) rule.patterns

abbrev pub entries : List RouteRuleConfig → List Entry
entries [] = []
entries (rule ∷ rules) = entries_of rule ++ entries rules

abbrev pub same_action : RouteAction → RouteAction → Bool
same_action block block = true
same_action forward forward = true
same_action _ _ = false

-- The value, if the test holds.
abbrev pub when {ℓ} : {A : Type ℓ} → Bool → A → Option A
when true a = some a
when false a = none

module _ (P : Patterns) where
  open P use {Regex, regex_new, to_lowercase}

  abbrev normal : Text → Text
  normal = normalize_domain_like to_lowercase

  -- The target that an entry gives to a domain by an exact match.
  abbrev pub exact_entry : RouteAction → Text → Entry → Option (Option Text)
  exact_entry action domain (entry exact a target pattern) =
      when (same_action a action && text_eq (normal pattern) domain) target
  exact_entry action domain (entry _ a target pattern) = none

  -- The rule that an entry gives to a suffix.
  abbrev suffix_when :
      RouteAction → Text → RouteAction → Option Text → Option Text → Option WildcardRule
  suffix_when action suffix a target none = none
  suffix_when action suffix a target (some s) =
      when (same_action a action && text_eq (normal s) suffix)
        (record { target = target; pattern = codes "*." ++ normal s })

  abbrev pub suffix_entry : RouteAction → Text → Entry → Option WildcardRule
  suffix_entry action suffix (entry wildcard a target pattern) =
      if text_eq pattern global_pattern
      then none
      else suffix_when action suffix a target (strip_prefix (codes "*.") pattern)
  suffix_entry action suffix (entry _ a target pattern) = none

  -- The rule that an entry gives to every domain.
  abbrev pub global_entry : RouteAction → Entry → Option WildcardRule
  global_entry action (entry wildcard a target pattern) =
      when (same_action a action && text_eq pattern global_pattern)
        (record { target = target; pattern = pattern })
  global_entry action (entry _ a target pattern) = none

  -- The compiled rule of an entry, as a list of at most one.
  abbrev compiled :
      RouteAction
      → RouteAction
      → Option Text
      → Text
      → Result Regex Text
      → List (CompiledRegexRule Regex)
  compiled action a target pattern (err e) = []
  compiled action a target pattern (ok re) =
      if same_action a action
      then record { pattern = pattern; regex = re; action = a; target = target } ∷ []
      else []

  abbrev pub regex_entry : RouteAction → Entry → List (CompiledRegexRule Regex)
  regex_entry action (entry regex a target pattern) =
      compiled action a target pattern (regex_new pattern)
  regex_entry action (entry _ a target pattern) = []

  abbrev pub regex_entries : RouteAction → List Entry → List (CompiledRegexRule Regex)
  regex_entries action [] = []
  regex_entries action (e ∷ es) = regex_entry action e ++ regex_entries action es

  -- Why an entry is refused.
  abbrev wildcard_error : Text → Option Text → Option ConfigError
  wildcard_error pattern none = some (invalid_wildcard pattern)
  wildcard_error pattern (some s) = none

  abbrev regex_error : Result Regex Text → Option ConfigError
  regex_error (ok re) = none
  regex_error (err e) = some (ConfigError.invalid_regex e)

  abbrev pub entry_error : Entry → Option ConfigError
  entry_error (entry exact a target pattern) = none
  entry_error (entry wildcard a target pattern) =
      if text_eq pattern global_pattern
      then none
      else wildcard_error pattern (strip_prefix (codes "*.") pattern)
  entry_error (entry regex a target pattern) = regex_error (regex_new pattern)
