-- ===== src/Router/Route.antt =====
-- Routing by the list of rules, without tables, keys or prefilter: the reference for `find_match` of
-- src/router.rs.
use load_ants.Prelude.{List, Option, none, some, is_empty, if◌then◌else◌}
use load_ants.Prelude.Texts.{Text, codes, dot, ends_with, pop, split}
use load_ants.Errors.{Result, ok, err, AppError, no_route_match}
use load_ants.Metrics.{Metrics}
use load_ants.Config.Rule.{RouteAction, block, forward}
use load_ants.Router.{Patterns, CompiledRegexRule, WildcardRule, RouteMatch}
use load_ants.Router.Names.{lower}
use load_ants.Router.Suffix.{first_some, suffixes}
use load_ants.Router.LastRegex.{last_some}
use load_ants.Router.RegexSpec.{chosen}
use load_ants.Router.Entries.{Entry, exact_entry, suffix_entry, global_entry, regex_entries}
use load_ants.Router.Find.{count_match}

-- The first of two results.
abbrev pub or {ℓ} : {A : Type ℓ} → Option A → Option A → Option A
or (some a) b = some a
or none b = b

-- A hit is counted; a miss is not.
abbrev pub counted_hit : Option RouteMatch → Metrics → Option RouteMatch × Metrics
counted_hit none m = (none, m)
counted_hit (some x) m = (some x, count_match x.rule_type x.target x.action m)

abbrev pub counted : Result RouteMatch AppError → Metrics → Result RouteMatch AppError × Metrics
counted (err e) m = (err e, m)
counted (ok x) m = (ok x, count_match x.rule_type x.target x.action m)

abbrev pub exact_match : RouteAction → Text → Option (Option Text) → Option RouteMatch
exact_match action domain none = none
exact_match action domain (some target) = some (record {
  domain = domain;
  action = action;
  target = target;
  rule_type = codes "exact";
  pattern = domain;
})

abbrev pub wildcard_match : RouteAction → Text → Option WildcardRule → Option RouteMatch
wildcard_match action domain none = none
wildcard_match action domain (some rule) = some (record {
  domain = domain;
  action = action;
  target = rule.target;
  rule_type = codes "wildcard";
  pattern = rule.pattern;
})

abbrev pub regex_match :
    {R : Type 0} → RouteAction → Text → Option (CompiledRegexRule R) → Option RouteMatch
regex_match action domain none = none
regex_match action domain (some rule) = some (record {
  domain = domain;
  action = action;
  target = rule.target;
  rule_type = codes "regex";
  pattern = rule.pattern;
})

abbrev pub decide : Text → Option RouteMatch → Result RouteMatch AppError
decide domain none = err (no_route_match domain)
decide domain (some x) = ok x

module _ (P : Patterns) where
  open P use {Regex, to_lowercase}

  -- Under one action: the exact rules, the longest suffix by whole labels, the last regular
  -- expression that is a candidate and matches, and the rule for every domain. Of rules for one
  -- domain or suffix the last defined counts.
  abbrev pub route_action : List Entry → RouteAction → Text → Option RouteMatch
  route_action es action domain =
      or (exact_match action domain (last_some (exact_entry P action domain) es)) (
        or
          (wildcard_match action domain (
            first_some (λ s. last_some (suffix_entry P action s) es) (suffixes (split dot domain))))
          (or (regex_match action domain (last_some (chosen P domain) (regex_entries P action es)))
            (wildcard_match action domain (last_some (global_entry P action) es))))

  -- All rules that block come before all that forward.
  abbrev pub route_domain : List Entry → Text → Result RouteMatch AppError
  route_domain es domain =
      decide domain (or (route_action es block domain) (route_action es forward domain))

  abbrev pub route : List Entry → Text → Result RouteMatch AppError
  route es query_name =
      let name = if ends_with query_name dot then pop query_name else query_name in
      if is_empty name then err (no_route_match name) else route_domain es (lower to_lowercase name)
