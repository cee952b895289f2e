-- ===== src/Router/Spec.antt =====
-- `Router::new` and `find_match` of src/router.rs implement routing by the list of rules.
use mathlib.Core.Path.{fun_ext}
use load_ants.Prelude.{
  ◌↔◌, sym, Bool-cases, inl, inr, ◌≡◌, refl, ap, ◌∙◌, List, Option, none, some, arith, is_empty,
  if◌then◌else◌,
}
use load_ants.Prelude.Texts.{Text, dot, ends_with, pop}
use load_ants.Errors.{ConfigError, Result, ok, err, no_route_match}
use load_ants.Metrics.{Metrics}
use load_ants.Config.Rule.{RouteAction, block, forward, RouteRuleConfig}
use load_ants.Router.{Patterns, Router, RouteMatch}
use load_ants.Router.Names.{lower}
use load_ants.Router.Suffix.{first_some}
use load_ants.Router.Entries.{entries}
use load_ants.Router.Build.{Tables, fill_tables, finish}
use load_ants.Router.Build.{new, record_rule_counts}
use load_ants.Router.Find.{find_match}
use load_ants.Router.BuildSteps.{Outcome}
use load_ants.Router.Entries.{entry_error}
use load_ants.Router.BuildSpec.{fill_tables-Outcome}
use load_ants.Router.Find.{try_action}
use load_ants.Router.Route.{or, counted, route_action, decide, route_domain, route}
use load_ants.Router.Attempts.{serve, Holds, finish-Holds, try_action_lem}

module _ (P : Patterns) where
  open P use {Regex, to_lowercase}

  -- The result of `new` and its gauges.
  abbrev counted_new :
      Result (Tables Regex) ConfigError → Metrics → Result (Router Regex) ConfigError × Metrics
  counted_new (err e) m = (err e, m)
  counted_new (ok t) m = (ok (finish P t), record_rule_counts P t m)

  built-Holds :
      (rules : List RouteRuleConfig) (x : Result (Tables Regex) ConfigError)
      → fill_tables P rules ≡ x
      → (r : Router Regex) (m : Metrics) → (counted_new x m).0 ≡ ok r
      → (action : RouteAction) → Holds P (entries rules) r action
  built-Holds rules (err e) f r m h action = grind arith
  built-Holds rules (ok t) f r m h action =
      let e : finish P t ≡ r = grind arith in rw (sym e) (finish-Holds P rules t f action)

  new-counted :
      (rules : List RouteRuleConfig) (m : Metrics)
      → new P rules m ≡ counted_new (fill_tables P rules) m
  unfolding new
  new-counted rules m = ground arith

  Outcome-err :
      (o : Option ConfigError) (x : Result (Tables Regex) ConfigError)
      → Outcome P o x
      → (e : ConfigError) (m : Metrics) → (counted_new x m).0 ≡ err e ↔ o ≡ some e
  Outcome-err (some y) x h e m = ground (arith, h)
  Outcome-err none x (t, h) e m = ground (arith, h)

  serve-counted :
      (domain : Text) (a b : Option RouteMatch) (m : Metrics)
      → serve a (λ m. serve b (λ m. (err (no_route_match domain), m)) m) m
        ≡ counted (decide domain (or a b)) m
  serve-counted domain (some x) b m = refl
  serve-counted domain none (some y) m = refl
  serve-counted domain none none m = refl

  module _ (rules : List RouteRuleConfig) where
    -- Building fails exactly if an entry is refused, and with the error of the first one.
    pub new-error :
        (e : ConfigError) (m : Metrics)
        → (new P rules m).0 ≡ err e ↔ first_some (entry_error P) (entries rules) ≡ some e
    new-error e m = rw (new-counted rules m) (Outcome-err _ _ (fill_tables-Outcome P rules) e m)

    module _ (r : Router Regex) (k : Metrics) (built : (new P rules k).0 ≡ ok r) where
      new-Holds : (action : RouteAction) → Holds P (entries rules) r action
      new-Holds =
          built-Holds rules (fill_tables P rules) refl r k
            (ap (λ z. z.0) (sym (new-counted rules k)) ∙ built)

      decided :
          (domain : Text) (m : Metrics)
          → try_action P r domain block m
              (λ m. try_action P r domain forward m (λ m. (err (no_route_match domain), m)))
            ≡ counted (route_domain P (entries rules) domain) m
      decided domain m =
          try_action_lem P (entries rules) r block (new-Holds block) domain
            (λ m. try_action P r domain forward m (λ m. (err (no_route_match domain), m))) m
          ∙ ap (λ f. serve (route_action P (entries rules) block domain) f m)
              (fun_ext (
                try_action_lem P (entries rules) r forward (new-Holds forward) domain
                  (λ m. (err (no_route_match domain), m))))
          ∙ serve-counted domain (route_action P (entries rules) block domain)
              (route_action P (entries rules) forward domain) m

      -- A router that was built from the rules decides every name as the list of rules describes
      -- it, and counts the match it reports, once, and nothing else.
      pub find_match-route :
          (query_name : Text) (m : Metrics)
          → find_match P r query_name m ≡ counted (route P (entries rules) query_name) m
      unfolding find_match
      find_match-route query_name m =
          let name = if ends_with query_name dot then pop query_name else query_name in
          elim (Bool-cases (is_empty name)) [
            | inl e ↦ rw e refl
            | inr e ↦ rw e (decided (lower to_lowercase name) m)
          ]
