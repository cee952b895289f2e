-- ===== src/Router/Unseen.antt =====
-- What the prefilter of src/router.rs costs: a rule whose keyword is not a label of the domain is
-- never tried.
use load_ants.Prelude.{
  ◌≡◌, refl, ◌∙◌, ap, List, [], ◌∷◌, Option, none, false, is_empty, if◌then◌else◌,
}
use load_ants.Prelude.Texts.{Text, dot, ends_with, pop, split}
use load_ants.Errors.{ok, err, no_route_match}
use load_ants.Metrics.{Metrics}
use load_ants.Config.Rule.{RouteAction, block, forward, regex, RouteRuleConfig}
use load_ants.Router.{Patterns, Router}
use load_ants.Router.Names.{lower}
use load_ants.Router.Candidates.{is_eligible}
use load_ants.Router.Entries.{entries}
use load_ants.Router.Build.{new}
use load_ants.Router.Find.{find_match}
use load_ants.Router.Route.{route, route_domain, counted}
use load_ants.Router.Suffix.{suffixes, first_some}
use load_ants.Router.Spec.{find_match-route}

abbrev pub regex_only : RouteAction → Text → Option Text → List RouteRuleConfig
regex_only action pattern target =
    record { match_type = regex; patterns = pattern ∷ []; action = action; target = target } ∷ []

no_suffix : {B : Type 0} (l : List Text) → first_some {B = B} (λ s. none) (suffixes l) ≡ none
no_suffix [] = refl
no_suffix (x ∷ l) = no_suffix l

module _ (P : Patterns) where
  open P use {Regex, regex_new, to_lowercase}

  abbrev pub name_of : Text → Text
  name_of query_name = if ends_with query_name dot then pop query_name else query_name

  unseen :
      (action : RouteAction) (pattern : Text) (target : Option Text) (re : Regex)
      → regex_new pattern ≡ ok re
      → (domain : Text)
      → is_eligible to_lowercase
          (split dot domain)
          (record { pattern = pattern; regex = re; action = action; target = target })
        ≡ false
      → route_domain P (entries (regex_only action pattern target)) domain
        ≡ err (no_route_match domain)
  unseen block pattern target re c domain e = rw (c, e, no_suffix (split dot domain)) refl
  unseen forward pattern target re c domain e = rw (c, e, no_suffix (split dot domain)) refl

  module _ (action : RouteAction) (pattern : Text) (target : Option Text) (re : Regex)
      (r : Router Regex) (k : Metrics) (compiles : regex_new pattern ≡ ok re)
      (built : (new P (regex_only action pattern target) k).0 ≡ ok r) where
    routed :
        (query_name : Text)
        → is_empty (name_of query_name) ≡ false
        → is_eligible to_lowercase
            (split dot (lower to_lowercase (name_of query_name)))
            (record { pattern = pattern; regex = re; action = action; target = target })
          ≡ false
        → route P (entries (regex_only action pattern target)) query_name
          ≡ err (no_route_match (lower to_lowercase (name_of query_name)))
    routed query_name n e =
        rw n (unseen action pattern target re compiles (lower to_lowercase (name_of query_name)) e)

    -- One rule, by a regular expression that compiles: for a name none of whose labels is the
    -- keyword of the pattern, nothing is found, whatever the regular expression matches.
    pub find_match-unseen :
        (query_name : Text) (m : Metrics)
        → is_empty (name_of query_name) ≡ false
        → is_eligible to_lowercase
            (split dot (lower to_lowercase (name_of query_name)))
            (record { pattern = pattern; regex = re; action = action; target = target })
          ≡ false
        → find_match P r query_name m
          ≡ (err (no_route_match (lower to_lowercase (name_of query_name))), m)
    find_match-unseen query_name m n e =
        find_match-route P (regex_only action pattern target) r k built query_name m
        ∙ ap (λ x. counted x m) (routed query_name n e)
