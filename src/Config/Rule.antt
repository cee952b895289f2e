-- ===== src/Config/Rule.antt =====
-- src/config/rule.rs: the route rules.
use load_ants.Prelude.{◌≡◌, refl, ◌⊎◌, inl, inr, List, Option}
use load_ants.Prelude.Texts.{Text, codes}

pub data MatchType : Type 0 where
  exact wildcard regex : MatchType

pub data RouteAction : Type 0 where
  forward block : RouteAction

pub record RouteRuleConfig : Type 0 where
  pub match_type : MatchType
  pub patterns : List Text
  pub action : RouteAction
  pub target : Option Text

-- `impl From<RouteAction> for &'static str` of router.rs
abbrev pub action_label : RouteAction → Text
action_label block = codes "block"
action_label forward = codes "forward"

pub action-cases : (a : RouteAction) → (a ≡ forward) ⊎ (a ≡ block)
action-cases forward = inl refl
action-cases block = inr refl
