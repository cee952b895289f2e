-- ===== src/Router.antt =====
-- src/router.rs: the types of the routing engine. A map is an association list, and the
-- prefilter's set of indices is a list without repetition. Regular expressions are those of the
-- crate `regex`, a parameter; so is the Unicode lower case of the standard library.
pub mod Names
pub mod Reverse
pub mod Suffix
pub mod Indices
pub mod Candidates
pub mod LastRegex
pub mod RegexSpec
pub mod Entries
pub mod BuildSteps
pub mod BuildSpec
pub mod Route
pub mod Attempts
pub mod Spec
pub mod BlockFirst
pub mod Unseen
pub mod Tests
pub mod Prefilter
pub mod Build
pub mod Find
use load_ants.Prelude.{ℕ, Bool, List, Option}
use load_ants.Prelude.Texts.{Text}
use load_ants.Prelude.Assoc.{Assoc}
use load_ants.Errors.{Result}
use load_ants.Config.Rule.{RouteAction}

-- What the engine takes from outside: `Regex::new` (an error is the text it displays),
-- `Regex::is_match` and `str::to_lowercase`.
pub record Patterns : Type 1 where
  pub Regex : Type 0
  pub regex_new : Text → Result Regex Text
  pub is_match : Regex → Text → Bool
  pub to_lowercase : Text → Text

pub record CompiledRegexRule (Regex : Type 0) : Type 0 where
  pub pattern : Text
  pub regex : Regex
  pub action : RouteAction
  pub target : Option Text

pub record WildcardRule : Type 0 where
  pub target : Option Text
  pub pattern : Text

abbrev pub Prefilter : Type 0
Prefilter = Assoc (List ℕ)

pub record Router (Regex : Type 0) : Type 0 where
  pub exact_block_rules : Assoc (Option Text)
  pub exact_forward_rules : Assoc (Option Text)
  pub wildcard_block_rules : Assoc WildcardRule
  pub wildcard_forward_rules : Assoc WildcardRule
  pub global_wildcard_block_rule : Option WildcardRule
  pub global_wildcard_forward_rule : Option WildcardRule
  pub regex_block_rules : List (CompiledRegexRule Regex)
  pub regex_forward_rules : List (CompiledRegexRule Regex)
  pub regex_block_prefilter : Prefilter
  pub regex_forward_prefilter : Prefilter

pub record RouteMatch : Type 0 where
  pub domain : Text
  pub action : RouteAction
  pub target : Option Text
  pub rule_type : Text
  pub pattern : Text
