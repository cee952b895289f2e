-- ===== src/Router/Tests.antt =====
-- Tests of the routing engine of src/router.rs, with a toy for the crate `regex`: a pattern is
-- compiled to its characters less `^`, `\` and `$`, and matches a domain that is equal to them;
-- `.*` matches every domain, and `[` is no pattern.
use load_ants.Router.BlockFirst.{blocks, without_dot, find_match-blocks}
use load_ants.Router.Unseen.{find_match-unseen, name_of, regex_only}
use load_ants.Prelude.{
  false, length, true, suc, ◌↔◌, is_empty, ◌≡◌, refl, ◌||◌, List, [], ◌∷◌, Option, none, some, ◌==◌,
  if◌then◌else◌,
}
use load_ants.Prelude.Texts.{
  join, dot, strip_prefix, is_ascii, ends_with, pop, Text, codes, text_eq, make_ascii_lowercase,
  split,
}
use load_ants.Prelude.Assoc.{get, insert}
use load_ants.Errors.{no_route_match, try_fold, Result, ok, err, AppError}
use load_ants.Config.Rule.{
  RouteAction, block, forward, exact, wildcard, regex, RouteRuleConfig, MatchType,
}
use load_ants.Router.{CompiledRegexRule, Patterns, Router, RouteMatch}
use load_ants.Router.Prefilter.{longest_segment, segments_from, build_regex_prefilter}
use load_ants.Router.Build.{
  invalid_wildcard, new, fill_tables, add_rule, add_pattern, add_exact, add_wildcard, add_regex,
  add_global, add_suffix, push_regex, finish,
}
use load_ants.Router.Find.{
  find_match, try_exact_match, try_wildcard_match, try_regex_match, try_global_wildcard_match,
  first_regex, candidates, candidates_of, sort, insert_sorted, dedup, longest_key, before_last_dot,
}
use load_ants.Router.Names.{lower, normalize_domain_like, reverse_domain_labels}
use load_ants.Router.Route.{route_action, route, counted}
use load_ants.Router.LastRegex.{InRange, last_some}
use load_ants.Router.RegexSpec.{found, found-InRange, chosen, first_regex-candidates}
use load_ants.Router.Reverse.{reverse_domain_labels_involutive}
use load_ants.Router.Suffix.{first_some, longest_key-eq-first_some, rule_of, suffixes}
use load_ants.Router.Candidates.{is_eligible}
use load_ants.Router.Entries.{entry_error, entries}
use load_ants.Router.Spec.{new-error, find_match-route}

router : Unit {0}
unfolding new fill_tables add_rule add_pattern add_exact add_wildcard add_regex add_global
    add_suffix push_regex finish find_match try_exact_match try_wildcard_match try_regex_match
    try_global_wildcard_match first_regex candidates candidates_of sort insert_sorted dedup
    longest_key before_last_dot build_regex_prefilter longest_segment normalize_domain_like
    reverse_domain_labels try_fold strip_prefix text_eq is_ascii make_ascii_lowercase ends_with pop
    split get insert segments_from
router = tt

pub drop_anchors : Text → Text
drop_anchors [] = []
drop_anchors (c ∷ s) =
    let rest = drop_anchors s in
    if (c == b'^') || ((c == b'\\') || (c == b'$')) then rest else c ∷ rest

abbrev pub toy : Patterns
toy = record {
  Regex = Text;
  regex_new = λ p. if text_eq p (codes "[") then err (codes "unclosed") else ok (drop_anchors p);
  is_match = λ re d. text_eq re (codes ".*") || text_eq re d;
  to_lowercase = make_ascii_lowercase;
}

abbrev rule : MatchType → RouteAction → Text → Option Text → RouteRuleConfig
rule t a p target = record { match_type = t; patterns = p ∷ []; action = a; target = target }

abbrev rules : List RouteRuleConfig
rules =
    rule exact block (codes "Ads.Example.com.") none
    ∷ rule wildcard forward (codes "*.example.com") (some (codes "corp"))
    ∷ rule regex forward (codes "^www\\.google\\.com$") (some (codes "world"))
    ∷ rule wildcard forward (codes "*") (some (codes "any"))
    ∷ []

abbrev pub ant : Router Text
ant = record {
  exact_block_rules = (codes "ads.example.com", none) ∷ [];
  exact_forward_rules = [];
  wildcard_block_rules = [];
  wildcard_forward_rules =
      (
        codes "com.example",
        record { target = some (codes "corp"); pattern = codes "*.example.com" },
      )
      ∷ [];
  global_wildcard_block_rule = none;
  global_wildcard_forward_rule = some (record { target = some (codes "any"); pattern = codes "*" });
  regex_block_rules = [];
  regex_forward_rules =
      record {
        pattern = codes "^www\\.google\\.com$";
        regex = codes "www.google.com";
        action = forward;
        target = some (codes "world");
      }
      ∷ [];
  regex_block_prefilter = [];
  regex_forward_prefilter = (codes "google", 0 ∷ []) ∷ [];
}

ant_built : (new toy rules []).0 ≡ ok ant
unfolding router drop_anchors
ant_built = refl

target_of : Result RouteMatch AppError → Option Text
target_of (ok x) = x.target
target_of (err e) = none

find_test : target_of (find_match toy ant (codes "WWW.google.com.") []).0 ≡ some (codes "world")
unfolding router target_of
find_test = refl

suffix_test : target_of (find_match toy ant (codes "a.b.example.com.") []).0 ≡ some (codes "corp")
unfolding router target_of
suffix_test = refl

find_match-route_example :
    find_match toy ant (codes "ads.example.com.") []
    ≡ counted (route toy (entries rules) (codes "ads.example.com.")) []
find_match-route_example = find_match-route toy rules ant [] ant_built (codes "ads.example.com.") []

new-error_example :
    (new toy (rule wildcard block (codes "ads.*") none ∷ []) []).0
      ≡ err (invalid_wildcard (codes "ads.*"))
    ↔ first_some (entry_error toy) (entries (rule wildcard block (codes "ads.*") none ∷ []))
      ≡ some (invalid_wildcard (codes "ads.*"))
new-error_example =
    new-error toy (rule wildcard block (codes "ads.*") none ∷ []) (invalid_wildcard (codes "ads.*"))
      []

abbrev hyphen : Text
hyphen = codes "^ad-server\\.com$"

abbrev hyphen_rule : CompiledRegexRule Text
hyphen_rule = record {
  pattern = hyphen;
  regex = codes "ad-server.com";
  action = block;
  target = none;
}

abbrev hyphen_router : Router Text
hyphen_router = record {
  exact_block_rules = [];
  exact_forward_rules = [];
  wildcard_block_rules = [];
  wildcard_forward_rules = [];
  global_wildcard_block_rule = none;
  global_wildcard_forward_rule = none;
  regex_block_rules = hyphen_rule ∷ [];
  regex_forward_rules = [];
  regex_block_prefilter = (codes "server", 0 ∷ []) ∷ [];
  regex_forward_prefilter = [];
}

hyphen_built : (new toy (regex_only block hyphen none) []).0 ≡ ok hyphen_router
unfolding router drop_anchors
hyphen_built = refl

hyphen_compiles : toy.regex_new hyphen ≡ ok (codes "ad-server.com")
unfolding router drop_anchors
hyphen_compiles = refl

hyphen_matches : toy.is_match (codes "ad-server.com") (codes "ad-server.com") ≡ true
unfolding router
hyphen_matches = refl

hyphen_empty : is_empty (name_of toy (codes "ad-server.com.")) ≡ false
unfolding router
hyphen_empty = refl

hyphen_unseen :
    is_eligible toy.to_lowercase
      (split dot (lower toy.to_lowercase (name_of toy (codes "ad-server.com."))))
      hyphen_rule
    ≡ false
unfolding router
hyphen_unseen = refl

find_match-unseen_example :
    find_match toy hyphen_router (codes "ad-server.com.") []
    ≡ (err (no_route_match (lower toy.to_lowercase (name_of toy (codes "ad-server.com.")))), [])
find_match-unseen_example =
    find_match-unseen toy block hyphen none (codes "ad-server.com") hyphen_router [] hyphen_compiles
      hyphen_built (codes "ad-server.com.") [] hyphen_empty hyphen_unseen

abbrev name : Text
name = codes "a.b.example.com"

reverse_domain_labels_involutive_example : reverse_domain_labels (reverse_domain_labels name) ≡ name
reverse_domain_labels_involutive_example = reverse_domain_labels_involutive name

longest_key-eq-first_some_example :
    longest_key
      (suc (length (reverse_domain_labels name)))
      ant.wildcard_forward_rules
      (reverse_domain_labels name)
    ≡ first_some (rule_of ant.wildcard_forward_rules) (suffixes (split dot name))
longest_key-eq-first_some_example = longest_key-eq-first_some ant.wildcard_forward_rules name

found-InRange_example : InRange toy ant.regex_forward_rules (found toy name ant.regex_forward_rules)
found-InRange_example = found-InRange toy name ant.regex_forward_rules

first_regex-candidates_example :
    first_regex toy ant.regex_forward_rules name
      (candidates toy (build_regex_prefilter toy.to_lowercase ant.regex_forward_rules) name)
    ≡ last_some (chosen toy name) ant.regex_forward_rules
first_regex-candidates_example = first_regex-candidates toy name ant.regex_forward_rules

-- A list blocks a domain that the configuration lets through.
abbrev listed : List RouteRuleConfig
listed =
    rule exact forward (codes "good.com") (some (codes "clean"))
    ∷ rule wildcard forward (codes "*") (some (codes "clean"))
    ∷ rule wildcard block (codes "*.good.com") none
    ∷ []

abbrev bee : Router Text
bee = record {
  exact_block_rules = [];
  exact_forward_rules = (codes "good.com", some (codes "clean")) ∷ [];
  wildcard_block_rules =
      (codes "com.good", record { target = none; pattern = codes "*.good.com" }) ∷ [];
  wildcard_forward_rules = [];
  global_wildcard_block_rule = none;
  global_wildcard_forward_rule =
      some (record { target = some (codes "clean"); pattern = codes "*" });
  regex_block_rules = [];
  regex_forward_rules = [];
  regex_block_prefilter = [];
  regex_forward_prefilter = [];
}

bee_built : (new toy listed []).0 ≡ ok bee
unfolding router drop_anchors
bee_built = refl

abbrev refused : RouteMatch
refused = record {
  domain = codes "good.com";
  action = block;
  target = none;
  rule_type = codes "wildcard";
  pattern = codes "*.good.com";
}

refused_test :
    route_action toy
      (blocks (entries listed))
      block
      (lower toy.to_lowercase (without_dot (codes "good.com.")))
    ≡ some refused
unfolding router join
refused_test = refl

named_test : is_empty (without_dot (codes "good.com.")) ≡ false
unfolding router
named_test = refl

find_match-blocks_example : find_match toy bee (codes "good.com.") [] ≡ counted (ok refused) []
find_match-blocks_example =
    find_match-blocks toy listed bee [] bee_built (codes "good.com.") refused [] named_test
      refused_test
