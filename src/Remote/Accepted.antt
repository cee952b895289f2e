-- ===== src/Remote/Accepted.antt =====
-- The rules that src/remote_rule loads, seen from `Router::new` of src/router.rs.
use load_ants.Prelude.Words.{starts_with}
use load_ants.Prelude.{
  ◌||◌, ◌≡◌, refl, sym, ap, ◌∙◌, List, [], ◌∷◌, ◌++◌, map, Option, none, some, All, All-append,
  arith, Bool-cases, Option-cases, inl, inr, is_empty, append_assoc, append-nil,
}
use load_ants.Prelude.Texts.{Text, codes, strip_prefix, trim, lines}
use load_ants.Errors.{ok}
use load_ants.Config.Rule.{MatchType, exact, wildcard, regex, RouteAction, RouteRuleConfig}
use load_ants.Router.{Patterns}
use load_ants.Router.Entries.{Entry, entry, entries, entry_error}
use load_ants.Remote.Parser.{
  push_some, ParsedRule, push_line, push_wildcard, parse_lines, parse_v2ray, wildcard_pattern,
}
use load_ants.Remote.Loader.{
  RemoteRuleConfig, Groups, group_patterns, push_pattern, no_groups, push_rule, route_rules,
}

-- The patterns of one match type, in order.
abbrev pub of_type : MatchType → ParsedRule → List Text
of_type exact (p, exact) = p ∷ []
of_type wildcard (p, wildcard) = p ∷ []
of_type regex (p, regex) = p ∷ []
of_type _ _ = []

abbrev pub all_of_type : MatchType → List ParsedRule → List Text
all_of_type t [] = []
all_of_type t (r ∷ rs) = of_type t r ++ all_of_type t rs

abbrev group : MatchType → Groups → List Text
group exact g = g.exact_patterns
group wildcard g = g.wildcard_patterns
group regex g = g.regex_patterns

push_pattern_lem :
    (t : MatchType) (g : Groups) (r : ParsedRule)
    → group t (push_pattern g r) ≡ group t g ++ of_type t r
push_pattern_lem exact g (p, exact) = refl
push_pattern_lem exact g (p, wildcard) = sym (append-nil _)
push_pattern_lem exact g (p, regex) = sym (append-nil _)
push_pattern_lem wildcard g (p, exact) = sym (append-nil _)
push_pattern_lem wildcard g (p, wildcard) = refl
push_pattern_lem wildcard g (p, regex) = sym (append-nil _)
push_pattern_lem regex g (p, exact) = sym (append-nil _)
push_pattern_lem regex g (p, wildcard) = sym (append-nil _)
push_pattern_lem regex g (p, regex) = refl

group_patterns_lem :
    (t : MatchType) (rs : List ParsedRule) (g : Groups)
    → group t (group_patterns g rs) ≡ group t g ++ all_of_type t rs
unfolding group_patterns
group_patterns_lem t [] g = sym (append-nil _)
group_patterns_lem t (r ∷ rs) g =
    group_patterns_lem t rs (push_pattern g r)
    ∙ ap (λ l. l ++ all_of_type t rs) (push_pattern_lem t g r)
    ∙ append_assoc (group t g) (of_type t r) (all_of_type t rs)

pub entries-append :
    (rules more : List RouteRuleConfig) → entries (rules ++ more) ≡ entries rules ++ entries more
entries-append [] more = refl
entries-append (r ∷ rules) more =
    ap (λ l. map (entry r.match_type r.action r.target) r.patterns ++ l) (entries-append rules more)
    ∙ sym (append_assoc _ (entries rules) (entries more))

module _ (config : RemoteRuleConfig) where
  abbrev pub as_entries : MatchType → List Text → List Entry
  as_entries t = map (entry t config.action config.target)

  entries-push_rule :
      (t : MatchType) (ps : List Text) (rules : List RouteRuleConfig)
      → entries (push_rule config t ps rules) ≡ entries rules ++ as_entries t ps
  entries-push_rule t [] rules = sym (append-nil _)
  entries-push_rule t (p ∷ ps) rules =
      entries-append rules _ ∙ ap (λ l. entries rules ++ l) (append-nil _)

  -- Grouping loses and adds nothing: the entries of the rules are the parsed patterns, those that
  -- match exactly first, then the wildcards, then the regular expressions, each in the order of the
  -- file, under the action and the target of the configuration.
  pub entries-route_rules :
      (parsed : List ParsedRule)
      → entries (route_rules config parsed)
        ≡ (as_entries exact (all_of_type exact parsed)
            ++ as_entries wildcard (all_of_type wildcard parsed))
          ++ as_entries regex (all_of_type regex parsed)
  unfolding route_rules
  entries-route_rules parsed =
      let g = group_patterns no_groups parsed in
      entries-push_rule regex g.regex_patterns _
      ∙ ap (λ l. l ++ as_entries regex g.regex_patterns)
          (entries-push_rule wildcard g.wildcard_patterns _
            ∙ ap (λ l. l ++ as_entries wildcard g.wildcard_patterns)
                (entries-push_rule exact g.exact_patterns []))
      ∙ rw
          (
            group_patterns_lem exact parsed no_groups,
            group_patterns_lem wildcard parsed no_groups,
            group_patterns_lem regex parsed no_groups,
          )
          refl

module _ (P : Patterns) where
  -- An entry that `Router::new` takes, unless its regular expression does not compile.
  abbrev pub Accepted : Entry → Type 0
  Accepted (entry regex a target p) = Unit
  Accepted e = entry_error P e ≡ none

  abbrev pub Fine : ParsedRule → Type 0
  Fine (p, t) = (a : RouteAction) (target : Option Text) → Accepted (entry t a target p)

  strip_prefix-append : (s : Text) → strip_prefix (codes "*.") (codes "*." ++ s) ≡ some s
  unfolding strip_prefix
  strip_prefix-append s = refl

  wildcard_pattern-Fine : (domain : Text) → Fine (wildcard_pattern domain, wildcard)
  wildcard_pattern-Fine domain a target = ground (arith, strip_prefix-append domain)

  push_some-Fine :
      (rules : List ParsedRule) (text : Text) (rule : ParsedRule)
      → All Fine rules
      → Fine rule
      → All Fine (push_some rules text rule)
  push_some-Fine rules [] rule h f = h
  push_some-Fine rules (c ∷ text) rule h f = All-append Fine rules (rule ∷ []) h (f, tt)

  push_wildcard-Fine :
      (rules : List ParsedRule) (line : Text) → All Fine rules → All Fine (push_wildcard rules line)
  unfolding push_wildcard
  push_wildcard-Fine rules line h =
      push_some-Fine rules (trim line) _ h (wildcard_pattern-Fine (trim line))

  push_line-Fine :
      (rules : List ParsedRule) (line : Text) → All Fine rules → All Fine (push_line rules line)
  unfolding push_line
  push_line-Fine rules line h = elim (Bool-cases (is_empty line || starts_with line b'#')) [
    | inl e ↦ rw e h
    | inr e ↦ elim (Option-cases (strip_prefix (codes "full:") line)) [
      | inr (s, f) ↦ rw (e, f) (push_some-Fine rules (trim s) _ h (λ a target. refl))
      | inl f ↦ elim (Option-cases (strip_prefix (codes "regexp:") line)) [
        | inr (s, g) ↦ rw (e, f, g) (push_some-Fine rules (trim s) _ h (λ a target. tt))
        | inl g ↦ rw (e, f, g) (push_wildcard-Fine rules line h)
      ]
    ]
  ]

  parse_lines-Fine :
      (ls : List Text) (rules : List ParsedRule) → All Fine rules → All Fine (parse_lines rules ls)
  unfolding parse_lines
  parse_lines-Fine [] rules h = h
  parse_lines-Fine (l ∷ ls) rules h =
      parse_lines-Fine ls (push_line rules (trim l)) (push_line-Fine rules (trim l) h)

  pub parse_v2ray-Fine :
      (content : Text) (parsed : List ParsedRule)
      → parse_v2ray content ≡ ok parsed
      → All Fine parsed
  unfolding parse_v2ray
  parse_v2ray-Fine content parsed h =
      let e : parse_lines [] (lines content) ≡ parsed = grind arith in
      rw (sym e) (parse_lines-Fine (lines content) [] tt)

  as_entries-Accepted :
      (config : RemoteRuleConfig) (t : MatchType) (parsed : List ParsedRule)
      → All Fine parsed
      → All Accepted (as_entries config t (all_of_type t parsed))
  as_entries-Accepted config exact [] h = tt
  as_entries-Accepted config wildcard [] h = tt
  as_entries-Accepted config regex [] h = tt
  as_entries-Accepted config exact ((p, exact) ∷ rs) h =
      (h.0 config.action config.target, as_entries-Accepted config exact rs h.1)
  as_entries-Accepted config exact ((p, wildcard) ∷ rs) h = as_entries-Accepted config exact rs h.1
  as_entries-Accepted config exact ((p, regex) ∷ rs) h = as_entries-Accepted config exact rs h.1
  as_entries-Accepted config wildcard ((p, exact) ∷ rs) h =
      as_entries-Accepted config wildcard rs h.1
  as_entries-Accepted config wildcard ((p, wildcard) ∷ rs) h =
      (h.0 config.action config.target, as_entries-Accepted config wildcard rs h.1)
  as_entries-Accepted config wildcard ((p, regex) ∷ rs) h =
      as_entries-Accepted config wildcard rs h.1
  as_entries-Accepted config regex ((p, exact) ∷ rs) h = as_entries-Accepted config regex rs h.1
  as_entries-Accepted config regex ((p, wildcard) ∷ rs) h = as_entries-Accepted config regex rs h.1
  as_entries-Accepted config regex ((p, regex) ∷ rs) h =
      (tt, as_entries-Accepted config regex rs h.1)

  pub route_rules-Accepted :
      (config : RemoteRuleConfig) (parsed : List ParsedRule)
      → All Fine parsed
      → All Accepted (entries (route_rules config parsed))
  route_rules-Accepted config parsed h = rw (entries-route_rules config parsed) (
      All-append Accepted _ _
        (All-append Accepted _ _ (as_entries-Accepted config exact parsed h)
          (as_entries-Accepted config wildcard parsed h))
        (as_entries-Accepted config regex parsed h))
