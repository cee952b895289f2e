-- ===== src/Router/BlockFirst.antt =====
-- The rules of src/router.rs that forward, for a name that the rules that block match.
use mathlib.Core.Path.{fun_ext}
use load_ants.Prelude.{
  ◌≡◌, refl, ap, ◌∙◌, false, List, [], ◌∷◌, ◌++◌, Option, none, some, is_empty, arith,
  if◌then◌else◌, inl, inr, Option-cases, Bool-cases,
}
use load_ants.Prelude.Texts.{Text, text_eq, strip_prefix, codes, dot, ends_with, pop}
use load_ants.Errors.{ok, Result-cases}
use load_ants.Metrics.{Metrics}
use load_ants.Config.Rule.{RouteRuleConfig, MatchType, block, forward, exact, wildcard, regex}
use load_ants.Router.{Patterns, Router, RouteMatch}
use load_ants.Router.Names.{lower}
use load_ants.Router.Build
use load_ants.Router.Build.{global_pattern}
use load_ants.Router.Entries.{
  Entry, entry, entries, exact_entry, suffix_entry, global_entry, regex_entry, regex_entries,
}
use load_ants.Router.Find.{find_match}
use load_ants.Router.LastRegex.{last_some}
use load_ants.Router.Route.{counted, route_action, route}
use load_ants.Router.Spec.{find_match-route}

-- The entries that block.
abbrev pub blocks : List Entry → List Entry
blocks [] = []
blocks (entry t block target pattern ∷ es) = entry t block target pattern ∷ blocks es
blocks (entry t forward target pattern ∷ es) = blocks es

-- The name that is looked up.
abbrev pub without_dot : Text → Text
without_dot query_name = if ends_with query_name dot then pop query_name else query_name

last_some-skip {ℓ} :
    {B : Type ℓ} {A : Type ℓ} (f : A → Option B) (x : A) (xs : List A)
    → f x ≡ none
    → last_some f (x ∷ xs) ≡ last_some f xs
last_some-skip f x xs h = elim (Option-cases (last_some f xs)) [
  | inl e ↦ ground (arith, e, h)
  | inr (b, e) ↦ ground (arith, e, h)
]

last_some-blocks :
    {B : Type 0} (f : Entry → Option B)
    → ((t : MatchType) (target : Option Text) (p : Text) → f (entry t forward target p) ≡ none)
    → (es : List Entry) → last_some f es ≡ last_some f (blocks es)
last_some-blocks f h [] = refl
last_some-blocks f h (entry t block target p ∷ es) =
    ap (λ o. elim o [ some b ↦ some b | none ↦ f (entry t block target p) ])
      (last_some-blocks f h es)
last_some-blocks f h (entry t forward target p ∷ es) =
    last_some-skip f (entry t forward target p) es (h t target p) ∙ last_some-blocks f h es

module _ (P : Patterns) where
  open P use {Regex, regex_new, to_lowercase}

  exact_entry-forward :
      (domain : Text) (t : MatchType) (target : Option Text) (p : Text)
      → exact_entry P block domain (entry t forward target p) ≡ none
  exact_entry-forward domain exact target p = refl
  exact_entry-forward domain wildcard target p = refl
  exact_entry-forward domain regex target p = refl

  suffix_entry-forward :
      (s : Text) (t : MatchType) (target : Option Text) (p : Text)
      → suffix_entry P block s (entry t forward target p) ≡ none
  suffix_entry-forward s exact target p = refl
  suffix_entry-forward s regex target p = refl
  suffix_entry-forward s wildcard target p = elim (Bool-cases (text_eq p global_pattern)) [
    | inl e ↦ rw e refl
    | inr e ↦ elim (Option-cases (strip_prefix (codes "*.") p)) [
      | inl f ↦ rw (e, f) refl
      | inr (d, f) ↦ rw (e, f) refl
    ]
  ]

  global_entry-forward :
      (t : MatchType) (target : Option Text) (p : Text)
      → global_entry P block (entry t forward target p) ≡ none
  global_entry-forward exact target p = refl
  global_entry-forward wildcard target p = refl
  global_entry-forward regex target p = refl

  regex_entry-forward :
      (t : MatchType) (target : Option Text) (p : Text)
      → regex_entry P block (entry t forward target p) ≡ []
  regex_entry-forward exact target p = refl
  regex_entry-forward wildcard target p = refl
  regex_entry-forward regex target p = elim (Result-cases (regex_new p)) [
    | inl (re, e) ↦ rw e refl
    | inr (text, e) ↦ rw e refl
  ]

  regex_entries-blocks :
      (es : List Entry) → regex_entries P block es ≡ regex_entries P block (blocks es)
  regex_entries-blocks [] = refl
  regex_entries-blocks (entry t block target p ∷ es) =
      ap (λ l. regex_entry P block (entry t block target p) ++ l) (regex_entries-blocks es)
  regex_entries-blocks (entry t forward target p ∷ es) =
      rw (regex_entry-forward t target p) (regex_entries-blocks es)

  route_action-blocks :
      (es : List Entry) (domain : Text)
      → route_action P es block domain ≡ route_action P (blocks es) block domain
  route_action-blocks es domain =
      rw
        (
          last_some-blocks (exact_entry P block domain) (exact_entry-forward domain) es,
          fun_ext (λ s. last_some-blocks (suffix_entry P block s) (suffix_entry-forward s) es),
          regex_entries-blocks es,
          last_some-blocks (global_entry P block) global_entry-forward es,
        )
        refl

  -- A router that was built from the rules answers a name that is not empty and that the entries that
  -- block match by themselves with that match and counts it so, whatever the entries that forward say:
  -- no exact one lets through a name that a rule of the configuration or of a remote list blocks.
  pub find_match-blocks :
      (rules : List RouteRuleConfig) (r : Router Regex) (k : Metrics)
      → (Build.new P rules k).0 ≡ ok r
      → (query_name : Text) (x : RouteMatch) (m : Metrics)
      → is_empty (without_dot query_name) ≡ false
      → route_action P (blocks (entries rules)) block (lower to_lowercase (without_dot query_name))
        ≡ some x
      → find_match P r query_name m ≡ counted (ok x) m
  find_match-blocks rules r k built query_name x m named h =
      let domain = lower to_lowercase (without_dot query_name) in
      let blocked = route_action-blocks (entries rules) domain ∙ h in
      let decided : route P (entries rules) query_name ≡ ok x = rw (named, blocked) refl in
      find_match-route P rules r k built query_name m ∙ ap (λ y. counted y m) decided
