-- ===== src/Router/BuildSpec.antt =====
-- `Router::new` of src/router.rs against the list of entries.
use mathlib.Core.Path.{fun_ext}
use load_ants.Prelude.{
  ◌≡◌, refl, sym, ap, ◌∙◌, List, [], ◌∷◌, ◌++◌, map, Option, none, some, arith, append_assoc,
  append-nil,
}
use load_ants.Prelude.Texts.{Text}
use load_ants.Prelude.Assoc.{get}
use load_ants.Errors.{Result, ok, err, ◌>>=◌, try_fold, >>=-eq-ok, ConfigError}
use load_ants.Config.Rule.{MatchType, RouteAction, block, forward, RouteRuleConfig}
use load_ants.Router.{Patterns}
use load_ants.Router.Names.{reverse_domain_labels}
use load_ants.Router.LastRegex.{last_some}
use load_ants.Router.Suffix.{first_some}
use load_ants.Router.Build.{Tables, no_tables, add_pattern, add_rule, fill_tables}
use load_ants.Router.Entries.{
  Entry, entry, entries, exact_entry, suffix_entry, global_entry, regex_entry, regex_entries,
  entry_error,
}
use load_ants.Router.BuildSteps.{
  override, exact_of, wildcard_of, global_of, regex_of, exact_step, suffix_step, global_step,
  regex_step, error_step,
}
use load_ants.Router.BuildSteps

override_empty : {B : Type 0} {o old : Option B} → old ≡ none → override o old ≡ o
override_empty {o = none} e = e
override_empty {o = some b} e = refl

module _ (R : Type 0) where
  exact_empty : (action : RouteAction) (d : Text) → get d (exact_of {R = R} action no_tables) ≡ none
  unfolding get
  exact_empty block d = refl
  exact_empty forward d = refl

  wildcard_empty :
      (action : RouteAction) (d : Text) → get d (wildcard_of {R = R} action no_tables) ≡ none
  unfolding get
  wildcard_empty block d = refl
  wildcard_empty forward d = refl

  global_empty : (action : RouteAction) → global_of {R = R} action no_tables ≡ none
  global_empty block = refl
  global_empty forward = refl

  regex_empty : (action : RouteAction) → regex_of {R = R} action no_tables ≡ []
  regex_empty block = refl
  regex_empty forward = refl

module _ (P : Patterns) where
  open P use {Regex}

  abbrev add_entry : Tables Regex → Entry → Result (Tables Regex) ConfigError
  add_entry = BuildSteps.add_entry P

  abbrev Outcome : Option ConfigError → Result (Tables Regex) ConfigError → Type 0
  Outcome = BuildSteps.Outcome P

  -- The loop over all entries.
  abbrev add_entries : Tables Regex → List Entry → Result (Tables Regex) ConfigError
  add_entries = try_fold add_entry

  error_fold :
      (es : List Entry) (t : Tables Regex)
      → Outcome (first_some (entry_error P) es) (add_entries t es)
  unfolding try_fold
  error_fold [] t = (t, refl)
  error_fold (e ∷ es) t = go (error_fold es) (entry_error P e) (error_step P e t)
    where
      go :
          ((u : Tables Regex) → Outcome (first_some (entry_error P) es) (add_entries u es))
          → (x : Option ConfigError) → Outcome x (add_entry t e)
          → Outcome
              (elim x [ some b ↦ some b | none ↦ first_some (entry_error P) es ])
              (add_entry t e >>= λ t'. add_entries t' es)
      go ih (some x) h = rw h refl
      go ih none (t', h) = rw h (ih t')

  -- What each step adds is what the last entry that adds something leaves.
  view_fold :
      {B : Type 0} (view : Tables Regex → Option B) (f : Entry → Option B)
      → ((e : Entry) (t t' : Tables Regex)
          → add_entry t e ≡ ok t'
          → view t' ≡ override (f e) (view t))
      → (es : List Entry) (t t' : Tables Regex) → add_entries t es ≡ ok t'
      → view t' ≡ override (last_some f es) (view t)
  unfolding try_fold
  view_fold view f step [] t t' h = ground arith
  view_fold view f step (e ∷ es) t t' h =
      let (u, first, rest) = >>=-eq-ok (add_entry t e) (λ u. add_entries u es) h in
      ground (arith, step e t u first, view_fold view f step es u t' rest)

  regex_fold :
      (action : RouteAction) (es : List Entry) (t t' : Tables Regex)
      → add_entries t es ≡ ok t'
      → regex_of action t' ≡ regex_of action t ++ regex_entries P action es
  unfolding try_fold
  regex_fold action [] t t' h = ground (arith, append-nil (regex_of action t))
  regex_fold action (e ∷ es) t t' h =
      let (u, first, rest) = >>=-eq-ok (add_entry t e) (λ u. add_entries u es) h in
      regex_fold action es u t' rest
      ∙ ap (λ l. l ++ regex_entries P action es) (regex_step P action e t u first)
      ∙ append_assoc (regex_of action t) (regex_entry P action e) (regex_entries P action es)

  -- The two loops of the source are one loop over the entries.
  try_fold-map :
      (mt : MatchType) (action : RouteAction) (target : Option Text) (t : Tables Regex)
      (patterns : List Text) (rest : List Entry)
      → (try_fold (add_pattern P mt action target) t patterns >>= λ u. add_entries u rest)
        ≡ add_entries t (map (entry mt action target) patterns ++ rest)
  unfolding try_fold
  try_fold-map mt action target t [] rest = refl
  try_fold-map mt action target t (p ∷ ps) rest =
      go (λ u. try_fold-map mt action target u ps rest) (add_pattern P mt action target t p)
    where
      go :
          ((u : Tables Regex)
            → (try_fold (add_pattern P mt action target) u ps >>= λ v. add_entries v rest)
              ≡ add_entries u (map (entry mt action target) ps ++ rest))
          → (r : Result (Tables Regex) ConfigError)
          → ((r >>= λ u. try_fold (add_pattern P mt action target) u ps) >>= λ u.
              add_entries u rest)
            ≡ (r >>= λ u. add_entries u (map (entry mt action target) ps ++ rest))
      go ih (ok u) = ih u
      go ih (err x) = refl

  fold-entries :
      (t : Tables Regex) (rules : List RouteRuleConfig)
      → try_fold (add_rule P) t rules ≡ add_entries t (entries rules)
  unfolding try_fold add_rule
  fold-entries t [] = refl
  fold-entries t (rule ∷ rules) =
      ap (λ k. add_rule P t rule >>= k) (fun_ext (λ u. fold-entries u rules))
      ∙ try_fold-map rule.match_type rule.action rule.target t rule.patterns (entries rules)

  pub fill_tables-entries :
      (rules : List RouteRuleConfig) → fill_tables P rules ≡ add_entries no_tables (entries rules)
  unfolding fill_tables
  fill_tables-entries rules = fold-entries no_tables rules

  module _ (rules : List RouteRuleConfig) where
    -- `new` fails exactly with the error of the first entry that is refused.
    pub fill_tables-Outcome :
        Outcome (first_some (entry_error P) (entries rules)) (fill_tables P rules)
    fill_tables-Outcome = rw (fill_tables-entries rules) (error_fold (entries rules) no_tables)

    module _ (t : Tables Regex) (built : fill_tables P rules ≡ ok t) where
      added : add_entries no_tables (entries rules) ≡ ok t
      added = sym (fill_tables-entries rules) ∙ built

      -- What the tables hold is what the last entry that says something says.
      pub fill_tables-exact :
          (action : RouteAction) (d : Text)
          → get d (exact_of action t) ≡ last_some (exact_entry P action d) (entries rules)
      fill_tables-exact action d =
          view_fold (λ u. get d (exact_of action u)) (exact_entry P action d)
            (exact_step P action d) (entries rules) no_tables t added
          ∙ override_empty (exact_empty Regex action d)

      pub fill_tables-suffix :
          (action : RouteAction) (d : Text)
          → get (reverse_domain_labels d) (wildcard_of action t)
            ≡ last_some (suffix_entry P action d) (entries rules)
      fill_tables-suffix action d =
          view_fold (λ u. get (reverse_domain_labels d) (wildcard_of action u))
            (suffix_entry P action d) (suffix_step P action d) (entries rules) no_tables t added
          ∙ override_empty (wildcard_empty Regex action (reverse_domain_labels d))

      pub fill_tables-global :
          (action : RouteAction)
          → global_of action t ≡ last_some (global_entry P action) (entries rules)
      fill_tables-global action =
          view_fold (λ u. global_of action u) (global_entry P action) (global_step P action)
            (entries rules) no_tables t added
          ∙ override_empty (global_empty Regex action)

      pub fill_tables-regex :
          (action : RouteAction) → regex_of action t ≡ regex_entries P action (entries rules)
      fill_tables-regex action =
          regex_fold action (entries rules) no_tables t added
          ∙ ap (λ l. l ++ regex_entries P action (entries rules)) (regex_empty Regex action)
