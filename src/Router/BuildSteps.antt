-- ===== src/Router/BuildSteps.antt =====
-- One pattern of `Router::new` of src/router.rs against the entry that it is.
use load_ants.Prelude.{
  ◌≡◌, refl, ap, List, ◌++◌, Option, none, some, arith, append-nil, Bool-cases, Option-cases, inl,
  inr,
}
use load_ants.Prelude.Texts.{Text, codes, text_eq, text_eq_iff, strip_prefix}
use load_ants.Prelude.Assoc.{Assoc, get, get-insert}
use load_ants.Errors.{Result, ok, err, ConfigError}
use load_ants.Config.Rule.{RouteAction, block, forward, exact, wildcard, regex}
use load_ants.Router.{Patterns, CompiledRegexRule, WildcardRule}
use load_ants.Router.Names.{normalize_domain_like, reverse_domain_labels}
use load_ants.Router.Reverse.{reverse_domain_labels_injective}
use load_ants.Router.Build.{
  Tables, global_pattern, add_exact, add_global, add_suffix, add_wildcard, push_regex, add_regex,
  add_pattern,
}
use load_ants.Router.Entries.{
  Entry, entry, exact_entry, suffix_entry, global_entry, regex_entry, entry_error,
}

text_eq-reverse :
    (s t : Text) → text_eq (reverse_domain_labels s) (reverse_domain_labels t) ≡ text_eq s t
text_eq-reverse s t = elim (Bool-cases (text_eq s t)) [
  | inl e ↦
      let p : s ≡ t = (text_eq_iff s t).0 e in
      rw e ((text_eq_iff _ _).1 (ap reverse_domain_labels p))
  | inr e ↦ elim (Bool-cases (text_eq (reverse_domain_labels s) (reverse_domain_labels t))) [
    | inr f ↦ rw (e, f)
    | inl f ↦
        let p = reverse_domain_labels_injective s t ((text_eq_iff _ _).0 f) in
        let q = (text_eq_iff s t).1 p in absurd (ground arith)
  ]
]

-- The new value, if there is one.
abbrev pub override {ℓ} : {A : Type ℓ} → Option A → Option A → Option A
override (some a) old = some a
override none old = old

module _ {R : Type 0} where
  abbrev pub exact_of : RouteAction → Tables R → Assoc (Option Text)
  exact_of block t = t.exact_block
  exact_of forward t = t.exact_forward

  abbrev pub wildcard_of : RouteAction → Tables R → Assoc WildcardRule
  wildcard_of block t = t.wildcard_block
  wildcard_of forward t = t.wildcard_forward

  abbrev pub global_of : RouteAction → Tables R → Option WildcardRule
  global_of block t = t.global_block
  global_of forward t = t.global_forward

  abbrev pub regex_of : RouteAction → Tables R → List (CompiledRegexRule R)
  regex_of block t = t.regex_block
  regex_of forward t = t.regex_forward

module _ (P : Patterns) where
  open P use {Regex, regex_new, to_lowercase}

  abbrev pub add_entry : Tables Regex → Entry → Result (Tables Regex) ConfigError
  add_entry t (entry mt action target pattern) = add_pattern P mt action target t pattern

  pub exact_step :
      (action : RouteAction) (d : Text) (e : Entry) (t t' : Tables Regex)
      → add_entry t e ≡ ok t'
      → get d (exact_of action t') ≡ override (exact_entry P action d e) (get d (exact_of action t))
  unfolding add_pattern add_exact add_wildcard add_global add_suffix add_regex push_regex
  exact_step block d (entry exact block target p) t t' h =
      ground (arith, get-insert (normalize_domain_like to_lowercase p) d target t.exact_block)
  exact_step forward d (entry exact forward target p) t t' h =
      ground (arith, get-insert (normalize_domain_like to_lowercase p) d target t.exact_forward)
  exact_step action d (entry exact a target p) t t' h = ground arith
  exact_step action d (entry wildcard a target p) t t' h = ground arith
  exact_step action d (entry regex a target p) t t' h = ground arith

  -- A rule for a suffix is found under the key of that suffix, and under no other.
  pub suffix_step :
      (action : RouteAction) (d : Text) (e : Entry) (t t' : Tables Regex)
      → add_entry t e ≡ ok t'
      → get (reverse_domain_labels d) (wildcard_of action t')
        ≡ override
            (suffix_entry P action d e)
            (get (reverse_domain_labels d) (wildcard_of action t))
  unfolding add_pattern add_exact add_wildcard add_global add_suffix add_regex push_regex
  suffix_step action d (entry exact a target p) t t' h = ground arith
  suffix_step action d (entry regex a target p) t t' h = ground arith
  suffix_step action d (entry wildcard a target p) t t' h =
      elim (Option-cases (strip_prefix (codes "*.") p)) [
        | inl e ↦ ground arith
        | inr (s, e) ↦
            let normal = normalize_domain_like to_lowercase s in
            let rule : WildcardRule = record { target = target; pattern = codes "*." ++ normal } in
            ground (
              arith,
              text_eq-reverse normal d,
              get-insert (reverse_domain_labels normal) (reverse_domain_labels d) rule
                  (wildcard_of action t),
            )
      ]

  pub global_step :
      (action : RouteAction) (e : Entry) (t t' : Tables Regex)
      → add_entry t e ≡ ok t'
      → global_of action t' ≡ override (global_entry P action e) (global_of action t)
  unfolding add_pattern add_exact add_wildcard add_global add_suffix add_regex push_regex
  global_step action (entry exact a target p) t t' h = ground arith
  global_step action (entry wildcard a target p) t t' h = ground arith
  global_step action (entry regex a target p) t t' h = ground arith

  pub regex_step :
      (action : RouteAction) (e : Entry) (t t' : Tables Regex)
      → add_entry t e ≡ ok t'
      → regex_of action t' ≡ regex_of action t ++ regex_entry P action e
  unfolding add_pattern add_exact add_wildcard add_global add_suffix add_regex push_regex
  regex_step action (entry exact a target p) t t' h = ground (arith, append-nil (regex_of action t))
  regex_step action (entry wildcard a target p) t t' h =
      ground (arith, append-nil (regex_of action t))
  regex_step action (entry regex a target p) t t' h = ground (arith, append-nil (regex_of action t))

  -- A step or a loop that ends as an error says.
  abbrev pub Outcome : Option ConfigError → Result (Tables Regex) ConfigError → Type 0
  Outcome (some x) r = r ≡ err x
  Outcome none r = (t : Tables Regex) × (r ≡ ok t)

  -- An entry is refused exactly with its error.
  pub error_step : (e : Entry) (t : Tables Regex) → Outcome (entry_error P e) (add_entry t e)
  unfolding add_pattern add_wildcard add_regex
  error_step (entry exact a target p) t = (add_exact P a target t p, refl)
  error_step (entry wildcard a target p) t = elim (Bool-cases (text_eq p global_pattern)) [
    | inl g ↦ rw g (add_global P a target t p, refl)
    | inr g ↦ elim (Option-cases (strip_prefix (codes "*.") p)) [
      | inl e ↦ rw (g, e) refl
      | inr (s, e) ↦
          rw (g, e) (add_suffix P a target t (normalize_domain_like to_lowercase s), refl)
    ]
  ]
  error_step (entry regex a target p) t = regex_case (regex_new p) refl
    where
      regex_case :
          (r : Result Regex Text)
          → regex_new p ≡ r
          → Outcome (entry_error P (entry regex a target p)) (add_regex P a target t p)
      regex_case (ok re) e = rw e (push_regex P a target t p re, refl)
      regex_case (err x) e = rw e refl
