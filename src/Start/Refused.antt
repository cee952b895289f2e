-- ===== src/Start/Refused.antt =====
-- Which of the remote rules that src/main.rs hands to `Router::new` can be refused.
use load_ants.Prelude.{
  none, ◌≡◌, refl, ◌⊎◌, inl, inr, List, [], ◌∷◌, Option, some, All, All-append, arith, sym, ◌∙◌,
}
use load_ants.Errors.{err, Result-cases, ConfigError, invalid_regex}
use load_ants.Config.Rule.{exact, wildcard, regex}
use load_ants.Http.{Http, HttpClientConfig}
use load_ants.Remote.Accepted.{Accepted, entries-append}
use load_ants.Remote.Load.{load-Accepted}
use load_ants.Remote.Loader.{RemoteRuleConfig, new_loader, load}
use load_ants.Remote.Merge.{rules_of, all_rules}
use load_ants.Router.{Patterns}
use load_ants.Router.Entries.{Entry, entry, entries, entry_error}
use load_ants.Router.Suffix.{first_some}

first_some-skip {ℓ} :
    {A : Type 0} {B : Type ℓ} (f : A → Option B) (x : A) (xs : List A)
    → f x ≡ none
    → first_some f (x ∷ xs) ≡ first_some f xs
first_some-skip f x xs h = ground (arith, h)

first_some-take {ℓ} :
    {A : Type 0} {B : Type ℓ} (f : A → Option B) (x : A) (xs : List A) (b c : B)
    → f x ≡ some b
    → first_some f (x ∷ xs) ≡ some c
    → c ≡ b
first_some-take f x xs b c h k = ground (arith, h, k)

module _ (P : Patterns) where
  open P use {Regex, regex_new}

  -- The entry is a regular expression that does not compile, for this reason.
  abbrev IsUncompiled : ConfigError → Entry → Type 0
  IsUncompiled c (entry regex a target p) =
      (text : _) × (regex_new p ≡ err text) × (c ≡ invalid_regex text)
  IsUncompiled c _ = ⊥

  -- One of the entries is.
  abbrev pub HasUncompiled : ConfigError → List Entry → Type 0
  HasUncompiled c [] = ⊥
  HasUncompiled c (e ∷ es) = IsUncompiled c e ⊎ HasUncompiled c es

  pub first_some-HasUncompiled :
      (c : ConfigError) (es : List Entry)
      → All (Accepted P) es
      → first_some (entry_error P) es ≡ some c
      → HasUncompiled c es
  first_some-HasUncompiled c [] h k = absurd (cc)
  first_some-HasUncompiled c (entry exact a t p ∷ es) h k =
      inr (first_some-HasUncompiled c es h.1 k)
  first_some-HasUncompiled c (entry wildcard a t p ∷ es) h k = inr (
      first_some-HasUncompiled c es h.1
        (sym (first_some-skip (entry_error P) (entry wildcard a t p) es h.0) ∙ k))
  first_some-HasUncompiled c (entry regex a t p ∷ es) h k = elim (Result-cases (regex_new p)) [
    | inl (re, e) ↦ inr (
        first_some-HasUncompiled c es h.1
          (sym (first_some-skip (entry_error P) (entry regex a t p) es (rw e refl)) ∙ k))
    | inr (text, e) ↦ inl (
      text,
      e,
      first_some-take (entry_error P) (entry regex a t p) es (invalid_regex text) c (rw e refl) k,
    )
  ]

  module _ (H : Http) (http_config : HttpClientConfig) where
    rules_of-Accepted :
        (config : RemoteRuleConfig) → All (Accepted P) (entries (rules_of H http_config config))
    rules_of-Accepted config = elim (Result-cases (new_loader H config http_config)) [
      | inr (e, f) ↦ rw f tt
      | inl (l, made) ↦ elim (Result-cases (load H l)) [
        | inr (e, f) ↦ rw (made, f) tt
        | inl (rules, f) ↦
            let (response, content, sent, good, text, small, all) =
              load-Accepted P H config http_config l rules made f in
            rw (made, f) all
      ]
    ]

    pub all_rules-Accepted :
        (configs : List RemoteRuleConfig)
        → All (Accepted P) (entries (all_rules H http_config configs))
    all_rules-Accepted [] = tt
    all_rules-Accepted (config ∷ configs) =
        rw (entries-append (rules_of H http_config config) (all_rules H http_config configs)) (
          All-append (Accepted P) (entries (rules_of H http_config config)) _
            (rules_of-Accepted config) (all_rules-Accepted configs))
