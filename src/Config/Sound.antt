-- ===== src/Config/Sound.antt =====
-- What `Config::validate` of src/config/mod.rs makes sure of.
use load_ants.Prelude.{
  Option-cases, ◌≡◌, ◌≢◌, ◌↔◌, refl, true, false, List, [], ◌∷◌, ◌++◌, Option, none, some, is_empty,
  All, Bool-cases, inl, inr, arith,
}
use load_ants.Prelude.Texts.{Text, text_eq, text_eq_iff, codes}
use load_ants.Errors.{Result, ok, err}
use load_ants.Config.Core.{checks, AddrParser, custom, schema, optional}
use load_ants.Config.Rule.{RouteRuleConfig}
use load_ants.Config.Upstream.{validate_group_scheme, validate_servers_not_empty}
use load_ants.Config.Patterns.{validate_route_rule_patterns}
use load_ants.Config.Validate.{
  config_checks, group_checks, rule_checks, Config, Group, UrlParser, each, validate, messages,
  validate_group, validate_route_rule, validate_unique_group_names, validate_group_references,
  unique_names, contains_name, group_names, forward_targets, or_none, targets_exist,
  check_references,
}
use load_ants.Router.{Patterns}
use load_ants.Upstream.Doh.{Urls}

-- No message: the check passes.
abbrev pub Passes : List Text → Type 0
Passes l = is_empty l ≡ true

Passes-append : (xs ys : List Text) → Passes (xs ++ ys) → Passes xs × Passes ys
Passes-append [] ys h = (refl, h)
Passes-append (x ∷ xs) ys h = absurd (cc)

pub checks-All : (ls : List (List Text)) → Passes (checks ls) → All Passes ls
checks-All [] h = tt
checks-All (l ∷ ls) h = let (p, q) = Passes-append l (checks ls) h in (p, checks-All ls q)

pub custom-ok :
    (message : Text) (r : Result (Unit {0}) Text) → Passes (custom message r) → r ≡ ok tt
custom-ok message (ok tt) h = refl
custom-ok message (err e) h = absurd (cc)

schema-ok : (r : Result (Unit {0}) Text) → Passes (schema r) → r ≡ ok tt
schema-ok (ok tt) h = refl
schema-ok (err e) h = absurd (cc)

each-All {ℓ} :
    {A : Type ℓ} (check : A → List Text) (xs : List A)
    → Passes (each check xs)
    → All (λ x. Passes (check x)) xs
each-All check [] h = tt
each-All check (x ∷ xs) h =
    let (p, q) = Passes-append (check x) (each check xs) h in (p, each-All check xs q)

optional-All {ℓ} :
    {A : Type ℓ} (check : A → List Text) (o : Option (List A))
    → Passes (optional (each check) o)
    → All (λ x. Passes (check x)) (or_none o)
optional-All check none h = tt
optional-All check (some xs) h = each-All check xs h

All-map_pred {ℓ κ μ} :
    {A : Type ℓ} {Q : A → Type κ} {R : A → Type μ} (f : (x : A) → Q x → R x) (xs : List A)
    → All Q xs
    → All R xs
All-map_pred f [] h = tt
All-map_pred f (x ∷ xs) h = (f x h.0, All-map_pred f xs h.1)

All-zip {ℓ κ μ ν} :
    {A : Type ℓ} {Q : A → Type κ} {R : A → Type μ} {S : A → Type ν} (f : (x : A) → Q x → R x → S x)
    (xs : List A)
    → All Q xs
    → All R xs
    → All S xs
All-zip f [] h k = tt
All-zip f (x ∷ xs) h k = (f x h.0 k.0, All-zip f xs h.1 k.1)

-- No name stands in the list twice.
abbrev pub Distinct : List Text → Type 0
Distinct [] = Unit
Distinct (n ∷ ns) = All (λ k. n ≢ k) ns × Distinct ns

contains_name-false :
    (name : Text) (seen : List Text) → contains_name name seen ≡ false → All (λ k. k ≢ name) seen
contains_name-false name [] h = tt
contains_name-false name (k ∷ seen) h = (
  λ e. absurd (ground (arith, (text_eq_iff k name).1 e, h)),
  contains_name-false name seen (ground (arith, h)),
)

contains_name-apart :
    (name : Text) (seen : List Text) → All (λ k. k ≢ name) seen → contains_name name seen ≡ false
contains_name-apart name [] h = refl
contains_name-apart name (k ∷ seen) h = elim (Bool-cases (text_eq k name)) [
  | inl e ↦ absurd (h.0 ((text_eq_iff k name).0 e))
  | inr e ↦ rw e (contains_name-apart name seen h.1)
]

-- Every name is apart from those so far.
abbrev Separate : List Text → List Text → Type 0
Separate seen names = All (λ name. All (λ k. k ≢ name) seen) names

module _ (V : Urls) (SocketAddr : Type 0) where
  abbrev names_of : List (Group V SocketAddr) → List Text
  names_of = group_names V SocketAddr

  unique_names-Distinct :
      (seen : List Text) (gs : List (Group V SocketAddr))
      → unique_names V SocketAddr seen gs ≡ ok tt
      → Separate seen (names_of gs) × Distinct (names_of gs)
  unfolding unique_names
  unique_names-Distinct seen [] h = (tt, tt)
  unique_names-Distinct seen (g ∷ gs) h = elim (Bool-cases (contains_name g.name seen)) [
    | inl e ↦ absurd (ground (arith, e, h))
    | inr e ↦
        let (apart, distinct) = unique_names-Distinct (g.name ∷ seen) gs (rw e at h) in
        (
          (contains_name-false g.name seen e, All-map_pred (λ name p. p.1) (names_of gs) apart),
          (All-map_pred (λ name p. p.0) (names_of gs) apart, distinct),
        )
  ]

  Distinct-unique_names :
      (seen : List Text) (gs : List (Group V SocketAddr))
      → Separate seen (names_of gs)
      → Distinct (names_of gs)
      → unique_names V SocketAddr seen gs ≡ ok tt
  unfolding unique_names
  Distinct-unique_names seen [] h d = refl
  Distinct-unique_names seen (g ∷ gs) h d = rw (contains_name-apart g.name seen h.0) (
      Distinct-unique_names (g.name ∷ seen) gs (All-zip (λ name p q. (p, q)) (names_of gs) d.0 h.1)
        d.1)

  Separate-nil : (names : List Text) → Separate [] names
  Separate-nil [] = tt
  Separate-nil (n ∷ ns) = (tt, Separate-nil ns)

  -- The check of the group names passes exactly if no name stands twice.
  pub validate_unique_group_names-Distinct :
      (config : Config V SocketAddr)
      → validate_unique_group_names V SocketAddr config ≡ ok tt
        ↔ Distinct (names_of (or_none config.upstream_groups))
  unfolding validate_unique_group_names
  validate_unique_group_names-Distinct config = elim (Option-cases config.upstream_groups) [
    | inl e ↦ rw e (λ h. tt, λ d. refl)
    | inr (gs, e) ↦ rw e (
      λ h. (unique_names-Distinct [] gs h).1,
      λ d. Distinct-unique_names [] gs (Separate-nil (names_of gs)) d,
    )
  ]

  targets_exist-All :
      (names targets : List Text)
      → targets_exist names targets ≡ ok tt
      → All (λ t. contains_name t names ≡ true) targets
  unfolding targets_exist
  targets_exist-All names [] h = tt
  targets_exist-All names (t ∷ ts) h = elim (Bool-cases (contains_name t names)) [
    | inl e ↦ (e, targets_exist-All names ts (rw e at h))
    | inr e ↦ absurd (ground (arith, e, h))
  ]

  check_references-All :
      (targets : List Text) (groups : List (Group V SocketAddr))
      → check_references V SocketAddr targets groups ≡ ok tt
      → All (λ t. contains_name t (names_of groups) ≡ true) targets
  check_references-All [] groups h = tt
  check_references-All (t ∷ ts) [] h = absurd (cc)
  check_references-All (t ∷ ts) (g ∷ gs) h = targets_exist-All (names_of (g ∷ gs)) (t ∷ ts) h

  -- What the whole check makes sure of: every group has servers and passes the check of its scheme,
  -- the patterns of the static rules pass theirs, names are distinct, and every target of a forwarding
  -- rule, static or remote, is the name of a group.
  pub record Sound (P : Patterns) (config : Config V SocketAddr) : Type 0 where
    pub groups_served :
        All
          (λ (g : Group V SocketAddr). is_empty g.servers ≡ false)
          (or_none config.upstream_groups)
    pub groups_fit :
        All
          (λ (g : Group V SocketAddr). validate_group_scheme g ≡ ok tt)
          (or_none config.upstream_groups)
    pub patterns :
        All (λ rule. validate_route_rule_patterns P rule ≡ ok tt) (or_none config.static_rules)
    pub distinct : Distinct (names_of (or_none config.upstream_groups))
    pub known :
        All
          (λ t. contains_name t (names_of (or_none config.upstream_groups)) ≡ true)
          (forward_targets V SocketAddr config)

  servers_not_empty :
      (g : Group V SocketAddr)
      → validate_servers_not_empty g.servers ≡ ok tt
      → is_empty g.servers ≡ false
  unfolding validate_servers_not_empty
  servers_not_empty g h = ground (arith, h)

  group_checked :
      (g : Group V SocketAddr)
      → Passes (validate_group V SocketAddr g)
      → (is_empty g.servers ≡ false) × (validate_group_scheme g ≡ ok tt)
  unfolding validate_group
  group_checked g h =
      let passed = checks-All (group_checks V SocketAddr g) h in
      (
        servers_not_empty g (
            custom-ok (codes "Server list cannot be empty") (validate_servers_not_empty g.servers)
              passed.1.0),
        custom-ok (codes "Upstream group scheme validation failed") (validate_group_scheme g)
            passed.1.1.1.1.0,
      )

  rule_checked :
      (P : Patterns) (rule : RouteRuleConfig)
      → Passes (validate_route_rule P rule)
      → validate_route_rule_patterns P rule ≡ ok tt
  unfolding validate_route_rule
  rule_checked P rule h =
      let passed = checks-All (rule_checks P rule) h in
      custom-ok (codes "Invalid route rule patterns") (validate_route_rule_patterns P rule)
        passed.1.1.0

  messages-Sound :
      (addrs : AddrParser) (urls : UrlParser) (P : Patterns) (config : Config V SocketAddr)
      → Passes (messages V SocketAddr addrs urls P config)
      → Sound P config
  unfolding messages validate_group_references
  messages-Sound addrs urls P config h =
      let passed = checks-All (config_checks V SocketAddr addrs urls P config) h in
      let rest = passed.1.1.1.1.1 in
      let checked =
        All-map_pred group_checked (or_none config.upstream_groups)
          (optional-All (validate_group V SocketAddr) config.upstream_groups rest.0) in
      record {
        groups_served = All-map_pred (λ g p. p.0) (or_none config.upstream_groups) checked;
        groups_fit = All-map_pred (λ g p. p.1) (or_none config.upstream_groups) checked;
        patterns =
            All-map_pred (rule_checked P) (or_none config.static_rules)
              (optional-All (validate_route_rule P) config.static_rules rest.1.0);
        distinct =
            (validate_unique_group_names-Distinct config).0
              (schema-ok (validate_unique_group_names V SocketAddr config) rest.1.1.1.0);
        known =
            check_references-All (forward_targets V SocketAddr config)
              (or_none config.upstream_groups)
              (schema-ok (validate_group_references V SocketAddr config) rest.1.1.1.1.0);
      }

  -- A configuration that passes `validate` is sound.
  pub validate-Sound :
      (addrs : AddrParser) (urls : UrlParser) (P : Patterns) (config : Config V SocketAddr)
      → validate V SocketAddr addrs urls P config ≡ ok tt
      → Sound P config
  unfolding validate
  validate-Sound addrs urls P config h =
      elim (Bool-cases (is_empty (messages V SocketAddr addrs urls P config))) [
        | inl e ↦ messages-Sound addrs urls P config e
        | inr e ↦ absurd (ground (arith, e, h))
      ]
