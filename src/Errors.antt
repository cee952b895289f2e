-- ===== src/Errors.antt =====
-- src/error.rs, and Rust's `Result` with the `?` operator as a `do` block.
-- A foreign error (`io::Error`, `ProtoError`, `reqwest::Error`, `serde_yaml::Error`, `regex::Error`)
-- stands as the text that it displays.
pub mod Display
use load_ants.Prelude.{
  ◌⊎◌, inl, inr, arith, Bool, true, false, if◌then◌else◌, ◌≡◌, refl, List, [], ◌∷◌,
}
use load_ants.Prelude.Texts.{Text}

pub data Result {ℓ} (A E : Type ℓ) : Type ℓ where
  ok : A → Result A E
  err : E → Result A E

infixl 5 ◌>>=◌
abbrev pub ◌>>=◌ {ℓ} : {E A B : Type ℓ} → Result A E → (A → Result B E) → Result B E
err stop >>= next = err stop
ok value >>= next = next value

-- `Result::map_err`
abbrev pub map_err {ℓ} : {A E F : Type ℓ} → (E → F) → Result A E → Result A F
map_err f (ok a) = ok a
map_err f (err e) = err (f e)

-- A loop whose body may leave by `?`.
unfoldable pub try_fold {ℓ} : {S A E : Type ℓ} → (S → A → Result S E) → S → List A → Result S E
try_fold f s [] = ok s
try_fold f s (x ∷ xs) = f s x >>= λ t. try_fold f t xs

pub data ConfigError : Type 0 where
  load_error parse_error invalid_listen_address invalid_upstream_url : Text → ConfigError
  invalid_group_name invalid_weight_config invalid_auth_config : Text → ConfigError
  invalid_upstream_config invalid_route_rule invalid_pattern invalid_regex : Text → ConfigError
  invalid_cache_config invalid_http_client_config duplicate_group_name : Text → ConfigError
  non_existent_group_reference validation_error : Text → ConfigError

pub data AppError : Type 0 where
  config : ConfigError → AppError
  io dns_proto http http_middleware upstream router cache : Text → AppError
  timeout no_upstream_available : AppError
  upstream_group_not_found internal json_error no_route_match : Text → AppError
  invalid_proxy http_error missing_required_config : Text → AppError
  invalid_load_balancing_strategy : Text → AppError
  invalid_shutdown_timeout : AppError
  not_implemented : Text → AppError

-- If a chain of two steps succeeds, the first step did, and the second did from what it gave.
pub >>=-eq-ok {ℓ} :
    {E A B : Type ℓ} (step : Result A E) (next : A → Result B E) {last : B}
    → (step >>= next) ≡ ok last
    → (value : A) × (step ≡ ok value) × (next value ≡ ok last)
>>=-eq-ok (err stop) next chain = cc
>>=-eq-ok (ok value) next chain = (value, refl, chain)

pub map_err-eq-ok {ℓ} :
    {A E F : Type ℓ} (f : E → F) (m : Result A E) {a : A} → map_err f m ≡ ok a → m ≡ ok a
map_err-eq-ok f (ok a) h = ground arith
map_err-eq-ok f (err e) h = cc

-- Inversion of a guard that leaves with an error.
pub guard-eq-ok {ℓ} :
    {A E : Type ℓ} (b : Bool) (e : E) (m : Result A E) {a : A}
    → (if b then err e else m) ≡ ok a
    → (b ≡ false) × (m ≡ ok a)
guard-eq-ok true e m h = cc
guard-eq-ok false e m h = (refl, h)

pub ok_injective {ℓ} : {A E : Type ℓ} {a b : A} → ◌≡◌ {A = Result A E} (ok a) (ok b) → a ≡ b
ok_injective h = grind arith

pub Result-cases {ℓ} :
    {A E : Type ℓ} (r : Result A E) → ((a : A) × (r ≡ ok a)) ⊎ ((e : E) × (r ≡ err e))
Result-cases (ok a) = inl (a, refl)
Result-cases (err e) = inr (e, refl)
