-- ===== src/Prelude/Maybe.antt =====
-- `?` on an `Option`, as a `do` block, and the loops that keep what is there.
use load_ants.Prelude.{Option, none, some}

infixl 5 ◌>>=◌
abbrev pub ◌>>=◌ {ℓ κ} : {A : Type ℓ} {B : Type κ} → Option A → (A → Option B) → Option B
none >>= next = none
some value >>= next = next value

abbrev pub unwrap_or {ℓ} : {A : Type ℓ} → A → Option A → A
unwrap_or default none = default
unwrap_or default (some a) = a

abbrev pub fmap {ℓ κ} : {A : Type ℓ} {B : Type κ} → (A → B) → Option A → Option B
fmap f none = none
fmap f (some a) = some (f a)

-- `if let Some(x) = o { s = f(x, s) }`
abbrev pub when_some {ℓ κ} : {A : Type ℓ} {S : Type κ} → Option A → (A → S → S) → S → S
when_some none f s = s
when_some (some a) f s = f a s
