-- ===== src/Prelude/Words.antt =====
-- What the source uses of `str::split_whitespace`, `str::parse` and `str::replace`, and how words and
-- numbers are read back.
use load_ants.Prelude.{
  ◌||◌, All, ℕ, zero, suc, ◌+◌, ◌-◌, ◌*◌, ◌/◌, ◌%◌, ◌<◌, ◌≡◌, refl, Bool, true, false, not, ◌&&◌,
  List, [], ◌∷◌, ◌++◌, Option, none, some, ltb, leb, ◌==◌, is_empty, arith, if◌then◌else◌,
}
use load_ants.Prelude.Texts.{Text, is_whitespace, cons_part, decimal, digits}

abbrev starts_word : Text → Bool
starts_word [] = false
starts_word (c ∷ s) = not (is_whitespace c)

-- `str::split_whitespace`
unfoldable pub split_whitespace : Text → List Text
unfolding is_whitespace
split_whitespace [] = []
split_whitespace (c ∷ s) =
    let rest = split_whitespace s in
    if is_whitespace c then rest else if starts_word s then cons_part c rest else (c ∷ []) ∷ rest

-- `s.contains` for a character twice in a row
unfoldable pub has_pair : ℕ → Text → Bool
has_pair sep [] = false
has_pair sep (c ∷ []) = false
has_pair sep (c ∷ d ∷ s) = (c == sep && d == sep) || has_pair sep (d ∷ s)

-- `str::starts_with` for one character
abbrev pub starts_with : Text → ℕ → Bool
starts_with [] c = false
starts_with (d ∷ s) c = d == c

abbrev is_digit : ℕ → Bool
is_digit c = leb 48 c && leb c 57

unfoldable pub value_from : ℕ → Text → Option ℕ
value_from acc [] = some acc
value_from acc (c ∷ s) =
    let rest = value_from (acc * 10 + (c - 48)) s in if is_digit c then rest else none

abbrev strip_plus : Text → Text
strip_plus [] = []
strip_plus (c ∷ s) = if c == b'+' then s else c ∷ s

abbrev in_u16 : Option ℕ → Option ℕ
in_u16 none = none
in_u16 (some n) = if ltb n 65536 then some n else none

-- `str::parse::<u16>`: a value that does not fit is an error wherever the overflow shows.
unfoldable pub parse_u16 : Text → Option ℕ
unfolding value_from
parse_u16 s = let t = strip_plus s in if is_empty t then none else in_u16 (value_from 0 t)

digits-value :
    (fuel n : ℕ) (rest : Text) → n < fuel → value_from 0 (digits fuel n rest) ≡ value_from n rest
unfolding digits value_from
digits-value zero n rest h = absurd (omega arith)
digits-value (suc fuel) n rest h = ground (arith, digits-value fuel (n / 10) ((48 + n % 10) ∷ rest))

-- The digits of a number are read back as the number.
pub value_from-decimal : (n : ℕ) → value_from 0 (decimal n) ≡ some n
unfolding decimal value_from
value_from-decimal n = digits-value (n + 1) n [] (omega arith)

-- Text without white space.
abbrev pub IsWord : Text → Type 0
IsWord s = All (λ c. is_whitespace c ≡ false) s

digits-All :
    (P : ℕ → Type 0) (each : (d : ℕ) → d < 10 → P (48 + d)) (fuel n : ℕ) (rest : Text)
    → All P rest
    → All P (digits fuel n rest)
unfolding digits
digits-All P each zero n rest h = h
digits-All P each (suc fuel) n rest h =
    elim (ltb n 10)
        as (λ b.
          ltb n 10 ≡ b
          → All P (elim b [
            | true ↦ (48 + n) ∷ rest
            | false ↦ digits fuel (n / 10) ((48 + n % 10) ∷ rest)
          ])) [
            | true ↦ λ e. (each n (ground (arith, e)), h)
            | false ↦ λ e.
                digits-All P each fuel (n / 10) ((48 + n % 10) ∷ rest)
                  (each (n % 10) (omega arith), h)
          ]
      refl

digit-not-whitespace : (d : ℕ) → d < 10 → is_whitespace (48 + d) ≡ false
unfolding is_whitespace
digit-not-whitespace d h = ground arith

pub decimal-IsWord : (n : ℕ) → IsWord (decimal n)
unfolding decimal
decimal-IsWord n = digits-All _ digit-not-whitespace (n + 1) n [] tt

-- The digits start with a digit, so with no sign.
abbrev Starts : Text → Type 0
Starts s = (strip_plus s ≡ s) × (is_empty s ≡ false)

digit-Starts : (d : ℕ) (rest : Text) → d < 10 → Starts ((48 + d) ∷ rest)
digit-Starts d rest h = ground arith

digits-Starts : (fuel n : ℕ) (rest : Text) → n < fuel → Starts (digits fuel n rest)
unfolding digits
digits-Starts zero n rest h = absurd (omega arith)
digits-Starts (suc fuel) n rest h =
    elim (ltb n 10)
        as (λ b.
          ltb n 10 ≡ b
          → Starts (elim b [
            | true ↦ (48 + n) ∷ rest
            | false ↦ digits fuel (n / 10) ((48 + n % 10) ∷ rest)
          ])) [
            | true ↦ λ e. digit-Starts n rest (ground (arith, e))
            | false ↦ λ e. digits-Starts fuel (n / 10) ((48 + n % 10) ∷ rest) (ground (arith, e))
          ]
      refl

decimal-Starts : (n : ℕ) → Starts (decimal n)
unfolding decimal
decimal-Starts n = digits-Starts (n + 1) n [] (omega arith)

pub is_empty-decimal : (n : ℕ) → is_empty (decimal n) ≡ false
is_empty-decimal n = (decimal-Starts n).1

-- A number that fits is read back.
pub parse_u16-decimal : (n : ℕ) → n < 65536 → parse_u16 (decimal n) ≡ some n
unfolding parse_u16
parse_u16-decimal n h =
    rw ((decimal-Starts n).0, (decimal-Starts n).1, value_from-decimal n) (ground arith)

-- A word and what follows it after a space.
pub split_whitespace-word :
    (w s : Text)
    → IsWord w
    → is_empty w ≡ false
    → split_whitespace (w ++ 32 ∷ s) ≡ w ∷ split_whitespace s
unfolding split_whitespace
split_whitespace-word [] s h e = cc
split_whitespace-word (c ∷ []) s h e = rw h.0 refl
split_whitespace-word (c ∷ d ∷ w) s h e =
    ground (arith, h.0, h.1.0, split_whitespace-word (d ∷ w) s h.1 refl)

pub split_whitespace-last : (w : Text) → IsWord w → is_empty w ≡ false → split_whitespace w ≡ w ∷ []
unfolding split_whitespace
split_whitespace-last [] h e = cc
split_whitespace-last (c ∷ []) h e = rw h.0 refl
split_whitespace-last (c ∷ d ∷ w) h e =
    ground (arith, h.0, h.1.0, split_whitespace-last (d ∷ w) h.1 refl)

-- `str::trim_end_matches` for one character
unfoldable pub trim_end_matches : Text → ℕ → Text
trim_end_matches [] sep = []
trim_end_matches (c ∷ s) sep =
    let rest = trim_end_matches s sep in if c == sep && is_empty rest then [] else c ∷ rest
