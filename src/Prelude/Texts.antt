-- ===== src/Prelude/Texts.antt =====
-- Rust's `str` and `String`, as lists of code points. `utf8_len` is the length that `len()` gives,
-- in bytes. What the source uses of the standard library is written out.
use Prim.Native.Nat.{ℕ, zero, suc, ◌+◌, ◌/◌, ◌%◌}
use Prim.Native.Char.{code}
use Prim.Native.String.{String}
use mathlib.Core.Path.{◌≡◌, refl}
use mathlib.Core.Logic.{◌↔◌}
use mathlib.Core.Bool.{Bool, true, false, ◌&&◌, ◌||◌}
use mathlib.Core.Option.{Option, none, some}
use mathlib.Core.List.{List, [], ◌∷◌, ◌++◌, map, reverse}
use native.Mathlib.Omega.{arith}
use load_ants.Prelude.Tests.{ltb, leb, ◌==◌, if◌then◌else◌}
use load_ants.Prelude.Lists.{all, is_empty}

abbrev pub Text : Type 0
Text = List ℕ

-- The text of a literal.
abbrev pub codes : String → Text
codes String.[] = []
codes (String.◌∷◌ c s) = code c ∷ codes s

abbrev pub dot : ℕ
dot = b'.'

unfoldable pub text_eq : Text → Text → Bool
text_eq [] [] = true
text_eq (c ∷ s) (d ∷ t) = c == d && text_eq s t
text_eq _ _ = false

pub text_eq_refl : (s : Text) → text_eq s s ≡ true
unfolding text_eq
text_eq_refl [] = refl
text_eq_refl (c ∷ s) = ground (arith, text_eq_refl s)

text_eq-eq : (s t : Text) → text_eq s t ≡ true → s ≡ t
unfolding text_eq
text_eq-eq [] [] h = refl
text_eq-eq [] (d ∷ t) h = cc
text_eq-eq (c ∷ s) [] h = cc
text_eq-eq (c ∷ s) (d ∷ t) h = ground (arith, text_eq-eq s t)

pub text_eq_iff : (s t : Text) → (text_eq s t ≡ true) ↔ (s ≡ t)
text_eq_iff s t = (text_eq-eq s t, λ e. rw e (text_eq_refl t))

abbrev char_len : ℕ → ℕ
char_len c = if ltb c 0x80 then 1 else if ltb c 0x800 then 2 else if ltb c 0x10000 then 3 else 4

-- `str::len`
unfoldable pub utf8_len : Text → ℕ
utf8_len [] = 0
utf8_len (c ∷ s) = char_len c + utf8_len s

-- `str::is_ascii`
unfoldable pub is_ascii : Text → Bool
is_ascii = all (λ c. ltb c 0x80)

ascii_lower : ℕ → ℕ
ascii_lower c = if leb b'A' c && leb c b'Z' then c + 32 else c

-- `str::make_ascii_lowercase`
unfoldable pub make_ascii_lowercase : Text → Text
unfolding ascii_lower
make_ascii_lowercase = map ascii_lower

-- `s.ends_with(c)`
unfoldable pub ends_with : Text → ℕ → Bool
ends_with [] c = false
ends_with (d ∷ []) c = d == c
ends_with (d ∷ e ∷ s) c = ends_with (e ∷ s) c

-- `String::pop`, without the character
unfoldable pub pop : Text → Text
pop [] = []
pop (c ∷ []) = []
pop (c ∷ d ∷ s) = c ∷ pop (d ∷ s)

-- `str::contains` for one character
unfoldable pub contains : Text → ℕ → Bool
contains [] c = false
contains (d ∷ s) c = d == c || contains s c

-- `str::strip_prefix`
unfoldable pub strip_prefix : Text → Text → Option Text
strip_prefix [] s = some s
strip_prefix (p ∷ ps) [] = none
strip_prefix (p ∷ ps) (c ∷ s) = if p == c then strip_prefix ps s else none

-- One more character in front of a nonempty list of parts.
abbrev pub cons_part : ℕ → List Text → List Text
cons_part c [] = (c ∷ []) ∷ []
cons_part c (part ∷ parts) = (c ∷ part) ∷ parts

-- `str::split` at one character: always at least one part
unfoldable pub split : ℕ → Text → List Text
split sep [] = [] ∷ []
split sep (c ∷ s) = let rest = split sep s in if c == sep then [] ∷ rest else cons_part c rest

-- The parts with the separator between them.
unfoldable pub join : ℕ → List Text → Text
join sep [] = []
join sep (part ∷ []) = part
join sep (part ∷ q ∷ parts) = part ++ sep ∷ join sep (q ∷ parts)

-- The characters with the property `White_Space`, which `str::trim` removes.
unfoldable pub is_whitespace : ℕ → Bool
is_whitespace c =
    (leb 9 c && leb c 13)
    || (c == 32 || (c == 0x85 || (c == 0xa0 || (c == 0x1680 || (leb 0x2000 c && leb c 0x200a)))))
    || (c == 0x2028 || (c == 0x2029 || (c == 0x202f || (c == 0x205f || c == 0x3000))))

unfoldable pub trim_start : Text → Text
unfolding is_whitespace
trim_start [] = []
trim_start (c ∷ s) = if is_whitespace c then trim_start s else c ∷ s

-- `str::trim`
unfoldable pub trim : Text → Text
unfolding trim_start
trim s = reverse (trim_start (reverse (trim_start s)))

-- A line without the carriage return before its end.
abbrev chomp : Text → Text
chomp s = if ends_with s 13 then pop s else s

-- The text after the last line feed is a line only if it is not empty.
lines_of : List Text → List Text
lines_of [] = []
lines_of (l ∷ []) = if is_empty l then [] else l ∷ []
lines_of (l ∷ m ∷ rest) = chomp l ∷ lines_of (m ∷ rest)

-- `str::lines`
unfoldable pub lines : Text → List Text
unfolding lines_of split ends_with pop
lines s = lines_of (split 10 s)

-- The digits of a number in base ten, in front of `rest`. Fuel above the number is enough, since
-- each round divides it by ten.
unfoldable pub digits : ℕ → ℕ → Text → Text
digits zero n rest = rest
digits (suc fuel) n rest = elim (ltb n 10) [
  | true ↦ (48 + n) ∷ rest
  | false ↦ digits fuel (n / 10) ((48 + n % 10) ∷ rest)
]

-- `ToString` of an unsigned integer
unfoldable pub decimal : ℕ → Text
unfolding digits
decimal n = digits (n + 1) n []
