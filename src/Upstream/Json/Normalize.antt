-- ===== src/Upstream/Json/Normalize.antt =====
-- `normalize_txt_data` of src/upstream/json.rs.
use load_ants.Prelude.Words.{has_pair, starts_with}
use load_ants.Prelude.{
  ℕ, zero, suc, ◌<◌, ◌≤◌, ◌≡◌, refl, true, false, ◌&&◌, [], ◌∷◌, arith, leb, ◌==◌, length,
  if◌then◌else◌, Bool-cases, inl, inr,
}
use load_ants.Prelude.Texts.{Text, trim, utf8_len, ends_with, pop}

abbrev pub quote : ℕ
quote = b'"'

-- `s[1..]`
abbrev tail : Text → Text
tail [] = []
tail (c ∷ s) = s

-- `s.replace("\"\"", "")`, from the left and without overlaps
unfoldable pub remove_pairs : Text → Text
remove_pairs [] = []
remove_pairs (c ∷ []) = c ∷ []
remove_pairs (c ∷ d ∷ s) =
    let after = remove_pairs s in
    let kept = c ∷ remove_pairs (d ∷ s) in if c == quote && d == quote then after else kept

-- The text without the quotes around it.
unfoldable pub unquote : Text → Text
unquote s =
    if leb 2 (utf8_len s) && (starts_with s quote && ends_with s quote) then pop (tail s) else s

-- The `while` loop on fuel: each round but the last takes two characters away.
unfoldable pub remove_all_pairs : ℕ → Text → Text
remove_all_pairs zero s = s
remove_all_pairs (suc fuel) s =
    let rest = remove_all_pairs fuel (remove_pairs s) in if has_pair quote s then rest else s

unfoldable pub normalize_txt_data : Text → Text
normalize_txt_data raw = let s = unquote (trim raw) in remove_all_pairs (length s) s

length-remove_pairs : (s : Text) → length (remove_pairs s) ≤ length s
unfolding remove_pairs
length-remove_pairs [] = omega arith
length-remove_pairs (c ∷ []) = omega arith
length-remove_pairs (c ∷ d ∷ s) = ground (arith, length-remove_pairs s, length-remove_pairs (d ∷ s))

remove_pairs-lt : (s : Text) → has_pair quote s ≡ true → length (remove_pairs s) < length s
unfolding remove_pairs has_pair
remove_pairs-lt [] h = cc
remove_pairs-lt (c ∷ []) h = cc
remove_pairs-lt (c ∷ d ∷ s) h = ground (arith, length-remove_pairs s, remove_pairs-lt (d ∷ s))

has_pair-empty : (s : Text) → length s ≤ 0 → has_pair quote s ≡ false
unfolding has_pair
has_pair-empty [] h = refl
has_pair-empty (c ∷ s) h = absurd (omega arith)

remove_all_pairs_lem :
    (fuel : ℕ) (s : Text) → length s ≤ fuel → has_pair quote (remove_all_pairs fuel s) ≡ false
unfolding remove_all_pairs
remove_all_pairs_lem zero s h = has_pair-empty s h
remove_all_pairs_lem (suc fuel) s h = elim (Bool-cases (has_pair quote s)) [
  | inl e ↦ rw e (remove_all_pairs_lem fuel (remove_pairs s) (omega (arith, remove_pairs-lt s e)))
  | inr e ↦ rw e e
]

-- The loop ends: with the fuel that it is given, no two adjacent quotes are left.
pub normalize_txt_data_lem : (raw : Text) → has_pair quote (normalize_txt_data raw) ≡ false
unfolding normalize_txt_data
normalize_txt_data_lem raw =
    remove_all_pairs_lem (length (unquote (trim raw))) (unquote (trim raw)) (omega arith)
