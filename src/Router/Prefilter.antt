-- ===== src/Router/Prefilter.antt =====
-- `Router::build_regex_prefilter` of src/router.rs: the keyword of each pattern, and the map from a
-- keyword to the indices of the rules that have it.
use load_ants.Prelude.{
  ℕ, ◌+◌, Bool, List, [], ◌∷◌, ◌++◌, Option, none, some, ◌==◌, leb, if◌then◌else◌, any, is_empty,
}
use load_ants.Prelude.Texts.{Text, codes, utf8_len}
use load_ants.Prelude.Assoc.{get, insert}
use load_ants.Router.{CompiledRegexRule, Prefilter}

abbrev pub regex_special_chars : List ℕ
regex_special_chars = codes "\\^$.|?*+()[]{}-"

unfoldable pub is_special : ℕ → Bool
is_special c = any (λ d. d == c) regex_special_chars

-- A segment that holds something is kept.
abbrev flush : Text → List Text → List Text
flush current segments = if is_empty current then segments else segments ++ current ∷ []

-- The loop over the characters, and the segment that it leaves open.
unfoldable pub segments_from : Text → List Text → Text → List Text
segments_from current segments [] = flush current segments
segments_from current segments (c ∷ pattern) =
    let closed = segments_from [] (flush current segments) pattern in
    let longer = segments_from (current ++ c ∷ []) segments pattern in
    if is_special c then closed else longer

-- `filter(len >= 2).max_by_key(len)`: of segments of one length the last.
unfoldable pub longest_from : Option Text → List Text → Option Text
longest_from best [] = best
longest_from none (s ∷ segments) =
    longest_from (if leb 2 (utf8_len s) then some s else none) segments
longest_from (some b) (s ∷ segments) =
    longest_from
      (if leb 2 (utf8_len s)
        then (if leb (utf8_len b) (utf8_len s) then some s else some b)
        else some b)
      segments

unfoldable pub longest_segment : Text → Option Text
unfolding longest_from segments_from is_special utf8_len
longest_segment pattern = longest_from none (segments_from [] [] pattern)

-- `HashSet::insert`
abbrev pub add_index : ℕ → List ℕ → List ℕ
add_index i is = if any (λ j. j == i) is then is else i ∷ is

abbrev pub indices_of : Option (List ℕ) → List ℕ
indices_of none = []
indices_of (some is) = is

-- `prefilter.entry(key).or_insert_with(HashSet::new).insert(i)`
unfoldable pub add_keyword : Text → ℕ → Prefilter → Prefilter
add_keyword key i prefilter = insert key (add_index i (indices_of (get key prefilter))) prefilter

module _ {Regex : Type 0} (to_lowercase : Text → Text) where
  -- One round of the loop over the rules.
  unfoldable pub add_rule_keyword : ℕ → CompiledRegexRule Regex → Prefilter → Prefilter
  unfolding longest_segment
  add_rule_keyword i rule prefilter = elim (longest_segment rule.pattern) [
    | none ↦ prefilter
    | some segment ↦ add_keyword (to_lowercase segment) i prefilter
  ]

  unfoldable pub prefilter_from : ℕ → List (CompiledRegexRule Regex) → Prefilter → Prefilter
  prefilter_from i [] prefilter = prefilter
  prefilter_from i (rule ∷ rules) prefilter =
      prefilter_from (i + 1) rules (add_rule_keyword i rule prefilter)

  unfoldable pub build_regex_prefilter : List (CompiledRegexRule Regex) → Prefilter
  unfolding prefilter_from add_rule_keyword add_keyword
  build_regex_prefilter rules = prefilter_from 0 rules []
