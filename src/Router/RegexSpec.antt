-- ===== src/Router/RegexSpec.antt =====
-- `try_regex_match` of src/router.rs against its description: of the rules whose keyword is one of
-- the domain's labels, the last defined that matches the domain.
use mathlib.Core.Path.{fun_ext}
use native.Mathlib.Nat.{zero-add}
use load_ants.Prelude.{
  ℕ, ◌≤◌, ◌+◌, ◌≡◌, refl, sym, ap, ◌∙◌, true, false, List, [], ◌∷◌, arith, Option, All, length,
}
use load_ants.Prelude.Texts.{Text, dot, split}
use load_ants.Router.{Patterns, CompiledRegexRule}
use load_ants.Router.Prefilter.{build_regex_prefilter}
use load_ants.Router.Find.{candidates_of, sort, dedup, first_regex, candidates}
use load_ants.Router.Indices.{mem, mem-dedup-sort, dedup-sort-Ascending}
use load_ants.Router.Candidates.{mem-candidates_of}
use load_ants.Router.LastRegex.{
  last_some, pick, at, at_from, has, InRange, first_regex-reverse, at_from-at, last_some-Ascending,
}

All-of_mem : {P : ℕ → Type 0} (is : List ℕ) → ((i : ℕ) → mem i is ≡ true → P i) → All P is
All-of_mem [] h = tt
All-of_mem (i ∷ is) h = (h i (ground arith), All-of_mem is (λ j m. h j (ground arith)))

module _ (P : Patterns) where
  open P use {Regex, to_lowercase}

  -- A rule whose keyword is one of the domain's labels, if it matches the domain.
  abbrev pub chosen : Text → CompiledRegexRule Regex → Option (CompiledRegexRule Regex)
  chosen domain = pick P domain (split dot domain)

  has_of_ge :
      (domain : Text) (labels : List Text) (n : ℕ) (rules : List (CompiledRegexRule Regex)) (i : ℕ)
      → n + length rules ≤ i
      → has P domain labels n rules i ≡ false
  has_of_ge domain labels n [] i h = refl
  has_of_ge domain labels n (rule ∷ rules) i h =
      ground (arith, has_of_ge domain labels (n + 1) rules i)

  module _ (domain : Text) (rules : List (CompiledRegexRule Regex)) where
    pub found : List ℕ
    found =
        dedup (sort (candidates_of (build_regex_prefilter to_lowercase rules) (split dot domain)))

    mem-found : (i : ℕ) → mem i found ≡ has P domain (split dot domain) 0 rules i
    unfolding found
    mem-found i = mem-dedup-sort i _ ∙ mem-candidates_of to_lowercase rules (split dot domain) i

    -- No index that the prefilter stores is out of range, so the indexing cannot panic.
    pub found-InRange : InRange P rules found
    found-InRange =
        All-of_mem found
          λ i m. ground (arith, mem-found i, has_of_ge domain (split dot domain) 0 rules i)

    at-at_from : at P rules domain ≡ at_from P domain 0 rules
    at-at_from = fun_ext λ i. sym (rw (zero-add i) at (at_from-at P domain 0 rules i))

    -- The loop over the candidates of the prefilter finds the last rule that has its keyword among
    -- the labels and matches.
    pub first_regex-candidates :
        first_regex P rules domain (candidates P (build_regex_prefilter to_lowercase rules) domain)
        ≡ last_some (chosen domain) rules
    unfolding candidates found
    first_regex-candidates =
        first_regex-reverse P rules domain found found-InRange
        ∙ ap (λ f. last_some f found) at-at_from
        ∙ last_some-Ascending P domain (split dot domain) 0 rules found (dedup-sort-Ascending _)
            (All-of_mem found (λ i m. omega arith)) mem-found
