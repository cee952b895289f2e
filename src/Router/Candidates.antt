-- ===== src/Router/Candidates.antt =====
-- The prefilter of src/router.rs: a rule is a candidate for a domain exactly if its keyword, in lower
-- case, is one of the domain's labels and no shorter than two bytes.
use mathlib.Core.Path.{ap₂}
use load_ants.Prelude.{
  ℕ, ◌+◌, ◌≡◌, refl, sym, ◌∙◌, Bool, true, false, ◌&&◌, ◌||◌, not, List, [], ◌∷◌, arith, none, some,
  inl, inr, ◌==◌, ltb, Bool-cases, Option-cases, if◌then◌else◌,
}
use load_ants.Prelude.Texts.{Text, utf8_len, text_eq, text_eq_iff}
use load_ants.Prelude.Assoc.{get, get-insert}
use load_ants.Router.{CompiledRegexRule, Prefilter}
use load_ants.Router.Prefilter.{
  longest_segment, add_index, indices_of, add_keyword, add_rule_keyword, prefilter_from,
  build_regex_prefilter,
}
use load_ants.Router.Find.{candidates_of}
use load_ants.Router.Indices.{mem, mem-append}

-- The indices stored under a keyword.
abbrev pub stored : Prefilter → Text → List ℕ
stored prefilter k = indices_of (get k prefilter)

mem-add_index : (i j : ℕ) (is : List ℕ) → mem i (add_index j is) ≡ (j == i || mem i is)
mem-add_index i j is = elim (Bool-cases (mem j is)) [
  | inl e ↦ rw e (elim (Bool-cases (j == i)) [ inl s ↦ rw s (same i j s e) | inr s ↦ rw s ])
  | inr e ↦ rw e
]
  where
    same : (i j : ℕ) → (j == i) ≡ true → mem j is ≡ true → mem i is ≡ true
    same i j s e = let p : j ≡ i = ground arith in rw p at e

stored-add_keyword :
    (k key : Text) (j : ℕ) (prefilter : Prefilter) (i : ℕ)
    → mem i (stored (add_keyword key j prefilter) k)
      ≡ ((text_eq key k && j == i) || mem i (stored prefilter k))
unfolding add_keyword
stored-add_keyword k key j prefilter i =
    rw get-insert
      (elim (Bool-cases (text_eq key k)) [ inl e ↦ rw e (same (text_eq-eq e)) | inr e ↦ rw e ])
  where
    text_eq-eq : text_eq key k ≡ true → key ≡ k
    text_eq-eq = (text_eq_iff key k).0

    same :
        key ≡ k
        → mem i (add_index j (stored prefilter key)) ≡ ((j == i) || mem i (stored prefilter k))
    same p = rw (← p) (mem-add_index i j (stored prefilter key))

module _ {Regex : Type 0} (to_lowercase : Text → Text) where
  -- Whether the keyword of a rule is the given one.
  abbrev pub is_keyword : Text → CompiledRegexRule Regex → Bool
  is_keyword k rule = elim (longest_segment rule.pattern) [
    | none ↦ false
    | some segment ↦ text_eq (to_lowercase segment) k
  ]

  -- Whether `i` is the index, counted from `n`, of a rule with the keyword.
  abbrev pub has_keyword : Text → ℕ → List (CompiledRegexRule Regex) → ℕ → Bool
  has_keyword k n [] i = false
  has_keyword k n (rule ∷ rules) i = (is_keyword k rule && n == i) || has_keyword k (n + 1) rules i

  stored-add_rule_keyword :
      (k : Text) (n : ℕ) (rule : CompiledRegexRule Regex) (prefilter : Prefilter) (i : ℕ)
      → mem i (stored (add_rule_keyword to_lowercase n rule prefilter) k)
        ≡ ((is_keyword k rule && n == i) || mem i (stored prefilter k))
  unfolding add_rule_keyword
  stored-add_rule_keyword k n rule prefilter i =
      elim (Option-cases (longest_segment rule.pattern)) [
        | inl e ↦ ground arith
        | inr (s, e) ↦ ground (arith, stored-add_keyword k (to_lowercase s) n prefilter i)
      ]

  stored-prefilter_from :
      (k : Text) (n : ℕ) (rules : List (CompiledRegexRule Regex)) (prefilter : Prefilter) (i : ℕ)
      → mem i (stored (prefilter_from to_lowercase n rules prefilter) k)
        ≡ (has_keyword k n rules i || mem i (stored prefilter k))
  unfolding prefilter_from
  stored-prefilter_from k n [] prefilter i = refl
  stored-prefilter_from k n (rule ∷ rules) prefilter i = ground (
    arith,
    stored-prefilter_from k (n + 1) rules (add_rule_keyword to_lowercase n rule prefilter) i,
    stored-add_rule_keyword k n rule prefilter i,
  )

  -- The map from keywords to indices.
  pub stored-build_regex_prefilter :
      (k : Text) (rules : List (CompiledRegexRule Regex)) (i : ℕ)
      → mem i (stored (build_regex_prefilter to_lowercase rules) k) ≡ has_keyword k 0 rules i
  unfolding build_regex_prefilter get
  stored-build_regex_prefilter k rules i = ground (arith, stored-prefilter_from k 0 rules [] i)

  -- Whether the keyword of a rule is one of the labels.
  abbrev pub is_eligible : List Text → CompiledRegexRule Regex → Bool
  is_eligible [] rule = false
  is_eligible (label ∷ labels) rule =
      (not (ltb (utf8_len label) 2) && is_keyword label rule) || is_eligible labels rule

  abbrev pub has_eligible : List Text → ℕ → List (CompiledRegexRule Regex) → ℕ → Bool
  has_eligible labels n [] i = false
  has_eligible labels n (rule ∷ rules) i =
      (is_eligible labels rule && n == i) || has_eligible labels (n + 1) rules i

  has_eligible-nil :
      (n : ℕ) (rules : List (CompiledRegexRule Regex)) (i : ℕ) → has_eligible [] n rules i ≡ false
  has_eligible-nil n [] i = refl
  has_eligible-nil n (rule ∷ rules) i = has_eligible-nil (n + 1) rules i

  has_eligible-cons :
      (label : Text) (labels : List Text) (n : ℕ) (rules : List (CompiledRegexRule Regex)) (i : ℕ)
      → has_eligible (label ∷ labels) n rules i ≡ (
          (not (ltb (utf8_len label) 2) && has_keyword label n rules i)
          || has_eligible labels n rules i)
  has_eligible-cons label labels n [] i = ground arith
  has_eligible-cons label labels n (rule ∷ rules) i =
      ground (arith, has_eligible-cons label labels (n + 1) rules i)

  pub mem-candidates_of :
      (rules : List (CompiledRegexRule Regex)) (labels : List Text) (i : ℕ)
      → mem i (candidates_of (build_regex_prefilter to_lowercase rules) labels)
        ≡ has_eligible labels 0 rules i
  unfolding candidates_of
  mem-candidates_of rules [] i = sym (has_eligible-nil 0 rules i)
  mem-candidates_of rules (label ∷ labels) i =
      mem-append i (label_candidates label) (candidates_of prefilter labels)
      ∙ ap₂ ◌||◌ (mem-label label) (mem-candidates_of rules labels i)
      ∙ sym (has_eligible-cons label labels 0 rules i)
    where
      prefilter : Prefilter
      prefilter = build_regex_prefilter to_lowercase rules

      label_candidates : Text → List ℕ
      label_candidates label =
          if ltb (utf8_len label) 2
          then []
          else elim (get label prefilter) [ some indices ↦ indices | none ↦ [] ]

      mem-label :
          (label : Text)
          → mem i (label_candidates label)
            ≡ (not (ltb (utf8_len label) 2) && has_keyword label 0 rules i)
      mem-label label = ground (arith, stored-build_regex_prefilter label rules i)
