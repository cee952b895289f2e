-- ===== src/Router/LastRegex.antt =====
-- The loop of `try_regex_match` of src/router.rs over the candidates from the last to the first, seen
-- from the list of rules.
use mathlib.Core.List.{reverse-cons}
use load_ants.Prelude.{
  ℕ, zero, suc, ◌≤◌, ◌<◌, ◌+◌, ◌≡◌, refl, sym, ◌∙◌, Bool, true, false, ◌||◌, List, [], ◌∷◌, ◌++◌,
  reverse, arith, Option, none, some, inl, inr, ◌==◌, All, Bool-cases, if◌then◌else◌, get_elem?,
  length, All-append, get_elem?-some_of_lt,
}
use load_ants.Prelude.Texts.{Text}
use load_ants.Router.{Patterns, CompiledRegexRule}
use load_ants.Router.Find.{first_regex}
use load_ants.Router.Indices.{mem, Ascending}
use load_ants.Router.Candidates.{is_eligible, has_eligible}

-- The last result that a list gives.
abbrev pub last_some {ℓ} : {A : Type ℓ} {B : Type ℓ} → (A → Option B) → List A → Option B
last_some f [] = none
last_some f (x ∷ xs) = elim (last_some f xs) [ some b ↦ some b | none ↦ f x ]

module _ (P : Patterns) where
  open P use {Regex, is_match, to_lowercase}

  abbrev pub matching : Text → CompiledRegexRule Regex → Option (CompiledRegexRule Regex)
  matching domain rule = if is_match rule.regex domain then some rule else none

  -- The last of the indices whose rule matches.
  abbrev pub at : List (CompiledRegexRule Regex) → Text → ℕ → Option (CompiledRegexRule Regex)
  at rules domain i = elim (get_elem? rules i) [ none ↦ none | some rule ↦ matching domain rule ]

  abbrev pub InRange : List (CompiledRegexRule Regex) → List ℕ → Type 0
  InRange rules is = All (λ i. i < length rules) is

  first_regex-append :
      (rules : List (CompiledRegexRule Regex)) (domain : Text) (is : List ℕ) (i : ℕ)
      → InRange rules is
      → i < length rules
      → first_regex P rules domain (is ++ i ∷ [])
        ≡ (elim (first_regex P rules domain is) [ some r ↦ some r | none ↦ at rules domain i ])
  unfolding first_regex
  first_regex-append rules domain [] i h k = ground (arith, get_elem?-some_of_lt rules i k)
  first_regex-append rules domain (j ∷ is) i h k =
      ground (arith, get_elem?-some_of_lt rules j h.0, first_regex-append rules domain is i h.1 k)

  InRange-reverse :
      (rules : List (CompiledRegexRule Regex)) (is : List ℕ)
      → InRange rules is
      → InRange rules (reverse is)
  InRange-reverse rules [] h = tt
  InRange-reverse rules (i ∷ is) h =
      rw reverse-cons (All-append _ (reverse is) (i ∷ []) (InRange-reverse rules is h.1) (h.0, tt))

  pub first_regex-reverse :
      (rules : List (CompiledRegexRule Regex)) (domain : Text) (is : List ℕ)
      → InRange rules is
      → first_regex P rules domain (reverse is) ≡ last_some (at rules domain) is
  first_regex-reverse rules domain [] h = unfold first_regex in refl
  first_regex-reverse rules domain (i ∷ is) h = rw (
    reverse-cons,
    first_regex-append rules domain (reverse is) i (InRange-reverse rules is h.1) h.0,
    first_regex-reverse rules domain is h.1,
  )

  -- The rule at index `i` where the first has index `n`.
  abbrev pub at_from :
      Text → ℕ → List (CompiledRegexRule Regex) → ℕ → Option (CompiledRegexRule Regex)
  at_from domain n [] i = none
  at_from domain n (rule ∷ rules) i =
      if n == i then matching domain rule else at_from domain (n + 1) rules i

  pub at_from-at :
      (domain : Text) (n : ℕ) (rules : List (CompiledRegexRule Regex)) (i : ℕ)
      → at_from domain n rules (n + i) ≡ at rules domain i
  at_from-at domain n [] i = refl
  at_from-at domain n (rule ∷ rules) zero = ground arith
  at_from-at domain n (rule ∷ rules) (suc i) =
      let e : n + suc i ≡ (n + 1) + i = omega arith in
      ground (arith, at_from-at domain (n + 1) rules i)

  module _ (domain : Text) (labels : List Text) where
    abbrev pub has : ℕ → List (CompiledRegexRule Regex) → ℕ → Bool
    has = has_eligible to_lowercase labels

    has_of_lt :
        (n : ℕ) (rules : List (CompiledRegexRule Regex)) (i : ℕ) → i < n → has n rules i ≡ false
    has_of_lt n [] i h = refl
    has_of_lt n (rule ∷ rules) i h = ground (arith, has_of_lt (n + 1) rules i)

    mem-false_of_lt : (n : ℕ) (is : List ℕ) → All (λ i. n < i) is → mem n is ≡ false
    mem-false_of_lt n [] h = refl
    mem-false_of_lt n (i ∷ is) h = ground (arith, mem-false_of_lt n is h.1)

    All-lt_of_mem-false :
        (n : ℕ) (is : List ℕ) → All (λ i. n ≤ i) is → mem n is ≡ false → All (λ i. n < i) is
    All-lt_of_mem-false n [] h e = tt
    All-lt_of_mem-false n (i ∷ is) h e = ground (arith, All-lt_of_mem-false n is h.1)

    All-lt_trans : (n i : ℕ) (is : List ℕ) → n ≤ i → All (λ j. i < j) is → All (λ j. n < j) is
    All-lt_trans n i [] h a = tt
    All-lt_trans n i (j ∷ is) h a = (omega arith, All-lt_trans n i is h a.1)

    All-add_one : (n : ℕ) (is : List ℕ) → All (λ j. n < j) is → All (λ j. n + 1 ≤ j) is
    All-add_one n [] a = tt
    All-add_one n (j ∷ is) a = (omega arith, All-add_one n is a.1)

    -- Past its first index, a list of rules may be counted from the next.
    last_some-shift :
        (n : ℕ) (rule : CompiledRegexRule Regex) (rules : List (CompiledRegexRule Regex))
        (is : List ℕ)
        → All (λ i. n < i) is
        → last_some (at_from domain n (rule ∷ rules)) is
          ≡ last_some (at_from domain (n + 1) rules) is
    last_some-shift n rule rules [] h = refl
    last_some-shift n rule rules (i ∷ is) h = ground (arith, last_some-shift n rule rules is h.1)

    -- A rule with an eligible keyword that matches.
    abbrev pub pick : CompiledRegexRule Regex → Option (CompiledRegexRule Regex)
    pick rule = if is_eligible to_lowercase labels rule then matching domain rule else none

    -- The head of a list that holds `n` and nothing below is `n`.
    head-eq : (n i : ℕ) (is : List ℕ) → n ≤ i → All (λ j. i < j) is → mem n (i ∷ is) ≡ true → i ≡ n
    head-eq n i is h a e =
        let fresh : mem n is ≡ false = mem-false_of_lt n is (All-lt_trans n i is h a) in
        ground arith

    -- The members that are left once the head, which is `n`, is taken off.
    mem-tail :
        (n i : ℕ) (is : List ℕ) (rules : List (CompiledRegexRule Regex)) (j : ℕ)
        → i ≡ n
        → All (λ j. n < j) is
        → mem j (i ∷ is) ≡ (n == j || has (n + 1) rules j)
        → mem j is ≡ has (n + 1) rules j
    mem-tail n i is rules j p a e = elim (Bool-cases (n == j)) [
      | inl s ↦
          let q : n ≡ j = ground arith in
          let fresh : mem n is ≡ false = mem-false_of_lt n is a in
          let none_left : has (n + 1) rules n ≡ false = has_of_lt (n + 1) rules n (omega arith) in
          rw (← q) (fresh ∙ sym none_left)
      | inr s ↦ tail_eq (n == j) (i == j) (mem j is) (has (n + 1) rules j) s (rw p s) e
    ]
      where
        tail_eq : (a b c d : Bool) → a ≡ false → b ≡ false → (b || c) ≡ (a || d) → c ≡ d
        tail_eq a b c d p q r = ground arith

    last_some-skip :
        (n : ℕ) (rule : CompiledRegexRule Regex) (rules : List (CompiledRegexRule Regex))
        → is_eligible to_lowercase labels rule ≡ false
        → last_some pick rules ≡ last_some pick (rule ∷ rules)
    last_some-skip n rule rules e = ground arith

    -- On the ascending list of eligible indices the last hit is the last of the eligible rules that
    -- match.
    pub last_some-Ascending :
        (n : ℕ) (rules : List (CompiledRegexRule Regex)) (is : List ℕ)
        → Ascending is
        → All (λ i. n ≤ i) is
        → ((i : ℕ) → mem i is ≡ has n rules i)
        → last_some (at_from domain n rules) is ≡ last_some pick rules
    last_some-Ascending n [] [] s a h = refl
    last_some-Ascending n [] (i ∷ is) s a h = absurd (ground (arith, h i))
    last_some-Ascending n (rule ∷ rules) [] s a h =
        elim (Bool-cases (is_eligible to_lowercase labels rule)) [
          | inr e ↦
              last_some-Ascending (n + 1) rules [] tt tt (λ i. ground (arith, h i))
              ∙ last_some-skip n rule rules e
          | inl e ↦ absurd (ground (arith, h n))
        ]
    last_some-Ascending n (rule ∷ rules) (i ∷ is) s a h =
        elim (Bool-cases (is_eligible to_lowercase labels rule)) [
          | inr e ↦
              let fresh : mem n (i ∷ is) ≡ false = ground (arith, h n, has_of_lt (n + 1) rules n) in
              let later = All-lt_of_mem-false n (i ∷ is) a fresh in
              last_some-shift n rule rules (i ∷ is) later
              ∙ last_some-Ascending (n + 1) rules (i ∷ is) s (All-add_one n (i ∷ is) later)
                  (λ j. ground (arith, h j))
              ∙ last_some-skip n rule rules e
          | inl e ↦
              let p : i ≡ n = head-eq n i is a.0 s.0 (ground (arith, h n)) in
              let later = All-lt_trans n i is a.0 s.0 in
              let rest : last_some (at_from domain n (rule ∷ rules)) is ≡ last_some pick rules =
                last_some-shift n rule rules is later
                ∙ last_some-Ascending (n + 1) rules is s.1 (All-add_one n is later)
                    (λ j. mem-tail n i is rules j p later (ground (arith, h j))) in
              ground arith
        ]
