-- ===== src/Router/Suffix.antt =====
-- The loop of `try_wildcard_match` of src/router.rs against its description: of the suffixes of a
-- domain, by whole labels and from the longest, the first that has a rule.
use mathlib.Core.List.{reverse-cons}
use load_ants.Prelude.{
  ℕ, zero, suc, ◌≤◌, ◌≡◌, ◌≢◌, refl, List, [], ◌∷◌, ◌++◌, reverse, arith, Option, none, some,
  length, length-append, length-reverse,
}
use load_ants.Prelude.Texts.{Text, dot, contains, split, join}
use load_ants.Prelude.Assoc.{Assoc, get}
use load_ants.Prelude.Parts.{Labels, Free, split-Labels, join-append, reverse-ne-nil, split-ne-nil}
use load_ants.Router.{WildcardRule}
use load_ants.Router.Names.{reverse_domain_labels}
use load_ants.Router.Reverse.{reverse_domain_labels_of_Labels, reverse_domain_labels-join}
use load_ants.Router.Find.{before_last_dot, longest_key}

-- The suffixes of a nonempty list of labels, the longest first.
abbrev pub suffixes : List Text → List Text
suffixes [] = []
suffixes (l ∷ ls) = join dot (l ∷ ls) ∷ suffixes ls

abbrev pub first_some {ℓ} : {A : Type 0} {B : Type ℓ} → (A → Option B) → List A → Option B
first_some f [] = none
first_some f (x ∷ xs) = elim (f x) [ some b ↦ some b | none ↦ first_some f xs ]

before_last_dot_of_Free : (l : Text) → Free dot l → before_last_dot l ≡ none
unfolding before_last_dot contains
before_last_dot_of_Free [] h = refl
before_last_dot_of_Free (c ∷ l) h = ground (arith, before_last_dot_of_Free l)

before_last_dot-append : (s l : Text) → Free dot l → before_last_dot (s ++ dot ∷ l) ≡ some s
unfolding before_last_dot
before_last_dot-append [] l h = rw (before_last_dot_of_Free l h)
before_last_dot-append (c ∷ s) l h = rw (before_last_dot-append s l h)

before_last_dot_of_one : (l : Text) → Free dot l → before_last_dot (join dot (l ∷ [])) ≡ none
unfolding join
before_last_dot_of_one l h = before_last_dot_of_Free l h

-- Dropping the last label of the key drops the first of the suffix.
before_last_dot-reverse :
    (l : Text) (ls : List Text)
    → Free dot l
    → ls ≢ []
    → before_last_dot (join dot (reverse (l ∷ ls))) ≡ some (join dot (reverse ls))
before_last_dot-reverse l ls h n =
    rw (reverse-cons, join-append dot (reverse ls) l (reverse-ne-nil dot ls n))
      (before_last_dot-append (join dot (reverse ls)) l h)

-- Enough fuel: a text has no more labels than characters and one.
length-join : (ls : List Text) → ls ≢ [] → length ls ≤ suc (length (join dot ls))
unfolding join
length-join [] h = absurd (h refl)
length-join (l ∷ []) h = omega arith
length-join (l ∷ m ∷ ls) h =
    omega (arith, length-append l (dot ∷ join dot (m ∷ ls)), length-join (m ∷ ls) (λ e. cc))

module _ (rules : Assoc WildcardRule) where
  -- The rule that is stored for a suffix.
  abbrev pub rule_of : Text → Option WildcardRule
  rule_of suffix = get (reverse_domain_labels suffix) rules

  key-suffix :
      (ls : List Text) → Labels dot ls → get (join dot (reverse ls)) rules ≡ rule_of (join dot ls)
  key-suffix ls h = rw (reverse_domain_labels_of_Labels ls h)

  -- One round: the key of a list of labels, and what the loop goes on with.
  longest_key-suffixes :
      (fuel : ℕ) (ls : List Text)
      → length ls ≤ fuel
      → Labels dot ls
      → longest_key fuel rules (join dot (reverse ls)) ≡ first_some rule_of (suffixes ls)
  unfolding longest_key
  longest_key-suffixes zero [] n h = absurd (h.1 refl)
  longest_key-suffixes zero (l ∷ ls) n h = absurd (omega arith)
  longest_key-suffixes (suc fuel) [] n h = absurd (h.1 refl)
  longest_key-suffixes (suc fuel) (l ∷ []) n h =
      ground (arith, key-suffix (l ∷ []) h, before_last_dot_of_one l h.0.0)
  longest_key-suffixes (suc fuel) (l ∷ m ∷ ls) n h = ground (
    arith,
    key-suffix (l ∷ m ∷ ls) h,
    before_last_dot-reverse l (m ∷ ls) h.0.0 (λ e. cc),
    longest_key-suffixes fuel (m ∷ ls) (omega arith) (h.0.1, λ e. cc),
  )

  -- The loop, with the fuel that `try_wildcard_match` gives it, finds the rule of the longest suffix
  -- of the domain, by whole labels, that has one.
  pub longest_key-eq-first_some :
      (domain : Text)
      → longest_key
          (suc (length (reverse_domain_labels domain)))
          rules
          (reverse_domain_labels domain)
        ≡ first_some rule_of (suffixes (split dot domain))
  longest_key-eq-first_some domain =
      let labels = split dot domain in
      rw (reverse_domain_labels-join domain) (
        longest_key-suffixes (suc (length (join dot (reverse labels)))) labels
          (omega (
            arith,
            length-reverse labels,
            length-join (reverse labels) (reverse-ne-nil dot labels (split-ne-nil dot domain)),
          ))
          (split-Labels dot domain))
