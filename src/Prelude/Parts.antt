-- ===== src/Prelude/Parts.antt =====
-- Splitting a text at a character and joining the parts again.
use mathlib.Core.List.{reverse-cons, reverse-reverse}
use load_ants.Prelude.{
  ℕ, ◌≡◌, refl, sym, ap, ◌∙◌, ◌≢◌, inl, inr, true, false, List, [], ◌∷◌, ◌++◌, reverse, arith, ◌==◌,
  Bool-cases, All, All-append, append_assoc,
}
use load_ants.Prelude.Texts.{Text, contains, split, join, cons_part}

-- A text without the separator.
abbrev pub Free : ℕ → Text → Type 0
Free sep s = contains s sep ≡ false

-- A nonempty list of labels without the separator.
abbrev pub Labels : ℕ → List Text → Type 0
Labels sep ls = All (Free sep) ls × (ls ≢ [])

module _ (sep : ℕ) where
  cons_part-Free :
      (c : ℕ) (ls : List Text)
      → (c == sep) ≡ false
      → All (Free sep) ls
      → All (Free sep) (cons_part c ls)
  unfolding contains
  cons_part-Free c [] e h = ground arith
  cons_part-Free c (l ∷ ls) e h = ground arith

  split-Free : (s : Text) → All (Free sep) (split sep s)
  unfolding split contains
  split-Free [] = (refl, tt)
  split-Free (c ∷ s) = elim (Bool-cases (c == sep)) [
    | inl e ↦ rw e (refl, split-Free s)
    | inr e ↦ rw e (cons_part-Free c (split sep s) e (split-Free s))
  ]

  cons_part-ne-nil : (c : ℕ) (ls : List Text) → cons_part c ls ≢ []
  cons_part-ne-nil c [] = cc
  cons_part-ne-nil c (l ∷ ls) = cc

  pub split-ne-nil : (s : Text) → split sep s ≢ []
  unfolding split
  split-ne-nil [] = cc
  split-ne-nil (c ∷ s) = elim (Bool-cases (c == sep)) [
    | inl e ↦ rw e (cc)
    | inr e ↦ rw e (cons_part-ne-nil c (split sep s))
  ]

  pub split-Labels : (s : Text) → Labels sep (split sep s)
  split-Labels s = (split-Free s, split-ne-nil s)

  join-cons_part : (c : ℕ) (ls : List Text) → join sep (cons_part c ls) ≡ c ∷ join sep ls
  unfolding join
  join-cons_part c [] = refl
  join-cons_part c (l ∷ []) = refl
  join-cons_part c (l ∷ m ∷ ls) = refl

  join-nil_cons : (ls : List Text) → ls ≢ [] → join sep ([] ∷ ls) ≡ sep ∷ join sep ls
  unfolding join
  join-nil_cons [] h = absurd (h refl)
  join-nil_cons (l ∷ ls) h = refl

  -- Joining the parts gives the text back.
  pub join-split : (s : Text) → join sep (split sep s) ≡ s
  unfolding split join
  join-split [] = refl
  join-split (c ∷ s) = elim (Bool-cases (c == sep)) [
    | inl e ↦ rw e (join-nil_cons (split sep s) (split-ne-nil s) ∙ cc (join-split s, (==_lem c e)))
    | inr e ↦ rw e (join-cons_part c (split sep s) ∙ ap (◌∷◌ c) (join-split s))
  ]
    where
      ==_lem : (c : ℕ) → (c == sep) ≡ true → c ≡ sep
      ==_lem c h = ground arith

  split-append_sep : (l : Text) (s : Text) → Free sep l → split sep (l ++ sep ∷ s) ≡ l ∷ split sep s
  unfolding split contains
  split-append_sep [] s h = ground arith
  split-append_sep (c ∷ l) s h = ground (arith, split-append_sep l s)

  pub split_of_Free : (l : Text) → Free sep l → split sep l ≡ l ∷ []
  unfolding split contains
  split_of_Free [] h = refl
  split_of_Free (c ∷ l) h = ground (arith, split_of_Free l)

  -- Splitting what was joined gives the labels back.
  pub split-join : (ls : List Text) → Labels sep ls → split sep (join sep ls) ≡ ls
  unfolding join
  split-join [] h = absurd (h.1 refl)
  split-join (l ∷ []) h = split_of_Free l h.0.0
  split-join (l ∷ m ∷ ls) h =
      split-append_sep l (join sep (m ∷ ls)) h.0.0
      ∙ ap (◌∷◌ l) (split-join (m ∷ ls) (h.0.1, λ e. cc))

  All-reverse : (ls : List Text) → All (Free sep) ls → All (Free sep) (reverse ls)
  All-reverse [] h = tt
  All-reverse (l ∷ ls) h =
      rw reverse-cons (All-append (Free sep) (reverse ls) (l ∷ []) (All-reverse ls h.1) (h.0, tt))

  pub reverse-ne-nil : (ls : List Text) → ls ≢ [] → reverse ls ≢ []
  reverse-ne-nil ls h e = h (sym (reverse-reverse ls) ∙ ap reverse e)

  pub Labels-reverse : (ls : List Text) → Labels sep ls → Labels sep (reverse ls)
  Labels-reverse ls h = (All-reverse ls h.0, reverse-ne-nil ls h.1)

  -- One more label at the end.
  pub join-append :
      (ls : List Text) (l : Text) → ls ≢ [] → join sep (ls ++ l ∷ []) ≡ join sep ls ++ sep ∷ l
  unfolding join
  join-append [] l h = absurd (h refl)
  join-append (m ∷ []) l h = refl
  join-append (m ∷ k ∷ ls) l h =
      rw (join-append (k ∷ ls) l (λ e. cc))
        (sym (append_assoc m (sep ∷ join sep (k ∷ ls)) (sep ∷ l)))
