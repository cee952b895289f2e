-- ===== src/Cache/Shuffle.antt =====
-- `shuffle_records` of src/cache.rs keeps the records, whatever the random order.
use load_ants.Prelude.{
  ℕ, zero, suc, ◌+◌, ◌≡◌, refl, sym, ap, ◌∙◌, Bool, List, [], ◌∷◌, ◌++◌, append_assoc, append-nil,
  some, Option-cases, Bool-cases, inl, inr, arith, ltb, length, get_elem?, set, if◌then◌else◌,
}
use load_ants.Proto.{Proto}
use load_ants.Cache.{Moka, swap, is_of_type, partition_loop, shuffle_first, shuffle_records}

module _ {A : Type 0} where
  abbrev count : (A → Bool) → List A → ℕ
  count test [] = 0
  count test (x ∷ xs) = (if test x then 1 else 0) + count test xs

  -- Two lists hold the same elements, as often: every test holds of as many.
  abbrev pub SameItems : List A → List A → Type 0
  SameItems xs ys = (test : A → Bool) → count test xs ≡ count test ys

  count-append :
      (test : A → Bool) (xs ys : List A) → count test (xs ++ ys) ≡ count test xs + count test ys
  count-append test [] ys = omega arith
  count-append test (x ∷ xs) ys = omega (arith, count-append test xs ys)

  count-set :
      (test : A → Bool) (l : List A) (i : ℕ) (x y : A)
      → get_elem? l i ≡ some x
      → count test (set l i y) + (if test x then 1 else 0)
        ≡ count test l + (if test y then 1 else 0)
  count-set test [] i x y h = absurd (cc)
  count-set test (a ∷ l) zero x y h = let e : a ≡ x = grind arith in rw e (omega arith)
  count-set test (a ∷ l) (suc i) x y h = omega (arith, count-set test l i x y h)

  -- What stands at an index still does when it is written somewhere.
  get_elem?-set :
      (l : List A) (i j : ℕ) (y : A) → get_elem? l j ≡ some y → get_elem? (set l i y) j ≡ some y
  get_elem?-set [] i j y h = h
  get_elem?-set (a ∷ l) zero zero y h = refl
  get_elem?-set (a ∷ l) zero (suc j) y h = h
  get_elem?-set (a ∷ l) (suc i) zero y h = h
  get_elem?-set (a ∷ l) (suc i) (suc j) y h = get_elem?-set l i j y h

-- A shuffle gives the same records in some order, as the documentation of rand says.
pub record ShuffleLaws (D : Proto) (shuffle : List D.Record → List D.Record) : Type 0 where
  pub shuffle-SameItems : (l : List D.Record) → SameItems (shuffle l) l

module _ (D : Proto) (M : Moka D) (shuffle : List D.Record → List D.Record) where
  open D use {Record, RecordType}

  swapped-SameItems :
      (l : List Record) (i j : ℕ) (x y : Record)
      → get_elem? l i ≡ some x
      → get_elem? l j ≡ some y
      → SameItems (set (set l i y) j x) l
  swapped-SameItems l i j x y h k test =
      omega (
        arith,
        count-set test l i x y h,
        count-set test (set l i y) j y x (get_elem?-set l i j y k),
      )

  swap-SameItems : (l : List Record) (i j : ℕ) → SameItems (swap D M shuffle l i j) l
  swap-SameItems l i j test = elim (Option-cases (get_elem? l i)) [
    | inl e ↦ let same : swap D M shuffle l i j ≡ l = ground (arith, e) in ap (count test) same
    | inr (x, e) ↦ elim (Option-cases (get_elem? l j)) [
      | inl f ↦ let same : swap D M shuffle l i j ≡ l = ground (arith, e, f) in ap (count test) same
      | inr (y, f) ↦
          let moved : swap D M shuffle l i j ≡ set (set l i y) j x = ground (arith, e, f) in
          ap (count test) moved ∙ swapped-SameItems l i j x y e f test
    ]
  ]

  partition_loop-SameItems :
      (fuel : ℕ) (t : RecordType) (l : List Record) (i n : ℕ)
      → SameItems (partition_loop D M shuffle fuel t l i n).0 l
  unfolding partition_loop
  partition_loop-SameItems zero t l i n test = refl
  partition_loop-SameItems (suc fuel) t l i n test =
      elim (Bool-cases (is_of_type D M shuffle t (get_elem? l i))) [
        | inl e ↦
            let step : partition_loop D M shuffle (suc fuel) t l i n
                ≡ partition_loop D M shuffle fuel t (swap D M shuffle l i n) (i + 1) (n + 1) =
              ground (arith, e) in
            ap (λ x. count test x.0) step
            ∙ partition_loop-SameItems fuel t (swap D M shuffle l i n) (i + 1) (n + 1) test
            ∙ swap-SameItems l i n test
        | inr e ↦
            let step : partition_loop D M shuffle (suc fuel) t l i n
                ≡ partition_loop D M shuffle fuel t l (i + 1) n =
              ground (arith, e) in
            ap (λ x. count test x.0) step ∙ partition_loop-SameItems fuel t l (i + 1) n test
      ]

  module _ (laws : ShuffleLaws D shuffle) where
    shuffle_first-SameItems :
        (n : ℕ) (front rest : List Record)
        → SameItems (shuffle_first D M shuffle n front rest) (front ++ rest)
    shuffle_first-SameItems zero front rest test = omega (
      arith,
      count-append test (shuffle front) rest,
      count-append test front rest,
      laws.shuffle-SameItems front test,
    )
    shuffle_first-SameItems (suc n) front [] test =
        laws.shuffle-SameItems front test ∙ ap (count test) (sym (append-nil front))
    shuffle_first-SameItems (suc n) front (r ∷ rest) test =
        shuffle_first-SameItems n (front ++ r ∷ []) rest test
        ∙ ap (count test) (append_assoc front (r ∷ []) rest)

    -- The records that come out of it are those that went in.
    pub shuffle_records-SameItems :
        (t : RecordType) (l : List Record) → SameItems (shuffle_records D M shuffle t l) l
    unfolding shuffle_records
    shuffle_records-SameItems t l test =
        let (parted, n) = partition_loop D M shuffle (length l) t l 0 0 in
        let same = partition_loop-SameItems (length l) t l 0 0 test in
        elim (Bool-cases (ltb (length l) 2)) [
          | inl e ↦ rw e refl
          | inr e ↦ elim (Bool-cases (ltb n 2)) [
            | inl f ↦ rw (e, f) same
            | inr f ↦ rw (e, f) (shuffle_first-SameItems n [] parted test ∙ same)
          ]
        ]
