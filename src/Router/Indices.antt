-- ===== src/Router/Indices.antt =====
-- Candidate indices of src/router.rs: `sort_unstable` and `dedup` leave a strictly ascending list
-- with the same members.
use load_ants.Prelude.{
  ℕ, ◌≤◌, ◌<◌, ◌≡◌, refl, ◌∙◌, Bool, ◌||◌, List, [], ◌∷◌, ◌++◌, arith, ◌==◌, any, All,
}
use load_ants.Router.Find.{insert_sorted, sort, dedup}

abbrev pub mem : ℕ → List ℕ → Bool
mem i is = any (λ j. j == i) is

-- Each index is below the next.
abbrev pub Ascending : List ℕ → Type 0
Ascending [] = Unit
Ascending (i ∷ is) = All (λ j. i < j) is × Ascending is

abbrev Sorted : List ℕ → Type 0
Sorted [] = Unit
Sorted (i ∷ is) = All (λ j. i ≤ j) is × Sorted is

pub mem-append : (i : ℕ) (is js : List ℕ) → mem i (is ++ js) ≡ (mem i is || mem i js)
mem-append i [] js = refl
mem-append i (k ∷ is) js = ground (arith, mem-append i is js)

mem-insert_sorted : (i k : ℕ) (is : List ℕ) → mem i (insert_sorted k is) ≡ (k == i || mem i is)
unfolding insert_sorted
mem-insert_sorted i k [] = refl
mem-insert_sorted i k (j ∷ is) = ground (arith, mem-insert_sorted i k is)

mem-sort : (i : ℕ) (is : List ℕ) → mem i (sort is) ≡ mem i is
unfolding sort
mem-sort i [] = refl
mem-sort i (k ∷ is) = ground (arith, mem-insert_sorted i k (sort is), mem-sort i is)

mem-dedup : (i : ℕ) (is : List ℕ) → mem i (dedup is) ≡ mem i is
unfolding dedup
mem-dedup i [] = refl
mem-dedup i (k ∷ []) = refl
mem-dedup i (k ∷ j ∷ is) = ground (arith, mem-dedup i (j ∷ is))

pub mem-dedup-sort : (i : ℕ) (is : List ℕ) → mem i (dedup (sort is)) ≡ mem i is
mem-dedup-sort i is = mem-dedup i (sort is) ∙ mem-sort i is

All-le_trans : (i j : ℕ) (is : List ℕ) → i ≤ j → All (λ k. j ≤ k) is → All (λ k. i ≤ k) is
All-le_trans i j [] h a = tt
All-le_trans i j (k ∷ is) h a = (omega arith, All-le_trans i j is h a.1)

All-insert_sorted :
    (b i : ℕ) (is : List ℕ) → b ≤ i → All (λ k. b ≤ k) is → All (λ k. b ≤ k) (insert_sorted i is)
unfolding insert_sorted
All-insert_sorted b i [] h a = (h, tt)
All-insert_sorted b i (j ∷ is) h a = ground (arith, All-insert_sorted b i is h a.1)

insert_sorted-Sorted : (i : ℕ) (is : List ℕ) → Sorted is → Sorted (insert_sorted i is)
unfolding insert_sorted
insert_sorted-Sorted i [] s = (tt, tt)
insert_sorted-Sorted i (j ∷ is) s =
    ground (arith, All-le_trans i j is, insert_sorted-Sorted i is s.1, All-insert_sorted j i is)

sort-Sorted : (is : List ℕ) → Sorted (sort is)
unfolding sort
sort-Sorted [] = tt
sort-Sorted (i ∷ is) = insert_sorted-Sorted i (sort is) (sort-Sorted is)

All-dedup_lt : (i : ℕ) (is : List ℕ) → All (λ k. i < k) is → All (λ k. i < k) (dedup is)
unfolding dedup
All-dedup_lt i [] a = tt
All-dedup_lt i (k ∷ []) a = a
All-dedup_lt i (k ∷ j ∷ is) a = ground (arith, All-dedup_lt i (j ∷ is) a.1)

All-lt_of_le : (i j : ℕ) (is : List ℕ) → i < j → All (λ k. j ≤ k) is → All (λ k. i < k) is
All-lt_of_le i j [] h a = tt
All-lt_of_le i j (k ∷ is) h a = (omega arith, All-lt_of_le i j is h a.1)

dedup-Ascending : (is : List ℕ) → Sorted is → Ascending (dedup is)
unfolding dedup
dedup-Ascending [] s = tt
dedup-Ascending (i ∷ []) s = (tt, tt)
dedup-Ascending (i ∷ j ∷ is) s =
    ground (arith, dedup-Ascending (j ∷ is) s.1, All-lt_of_le i j is, All-dedup_lt i (j ∷ is))

pub dedup-sort-Ascending : (is : List ℕ) → Ascending (dedup (sort is))
dedup-sort-Ascending is = dedup-Ascending (sort is) (sort-Sorted is)
