-- ===== src/Balancer/Weighted.antt =====
-- `WeightedBalancer` of src/balancer.rs: which server a selection takes, and what the wrapping
-- weights do.
use load_ants.Errors.{ok}
use native.Mathlib.Nat.{zero-add}
use load_ants.Prelude.{
  set, get_elem?, is_empty, suc, Option-cases, sym, get_elem?-some_of_lt, ◌∙◌, zero, ap, Bool-cases,
  ◌<◌, inr, ◌⊎◌, true, false, inl, ◌≤◌, All, ℕ, ◌+◌, ◌%◌, ◌≡◌, refl, List, [], ◌∷◌, some, arith,
  length, ltb, if◌then◌else◌,
}
use load_ants.Balancer.{lower_weight, select_weighted, WeightedBalancer, word, add_weights}

-- The invariant of a balancer: a current weight for each server.
pub record IsValid {S : Type 0} (b : WeightedBalancer S) : Type 0 where
  pub one_each : length b.servers ≡ length b.current_weights

-- The first of the largest of the sums that are greater than the one at hand.
abbrev pub first_largest : List ℕ → ℕ → ℕ → ℕ → ℕ
first_largest [] i m j = j
first_largest (c ∷ cs) i m j =
    let larger = first_largest cs (i + 1) c i in
    let kept = first_largest cs (i + 1) m j in if ltb m c then larger else kept

module _ {S : Type 0} (weight : S → ℕ) where
  -- What the first step adds up.
  abbrev pub added : List S → List ℕ → List ℕ
  added [] ws = []
  added (s ∷ servers) [] = []
  added (s ∷ servers) (w ∷ ws) = (w + weight s) % word ∷ added servers ws

  add_weights_lem :
      (servers : List S) (ws : List ℕ) (i m j : ℕ)
      → length servers ≡ length ws
      → add_weights weight servers ws i m j
        ≡ some (added servers ws, first_largest (added servers ws) i m j)
  unfolding add_weights
  add_weights_lem [] [] i m j e = refl
  add_weights_lem [] (w ∷ ws) i m j e = absurd (omega arith)
  add_weights_lem (s ∷ servers) [] i m j e = absurd (omega arith)
  add_weights_lem (s ∷ servers) (w ∷ ws) i m j e = ground (
    arith,
    add_weights_lem servers ws (i + 1) ((w + weight s) % word) i,
    add_weights_lem servers ws (i + 1) m j,
  )

-- Where the first largest is.
abbrev Largest : List ℕ → ℕ → ℕ → ℕ → ℕ → Type 0
Largest cs i m j r =
    ((r ≡ j) × All (λ x. x ≤ m) cs)
    ⊎ ((k : ℕ) × (c : ℕ) × (r ≡ i + k) × (get_elem? cs k ≡ some c) × (m < c) × All (λ x. x ≤ c) cs)

All-le_of_le : {m n : ℕ} (cs : List ℕ) → m ≤ n → All (λ x. x ≤ m) cs → All (λ x. x ≤ n) cs
All-le_of_le [] h a = tt
All-le_of_le (c ∷ cs) h a = (omega (arith, a.0), All-le_of_le cs h a.1)

first_largest_lem : (cs : List ℕ) (i m j : ℕ) → Largest cs i m j (first_largest cs i m j)
first_largest_lem [] i m j = inl (refl, tt)
first_largest_lem (c ∷ cs) i m j = elim (Bool-cases (ltb m c)) [
  | inl e ↦ rw e (taken e (first_largest_lem cs (i + 1) c i))
  | inr e ↦ rw e (left e (first_largest_lem cs (i + 1) m j))
]
  where
    taken : {r : ℕ} → ltb m c ≡ true → Largest cs (i + 1) c i r → Largest (c ∷ cs) i m j r
    taken e (inl (h, a)) = inr (0, c, omega arith, refl, ground arith, (omega arith, a))
    taken e (inr (k, d, h, g, l, a)) =
        inr (suc k, d, omega arith, g, ground arith, (omega arith, a))

    left : {r : ℕ} → ltb m c ≡ false → Largest cs (i + 1) m j r → Largest (c ∷ cs) i m j r
    left e (inl (h, a)) = inl (h, (ground arith, a))
    left e (inr (k, d, h, g, l, a)) = inr (suc k, d, omega arith, g, l, (ground arith, a))

lt_of_get_elem? :
    {A : Type 0} (xs : List A) (i : ℕ) {x : A} → get_elem? xs i ≡ some x → i < length xs
lt_of_get_elem? [] i e = cc
lt_of_get_elem? (y ∷ xs) zero e = omega arith
lt_of_get_elem? (y ∷ xs) (suc i) e = omega (arith, lt_of_get_elem? xs i e)

length-set : {A : Type 0} (xs : List A) (i : ℕ) (v : A) → length (set xs i v) ≡ length xs
length-set [] i v = refl
length-set (x ∷ xs) zero v = refl
length-set (x ∷ xs) (suc i) v = ap suc (length-set xs i v)

module _ {S : Type 0} (weight : S → ℕ) where
  length-added :
      (servers : List S) (ws : List ℕ)
      → length servers ≡ length ws
      → length (added weight servers ws) ≡ length ws
  length-added [] [] e = refl
  length-added [] (w ∷ ws) e = absurd (omega arith)
  length-added (s ∷ servers) [] e = absurd (omega arith)
  length-added (s ∷ servers) (w ∷ ws) e = omega (arith, length-added servers ws (omega arith))

  -- A selection that takes server `i`.
  pub record Takes (b : WeightedBalancer S) (i : ℕ) (s : S) (c : ℕ) : Type 0 where
    pub server : get_elem? b.servers i ≡ some s
    pub sum_of : get_elem? (added weight b.servers b.current_weights) i ≡ some c
    pub largest : All (λ x. x ≤ c) (added weight b.servers b.current_weights)
    pub result : (select_weighted weight b).0 ≡ some (ok s)
    pub unchanged : (select_weighted weight b).1.servers ≡ b.servers
    pub still : IsValid (select_weighted weight b).1

  largest_of :
      (cs : List ℕ)
      → is_empty cs ≡ false
      → (c : ℕ) × (get_elem? cs (first_largest cs 0 0 0) ≡ some c) × All (λ x. x ≤ c) cs
  largest_of [] e = absurd (cc)
  largest_of (d ∷ cs) e = go (first_largest_lem (d ∷ cs) 0 0 0)
    where
      go :
          {r : ℕ}
          → Largest (d ∷ cs) 0 0 0 r
          → (c : ℕ) × (get_elem? (d ∷ cs) r ≡ some c) × All (λ x. x ≤ c) (d ∷ cs)
      go (inl (h, a)) = (d, rw h refl, All-le_of_le (d ∷ cs) (omega arith) a)
      go (inr (k, c, h, g, l, a)) = (c, rw (h, zero-add k) g, a)

  lower_weight-IsValid :
      (b : WeightedBalancer S) (ws : List ℕ) (i : ℕ)
      → IsValid b
      → length b.servers ≡ length ws
      → IsValid (lower_weight weight b ws i).1
  lower_weight-IsValid b ws i v h = elim (Option-cases (get_elem? ws i)) [
    | inl e ↦ rw (lower_weight, e) v
    | inr (w, e) ↦ rw (lower_weight, e) (record { one_each = h ∙ sym (length-set ws i _) })
  ]

  select_weighted-IsValid :
      (b : WeightedBalancer S) → IsValid b → IsValid (select_weighted weight b).1
  unfolding select_weighted
  select_weighted-IsValid b v = elim (Bool-cases (is_empty b.servers)) [
    | inl e ↦ rw e v
    | inr e ↦
        rw (e, add_weights_lem weight b.servers b.current_weights 0 0 0 v.one_each)
          (lower_weight-IsValid b (added weight b.servers b.current_weights) _ v
            (v.one_each ∙ sym (length-added b.servers b.current_weights v.one_each)))
  ]

  nonempty :
      (servers : List S) (ws : List ℕ)
      → length servers ≡ length ws
      → is_empty servers ≡ false
      → is_empty (added weight servers ws) ≡ false
  nonempty [] ws h e = cc
  nonempty (s ∷ servers) [] h e = absurd (omega arith)
  nonempty (s ∷ servers) (w ∷ ws) h e = refl

  -- A selection from servers, each with a weight, never panics, takes the server with the largest
  -- current weight after adding, and keeps a weight for each server.
  pub select_weighted_lem :
      (b : WeightedBalancer S)
      → IsValid b
      → is_empty b.servers ≡ false
      → (i : ℕ) × (s : S) × (c : ℕ) × Takes b i s c
  unfolding select_weighted
  select_weighted_lem b v e =
      let same = length-added b.servers b.current_weights v.one_each in
      let (c, g, a) =
        largest_of (added weight b.servers b.current_weights)
          (nonempty b.servers b.current_weights v.one_each e) in
      let i = first_largest (added weight b.servers b.current_weights) 0 0 0 in
      let below = lt_of_get_elem? (added weight b.servers b.current_weights) i g in
      let (s, server) = get_elem?-some_of_lt b.servers i (omega (arith, v.one_each)) in
      let scan = add_weights_lem weight b.servers b.current_weights 0 0 0 v.one_each in
      (
        i,
        s,
        c,
        record {
          server = server;
          sum_of = g;
          largest = a;
          result = ground (arith, scan, server, g, e);
          unchanged = ground (arith, scan, server, g, e);
          still = select_weighted-IsValid b v;
        },
      )
