-- ===== src/Balancer/Starved.antt =====
-- What the wrapping current weights of `WeightedBalancer` of src/balancer.rs do to two servers.
use native.Mathlib.Nat.{mod-eq_of_lt, add-mod_right, suc-mul}
use load_ants.Prelude.{
  ℕ, zero, suc, ◌+◌, ◌*◌, ◌-◌, ◌%◌, ◌≤◌, ◌<◌, ◌≡◌, refl, ap, ◌∙◌, List, [], ◌∷◌, Option, some,
  arith,
}
use load_ants.Errors.{Result, ok, AppError}
use load_ants.Balancer.{add_weights, WeightedBalancer, word, select_weighted, wrapping_sub}

module _ {S : Type 0} (weight : S → ℕ) where
  -- The results of a number of selections.
  unfoldable pub selections_weighted : ℕ → WeightedBalancer S → List (Option (Result S AppError))
  selections_weighted zero b = []
  selections_weighted (suc n) b =
      let (r, c) = select_weighted weight b in r ∷ selections_weighted n c

  abbrev pub two : S → S → ℕ → ℕ → WeightedBalancer S
  two s t v w = record {
    servers = s ∷ t ∷ [];
    current_weights = v ∷ w ∷ [];
    total_weight = weight s + weight t;
  }

  abbrev pub repeat : ℕ → S → List (Option (Result S AppError))
  repeat zero s = []
  repeat (suc n) s = some (ok s) ∷ repeat n s

  -- One selection while the weight of the second server, read as unsigned, is the larger.
  select_second :
      (s t : S) (v w : ℕ)
      → v + weight s < w + weight t
      → w + weight t < word
      → weight s ≤ w
      → select_weighted weight (two s t v w) ≡ (some (ok t), two s t (v + weight s) (w - weight s))
  unfolding select_weighted add_weights
  select_second s t v w h k l =
      let a : (v + weight s) % word ≡ v + weight s = mod-eq_of_lt (omega arith) in
      let b : (w + weight t) % word ≡ w + weight t = mod-eq_of_lt k in
      let moved : (w + weight t) + (word - (weight s + weight t)) ≡ (w - weight s) + word =
        omega arith in
      let c : wrapping_sub weight (w + weight t) (weight s + weight t) ≡ w - weight s =
        ap (λ x. x % word) moved ∙ add-mod_right (w - weight s) word ∙ mod-eq_of_lt (omega arith) in
      ground (arith, a, b, c)

  -- Of two servers, the first of positive weight: if the current weight of the second and its weight
  -- exceed the current weight of the first and `2 n + 1` times its weight, do not wrap around, and
  -- the current weight of the second is at least `n` times the weight of the first, then each of
  -- the next `n` selections takes the second. A weight that was to be negative, and stands for a
  -- huge number, is in this lead.
  pub selections-starved :
      (n : ℕ) (s t : S) (v w : ℕ)
      → 0 < weight s
      → v + 2 * (n * weight s) + weight s < w + weight t
      → w + weight t < word
      → n * weight s ≤ w
      → selections_weighted n (two s t v w) ≡ repeat n t
  unfolding selections_weighted
  selections-starved zero s t v w p h k l = refl
  selections-starved (suc n) s t v w p h k l =
      let m : suc n * weight s ≡ n * weight s + weight s = suc-mul n (weight s) in
      let first = select_second s t v w (omega (arith, m)) k (omega (arith, m)) in
      let rest =
        selections-starved n s t (v + weight s) (w - weight s) p (omega (arith, m))
          (omega (arith, m)) (omega (arith, m)) in
      rw (first, rest) refl
