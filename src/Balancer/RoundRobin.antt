-- ===== src/Balancer/RoundRobin.antt =====
-- `RoundRobinBalancer` of src/balancer.rs: a round of selections is fair.
use native.Mathlib.Nat.{mul-add-mod_self_right, mod-eq_of_lt}
use load_ants.Prelude.{
  append_assoc, length-append, append-nil, ℕ, zero, suc, ◌+◌, ◌*◌, ◌%◌, ◌<◌, ◌≡◌, refl, sym, ap,
  ◌∙◌, List, [], ◌∷◌, ◌++◌, Option, some, map, arith, length, get_elem?,
}
use load_ants.Errors.{Result, ok, AppError}
use load_ants.Balancer.{RoundRobinBalancer, word, select_round_robin}

module _ {S : Type 0} where
  -- The results of a number of selections, and the balancer after them.
  unfoldable pub selections :
      ℕ → RoundRobinBalancer S → List (Option (Result S AppError)) × RoundRobinBalancer S
  selections zero b = ([], b)
  selections (suc n) b =
      let (r, c) = select_round_robin b in let (rs, d) = selections n c in (r ∷ rs, d)

  abbrev pub at : List S → ℕ → RoundRobinBalancer S
  at servers n = record { servers = servers; current = n }

  abbrev pub all_ok : List S → List (Option (Result S AppError))
  all_ok = map (λ s. some (ok s))

  get_elem?-append :
      (before : List S) (s : S) (rest : List S)
      → get_elem? (before ++ s ∷ rest) (length before) ≡ some s
  get_elem?-append [] s rest = refl
  get_elem?-append (x ∷ before) s rest = get_elem?-append before s rest

  select-at :
      (l : List S) (c : ℕ) (s : S)
      → get_elem? l (c % length l) ≡ some s
      → c + 1 < word
      → select_round_robin (at l c) ≡ (some (ok s), at l (c + 1))
  unfolding select_round_robin
  select-at [] c s e h = cc
  select-at (x ∷ l) c s e h = let m = mod-eq_of_lt h in ground (arith, e, m)

  -- From the middle of a round to its end.
  round_from :
      (q : ℕ) (l before rest : List S)
      → before ++ rest ≡ l
      → q * length l + length l < word
      → selections (length rest) (at l (q * length l + length before))
        ≡ (all_ok rest, at l (q * length l + length l))
  unfolding selections
  round_from q l before [] e h =
      ap (λ k. ([], at l (q * length l + k))) (ap length (sym (append-nil before) ∙ e))
  round_from q l before (s ∷ rest) e h =
      let n = q * length l in
      let long : length before + suc (length rest) ≡ length l =
        sym (length-append before (s ∷ rest)) ∙ ap length e in
      let short : length before < length l = omega arith in
      let at_before : (n + length before) % length l ≡ length before =
        mul-add-mod_self_right q (length l) (length before) ∙ mod-eq_of_lt short in
      let found : get_elem? l ((n + length before) % length l) ≡ some s =
        ap (get_elem? l) at_before
        ∙ ap (λ k. get_elem? k (length before)) (sym e)
        ∙ get_elem?-append before s rest in
      let next : (n + length before) + 1 ≡ n + length (before ++ s ∷ []) =
        omega (arith, length-append before (s ∷ [])) in
      let rest_e : (before ++ s ∷ []) ++ rest ≡ l = append_assoc before (s ∷ []) rest ∙ e in
      rw
        (
          select-at l (n + length before) s found (omega arith),
          next,
          round_from q l (before ++ s ∷ []) rest rest_e h,
        )
        refl

  -- One round: as many selections as there are servers give each server once, in order, as long as
  -- the counter does not wrap around.
  pub selections-round :
      (q : ℕ) (servers : List S)
      → q * length servers + length servers < word
      → selections (length servers) (at servers (q * length servers))
        ≡ (all_ok servers, at servers (q * length servers + length servers))
  selections-round q servers h =
      ap (λ k. selections (length servers) (at servers k)) (omega arith)
      ∙ round_from q servers [] servers refl h
