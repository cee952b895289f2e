-- ===== src/Balancer/Select.antt =====
-- `LoadBalancer::select_server` of src/balancer.rs: what the three balancers promise alike.
use native.Mathlib.Nat.{mod-lt}
use load_ants.Prelude.{
  ℕ, ◌%◌, ◌<◌, ◌≡◌, refl, ◌⊎◌, inl, inr, List, [], ◌∷◌, Option, some, arith, length, is_empty,
  get_elem?, true, false, Bool-cases, get_elem?-some_of_lt,
}
use load_ants.Errors.{Result, ok, err, AppError, no_upstream_available}
use load_ants.Balancer.{
  index, LoadBalancer, round_robin, weighted, random, RoundRobinBalancer, WeightedBalancer,
  RandomBalancer, select_server, select_random, select_weighted, select_round_robin, servers_of,
}
use load_ants.Balancer.Weighted.{IsValid, select_weighted_lem}

-- `choose` gives an element of each list that has one, as its documentation says.
pub record Chooses {S : Type 0} (choose : List S → Option S) : Type 0 where
  pub element :
      (l : List S)
      → is_empty l ≡ false
      → (i : ℕ) × (s : S) × (choose l ≡ some s) × (get_elem? l i ≡ some s)

length-pos : {S : Type 0} (l : List S) → is_empty l ≡ false → 0 < length l
length-pos [] e = cc
length-pos (x ∷ l) e = omega arith

module _ {S : Type 0} (weight : S → ℕ) (choose : List S → Option S) (chooses : Chooses choose) where
  abbrev pub IsReady : LoadBalancer S → Type 0
  IsReady (weighted b) = IsValid b
  IsReady _ = Unit

  -- One of the servers is selected; only of none is there an error. A balancer stays one of the
  -- same servers.
  pub record Selects (b : LoadBalancer S) (r : Option (Result S AppError)) (c : LoadBalancer S)
      : Type 0 where
    pub selected :
        ((is_empty (servers_of b) ≡ true) × (r ≡ some (err no_upstream_available)))
        ⊎ ((i : ℕ) × (s : S) × (get_elem? (servers_of b) i ≡ some s) × (r ≡ some (ok s)))
    pub same : servers_of c ≡ servers_of b
    pub ready : IsReady c

  select_round_robin_lem :
      (b : RoundRobinBalancer S)
      → Selects (round_robin b) (select_round_robin b).0 (round_robin (select_round_robin b).1)
  unfolding select_round_robin
  select_round_robin_lem b = elim (Bool-cases (is_empty b.servers)) [
    | inl e ↦ rw e (record { selected = inl (e, refl); same = refl; ready = tt })
    | inr e ↦
        let (s, f) =
          get_elem?-some_of_lt b.servers (b.current % length b.servers)
            (mod-lt b.current (length-pos b.servers e)) in
        rw (e, index, f) (record { selected = inr (_, s, f, refl); same = refl; ready = tt })
  ]

  select_weighted-Selects :
      (b : WeightedBalancer S)
      → IsValid b
      → Selects (weighted b) (select_weighted weight b).0 (weighted (select_weighted weight b).1)
  select_weighted-Selects b v = elim (Bool-cases (is_empty b.servers)) [
    | inl e ↦
        unfold select_weighted in rw e (record { selected = inl (e, refl); same = refl; ready = v })
    | inr e ↦
        let (i, s, c, t) = select_weighted_lem weight b v e in
        record { selected = inr (i, s, t.server, t.result); same = t.unchanged; ready = t.still }
  ]

  select_random_lem :
      (b : RandomBalancer S)
      → Selects (random b) (select_random choose b).0 (random (select_random choose b).1)
  unfolding select_random
  select_random_lem b = elim (Bool-cases (is_empty b.servers)) [
    | inl e ↦ rw e (record { selected = inl (e, refl); same = refl; ready = tt })
    | inr e ↦
        let (i, s, f, g) = chooses.element b.servers e in
        rw (e, f) (record { selected = inr (i, s, g, refl); same = refl; ready = tt })
  ]

  -- A selection never panics: it gives one of the servers, or the error that there is none, and
  -- leaves a balancer of the same servers.
  pub select_server-Selects :
      (b : LoadBalancer S)
      → IsReady b
      → Selects b (select_server weight choose b).0 (select_server weight choose b).1
  unfolding select_server
  select_server-Selects (round_robin b) v = select_round_robin_lem b
  select_server-Selects (weighted b) v = select_weighted-Selects b v
  select_server-Selects (random b) v = select_random_lem b
