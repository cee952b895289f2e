-- ===== src/Balancer.antt =====
-- src/balancer.rs: the three load balancers. A `usize` has 64 bits and wraps around; a selection
-- that would index out of range, and so panic, is `none`.
pub mod Select
pub mod RoundRobin
pub mod Weighted
pub mod Starved
pub mod Tests
use load_ants.Prelude.{
  ℕ, zero, suc, ◌+◌, ◌-◌, ◌%◌, List, [], ◌∷◌, Option, none, some, map, length, is_empty, get_elem?,
  set, ltb, if◌then◌else◌,
}
use load_ants.Errors.{Result, ok, err, AppError, no_upstream_available}

abbrev pub word : ℕ
word = 18446744073709551616

pub record RoundRobinBalancer (S : Type 0) : Type 0 where
  pub servers : List S
  pub current : ℕ

pub record WeightedBalancer (S : Type 0) : Type 0 where
  pub servers : List S
  pub current_weights : List ℕ
  pub total_weight : ℕ

pub record RandomBalancer (S : Type 0) : Type 0 where
  pub servers : List S

-- `dyn LoadBalancer`
pub data LoadBalancer (S : Type 0) : Type 0 where
  round_robin : RoundRobinBalancer S → LoadBalancer S
  weighted : WeightedBalancer S → LoadBalancer S
  random : RandomBalancer S → LoadBalancer S

abbrev pub sum : List ℕ → ℕ
sum [] = 0
sum (n ∷ ns) = n + sum ns

module _ {S : Type 0} where
  -- `Ok(&self.servers[i])`
  abbrev pub index : List S → ℕ → Option (Result S AppError)
  index servers i = elim (get_elem? servers i) [ none ↦ none | some s ↦ some (ok s) ]

  abbrev pub new_round_robin : List S → RoundRobinBalancer S
  new_round_robin servers = record { servers = servers; current = 0 }

  unfoldable pub select_round_robin :
      RoundRobinBalancer S → Option (Result S AppError) × RoundRobinBalancer S
  select_round_robin b = if is_empty b.servers then (some (err no_upstream_available), b) else (
    index b.servers (b.current % length b.servers),
    record b { current = (b.current + 1) % word },
  )

  module _ (weight : S → ℕ) where
    abbrev pub new_weighted : List S → WeightedBalancer S
    new_weighted servers = record {
      servers = servers;
      current_weights = map (λ s. 0) servers;
      total_weight = sum (map weight servers) % word;
    }

    -- The first step: each weight is added, and the index of the first largest is kept. The result
    -- is the new weights and that index.
    unfoldable pub add_weights : List S → List ℕ → ℕ → ℕ → ℕ → Option (List ℕ × ℕ)
    add_weights servers [] i max_weight max_index = some ([], max_index)
    add_weights [] (w ∷ ws) i max_weight max_index = none
    add_weights (s ∷ servers) (w ∷ ws) i max_weight max_index =
        let current = (w + weight s) % word in
        let larger = add_weights servers ws (i + 1) current i in
        let kept = add_weights servers ws (i + 1) max_weight max_index in
        elim (if ltb max_weight current then larger else kept) [
          | none ↦ none
          | some (rest, index) ↦ some (current ∷ rest, index)
        ]

    -- `fetch_sub`
    abbrev pub wrapping_sub : ℕ → ℕ → ℕ
    wrapping_sub a b = (a + (word - b)) % word

    -- The second step, `self.current_weights[max_index].fetch_sub(self.total_weight)`, and the
    -- server that is returned.
    abbrev pub lower_weight :
        WeightedBalancer S → List ℕ → ℕ → Option (Result S AppError) × WeightedBalancer S
    lower_weight b weights i = elim (get_elem? weights i) [
      | none ↦ (none, b)
      | some w ↦ (
        index b.servers i,
        record b { current_weights = set weights i (wrapping_sub w b.total_weight) },
      )
    ]

    unfoldable pub select_weighted :
        WeightedBalancer S → Option (Result S AppError) × WeightedBalancer S
    select_weighted b =
        if is_empty b.servers
        then (some (err no_upstream_available), b)
        else elim (add_weights b.servers b.current_weights 0 0 0) [
          | none ↦ (none, b)
          | some (weights, max_index) ↦ lower_weight b weights max_index
        ]

  -- `choose` is `SliceRandom::choose` with the generator of the thread.
  unfoldable pub select_random :
      (List S → Option S) → RandomBalancer S → Option (Result S AppError) × RandomBalancer S
  select_random choose b =
      if is_empty b.servers
      then (some (err no_upstream_available), b)
      else elim (choose b.servers) [
        | none ↦ (some (err no_upstream_available), b)
        | some s ↦ (some (ok s), b)
      ]

  -- `select_server` of the balancer that a group has; no balancer heeds `report_failure`.
  unfoldable pub select_server :
      (S → ℕ) → (List S → Option S) → LoadBalancer S → Option (Result S AppError) × LoadBalancer S
  select_server weight choose (round_robin b) =
      let (r, c) = select_round_robin b in (r, round_robin c)
  select_server weight choose (weighted b) =
      let (r, c) = select_weighted weight b in (r, weighted c)
  select_server weight choose (random b) = let (r, c) = select_random choose b in (r, random c)

  abbrev pub report_failure : LoadBalancer S → S → LoadBalancer S
  report_failure b s = b

  abbrev pub servers_of : LoadBalancer S → List S
  servers_of (round_robin b) = b.servers
  servers_of (weighted b) = b.servers
  servers_of (random b) = b.servers
