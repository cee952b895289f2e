-- ===== src/Balancer/Tests.antt =====
-- Tests of src/balancer.rs: a server is its weight.
use load_ants.Prelude.{
  ℕ, ◌≡◌, refl, ◌*◌, ◌+◌, List, [], ◌∷◌, Option, none, some, arith, is_empty, false, length,
  get_elem?,
}
use load_ants.Errors.{ok}
use load_ants.Balancer.{
  LoadBalancer, random, new_weighted, select_weighted, add_weights, select_server,
}
use load_ants.Balancer.RoundRobin.{selections, at, all_ok, selections-round}
use load_ants.Balancer.Weighted.{select_weighted_lem, Takes}
use load_ants.Balancer.Starved.{two, repeat, selections_weighted, selections-starved}
use load_ants.Balancer.Select.{Chooses, Selects, select_server-Selects}

abbrev weigh : ℕ → ℕ
weigh w = w

abbrev pair : List ℕ
pair = 80 ∷ 20 ∷ []

-- The weights 80 and 20: the first server twice, and from then on the second.
weights_test :
    selections_weighted weigh 7 (new_weighted weigh pair)
    ≡ some (ok 80)
      ∷ some (ok 80)
      ∷ some (ok 20)
      ∷ some (ok 20)
      ∷ some (ok 20)
      ∷ some (ok 20)
      ∷ some (ok 20)
      ∷ []
unfolding selections_weighted select_weighted add_weights
weights_test = refl

selections-starved_example :
    selections_weighted weigh 1000 (two weigh 80 20 120 18446744073709551496) ≡ repeat weigh 1000 20
selections-starved_example =
    selections-starved weigh 1000 80 20 120 18446744073709551496 (omega arith) (omega arith)
      (omega arith) (omega arith)

selections-round_example :
    selections (length pair) (at pair (3 * length pair))
    ≡ (all_ok pair, at pair (3 * length pair + length pair))
selections-round_example = selections-round 3 pair (omega arith)

select_weighted_lem_example :
    (i : ℕ) × (s : ℕ) × (c : ℕ) × Takes weigh (new_weighted weigh pair) i s c
select_weighted_lem_example =
    select_weighted_lem weigh (new_weighted weigh pair) (record { one_each = refl }) refl

abbrev head : List ℕ → Option ℕ
head [] = none
head (x ∷ xs) = some x

head_element :
    (l : List ℕ)
    → is_empty l ≡ false
    → (i : ℕ) × (s : ℕ) × (head l ≡ some s) × (get_elem? l i ≡ some s)
head_element [] e = cc
head_element (x ∷ l) e = (0, x, refl, refl)

head_Chooses : Chooses head
head_Chooses = record { element = head_element }

abbrev ready : LoadBalancer ℕ
ready = random (record { servers = pair })

select_server-Selects_example :
    Selects weigh head head_Chooses ready
      (select_server weigh head ready).0
      (select_server weigh head ready).1
select_server-Selects_example = select_server-Selects weigh head head_Chooses ready tt
