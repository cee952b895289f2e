-- ===== src/Cache/Tests.antt =====
-- Tests of src/cache.rs, with a list for the map of moka and no shuffling.
use load_ants.Cache.Lookup.{get-Served, Served, MokaLaws}
use load_ants.Cache.Shuffle.{ShuffleLaws}
use load_ants.Prelude.{
  inr, inl, Bool-cases, ◌<◌, ℕ, ◌≡◌, ◌≤◌, ◌+◌, ◌&&◌, refl, true, false, List, [], ◌∷◌, Option, none,
  some, All, arith, ltb, ◌==◌, if◌then◌else◌, length,
}
use load_ants.Prelude.Texts.{text_eq_refl, codes, text_eq}
use load_ants.Proto.Toy.{bare, toy_proto, toy_laws, ToyMessage, ToyRecord, ToyQuery}
use load_ants.Cache.{
  elapsed_secs, shuffle_message_records, age_answers, adjust_message_ttl, from_message, get, Moka,
  CacheEntry, CacheKey, DnsCache, lifetime, new, entry_ttl, max, shuffle_records, partition_loop,
  calculate_min_ttl,
}
use load_ants.Cache.Ttl.{IsValid, entry_ttl-Within}

abbrev pub Stored : Type 0
Stored = List (CacheKey toy_proto × (CacheEntry toy_proto × ℕ))

-- The entry that was last stored under a key, until its life is over.
abbrev find : CacheKey toy_proto → ℕ → Stored → Option (CacheEntry toy_proto)
find k now [] = none
find k now ((j, (e, since)) ∷ rest) =
    if text_eq j.name k.name && j.record_type == k.record_type
    then if ltb now (since + lifetime toy_proto e) then some e else none
    else find k now rest

abbrev pub toy_moka : Moka toy_proto
toy_moka = record {
  Store = Stored;
  build = λ n. [];
  lookup = find;
  insert = λ k e now s. (k, (e, now)) ∷ s;
  invalidate_all = λ s. [];
  entry_count = length;
}

abbrev pub in_order : List ToyRecord → List ToyRecord
in_order l = l

abbrev pub www : ToyQuery
www = record { name = codes "www.example.com."; of_type = 1 }

abbrev address : ℕ → ToyRecord
address t = bare 1 t

abbrev cname : ToyRecord
cname = bare 5 600

abbrev pub question : ToyMessage
question = record {
  id = 7;
  asks = true;
  op = 0;
  desired = true;
  available = false;
  code = 0;
  queries = www ∷ [];
  answers = [];
  name_servers = [];
  additionals = [];
  cut = false;
}

abbrev pub answer : ToyMessage
answer = record question {
  asks = false;
  answers = cname ∷ address 30 ∷ address 90 ∷ [];
  additionals = bare 41 0 ∷ [];
}

abbrev pub cache : DnsCache toy_proto toy_moka
cache = record { cache = []; size = 100; min_ttl = 60; negative_ttl = 300 }

new_test : (new toy_proto toy_moka in_order 100 60 none []).0 ≡ cache
unfolding new
new_test = refl

cache-IsValid : IsValid toy_proto toy_moka in_order cache
cache-IsValid = record {
  min_low = omega arith;
  min_high = omega arith;
  negative_low = omega arith;
  negative_high = omega arith;
}

-- The addresses come first, and the least TTL holds.
partition_test :
    shuffle_records toy_proto toy_moka in_order 1 (cname ∷ address 30 ∷ address 90 ∷ [])
    ≡ address 30 ∷ address 90 ∷ cname ∷ []
unfolding shuffle_records partition_loop
partition_test = refl

ttl_test : (entry_ttl toy_proto toy_moka in_order cache answer []).0 ≡ 60
unfolding calculate_min_ttl
ttl_test = refl

entry_ttl-Within_example :
    (1 ≤ (entry_ttl toy_proto toy_moka in_order cache answer []).0)
    × ((entry_ttl toy_proto toy_moka in_order cache answer []).0 ≤ 86400)
    × (cache.min_ttl ≤ (entry_ttl toy_proto toy_moka in_order cache answer []).0)
    × All
        (λ r. (entry_ttl toy_proto toy_moka in_order cache answer []).0 ≤ max r.lives cache.min_ttl)
        answer.answers
entry_ttl-Within_example =
    entry_ttl-Within toy_proto toy_moka in_order cache cache-IsValid answer [] refl

toy_moka-lookup :
    (k : CacheKey toy_proto) (e x : CacheEntry toy_proto) (since now : ℕ) (s : Stored)
    → since ≤ now
    → find k now ((k, (e, since)) ∷ s) ≡ some x
    → (x ≡ e) × (now < since + lifetime toy_proto e)
toy_moka-lookup k e x since now s o h =
    let same = text_eq_refl k.name in
    elim (Bool-cases (ltb now (since + lifetime toy_proto e))) [
      | inl l ↦ (ground (arith, same, l, h), ground (arith, l))
      | inr l ↦ absurd (ground (arith, same, l, h))
    ]

pub toy_moka_laws : MokaLaws toy_proto toy_moka
toy_moka_laws = record { lookup-insert = toy_moka-lookup; lookup-invalidate_all = λ k now s. refl }

abbrev www_key : CacheKey toy_proto
www_key = record { name = codes "www.example.com."; record_type = 1; class = tt }

abbrev aged_answer : ToyMessage
aged_answer = record answer { answers = address 1 ∷ address 50 ∷ bare 5 560 ∷ [] }

www_asked : from_message toy_proto toy_moka in_order question ≡ some www_key
unfolding from_message
www_asked = refl

in_order-ShuffleLaws : ShuffleLaws toy_proto in_order
in_order-ShuffleLaws = record { shuffle-SameItems = λ l test. refl }

abbrev filled : DnsCache toy_proto toy_moka
filled = record cache {
  cache = (www_key, (record { message = answer; timestamp = 0; ttl = 60 }, 0)) ∷ [];
}

filled_test : (get toy_proto toy_moka in_order filled question 40000000000 []).0 ≡ some aged_answer
unfolding get from_message text_eq adjust_message_ttl age_answers shuffle_message_records
    shuffle_records partition_loop
filled_test = refl

get-Served_example :
    (entry : CacheEntry toy_proto) × (toy_moka.lookup www_key 40000000000 filled.cache ≡ some entry)
    × Served toy_proto toy_moka in_order
        (elapsed_secs toy_proto toy_moka in_order 40000000000 entry.timestamp)
        1
        entry.message
        aged_answer
get-Served_example =
    get-Served toy_proto toy_moka in_order filled question toy_laws in_order-ShuffleLaws www_key
      40000000000 [] aged_answer www_asked filled_test
