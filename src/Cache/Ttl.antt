-- ===== src/Cache/Ttl.antt =====
-- The TTL under which `DnsCache::insert` of src/cache.rs keeps a response.
use load_ants.Prelude.{◌==◌, if◌then◌else◌, ℕ, ◌≤◌, ◌≡◌, false, List, [], ◌∷◌, Option, All, arith}
use load_ants.Metrics.{Metrics}
use load_ants.Proto.{Proto}
use load_ants.Cache.{
  Moka, DnsCache, new, calculate_min_ttl, entry_ttl, least_ttl, is_negative, max, min, clamp,
  max_u32, or_default,
}

clamp-Within : (n low high : ℕ) → low ≤ high → (low ≤ clamp n low high) × (clamp n low high ≤ high)
clamp-Within n low high h = (ground arith, ground arith)

module _ (D : Proto) (M : Moka D) (shuffle : List (D.Record) → List (D.Record)) where
  open D use {Message, Record, ttl, answers}

  -- The bounds that `DnsCache::new` sees to.
  pub record IsValid (c : DnsCache D M) : Type 0 where
    pub min_low : 1 ≤ c.min_ttl
    pub min_high : c.min_ttl ≤ 86400
    pub negative_low : 1 ≤ c.negative_ttl
    pub negative_high : c.negative_ttl ≤ 86400

  pub new-IsValid :
      (size min_ttl : ℕ) (negative_ttl : Option ℕ) (m : Metrics)
      → IsValid (new D M shuffle size min_ttl negative_ttl m).0
  unfolding new
  new-IsValid size min_ttl negative_ttl m =
      let (a, b) = clamp-Within min_ttl 1 86400 (omega arith) in
      let (c, d) = clamp-Within (or_default D M shuffle negative_ttl) 1 86400 (omega arith) in
      record { min_low = a; min_high = b; negative_low = c; negative_high = d }

  abbrev low_of : ℕ → List Record → ℕ
  low_of = least_ttl D M shuffle

  low_of-le : (low : ℕ) (rs : List Record) → low_of low rs ≤ low
  low_of-le low [] = omega arith
  low_of-le low (r ∷ rs) = ground (arith, low_of-le (min low (ttl r)) rs)

  low_of-All : (low : ℕ) (rs : List Record) → All (λ r. low_of low rs ≤ ttl r) rs
  low_of-All low [] = tt
  low_of-All low (r ∷ rs) =
      (ground (arith, low_of-le (min low (ttl r)) rs), low_of-All (min low (ttl r)) rs)

  All-map :
      {P Q : Record → Type 0} (rs : List Record) → ((r : Record) → P r → Q r) → All P rs → All Q rs
  All-map [] f h = tt
  All-map (r ∷ rs) f h = (f r h.0, All-map rs f h.1)

  abbrev raised : DnsCache D M → ℕ → ℕ
  raised c low = if low == max_u32 then c.min_ttl else max low c.min_ttl

  calculated :
      (c : DnsCache D M) (response : Message) (m : Metrics)
      → is_negative D M shuffle response ≡ false
      → (calculate_min_ttl D M shuffle c response m).0
        ≡ raised c (low_of max_u32 (answers response))
  unfolding calculate_min_ttl
  calculated c response m e = ground (arith, e)

  raised-le : (c : DnsCache D M) → IsValid c → (low : ℕ) → c.min_ttl ≤ clamp (raised c low) 1 86400
  raised-le c v low = ground (arith, v.min_low, v.min_high)

  le_raised :
      (c : DnsCache D M)
      → IsValid c
      → (low : ℕ) (r : Record) → low ≤ ttl r
      → clamp (raised c low) 1 86400 ≤ max (ttl r) c.min_ttl
  le_raised c v low r h = ground (arith, v.min_low, v.min_high, h)

  -- A response that is no negative answer is kept between one second and a day, at least for the
  -- least TTL of the configuration, and for no longer than any of its answers unless that least TTL
  -- is longer.
  pub entry_ttl-Within :
      (c : DnsCache D M)
      → IsValid c
      → (response : Message) (m : Metrics) → is_negative D M shuffle response ≡ false
      → (1 ≤ (entry_ttl D M shuffle c response m).0)
        × ((entry_ttl D M shuffle c response m).0 ≤ 86400)
        × (c.min_ttl ≤ (entry_ttl D M shuffle c response m).0)
        × All
            (λ r. (entry_ttl D M shuffle c response m).0 ≤ max (ttl r) c.min_ttl)
            (answers response)
  entry_ttl-Within c v response m e =
      let (a, b) =
        clamp-Within (calculate_min_ttl D M shuffle c response m).0 1 86400 (omega arith) in
      let t = calculated c response m e in
      (
        a,
        b,
        rw t (raised-le c v (low_of max_u32 (answers response))),
        rw t (
            All-map (answers response)
              (λ r h. le_raised c v (low_of max_u32 (answers response)) r h)
              (low_of-All max_u32 (answers response))),
      )
