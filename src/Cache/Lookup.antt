-- ===== src/Cache/Lookup.antt =====
-- `get` of src/cache.rs and `get` after `insert`, and what the map of moka promises.
use mathlib.Core.Path.{subst}
use load_ants.Cache.Adjust.{
  Aged, AgedUnlessOpt, Pairwise, Pairwise-map, age-Aged, age_unless_opt-Aged, answers-adjusted,
  name_servers-adjusted, additionals-adjusted,
}
use load_ants.Cache.Shuffle.{ShuffleLaws, SameItems, shuffle_records-SameItems}
use load_ants.Cache.Ttl.{IsValid}
use load_ants.Prelude.{
  ◌∷◌, ◌||◌, refl, Bool-cases, map, ◌⊎◌, List, ℕ, ◌≡◌, ◌≤◌, ◌<◌, ◌+◌, sym, true, none, some, arith,
  Option-cases, inl, inr,
}
use load_ants.Metrics.{Metrics}
use load_ants.Proto.{Proto, ProtoLaws}
use load_ants.Cache.{
  ◌∷◌, elapsed_secs, age, shuffle_message_records, Moka, CacheKey, CacheEntry, DnsCache, lifetime,
  from_message, get, entry_ttl, adjust_message_ttl, shuffle_if_address,
}

-- What moka's documentation says: a look-up finds at most what was last inserted under the key, as
-- long as it has not expired, and nothing after `invalidate_all`. An entry may be evicted earlier.
pub record MokaLaws (D : Proto) (M : Moka D) : Type 0 where
  pub lookup-insert :
      (k : CacheKey D) (e x : CacheEntry D) (since now : ℕ) (s : M.Store)
      → since ≤ now
      → M.lookup k now (M.insert k e since s) ≡ some x
      → (x ≡ e) × (now < since + lifetime D e)
  pub lookup-invalidate_all :
      (k : CacheKey D) (now : ℕ) (s : M.Store) → M.lookup k now (M.invalidate_all s) ≡ none

module _ (D : Proto) (M : Moka D) (shuffle : List D.Record → List D.Record) where
  open D use {
    Message, Record, RecordType, type_eq, a_type, aaaa_type, answers, name_servers, additionals,
  }

  -- Only the answers to a query for addresses are given in another order.
  abbrev Reordered : RecordType → List Record → List Record → Type 0
  Reordered t stored given =
      SameItems given stored
      × (((type_eq t a_type || type_eq t aaaa_type) ≡ true) ⊎ (given ≡ stored))

  -- What is given some seconds after a message was stored: in each section the stored records, each
  -- aged by the seconds.
  pub record Served (seconds : ℕ) (t : RecordType) (stored given : Message) : Type 0 where
    pub aged : List Record
    pub aged_answers : Pairwise D M shuffle (Aged D M shuffle seconds) (answers stored) aged
    pub reordered : Reordered t aged (answers given)
    pub aged_name_servers :
        Pairwise D M shuffle (Aged D M shuffle seconds) (name_servers stored) (name_servers given)
    pub aged_additionals :
        Pairwise D M shuffle
          (AgedUnlessOpt D M shuffle seconds)
          (additionals stored)
          (additionals given)

  module _ (laws : ProtoLaws D) (shuffles : ShuffleLaws D shuffle) where
    adjusted-Served :
        (t : RecordType) (later : ℕ) (entry : CacheEntry D) (m : Metrics)
        → Served (elapsed_secs D M shuffle later entry.timestamp) t entry.message (
            shuffle_if_address D M shuffle t
              (adjust_message_ttl D M shuffle later entry entry.message m).0)
    unfolding shuffle_message_records
    adjusted-Served t later entry m =
        let n = elapsed_secs D M shuffle later entry.timestamp in
        let stored = entry.message in
        let first = Pairwise-map D M shuffle _ _ (age-Aged D M shuffle laws n) (answers stored) in
        let second =
          Pairwise-map D M shuffle _ _ (age-Aged D M shuffle laws n) (name_servers stored) in
        let third =
          Pairwise-map D M shuffle _ _ (age_unless_opt-Aged D M shuffle laws n)
            (additionals stored) in
        let one = answers-adjusted D M shuffle laws later entry stored m in
        let two = name_servers-adjusted D M shuffle laws later entry stored m in
        let three = additionals-adjusted D M shuffle laws later entry stored m in
        let l = map (age D M shuffle n) (answers stored) in
        elim (Bool-cases (type_eq t a_type || type_eq t aaaa_type)) [
          | inl e ↦ rw e (record {
            aged = l;
            aged_answers = first;
            reordered =
                rw (laws.answers-set_answers _ _, one)
                  (shuffle_records-SameItems D M shuffle shuffles t l, inl e);
            aged_name_servers = rw (laws.name_servers-set_answers _ _, two) second;
            aged_additionals = rw (laws.additionals-set_answers _ _, three) third;
          })
          | inr e ↦ rw e (record {
            aged = l;
            aged_answers = first;
            reordered = rw one (λ test. refl, inr refl);
            aged_name_servers = rw two second;
            aged_additionals = rw three third;
          })
        ]

  module _ (c : DnsCache D M) (query : Message) where
    get-found :
        (key : CacheKey D) (later : ℕ) (m : Metrics) (found : Message)
        → from_message D M shuffle query ≡ some key
        → (get D M shuffle c query later m).0 ≡ some found
        → (entry : CacheEntry D) × (M.lookup key later c.cache ≡ some entry)
          × (found
              ≡ shuffle_if_address D M shuffle key.record_type
                  (adjust_message_ttl D M shuffle later entry entry.message m).0)
    unfolding get
    get-found key later m found k g = elim (Option-cases (M.lookup key later c.cache)) [
      | inl n ↦ absurd (ground (arith, k, n, g))
      | inr (entry, l) ↦ (entry, l, ground (arith, k, l, g))
    ]

    -- A hit of the cache gives the message that is stored under the key of the query: in each section
    -- its records, each with its TTL less the seconds that passed since it was stored and never below
    -- one, only an OPT record of the additional section as it is, and nothing else of a record changed.
    -- The answers to a query for addresses may come in another order, which a shuffle that keeps the
    -- records chooses.
    pub get-Served :
        (laws : ProtoLaws D) (shuffles : ShuffleLaws D shuffle) (key : CacheKey D) (later : ℕ)
        (m : Metrics) (found : Message)
        → from_message D M shuffle query ≡ some key
        → (get D M shuffle c query later m).0 ≡ some found
        → (entry : CacheEntry D) × (M.lookup key later c.cache ≡ some entry)
          × Served
              (elapsed_secs D M shuffle later entry.timestamp)
              key.record_type
              entry.message
              found
    get-Served laws shuffles key later m found k g =
        let (entry, l, same) = get-found key later m found k g in
        (
          entry,
          l,
          subst
              (Served (elapsed_secs D M shuffle later entry.timestamp) key.record_type
                entry.message)
              (sym same) (adjusted-Served laws shuffles key.record_type later entry m),
        )

  module _ (c : DnsCache D M) (valid : IsValid D M shuffle c) (query : Message) (key : CacheKey D)
      (response : Message) (now : ℕ) (m : Metrics) where
    abbrev stored_entry : CacheEntry D
    stored_entry = record {
      message = response;
      timestamp = now;
      ttl = (entry_ttl D M shuffle c response m).0;
    }
