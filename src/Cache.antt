-- ===== src/Cache.antt =====
-- src/cache.rs. An instant is its number of nanoseconds. The map is the crate moka's, a parameter:
-- its operations are given the instant at which they run. The random order is that of the crate
-- `rand`, a parameter too.
pub mod Ttl
pub mod Adjust
pub mod Shuffle
pub mod Lookup
pub mod Tests
use load_ants.Prelude.{
  ℕ, zero, suc, ◌+◌, ◌-◌, ◌*◌, ◌/◌, ◌%◌, Bool, true, false, ◌&&◌, ◌||◌, not, List, [], ◌∷◌, ◌++◌,
  Option, none, some, is_empty, length, get_elem?, set, first, map, ltb, leb, ◌==◌, if◌then◌else◌,
}
use load_ants.Prelude.Texts.{Text, codes, text_eq}
use load_ants.Errors.{Result, ok, err, AppError}
use load_ants.Metrics.{
  Metrics, ◌▸◌, inc, observe, cache_operations_total, cache_ttl_seconds, cache_capacity,
  cache_entries,
}
use load_ants.Metrics
use load_ants.Proto.{Proto}

abbrev pub nanos : ℕ
nanos = 1000000000

-- `Ord::clamp`
abbrev pub clamp : ℕ → ℕ → ℕ → ℕ
clamp n low high = if ltb n low then low else if ltb high n then high else n

abbrev pub min : ℕ → ℕ → ℕ
min m n = if leb m n then m else n

abbrev pub max : ℕ → ℕ → ℕ
max m n = if leb m n then n else m

-- `u32::MAX`
abbrev pub max_u32 : ℕ
max_u32 = 4294967295

module _ (D : Proto) where
  open D use {RecordType, DnsClass, Message, Record}

  pub record CacheKey : Type 0 where
    pub name : Text
    pub record_type : RecordType
    pub class : DnsClass

  pub record CacheEntry : Type 0 where
    pub message : Message
    pub timestamp : ℕ
    pub ttl : ℕ

  -- `CacheEntryExpiry`: the nanoseconds that an entry is kept after it is created or updated; a
  -- read changes nothing.
  abbrev pub lifetime : CacheEntry → ℕ
  lifetime entry = entry.ttl * nanos

  -- The map of moka, with its `get`, `insert`, `invalidate_all` and `entry_count`.
  pub record Moka : Type 1 where
    pub Store : Type 0
    pub build : ℕ → Store
    pub lookup : CacheKey → ℕ → Store → Option CacheEntry
    pub insert : CacheKey → CacheEntry → ℕ → Store → Store
    pub invalidate_all : Store → Store
    pub entry_count : Store → ℕ

  module _ (M : Moka) where
    open M use {Store}

    pub record DnsCache : Type 0 where
      pub cache : Store
      pub size : ℕ
      pub min_ttl : ℕ
      pub negative_ttl : ℕ

module _ (D : Proto) (M : Moka D) (shuffle : List (D.Record) → List (D.Record)) where
  open D use {
    Message, Record, RecordType, type_eq, code_eq, a_type, aaaa_type, opt_type, no_error, name_text,
    query_type, query_class, ttl, set_ttl, record_type, response_code, answer_count, queries,
    answers, set_answers, name_servers, set_name_servers, additionals, set_additionals,
  }
  open M use {Store, build, lookup, insert, invalidate_all, entry_count}

  -- `CacheKey::from_message`
  unfoldable pub from_message : Message → Option (CacheKey D)
  from_message message = elim (first (queries message)) [
    | none ↦ none
    | some query ↦ some (record {
      name = name_text query;
      record_type = query_type query;
      class = query_class query;
    })
  ]

  -- `unwrap_or(DEFAULT_NEGATIVE_TTL)`
  abbrev pub or_default : Option ℕ → ℕ
  or_default none = 300
  or_default (some t) = t

  unfoldable pub new : ℕ → ℕ → Option ℕ → Metrics → DnsCache D M × Metrics
  new size min_ttl negative_ttl m =
      let size = if size == 0 then 0 else clamp size 10 1000000 in
      (
        record {
          cache = build size;
          size = size;
          min_ttl = clamp min_ttl 1 86400;
          negative_ttl = clamp (or_default negative_ttl) 1 86400;
        },
        m ▸ Metrics.set cache_capacity [] size ▸ Metrics.set cache_entries [] 0,
      )

  abbrev pub is_enabled : DnsCache D M → Bool
  is_enabled c = ltb 0 c.size

  -- The new TTL of a record after some seconds: at least one second is left.
  abbrev pub left_ttl : ℕ → ℕ → ℕ
  left_ttl elapsed original = if ltb elapsed original then original - elapsed else 1

  abbrev pub age : ℕ → Record → Record
  age elapsed r = set_ttl (left_ttl elapsed (ttl r)) r

  -- The loop over the answers, which observes each new TTL.
  unfoldable pub age_answers : ℕ → List Record → Metrics → List Record × Metrics
  age_answers elapsed [] m = ([], m)
  age_answers elapsed (r ∷ rs) m =
      let t = left_ttl elapsed (ttl r) in
      let (aged, m) =
        age_answers elapsed rs (m ▸ observe cache_ttl_seconds (codes "adjusted" ∷ []) t) in
      (set_ttl t r ∷ aged, m)

  abbrev pub age_unless_opt : ℕ → Record → Record
  age_unless_opt elapsed r = if type_eq (record_type r) opt_type then r else age elapsed r

  -- `entry.timestamp.elapsed().as_secs() as u32`
  abbrev pub elapsed_secs : ℕ → ℕ → ℕ
  elapsed_secs now timestamp = ((now - timestamp) / nanos) % 4294967296

  unfoldable pub adjust_message_ttl : ℕ → CacheEntry D → Message → Metrics → Message × Metrics
  adjust_message_ttl now entry message m =
      let elapsed = elapsed_secs now entry.timestamp in
      let (aged, m) = age_answers elapsed (answers message) m in
      let message = set_answers aged message in
      let message = set_name_servers (map (age elapsed) (name_servers message)) message in
      let message = set_additionals (map (age_unless_opt elapsed) (additionals message)) message in
      (message, m)

  -- `slice::swap`; an index out of range, which would panic, changes nothing
  abbrev pub swap : {A : Type 0} → List A → ℕ → ℕ → List A
  swap l i j = elim (get_elem? l i) [
    | none ↦ l
    | some x ↦ elim (get_elem? l j) [ none ↦ l | some y ↦ set (set l i y) j x ]
  ]

  abbrev pub is_of_type : RecordType → Option Record → Bool
  is_of_type t none = false
  is_of_type t (some r) = type_eq (record_type r) t

  -- The loop that moves the records of a type to the front, with its two indices; the fuel is the
  -- number of records that are left.
  unfoldable pub partition_loop : ℕ → RecordType → List Record → ℕ → ℕ → List Record × ℕ
  partition_loop zero t l i target_end = (l, target_end)
  partition_loop (suc fuel) t l i target_end = elim (is_of_type t (get_elem? l i)) [
    | true ↦ partition_loop fuel t (swap l i target_end) (i + 1) (target_end + 1)
    | false ↦ partition_loop fuel t l (i + 1) target_end
  ]

  -- `answers[0..n].shuffle(...)`
  abbrev pub shuffle_first : ℕ → List Record → List Record → List Record
  shuffle_first zero front rest = shuffle front ++ rest
  shuffle_first (suc n) front [] = shuffle front
  shuffle_first (suc n) front (r ∷ rest) = shuffle_first n (front ++ r ∷ []) rest

  unfoldable pub shuffle_records : RecordType → List Record → List Record
  shuffle_records t l =
      if ltb (length l) 2
      then l
      else let (parted, target_end) = partition_loop (length l) t l 0 0 in
        if ltb target_end 2 then parted else shuffle_first target_end [] parted

  unfoldable pub shuffle_message_records : RecordType → Message → Message
  shuffle_message_records t message = set_answers (shuffle_records t (answers message)) message

  abbrev pub shuffle_if_address : RecordType → Message → Message
  shuffle_if_address t message =
      if type_eq t a_type || type_eq t aaaa_type then shuffle_message_records t message else message

  -- `DnsCache::get` at an instant.
  unfoldable pub get : DnsCache D M → Message → ℕ → Metrics → Option Message × Metrics
  get c query now m = elim (from_message query) [
    | none ↦ (none, m)
    | some key ↦ elim (lookup key now c.cache) [
      | none ↦ (none, m)
      | some entry ↦
          let (response, m) = adjust_message_ttl now entry entry.message m in
          (
            some (shuffle_if_address key.record_type response),
            m ▸ inc cache_operations_total (codes "hit" ∷ []),
          )
    ]
  ]

  abbrev pub is_cacheable : Message → Bool
  is_cacheable response = not (is_empty (queries response))

  -- The least TTL of the answers, from `u32::MAX`.
  abbrev pub least_ttl : ℕ → List Record → ℕ
  least_ttl low [] = low
  least_ttl low (r ∷ rs) = least_ttl (min low (ttl r)) rs

  abbrev pub is_negative : Message → Bool
  is_negative response =
      not (code_eq (response_code response) no_error) || (answer_count response == 0)

  unfoldable pub calculate_min_ttl : DnsCache D M → Message → Metrics → ℕ × Metrics
  calculate_min_ttl c response m =
      let low = least_ttl max_u32 (answers response) in
      let raised = max low c.min_ttl in
      let original = m ▸ observe cache_ttl_seconds (codes "original" ∷ []) low in
      if is_negative response
      then (
        c.negative_ttl,
        m ▸ observe cache_ttl_seconds (codes "negative_ttl" ∷ []) c.negative_ttl,
      )
      else if low == max_u32
      then (c.min_ttl, m ▸ observe cache_ttl_seconds (codes "min_ttl" ∷ []) c.min_ttl)
      else (
        raised,
        if low == raised
            then original
            else original ▸ observe cache_ttl_seconds (codes "min_ttl" ∷ []) raised,
      )

  -- The TTL under which `insert` keeps a response.
  abbrev pub entry_ttl : DnsCache D M → Message → Metrics → ℕ × Metrics
  entry_ttl c response m = let (t, m) = calculate_min_ttl c response m in (clamp t 1 86400, m)

  abbrev pub store : DnsCache D M → CacheKey D → Message → ℕ → Metrics → DnsCache D M × Metrics
  store c key response now m =
      let (t, m) = entry_ttl c response m in
      (
        record c {
          cache = insert key (record { message = response; timestamp = now; ttl = t }) now c.cache;
        },
        m
            ▸ observe cache_ttl_seconds (codes "adjusted" ∷ []) t
            ▸ inc cache_operations_total (codes "insert" ∷ []),
      )

  -- `DnsCache::insert` at an instant.
  unfoldable pub insert_response :
      DnsCache D M
      → Message
      → Message
      → ℕ
      → Metrics
      → Result (Unit {0}) AppError × (DnsCache D M × Metrics)
  insert_response c query response now m =
      if not (is_cacheable response) then (ok tt, (c, m)) else elim (from_message query) [
        | none ↦ (
          err (AppError.cache (codes "Cannot create cache key from query")),
          (c, m ▸ inc cache_operations_total (codes "insert_error" ∷ [])),
        )
        | some key ↦ (ok tt, store c key response now m)
      ]

  unfoldable pub clear : DnsCache D M → Metrics → DnsCache D M × Metrics
  clear c m = (
    record c { cache = invalidate_all c.cache },
    m ▸ inc cache_operations_total (codes "clear" ∷ []) ▸ Metrics.set cache_entries [] 0,
  )

  abbrev pub len : DnsCache D M → ℕ
  len c = entry_count c.cache

  abbrev pub is_empty_cache : DnsCache D M → Bool
  is_empty_cache c = entry_count c.cache == 0
