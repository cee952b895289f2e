-- ===== src/Admin/Refresh.antt =====
-- What `refresh_cache_handler` of src/admin.rs leaves in the cache.
use load_ants.Prelude.{
  arith, ℕ, ◌≡◌, refl, true, false, List, Option, none, some, Bool-cases, Option-cases, inl, inr,
}
use load_ants.Errors.{Result, ok, err}
use load_ants.Metrics.{Metrics}
use load_ants.Proto.{Proto}
use load_ants.Cache.{Moka, DnsCache, is_enabled, get, from_message, clear}
use load_ants.Cache.Lookup.{MokaLaws}
use load_ants.Upstream.Json.{Json}
use load_ants.Admin.{refresh_cache_handler}

module _ (D : Proto) (moka : Moka D) (shuffle : List D.Record → List D.Record) (J : Json)
    (laws : MokaLaws D moka) where
  open J use {Value}

  abbrev Cache : Type 0
  Cache = DnsCache D moka

  -- No message is found, at any time.
  abbrev IsCleared : Cache → Type 0
  IsCleared c =
      (query : D.Message) (now : ℕ) (m : Metrics) → get D moka shuffle c query now m ≡ (none, m)

  clear-IsCleared : (c : Cache) (m : Metrics) → IsCleared (clear D moka shuffle c m).0
  unfolding clear get
  clear-IsCleared c m query now k = elim (Option-cases (from_message D moka shuffle query)) [
    | inl e ↦ ground (arith, e)
    | inr (key, e) ↦ ground (arith, e, laws.lookup-invalidate_all key now c.cache)
  ]

  -- What follows from a refresh.
  abbrev pub Refreshed :
      Option Cache → Metrics → Result Value (ℕ × Value) × (Option Cache × Metrics) → Type 0
  Refreshed (some c) m (ok body, (some next, after)) =
      (is_enabled D moka shuffle c ≡ true)
      × (is_enabled D moka shuffle next ≡ true)
      × IsCleared next
  Refreshed (some c) m (err (status, body), (some next, after)) =
      (is_enabled D moka shuffle c ≡ false) × (status ≡ 400) × (next ≡ c) × (after ≡ m)
  Refreshed none m (err (status, body), (none, after)) = (status ≡ 500) × (after ≡ m)
  Refreshed o m _ = ⊥

  -- A refresh of an enabled cache succeeds: the cache is still enabled, and no message is found in it
  -- until the next is inserted. One of a disabled cache is answered with 400 and one without a cache
  -- with 500, and both change nothing. The map of moka behaves as documented.
  pub refresh_cache_handler-Refreshed :
      (o : Option Cache) (m : Metrics) → Refreshed o m (refresh_cache_handler D moka shuffle J o m)
  unfolding refresh_cache_handler clear
  refresh_cache_handler-Refreshed none m = (refl, refl)
  refresh_cache_handler-Refreshed (some c) m = elim (Bool-cases (is_enabled D moka shuffle c)) [
    | inl e ↦ rw e (e, e, clear-IsCleared c m)
    | inr e ↦ rw e (e, refl, refl, refl)
  ]
