-- ===== src/Cache/Adjust.antt =====
-- `adjust_message_ttl` of src/cache.rs: what a reader of the cache sees of the TTLs.
use load_ants.Prelude.{
  true, ltb, ◌∙◌, inr, arith, inl, Bool-cases, ◌⊎◌, ℕ, ◌≤◌, ◌+◌, ◌≡◌, refl, ap, List, [], ◌∷◌, map,
}
use load_ants.Metrics.{Metrics}
use load_ants.Proto.{ProtoLaws, Proto}
use load_ants.Cache.{
  false, adjust_message_ttl, elapsed_secs, age_unless_opt, CacheEntry, left_ttl, Moka, age_answers,
  age,
}

module _ (D : Proto) (M : Moka D) (shuffle : List (D.Record) → List (D.Record)) where
  open D use {
    Message, Record, ttl, set_ttl, answers, name_servers, additionals, record_type, type_eq,
    opt_type,
  }

  age_answers-map :
      (elapsed : ℕ) (rs : List Record) (m : Metrics)
      → (age_answers D M shuffle elapsed rs m).0 ≡ map (age D M shuffle elapsed) rs
  unfolding age_answers
  age_answers-map elapsed [] m = refl
  age_answers-map elapsed (r ∷ rs) m =
      ap (λ l. age D M shuffle elapsed r ∷ l) (age_answers-map elapsed rs _)

  -- An aged record is the same record with another TTL: that and the seconds that passed make up its
  -- TTL, but one second at least is left.
  abbrev pub Aged : ℕ → Record → Record → Type 0
  Aged elapsed r s =
      (s ≡ set_ttl (ttl s) r)
      × (1 ≤ ttl s)
      × ((ttl s + elapsed ≡ ttl r) ⊎ ((ttl s ≡ 1) × (ttl r ≤ elapsed)))

  -- An OPT record is left as it is, any other is aged.
  abbrev pub AgedUnlessOpt : ℕ → Record → Record → Type 0
  AgedUnlessOpt elapsed r s =
      ((type_eq (record_type r) opt_type ≡ true) × (s ≡ r))
      ⊎ ((type_eq (record_type r) opt_type ≡ false) × Aged elapsed r s)

  -- Two lists whose elements correspond one by one.
  abbrev pub Pairwise : (Record → Record → Type 0) → List Record → List Record → Type 0
  Pairwise R [] [] = Unit
  Pairwise R (r ∷ rs) (s ∷ ss) = R r s × Pairwise R rs ss
  Pairwise R _ _ = ⊥

  pub Pairwise-map :
      (R : Record → Record → Type 0) (f : Record → Record)
      → ((r : Record) → R r (f r))
      → (rs : List Record) → Pairwise R rs (map f rs)
  Pairwise-map R f h [] = tt
  Pairwise-map R f h (r ∷ rs) = (h r, Pairwise-map R f h rs)

  module _ (laws : ProtoLaws D) where
    left_ttl_lem :
        (elapsed t : ℕ)
        → (1 ≤ left_ttl D M shuffle elapsed t)
          × ((left_ttl D M shuffle elapsed t + elapsed ≡ t)
              ⊎ ((left_ttl D M shuffle elapsed t ≡ 1) × (t ≤ elapsed)))
    left_ttl_lem elapsed t = elim (Bool-cases (ltb elapsed t)) [
      | inl e ↦ rw e (ground arith, inl (ground arith))
      | inr e ↦ rw e (omega arith, inr (refl, ground arith))
    ]

    pub age-Aged : (elapsed : ℕ) (r : Record) → Aged elapsed r (age D M shuffle elapsed r)
    age-Aged elapsed r =
        let (low, split) = left_ttl_lem elapsed (ttl r) in
        rw (laws.ttl-set_ttl (left_ttl D M shuffle elapsed (ttl r)) r) (refl, low, split)

    pub age_unless_opt-Aged :
        (elapsed : ℕ) (r : Record) → AgedUnlessOpt elapsed r (age_unless_opt D M shuffle elapsed r)
    age_unless_opt-Aged elapsed r = elim (Bool-cases (type_eq (record_type r) opt_type)) [
      | inl e ↦ inl (e, rw e refl)
      | inr e ↦ inr (e, rw e (age-Aged elapsed r))
    ]

    module _ (now : ℕ) (entry : CacheEntry D) (message : Message) (m : Metrics) where
      abbrev seconds : ℕ
      seconds = elapsed_secs D M shuffle now entry.timestamp

      abbrev adjusted : Message
      adjusted = (adjust_message_ttl D M shuffle now entry message m).0

      pub answers-adjusted : answers adjusted ≡ map (age D M shuffle seconds) (answers message)
      unfolding adjust_message_ttl
      answers-adjusted =
          laws.answers-set_additionals _ _
          ∙ laws.answers-set_name_servers _ _
          ∙ laws.answers-set_answers _ _
          ∙ age_answers-map seconds (answers message) m

      pub name_servers-adjusted :
          name_servers adjusted ≡ map (age D M shuffle seconds) (name_servers message)
      unfolding adjust_message_ttl
      name_servers-adjusted =
          laws.name_servers-set_additionals _ _
          ∙ laws.name_servers-set_name_servers _ _
          ∙ ap (map (age D M shuffle seconds)) (laws.name_servers-set_answers _ _)

      pub additionals-adjusted :
          additionals adjusted ≡ map (age_unless_opt D M shuffle seconds) (additionals message)
      unfolding adjust_message_ttl
      additionals-adjusted =
          laws.additionals-set_additionals _ _
          ∙ ap (map (age_unless_opt D M shuffle seconds))
              (laws.additionals-set_name_servers _ _ ∙ laws.additionals-set_answers _ _)
