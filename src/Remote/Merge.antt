-- ===== src/Remote/Merge.antt =====
-- `load_and_merge_rules` of src/remote_rule/mod.rs: a source that fails adds nothing.
use load_ants.Prelude.{◌≡◌, refl, sym, ap, ◌∙◌, List, [], ◌∷◌, ◌++◌, append_assoc, append-nil}
use load_ants.Errors.{Result, ok, err, ◌>>=◌, AppError}
use load_ants.Config.Rule.{RouteRuleConfig}
use load_ants.Http.{Http, HttpClientConfig}
use load_ants.Remote.Loader.{RemoteRuleConfig, RemoteRuleLoader, new_loader, load}

-- The rules, or none of them on an error, which the source only logs.
abbrev pub extend :
    List RouteRuleConfig → Result (List RouteRuleConfig) AppError → List RouteRuleConfig
extend merged (ok rules) = merged ++ rules
extend merged (err e) = merged

module _ (H : Http) (http_config : HttpClientConfig) where
  open H use {Client}

  -- One round of the loop.
  unfoldable pub merge_source : List RouteRuleConfig → RemoteRuleConfig → List RouteRuleConfig
  merge_source merged config = elim (new_loader H config http_config) [
    | ok loader ↦ extend merged (load H loader)
    | err e ↦ merged
  ]

  unfoldable pub merge_sources : List RouteRuleConfig → List RemoteRuleConfig → List RouteRuleConfig
  merge_sources merged [] = merged
  merge_sources merged (config ∷ configs) = merge_sources (merge_source merged config) configs

  unfoldable pub load_and_merge_rules :
      List RemoteRuleConfig → List RouteRuleConfig → Result (List RouteRuleConfig) AppError
  load_and_merge_rules remote_configs static_rules = ok (merge_sources static_rules remote_configs)

  -- What a source gives by itself.
  abbrev pub rules_of : RemoteRuleConfig → List RouteRuleConfig
  rules_of config = extend [] (new_loader H config http_config >>= λ loader. load H loader)

  abbrev pub all_rules : List RemoteRuleConfig → List RouteRuleConfig
  all_rules [] = []
  all_rules (config ∷ configs) = rules_of config ++ all_rules configs

  merge_source_lem :
      (merged : List RouteRuleConfig) (config : RemoteRuleConfig)
      → merge_source merged config ≡ merged ++ rules_of config
  unfolding merge_source
  merge_source_lem merged config = go (new_loader H config http_config)
    where
      loaded :
          (x : Result (List RouteRuleConfig) AppError) → extend merged x ≡ merged ++ extend [] x
      loaded (ok rules) = refl
      loaded (err e) = sym (append-nil merged)

      go :
          (x : Result (RemoteRuleLoader Client) AppError)
          → (elim x [ ok loader ↦ extend merged (load H loader) | err e ↦ merged ])
            ≡ merged ++ extend [] (x >>= λ loader. load H loader)
      go (ok loader) = loaded (load H loader)
      go (err e) = sym (append-nil merged)

  merge_sources_lem :
      (configs : List RemoteRuleConfig) (merged : List RouteRuleConfig)
      → merge_sources merged configs ≡ merged ++ all_rules configs
  unfolding merge_sources
  merge_sources_lem [] merged = sym (append-nil merged)
  merge_sources_lem (config ∷ configs) merged =
      merge_sources_lem configs (merge_source merged config)
      ∙ ap (λ l. l ++ all_rules configs) (merge_source_lem merged config)
      ∙ append_assoc merged (rules_of config) (all_rules configs)

  -- Merging never fails: the static rules come first, then what each source gives by itself, in the
  -- order of the sources, where a source that fails gives nothing.
  pub load_and_merge_rules_lem :
      (configs : List RemoteRuleConfig) (static_rules : List RouteRuleConfig)
      → load_and_merge_rules configs static_rules ≡ ok (static_rules ++ all_rules configs)
  unfolding load_and_merge_rules
  load_and_merge_rules_lem configs static_rules = ap ok (merge_sources_lem configs static_rules)
