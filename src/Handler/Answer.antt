-- ===== src/Handler/Answer.antt =====
-- What `handle_request` of src/handler.rs answers.
use load_ants.Prelude.{ℕ, ◌≡◌, refl, sym, ap, ◌∙◌, inl, inr, List, some, none, first, true}
use load_ants.Prelude.Texts.{Text}
use load_ants.Errors.{ok_injective, ok}
use load_ants.Metrics.{Metrics}
use load_ants.Config.Rule.{block}
use load_ants.Proto.{Proto, ProtoLaws}
use load_ants.Cache.{Moka}
use load_ants.Router.{Patterns, RouteMatch}
use load_ants.Router.Find.{find_match}
use load_ants.Handler.{Upstream, create_error_response, respond, resolve}
use load_ants.Handler.Response.{Answers, create_error_response-Answers}
use load_ants.Handler.Spec.{Handler, handled, look_up, handled-miss, miss-cases}

module _ (D : Proto) (laws : ProtoLaws D) (M : Moka D) (shuffle : List (D.Record) → List (D.Record))
    (P : Patterns) (U : Upstream D) where
  open D use {Message, Query, id, queries, is_query, name_text, nx_domain, serv_fail}
  open U use {Manager, forward_to}

  -- Upstream servers answer under the id of the query that they are sent.
  pub record Echoes : Type 0 where
    pub same_id :
        (up : Manager) (query : Message) (group : Text) (m : Metrics) (response : Message)
        → (forward_to up query group m).0 ≡ ok response
        → id response ≡ id query

  resolve-blocked :
      (h : Handler D M shuffle P U) (query : Query) (request : Message) (route : RouteMatch)
      (later : ℕ) (m : Metrics)
      → route.action ≡ block
      → (resolve D M shuffle P U h query request route later m).0
        ≡ create_error_response D M shuffle P U request nx_domain
  unfolding resolve respond
  resolve-blocked h query request route later m b = rw b refl

  resolve-unused :
      (h : Handler D M shuffle P U) (query : Query) (request : Message) (route : RouteMatch)
      (later : ℕ) (m : Metrics)
      → route.action ≡ block
      → (resolve D M shuffle P U h query request route later m).1.0.upstream ≡ h.upstream
  unfolding resolve respond
  resolve-unused h query request route later m b = rw b refl

  module _ (h : Handler D M shuffle P U) (request : Message) (now later : ℕ) (m : Metrics) where
    -- If the cache has nothing and the route blocks, the answer is NXDOMAIN to the same questions, and
    -- the upstream manager is not used.
    pub handle_request-blocked :
        (query : Query)
        → is_query request ≡ true
        → first (queries request) ≡ some query
        → (look_up D M shuffle P U h query request now m).0 ≡ none
        → (route : RouteMatch)
        → (find_match P h.router
            (name_text query)
            (look_up D M shuffle P U h query request now m).1).0
          ≡ ok route
        → route.action ≡ block
        → (response : Message) × ((handled D M shuffle P U h request now later m).0 ≡ ok response)
          × Answers D laws M shuffle P U request nx_domain response
          × ((handled D M shuffle P U h request now later m).1.0.upstream ≡ h.upstream)
    handle_request-blocked query a f l route r b =
        let found = look_up D M shuffle P U h query request now m in
        elim (miss-cases D M shuffle P U h request now later m query found.1
          (find_match P h.router (name_text query) found.1).0 refl) [
            | inl (found_route, g, answered) ↦
                let same : found_route ≡ route = ok_injective (sym g ∙ r) in
                let whole =
                  handled-miss D M shuffle P U h request now later m query a f l ∙ answered in
                (
                  _,
                  ap (λ z. z.0) whole,
                  rw (same, resolve-blocked h query request route later _ b)
                      (create_error_response-Answers D laws M shuffle P U request nx_domain),
                  ap (λ z. z.1.0.upstream) whole
                      ∙ ap
                          (λ x.
                            (resolve D M shuffle P U h query request x later
                              (find_match P h.router (name_text query) found.1).1).1.0.upstream)
                          same
                      ∙ resolve-unused h query request route later _ b,
                )
            | inr (x, g, failed, same) ↦ absurd (cc)
          ]
