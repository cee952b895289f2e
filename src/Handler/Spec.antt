-- ===== src/Handler/Spec.antt =====
-- `handle_request` of src/handler.rs: when it fails, and what it answers.
use load_ants.Errors.Display.{display}
use load_ants.Prelude.{
  Option-cases, ℕ, ◌≡◌, refl, ap, ◌∙◌, ◌⊎◌, inl, inr, List, [], ◌∷◌, Option, some, none, first,
  true, false, Bool-cases, arith, ◌++◌,
}
use load_ants.Prelude.Texts.{codes}
use load_ants.Errors.{Result, ok, err, AppError, internal}
use load_ants.Metrics.{dns_query_type_total, dns_request_errors_total, inc, ◌▸◌, ◌▸◌, Metrics}
use load_ants.Proto.{Proto}
use load_ants.Cache.{Moka}
use load_ants.Router.{Patterns, RouteMatch}
use load_ants.Router.Find.{find_match}
use load_ants.Handler.{
  Upstream, RequestHandler, validate_request, check_cache, find_route_match, resolve, route_request,
  handle_request,
}

first-nil : {A : Type 0} (l : List A) → first l ≡ none → l ≡ []
first-nil [] e = refl
first-nil (x ∷ l) e = absurd (cc)

module _ (D : Proto) (M : Moka D) (shuffle : List (D.Record) → List (D.Record)) (P : Patterns)
    (U : Upstream D) where
  open D use {Message, Query, id, queries, is_query, name_text, nx_domain, serv_fail}
  open U use {Manager, forward_to}

  abbrev pub Handler : Type 0
  Handler = RequestHandler D M shuffle P U

  -- The reasons for which a request is answered with an error instead of a message.
  pub data Refused (h : Handler) (request : Message) : Type 0 where
    not_a_query : is_query request ≡ false → Refused h request
    no_question : queries request ≡ [] → Refused h request
    no_route :
        (query : Query) (e : AppError) (m : Metrics)
        → first (queries request) ≡ some query
        → (find_match P h.router (name_text query) m).0 ≡ err e
        → Refused h request

  -- What the request's first question, the cache and the routes have to say.
  abbrev pub counted : Query → Metrics → Metrics
  counted query m = m ▸ inc dns_query_type_total (D.type_text (D.query_type query) ∷ [])

  abbrev pub look_up : Handler → Query → Message → ℕ → Metrics → Option Message × Metrics
  look_up h query request now m = check_cache D M shuffle P U h query request now (counted query m)

  module _ (h : Handler) (request : Message) (now later : ℕ) (m : Metrics) where
    abbrev pub handled : Result Message AppError × (Handler × Metrics)
    handled = handle_request D M shuffle P U h request now later m

    pub handled-not_a_query :
        is_query request ≡ false → handled ≡ (err (internal (codes "Not a query request")), (h, m))
    unfolding handle_request validate_request
    handled-not_a_query e = ground (arith, e)

    pub handled-no_question :
        is_query request ≡ true
        → first (queries request) ≡ none
        → handled ≡ (
          err (internal (codes "Empty query")),
          (h, m ▸ inc dns_request_errors_total (codes "empty_query" ∷ [])),
        )
    unfolding handle_request validate_request
    handled-no_question e f = ground (arith, e, f)

    module _ (query : Query) (asked : is_query request ≡ true)
        (question : first (queries request) ≡ some query) where
      pub handled-hit :
          (response : Message)
          → (look_up h query request now m).0 ≡ some response
          → handled ≡ (ok response, (h, (look_up h query request now m).1))
      unfolding handle_request validate_request
      handled-hit response e = ground (arith, asked, question, e)

      pub handled-miss :
          (look_up h query request now m).0 ≡ none
          → handled
            ≡ route_request D M shuffle P U h query request later (look_up h query request now m).1
      unfolding handle_request validate_request
      handled-miss e = ground (arith, asked, question, e)

    -- What `resolve` gives, as a result.
    abbrev pub resolved :
        Query → RouteMatch → Metrics → Result Message AppError × (Handler × Metrics)
    resolved query route after =
        let (response, s) = resolve D M shuffle P U h query request route later after in
        (ok response, s)

    pub miss-cases :
        (query : Query) (after : Metrics) (r : Result RouteMatch AppError)
        → r ≡ (find_match P h.router (name_text query) after).0
        → ((route : RouteMatch) × (r ≡ ok route)
            × (route_request D M shuffle P U h query request later after
                ≡ resolved query route (find_match P h.router (name_text query) after).1))
          ⊎ ((e : AppError) × (r ≡ err e)
              × ((e' : AppError) × ((route_request D M shuffle P U h query request later after).0
                    ≡ err e'))
              × ((route_request D M shuffle P U h query request later after).1.0 ≡ h))
    unfolding route_request find_route_match
    miss-cases query after (ok route) e = inl (route, refl, ground (arith, e))
    miss-cases query after (err x) e = inr (
      x,
      refl,
      (internal (codes "Route matching failed: " ++ display x), ground (arith, e)),
      ground (arith, e),
    )

    pub asked-Refused :
        (query : Query)
        → is_query request ≡ true
        → first (queries request) ≡ some query
        → (e : AppError) → handled.0 ≡ err e
        → Refused h request × (handled.1.0 ≡ h)
    asked-Refused query a f e k =
        let found = look_up h query request now m in
        elim (Option-cases found.0) [
          | inr (response, l) ↦
              let hit = ap (λ z. z.0) (handled-hit query a f response l) in absurd (cc)
          | inl l ↦
              let miss = handled-miss query a f l in
              elim (miss-cases query found.1 (find_match P h.router (name_text query) found.1).0
                refl) [
                  | inl (route, r, answered) ↦
                      let done = ap (λ z. z.0) (miss ∙ answered) in absurd (cc)
                  | inr (x, r, failed, same) ↦
                      (no_route query x found.1 f r, ap (λ z. z.1.0) miss ∙ same)
                ]
        ]

    -- A request is answered with an error only if it is no query, has no question, or no route is
    -- found for its first question; and then the cache and the upstream are as before.
    pub handle_request-Refused :
        (e : AppError) → handled.0 ≡ err e → Refused h request × (handled.1.0 ≡ h)
    handle_request-Refused e k = elim (Bool-cases (is_query request)) [
      | inr n ↦ (not_a_query n, ap (λ z. z.1.0) (handled-not_a_query n))
      | inl a ↦ elim (Option-cases (first (queries request))) [
        | inl n ↦
            (no_question (first-nil (queries request) n), ap (λ z. z.1.0) (handled-no_question a n))
        | inr (q, f) ↦ asked-Refused q a f e k
      ]
    ]
