-- ===== src/Handler/Keeps.antt =====
-- What `handle_request` of src/handler.rs leaves of the state of the upstream manager.
use mathlib.Core.Path.{subst, sym}
use load_ants.Prelude.{ℕ, ◌≡◌, refl, List, some, inl, inr, Option-cases, Bool-cases, first, true}
use load_ants.Prelude.Texts.{Text}
use load_ants.Errors.{Result, ok, err, AppError}
use load_ants.Metrics.{Metrics}
use load_ants.Config.Rule.{action-cases}
use load_ants.Proto.{Proto}
use load_ants.Cache.{Moka}
use load_ants.Router.{Patterns, RouteMatch}
use load_ants.Handler.{find_match, Upstream, respond, resolve, forwarded, handle_forward}
use load_ants.Handler.Spec.{
  miss-cases, handled-miss, handled-hit, handled-no_question, handled-not_a_query, look_up, Handler,
  handled,
}

module _ (D : Proto) (M : Moka D) (shuffle : List (D.Record) → List (D.Record)) (P : Patterns)
    (U : Upstream D) (I : U.Manager → Type 0)
    (keeps : (up : U.Manager) (query : D.Message) (group : Text) (m : Metrics)
      → I up
      → I (U.forward_to up query group m).1.0) where
  open D use {Message, Query, queries, is_query, name_text}

  forwarded-keeps :
      (request : Message) (x : Result Message AppError × (U.Manager × Metrics))
      → I x.1.0
      → I (forwarded D M shuffle P U request x).1.0
  forwarded-keeps request (ok response, (up, m)) h = h
  forwarded-keeps request (err e, (up, m)) h = h

  handle_forward-keeps :
      (h : Handler D M shuffle P U) (request : Message) (route : RouteMatch) (m : Metrics)
      → I h.upstream
      → I (handle_forward D M shuffle P U h request route m).1.0
  unfolding handle_forward
  handle_forward-keeps h request route m i = elim (Option-cases route.target) [
    | inl e ↦ rw e i
    | inr (group, e) ↦ rw e (
        forwarded-keeps request (U.forward_to h.upstream request group m)
          (keeps h.upstream request group m i))
  ]

  respond-keeps :
      (h : Handler D M shuffle P U) (request : Message) (route : RouteMatch) (m : Metrics)
      → I h.upstream
      → I (respond D M shuffle P U h request route m).1.0
  unfolding respond handle_forward
  respond-keeps h request route m i = elim (action-cases route.action) [
    | inl e ↦ rw e (handle_forward-keeps h request route m i)
    | inr e ↦ rw e i
  ]

  resolve-keeps :
      (h : Handler D M shuffle P U) (query : Query) (request : Message) (route : RouteMatch)
      (later : ℕ) (m : Metrics)
      → I h.upstream
      → I (resolve D M shuffle P U h query request route later m).1.0.upstream
  unfolding resolve
  resolve-keeps h query request route later m i = respond-keeps h request route m i

  module _ (h : Handler D M shuffle P U) (request : Message) (now later : ℕ) (m : Metrics)
      (i : I h.upstream) where
    -- What holds of the manager of a handler that is left.
    abbrev Left : Result Message AppError × (Handler D M shuffle P U × Metrics) → Type 0
    Left out = I out.1.0.upstream

    asked-keeps :
        (query : Query)
        → is_query request ≡ true
        → first (queries request) ≡ some query
        → Left (handled D M shuffle P U h request now later m)
    asked-keeps query a f =
        let found = look_up D M shuffle P U h query request now m in
        elim (Option-cases found.0) [
          | inr (r, l) ↦
              subst Left (sym (handled-hit D M shuffle P U h request now later m query a f r l)) i
          | inl l ↦
              subst Left (sym (handled-miss D M shuffle P U h request now later m query a f l))
                (elim (miss-cases D M shuffle P U h request now later m query found.1
                  (find_match P h.router (name_text query) found.1).0 refl) [
                    | inl (route, r, answered) ↦
                        subst Left (sym answered) (resolve-keeps h query request route later _ i)
                    | inr (x, r, failed, same) ↦
                        subst (λ (k : Handler D M shuffle P U). I k.upstream) (sym same) i
                  ])
        ]

    -- Whatever the upstream manager keeps over each query that it forwards, the handler keeps over
    -- each request.
    pub handle_request-keeps : Left (handled D M shuffle P U h request now later m)
    handle_request-keeps = elim (Bool-cases (is_query request)) [
      | inr n ↦ subst Left (sym (handled-not_a_query D M shuffle P U h request now later m n)) i
      | inl a ↦ elim (Option-cases (first (queries request))) [
        | inl n ↦ subst Left (sym (handled-no_question D M shuffle P U h request now later m a n)) i
        | inr (q, f) ↦ asked-keeps q a f
      ]
    ]
