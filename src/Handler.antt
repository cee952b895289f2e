-- ===== src/Handler.antt =====
-- src/handler.rs. The upstream manager stands behind an interface, with a state of its own; the
-- cache is given the instants of the look-up and of the insertion.
pub mod Response
pub mod Spec
pub mod Answer
pub mod Keeps
pub mod Tests
use load_ants.Prelude.{
  ℕ, Bool, true, false, not, List, [], ◌∷◌, ◌++◌, Option, none, some, is_empty, first,
  if◌then◌else◌,
}
use load_ants.Prelude.Texts.{Text, codes}
use load_ants.Errors.{Result, ok, err, AppError, internal}
use load_ants.Errors.Display.{display}
use load_ants.Metrics.{
  Metrics, ◌▸◌, inc, timed, dns_query_type_total, dns_request_errors_total,
  dns_request_duration_seconds, cache_operations_total, cache_entries,
}
use load_ants.Metrics
use load_ants.Config.Rule.{forward, block}
use load_ants.Router.{Patterns, Router, RouteMatch}
use load_ants.Router.Find.{find_match}
use load_ants.Proto.{Proto}
use load_ants.Cache.{Moka, DnsCache, get, insert_response, is_enabled, len}

-- `UpstreamManager::forward`
pub record Upstream (D : Proto) : Type 1 where
  pub Manager : Type 0
  pub forward_to :
      Manager → D.Message → Text → Metrics → Result (D.Message) AppError × (Manager × Metrics)

module _ (D : Proto) (M : Moka D) (shuffle : List (D.Record) → List (D.Record)) (P : Patterns)
    (U : Upstream D) where
  open D use {
    Message, Query, ResponseCode, new_message, set_id, id, set_response, set_op_code, op_code,
    recursion_desired, set_recursion_desired, set_recursion_available, set_response_code, add_query,
    queries, is_query, name_text, query_type, type_text, nx_domain, serv_fail,
  }
  open P use {Regex}
  open U use {Manager, forward_to}

  pub record RequestHandler : Type 0 where
    pub cache : DnsCache D M
    pub router : Router Regex
    pub upstream : Manager

  -- `for query in request.queries() { response.add_query(query.clone()) }`
  unfoldable pub add_queries : List Query → Message → Message
  add_queries [] response = response
  add_queries (q ∷ qs) response = add_queries qs (add_query q response)

  -- It always succeeds, so its result is the message.
  unfoldable pub create_error_response : Message → ResponseCode → Message
  create_error_response request code =
      let response = set_id (id request) new_message in
      let response = set_response response in
      let response = set_op_code (op_code request) response in
      let response = set_recursion_desired (recursion_desired request) response in
      let response = set_recursion_available true response in
      let response = set_response_code code response in add_queries (queries request) response

  unfoldable pub validate_request : Message → Metrics → Result Query AppError × Metrics
  validate_request request m =
      if not (is_query request)
      then (err (internal (codes "Not a query request")), m)
      else elim (first (queries request)) [
        | some q ↦ (ok q, m)
        | none ↦ (
          err (internal (codes "Empty query")),
          m ▸ inc dns_request_errors_total (codes "empty_query" ∷ []),
        )
      ]

  abbrev pub cached : Query → Message → Option Message × Metrics → Option Message × Metrics
  cached query request (some response, m) = (
    some (set_id (id request) response),
    m ▸ timed dns_request_duration_seconds (codes "cached" ∷ type_text (query_type query) ∷ []),
  )
  cached query request (none, m) = (none, m ▸ inc cache_operations_total (codes "miss" ∷ []))

  unfoldable pub check_cache :
      RequestHandler → Query → Message → ℕ → Metrics → Option Message × Metrics
  check_cache h query request now m =
      if not (is_enabled D M shuffle h.cache)
      then (none, m)
      else if is_empty (queries request)
      then (none, m)
      else cached query request (get D M shuffle h.cache request now m)

  unfoldable pub find_route_match :
      RequestHandler → Query → Metrics → Result RouteMatch AppError × Metrics
  find_route_match h query m =
      let (r, m) = find_match P h.router (name_text query) m in
      elim r [
        | ok route ↦ (ok route, m)
        | err e ↦ (
          err (internal (codes "Route matching failed: " ++ display e)),
          m ▸ inc dns_request_errors_total (codes "route_error" ∷ []),
        )
      ]

  -- What is made of the answer of the upstream manager.
  abbrev pub forwarded :
      Message → Result Message AppError × (Manager × Metrics) → Message × (Manager × Metrics)
  forwarded request (ok response, (up, m)) = (response, (up, m))
  forwarded request (err e, (up, m)) = (
    create_error_response request serv_fail,
    (up, m ▸ inc dns_request_errors_total (codes "upstream_error" ∷ [])),
  )

  unfoldable pub handle_forward :
      RequestHandler → Message → RouteMatch → Metrics → Message × (Manager × Metrics)
  handle_forward h request route m = elim route.target [
    | none ↦ (
      create_error_response request serv_fail,
      (h.upstream, m ▸ inc dns_request_errors_total (codes "missing_target" ∷ [])),
    )
    | some group ↦ forwarded request (forward_to h.upstream request group m)
  ]

  -- The response under the action of a route.
  unfoldable pub respond :
      RequestHandler → Message → RouteMatch → Metrics → Message × (Manager × Metrics)
  respond h request route m = elim route.action [
    | forward ↦ handle_forward h request route m
    | block ↦ (create_error_response request nx_domain, (h.upstream, m))
  ]

  -- An error of the insertion is only logged.
  unfoldable pub cache_response :
      DnsCache D M → Message → Message → ℕ → Metrics → DnsCache D M × Metrics
  cache_response cache request response now m =
      if not (is_enabled D M shuffle cache)
      then (cache, m)
      else let (r, s) = insert_response D M shuffle cache request response now m in
        let (c, m) = s in (c, m ▸ Metrics.set cache_entries [] (len D M shuffle c))

  -- The rest of `handle_request`, once there is a route.
  unfoldable pub resolve :
      RequestHandler
      → Query
      → Message
      → RouteMatch
      → ℕ
      → Metrics
      → Message × (RequestHandler × Metrics)
  resolve h query request route later m =
      let (response, s) = respond h request route m in
      let (up, m) = s in
      let (c, m) = cache_response h.cache request response later m in
      (
        response,
        (
          record h { cache = c; upstream = up },
          m
              ▸ timed dns_request_duration_seconds
                  (codes "resolved" ∷ type_text (query_type query) ∷ []),
        ),
      )

  -- After the cache had nothing.
  unfoldable pub route_request :
      RequestHandler
      → Query
      → Message
      → ℕ
      → Metrics
      → Result Message AppError × (RequestHandler × Metrics)
  route_request h query request later m =
      let (r, m) = find_route_match h query m in
      elim r [
        | err e ↦ (err e, (h, m))
        | ok route ↦ let (response, s) = resolve h query request route later m in (ok response, s)
      ]

  -- `RequestHandler::handle_request`
  unfoldable pub handle_request :
      RequestHandler
      → Message
      → ℕ
      → ℕ
      → Metrics
      → Result Message AppError × (RequestHandler × Metrics)
  handle_request h request now later m =
      let (v, m) = validate_request request m in
      elim v [
        | err e ↦ (err e, (h, m))
        | ok query ↦
            let m = m ▸ inc dns_query_type_total (type_text (query_type query) ∷ []) in
            let (hit, m) = check_cache h query request now m in
            elim hit [
              | some response ↦ (ok response, (h, m))
              | none ↦ route_request h query request later m
            ]
      ]
