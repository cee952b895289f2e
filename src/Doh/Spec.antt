-- ===== src/Doh/Spec.antt =====
-- What the handlers of src/doh/handlers.rs answer, and what they count.
use load_ants.Prelude.Maybe.{unwrap_or}
use load_ants.Prelude.{ℕ, ◌≡◌, refl, ◌⊎◌, inl, inr, List, [], ◌∷◌, Option, none, some, Bool-cases}
use load_ants.Prelude.Texts.{Text, decimal, text_eq, text_eq_refl}
use load_ants.Errors.{Result, ok, err, AppError}
use load_ants.Metrics.{
  Metrics, Event, ◌▸◌, inc, timed, http_requests_total, http_request_errors_total,
  http_request_duration_seconds,
}
use load_ants.Proto.{Proto}
use load_ants.Proto.Wire.{Wire}
use load_ants.Cache.{Moka}
use load_ants.Router.{Patterns}
use load_ants.Handler.{Upstream, handle_request}
use load_ants.Handler.Spec.{Handler}
use load_ants.Upstream.Json.{Json}
use load_ants.Doh.Handlers.{
  json_reply, processed, Response, no_body, DohHandlerError, DohJsonGetParams, record_doh_metrics,
  dns_message, State, Outcome, process_dns_message, binary, encoded, succeed, ok_bytes, formatted,
  handle_parsed, get_outcome, post_outcome, json_outcome, json_named, json_typed, into_response,
  handle_doh_get, handle_doh_post, handle_json_get, is_bad_name,
}

-- The statuses of a failure.
abbrev pub IsFailure : ℕ → Type 0
IsFailure status = (status ≡ 400) ⊎ ((status ≡ 415) ⊎ (status ≡ 500))

module _ (D : Proto) (W : Wire D) (J : Json) (M : Moka D)
    (shuffle : List (D.Record) → List (D.Record)) (P : Patterns) (U : Upstream D) where
  open D use {Message}
  open J use {Value}

  abbrev pub Reply : Type 0
  Reply = Response Value × State D W J M shuffle P U

  -- The last two updates of the metrics count the request under its status and time a success or count
  -- the kind of a failure.
  abbrev pub Counted : ℕ → Metrics → Event → Type 0
  Counted status m last =
      (before : Metrics) × (m ≡ before ▸ inc http_requests_total (decimal status ∷ []) ▸ last)

  -- Either a success with its duration, or a failure without a body and with its kind.
  abbrev pub Reported : Reply → Type 0
  Reported (r, (h, m)) =
      ((r.status ≡ 200)
        × (type : Text) × Counted 200 m
            (timed http_request_duration_seconds (type ∷ decimal 200 ∷ [])))
      ⊎ (IsFailure r.status
          × (r.body ≡ no_body)
          × (kind : Text) × Counted r.status m (inc http_request_errors_total (kind ∷ [])))

  -- The same before the failure is recorded.
  abbrev Ready : Outcome D W J M shuffle P U → Type 0
  Ready (ok r, (h, m)) =
      (r.status ≡ 200)
      × (type : Text) × Counted 200 m
          (timed http_request_duration_seconds (type ∷ decimal 200 ∷ []))
  Ready (err e, s) = IsFailure e.status

  into_response-Reported :
      (o : Outcome D W J M shuffle P U) → Ready o → Reported (into_response D W J M shuffle P U o)
  unfolding record_doh_metrics
  into_response-Reported (ok r, (h, m)) ready = inl ready
  into_response-Reported (err e, (h, m)) ready = inr (ready, refl, e.error_type, (m, refl))

  succeed-Ready :
      (type : Text) (r : Response Value) (s : State D W J M shuffle P U)
      → r.status ≡ 200
      → Ready (succeed D W J M shuffle P U type r s)
  unfolding record_doh_metrics
  succeed-Ready type r (h, m) e = (e, type, (m, refl))

  -- What `process_dns_message` fails with.
  abbrev Processed : Result Message DohHandlerError × State D W J M shuffle P U → Type 0
  Processed (ok response, s) = Unit
  Processed (err e, s) = IsFailure e.status

  processed-Processed :
      (type : Text) (x : Result Message AppError × State D W J M shuffle P U)
      → Processed (processed D W J M shuffle P U type x)
  processed-Processed type (ok response, s) = tt
  processed-Processed type (err e, s) = inr (inr refl)

  process-Processed :
      (h : Handler D M shuffle P U) (message : Message) (type : Text) (now later : ℕ) (m : Metrics)
      → Processed (process_dns_message D W J M shuffle P U h message type now later m)
  unfolding process_dns_message
  process-Processed h message type now later m =
      processed-Processed type (handle_request D M shuffle P U h message now later m)

  encoded-Ready :
      (type : Text) (r : Result (List ℕ) Text) (s : State D W J M shuffle P U)
      → Ready (encoded D W J M shuffle P U type r s)
  encoded-Ready type (err e) s = inr (inr refl)
  encoded-Ready type (ok b) s = succeed-Ready type (ok_bytes D W J M shuffle P U b) s refl

  binary-Ready :
      (type : Text) (x : Result Message DohHandlerError × State D W J M shuffle P U)
      → Processed x
      → Ready (binary D W J M shuffle P U type x)
  binary-Ready type (err e, s) p = p
  binary-Ready type (ok response, s) p = encoded-Ready type (W.emit response) s

  formatted-Ready :
      (ct : Option Text) (type : Text)
      (x : Result Message DohHandlerError × State D W J M shuffle P U)
      → Processed x
      → Ready (formatted D W J M shuffle P U ct type x)
  formatted-Ready ct type (err e, s) p = p
  formatted-Ready ct type (ok response, s) p =
      elim (Bool-cases (text_eq (unwrap_or [] ct) dns_message)) [
        | inl e ↦ rw e (encoded-Ready type (W.emit response) s)
        | inr e ↦ rw e (succeed-Ready type (json_reply D W J M shuffle P U response) s refl)
      ]

  handle_parsed-Ready :
      (h : Handler D M shuffle P U) (r : Result Message Text) (now later : ℕ) (m : Metrics)
      → Ready (handle_parsed D W J M shuffle P U h r now later m)
  handle_parsed-Ready h (err e) now later m = inl refl
  handle_parsed-Ready h (ok message) now later m =
      binary-Ready _ _ (process-Processed h message _ now later m)

  get_outcome-Ready :
      (h : Handler D M shuffle P U) (o : Option (List ℕ)) (now later : ℕ) (m : Metrics)
      → Ready (get_outcome D W J M shuffle P U h o now later m)
  get_outcome-Ready h none now later m = inl refl
  get_outcome-Ready h (some b) now later m = handle_parsed-Ready h (W.from_vec b) now later m

  post_outcome-Ready :
      (h : Handler D M shuffle P U) (o : Option Text) (b : List ℕ) (now later : ℕ) (m : Metrics)
      → Ready (post_outcome D W J M shuffle P U h o b now later m)
  post_outcome-Ready h none b now later m = inl refl
  post_outcome-Ready h (some t) b now later m = elim (Bool-cases (text_eq t dns_message)) [
    | inl e ↦ rw e (handle_parsed-Ready h (W.from_vec b) now later m)
    | inr e ↦ rw e (inr (inl refl))
  ]

  json_named-Ready :
      (h : Handler D M shuffle P U) (params : DohJsonGetParams) (type : D.RecordType)
      (o : Option W.Name) (now later : ℕ) (m : Metrics)
      → Ready (json_named D W J M shuffle P U h params type o now later m)
  json_named-Ready h params type none now later m = inl refl
  json_named-Ready h params type (some name) now later m =
      formatted-Ready params.ct _ _ (process-Processed h _ _ now later m)

  json_typed-Ready :
      (h : Handler D M shuffle P U) (params : DohJsonGetParams) (o : Option D.RecordType)
      (now later : ℕ) (m : Metrics)
      → Ready (json_typed D W J M shuffle P U h params o now later m)
  json_typed-Ready h params none now later m = inl refl
  json_typed-Ready h params (some type) now later m =
      json_named-Ready h params type (W.from_ascii params.name) now later m

  json_outcome-Ready :
      (h : Handler D M shuffle P U) (params : DohJsonGetParams) (now later : ℕ) (m : Metrics)
      → Ready (json_outcome D W J M shuffle P U h params now later m)
  json_outcome-Ready h params now later m =
      elim (Bool-cases (is_bad_name D W J M shuffle P U params.name)) [
        | inl e ↦ rw e (inl refl)
        | inr e ↦ rw e (json_typed-Ready h params _ now later m)
      ]

  -- Each of the three handlers answers with 200, or with 400, 415 or 500 and no body, and its last two
  -- updates count the request once under that status and either time it or count the kind of failure.
  pub handlers-Reported :
      (h : Handler D M shuffle P U) (dns : Text) (content_type : Option Text) (b : List ℕ)
      (params : DohJsonGetParams) (now later : ℕ) (m : Metrics)
      → Reported (handle_doh_get D W J M shuffle P U h dns now later m)
        × Reported (handle_doh_post D W J M shuffle P U h content_type b now later m)
        × Reported (handle_json_get D W J M shuffle P U h params now later m)
  unfolding handle_doh_get handle_doh_post handle_json_get
  handlers-Reported h dns content_type b params now later m = (
    into_response-Reported _ (get_outcome-Ready h (W.decode dns) now later m),
    into_response-Reported _ (post_outcome-Ready h content_type b now later m),
    into_response-Reported _ (json_outcome-Ready h params now later m),
  )

  -- A GET of the base64 form of some bytes is answered as a POST of the bytes as a DNS message is.
  pub handle_doh_get-eq-handle_doh_post :
      (h : Handler D M shuffle P U) (dns : Text) (b : List ℕ) (now later : ℕ) (m : Metrics)
      → W.decode dns ≡ some b
      → handle_doh_get D W J M shuffle P U h dns now later m
        ≡ handle_doh_post D W J M shuffle P U h (some dns_message) b now later m
  unfolding handle_doh_get handle_doh_post
  handle_doh_get-eq-handle_doh_post h dns b now later m e =
      rw e (rw (text_eq_refl dns_message) refl)
