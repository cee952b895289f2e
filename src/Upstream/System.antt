-- ===== src/Upstream/System.antt =====
-- The request handler of src/handler.rs over the upstream manager of src/upstream/manager.rs.
use load_ants.Prelude.{ℕ, ◌≡◌, List, Option, none, some, All}
use load_ants.Errors.{Result, ok, AppError}
use load_ants.Metrics.{Metrics}
use load_ants.Config.Core.{DnsClientConfig}
use load_ants.Config.Upstream.{UpstreamGroupConfig, validate_group_scheme}
use load_ants.Balancer.Select.{Chooses}
use load_ants.Http.{Http, HttpClientConfig}
use load_ants.Cache.{Moka}
use load_ants.Router.{Patterns}
use load_ants.Handler.Spec.{Handler, handled}
use load_ants.Handler.Keeps.{handle_request-keeps}
use load_ants.Upstream.DnsClient.{Connector}
use load_ants.Upstream.Doh.{Urls}
use load_ants.Upstream.Json.{Json}
use load_ants.Upstream.Manager.{new}
use load_ants.Upstream.Manager.Forward.{Manager, Server, forward}
use load_ants.Upstream.Manager.Valid.{IsValid, Keeps, forward-Keeps, new-IsValid}
use load_ants.Upstream.Service.{service, answered}
use load_ants.Proto.{Proto}
use load_ants.Proto.Wire.{Wire}

module _ (D : Proto) (W : Wire D) (J : Json) (H : Http) (V : Urls) (N : Connector D)
    (choose : List (Server D W J H V N) → Option (Server D W J H V N)) (chooses : Chooses choose)
    (moka : Moka D) (shuffle : List D.Record → List D.Record) (P : Patterns) where
  open D use {Message}

  answered-IsValid :
      (M : Manager D W J H V N) (m : Metrics)
      (o : Option (Result Message AppError × (Manager D W J H V N × Metrics)))
      → Keeps D W J H V N choose chooses o
      → IsValid D W J H V N choose chooses (answered D W J H V N choose M m o).1.0
  answered-IsValid M m none k = absurd k
  answered-IsValid M m (some (r, (next, after))) k = k

  abbrev pub System : Type 0
  System = Handler D moka shuffle P (service D W J H V N choose)

  -- A request of any kind, on any branch, leaves a valid manager valid.
  pub request-IsValid :
      (h : System) (request : Message) (now later : ℕ) (m : Metrics)
      → IsValid D W J H V N choose chooses h.upstream
      → IsValid D W J H V N choose chooses
          (handled D moka shuffle P (service D W J H V N choose) h request now later m).1.0.upstream
  request-IsValid h request now later m v =
      handle_request-keeps D moka shuffle P (service D W J H V N choose)
        (IsValid D W J H V N choose chooses)
        (λ M query g after i.
          answered-IsValid M after (forward D W J H V N choose M query g after)
            (forward-Keeps D W J H V N choose chooses M query g after i))
        h request now later m v

  -- A system that has handled any number of requests since it was made of its groups.
  pub data Reach (h : System) : System → Type 0 where
    start : Reach h h
    request :
        {k : System} (message : Message) (now later : ℕ) (m : Metrics)
        → Reach h k
        → Reach h (handled D moka shuffle P (service D W J H V N choose) k message now later m).1.0

  Reach-IsValid :
      {h k : System}
      → Reach h k
      → IsValid D W J H V N choose chooses h.upstream
      → IsValid D W J H V N choose chooses k.upstream
  Reach-IsValid start v = v
  Reach-IsValid (request {k = k} message now later m r) v =
      request-IsValid k message now later m (Reach-IsValid r v)

  -- If the groups pass the check of their scheme and the manager is made, then after any requests
  -- every group still has a scheme, servers of that scheme behind a balancer in order, and a client if
  -- it needs one.
  pub Reach-new-IsValid :
      (groups : List (UpstreamGroupConfig V.Url N.SocketAddr)) (http_config : HttpClientConfig)
      (dns_config : DnsClientConfig) (h k : System)
      → All (λ group. validate_group_scheme group ≡ ok tt) groups
      → new D W J H V N groups http_config dns_config ≡ ok h.upstream
      → Reach h k
      → IsValid D W J H V N choose chooses k.upstream
  Reach-new-IsValid groups http_config dns_config h k fits made r =
      Reach-IsValid r
        (new-IsValid D W J H V N choose chooses groups http_config dns_config h.upstream fits made)
