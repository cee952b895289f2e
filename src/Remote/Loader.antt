-- ===== src/Remote/Loader.antt =====
-- src/remote_rule/loader.rs, and the remote rules of src/config/rule.rs.
use load_ants.Prelude.{
  ℕ, List, [], ◌∷◌, ◌++◌, Option, none, some, not, is_empty, ltb, if◌then◌else◌,
}
use load_ants.Prelude.Texts.{decimal, Text, codes, utf8_len}
use load_ants.Errors.{Result, ok, err, ◌>>=◌, map_err, AppError, upstream, http, http_error}
use load_ants.Config.Rule.{MatchType, exact, wildcard, regex, RouteAction, RouteRuleConfig}
use load_ants.Config.Upstream.{AuthConfig, basic, bearer, RetryConfig}
use load_ants.Http.{
  Http, HttpClientConfig, RetryPolicy, ClientWithMiddleware, RequestBuilder, RequestPart,
  basic_auth, bearer_auth, add_part, get_method, is_success, from_send_error,
}
use load_ants.Upstream.HttpClient.{parse_proxy, client_settings, with_retry}
use load_ants.Remote.Parser.{ParsedRule, parse_v2ray}

pub data RuleFormat : Type 0 where
  v2ray : RuleFormat

pub data RemoteRuleType : Type 0 where
  url_type : RemoteRuleType

pub record RemoteRuleConfig : Type 0 where
  pub type : RemoteRuleType
  pub url : Text
  pub auth : Option AuthConfig
  pub format : RuleFormat
  pub action : RouteAction
  pub target : Option Text
  pub retry : Option RetryConfig
  pub proxy : Option Text
  pub max_size : ℕ

pub record RemoteRuleLoader (Client : Type 0) : Type 0 where
  pub client : ClientWithMiddleware Client
  pub config : RemoteRuleConfig
  pub parser : Text → Result (List ParsedRule) AppError

-- The parser of a format.
abbrev pub parser_for : RuleFormat → Text → Result (List ParsedRule) AppError
parser_for v2ray content = parse_v2ray content

-- `unwrap_or("")`
abbrev or_empty : Option Text → Text
or_empty none = []
or_empty (some s) = s

abbrev pub auth_part : AuthConfig → RequestPart
auth_part auth = elim auth.type [
  | basic ↦ basic_auth (or_empty auth.username) (some (or_empty auth.password))
  | bearer ↦ bearer_auth (or_empty auth.token)
]

-- The policy that `create_http_client` makes of the retry configuration.
abbrev pub backoff : RetryConfig → RetryPolicy
backoff retry = record {
  min_retry_interval = retry.delay;
  max_retry_interval = 120;
  base = 2;
  max_n_retries = retry.attempts;
}

-- The patterns of the three groups.
pub record Groups : Type 0 where
  pub exact_patterns : List Text
  pub wildcard_patterns : List Text
  pub regex_patterns : List Text

-- One round of the loop that groups the parsed rules.
abbrev pub push_pattern : Groups → ParsedRule → Groups
push_pattern g (p, exact) = record g { exact_patterns = g.exact_patterns ++ p ∷ [] }
push_pattern g (p, wildcard) = record g { wildcard_patterns = g.wildcard_patterns ++ p ∷ [] }
push_pattern g (p, regex) = record g { regex_patterns = g.regex_patterns ++ p ∷ [] }

unfoldable pub group_patterns : Groups → List ParsedRule → Groups
group_patterns g [] = g
group_patterns g (r ∷ rs) = group_patterns (push_pattern g r) rs

abbrev pub no_groups : Groups
no_groups = record { exact_patterns = []; wildcard_patterns = []; regex_patterns = [] }

-- A rule of one match type, if it has patterns.
abbrev pub push_rule :
    RemoteRuleConfig → MatchType → List Text → List RouteRuleConfig → List RouteRuleConfig
push_rule config t patterns rules =
    if is_empty patterns
    then rules
    else rules
      ++ record {
        match_type = t;
        patterns = patterns;
        action = config.action;
        target = config.target;
      }
        ∷ []

unfoldable pub route_rules : RemoteRuleConfig → List ParsedRule → List RouteRuleConfig
route_rules config parsed =
    let g = group_patterns no_groups parsed in
    push_rule config regex g.regex_patterns
      (push_rule config wildcard g.wildcard_patterns (push_rule config exact g.exact_patterns []))

module _ (H : Http) where
  open H use {Client, build, send, status_text}

  unfoldable pub create_http_client :
      HttpClientConfig
      → Option Text
      → Option RetryConfig
      → Result (ClientWithMiddleware Client) AppError
  create_http_client config proxy retry = do
    p ← parse_proxy H proxy
    c ←
        map_err (λ e. http_error (codes "Failed to create HTTP client: " ++ e))
          (build (client_settings H config p))
    ok (with_retry H backoff retry c)

  -- `RemoteRuleLoader::new`
  unfoldable pub new_loader :
      RemoteRuleConfig → HttpClientConfig → Result (RemoteRuleLoader Client) AppError
  new_loader config http_config = do
    client ← create_http_client http_config config.proxy config.retry
    ok (record { client = client; config = config; parser = parser_for config.format })

  abbrev pub request_of : RemoteRuleLoader Client → RequestBuilder Client
  request_of l =
      let request : RequestBuilder Client = record {
        client = l.client;
        method = get_method;
        url = l.config.url;
        parts = [];
      } in
      elim l.config.auth [ none ↦ request | some auth ↦ add_part request (auth_part auth) ]

  abbrev pub oversized : ℕ → ℕ → AppError
  oversized size limit = upstream (
      codes "Remote rule file size ("
      ++ decimal size
      ++ codes " bytes) exceeds configured limit ("
      ++ decimal limit
      ++ codes " bytes)")

  -- `RemoteRuleLoader::load`
  unfoldable pub load : RemoteRuleLoader Client → Result (List RouteRuleConfig) AppError
  load l = do
    response ← map_err from_send_error (send (request_of l))
    content ←
        (if not (is_success response.status)
          then err (
              upstream
                (codes "Failed to fetch remote rules, status: " ++ status_text response.status))
          else map_err http response.text)
    parsed ←
        (if ltb l.config.max_size (utf8_len content)
          then err (oversized (utf8_len content) l.config.max_size)
          else l.parser content)
    ok (route_rules l.config parsed)
