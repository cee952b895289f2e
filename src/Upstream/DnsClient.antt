-- ===== src/Upstream/DnsClient.antt =====
-- src/upstream/dns_client.rs. The connections come from hickory-resolver, a parameter; how long an
-- attempt took is not kept.
pub mod Sends
use load_ants.Prelude.{ℕ, Bool, false, not, List, [], ◌∷◌, ◌++◌, Option, none, some, if◌then◌else◌}
use load_ants.Prelude.Texts.{Text, codes}
use load_ants.Errors.{Result, ok, err, ◌>>=◌, map_err, AppError, upstream, timeout}
use load_ants.Proto.{Proto}
use load_ants.Proto.Wire.{Wire}
use load_ants.Config.Core.{DnsClientConfig}

pub data DnsTransport : Type 0 where
  udp tcp : DnsTransport

pub record DnsClientAttempt : Type 0 where
  pub transport : DnsTransport
  pub truncated : Bool

pub record DnsClientResponse (Message : Type 0) : Type 0 where
  pub message : Message
  pub attempts : List DnsClientAttempt

pub record DnsClientSendError : Type 0 where
  pub error : AppError
  pub attempts : List DnsClientAttempt

-- `DnsRequest` with the `DnsRequestOptions` that are set
pub record DnsRequest (Message : Type 0) : Type 0 where
  pub message : Message
  pub use_edns : Bool
  pub recursion_desired : Bool

-- A connection that is being made is a future; `time::timeout` gives nothing when the seconds have
-- passed first. The first item of the stream of answers is there or not.
pub record Connector (D : Proto) : Type 1 where
  pub SocketAddr : Type 0
  pub addr_eq : SocketAddr → SocketAddr → Bool
  pub ip_text : SocketAddr → Text
  pub Connection : Type 0
  pub Future : Type 0
  pub new_connection : SocketAddr → DnsTransport → ℕ → Future
  pub await : Future → Result Connection Text
  pub timeout : ℕ → Future → Option (Result Connection Text)
  pub send : Connection → DnsRequest (D.Message) → Option (Result (D.Message) Text)

module _ (D : Proto) (W : Wire D) (N : Connector D) where
  open D use {Message, recursion_desired, truncated}
  open W use {has_extensions}
  open N use {SocketAddr, addr_eq, Connection, new_connection, await, send}

  pub record DnsClient : Type 0 where
    pub config : DnsClientConfig
    -- `opts.timeout`, in seconds
    pub opts : ℕ
    pub tcp_conns : SocketAddr → Option Connection

  unfoldable pub new : DnsClientConfig → DnsClient
  new config = record { config = config; opts = config.request_timeout; tcp_conns = λ addr. none }

  abbrev pub insert_conn : SocketAddr → Connection → DnsClient → DnsClient
  insert_conn addr conn c = record c {
    tcp_conns = λ b. if addr_eq addr b then some conn else c.tcp_conns b;
  }

  abbrev pub remove_conn : SocketAddr → DnsClient → DnsClient
  remove_conn addr c = record c { tcp_conns = λ b. if addr_eq addr b then none else c.tcp_conns b }

  abbrev or_timeout : Option (Result Connection Text) → Result (Result Connection Text) AppError
  or_timeout none = err timeout
  or_timeout (some r) = ok r

  -- `DnsClient::connect`; a connection for TCP is waited for no longer than the configuration says.
  unfoldable pub connect : DnsClient → SocketAddr → DnsTransport → Result Connection AppError
  connect c addr udp = map_err upstream (await (new_connection addr udp c.opts))
  connect c addr tcp = do
    r ← or_timeout (N.timeout c.config.connect_timeout (new_connection addr tcp c.opts))
    map_err upstream r

  abbrev pub first_answer : Option (Result Message Text) → Result Message AppError
  first_answer none = err (upstream (codes "empty response stream"))
  first_answer (some r) = map_err upstream r

  unfoldable pub send_with_conn : Connection → Message → Result Message AppError
  send_with_conn conn message = first_answer (
      send conn (record {
        message = message;
        use_edns = has_extensions message;
        recursion_desired = recursion_desired message;
      }))

  unfoldable pub send_udp : DnsClient → SocketAddr → Message → Result Message AppError
  send_udp c addr message = connect c addr udp >>= λ conn. send_with_conn conn message

  -- What is left of the connections after a request over one of them.
  abbrev pub after_send : DnsClient → SocketAddr → Result Message AppError → DnsClient
  after_send c addr (ok response) = c
  after_send c addr (err e) = if c.config.tcp_reconnect then remove_conn addr c else c

  abbrev pub send_over :
      DnsClient → SocketAddr → Message → Connection → Result Message AppError × DnsClient
  send_over c addr message conn =
      let result = send_with_conn conn message in (result, after_send c addr result)

  -- With the connection that was made, if one was.
  abbrev pub connected :
      DnsClient
      → SocketAddr
      → Message
      → Result Connection AppError
      → Result Message AppError × DnsClient
  connected c addr message (err e) = (err e, c)
  connected c addr message (ok conn) = send_over (insert_conn addr conn c) addr message conn

  abbrev pub with_conn :
      DnsClient → SocketAddr → Message → Option Connection → Result Message AppError × DnsClient
  with_conn c addr message (some conn) = send_over c addr message conn
  with_conn c addr message none = connected c addr message (connect c addr tcp)

  unfoldable pub send_tcp : DnsClient → SocketAddr → Message → Result Message AppError × DnsClient
  send_tcp c addr message = with_conn c addr message (c.tcp_conns addr)

  -- One more attempt at the end of those made, and what the client gives then.
  abbrev pub attempted :
      DnsTransport
      → List DnsClientAttempt
      → Result Message AppError
      → Result (DnsClientResponse Message) DnsClientSendError
  attempted t attempts (ok response) = ok (record {
    message = response;
    attempts = attempts ++ record { transport = t; truncated = truncated response } ∷ [];
  })
  attempted t attempts (err e) = err (record {
    error = e;
    attempts = attempts ++ record { transport = t; truncated = false } ∷ [];
  })

  abbrev pub over_tcp :
      DnsClient
      → SocketAddr
      → Message
      → List DnsClientAttempt
      → Result (DnsClientResponse Message) DnsClientSendError × DnsClient
  over_tcp c addr message attempts =
      let (result, c) = send_tcp c addr message in (attempted tcp attempts result, c)

  -- After the attempt over UDP.
  abbrev pub after_udp :
      DnsClient
      → SocketAddr
      → Message
      → Result (DnsClientResponse Message) DnsClientSendError
      → Result (DnsClientResponse Message) DnsClientSendError × DnsClient
  after_udp c addr message (err e) = (err e, c)
  after_udp c addr message (ok response) =
      if not (truncated response.message)
      then (ok response, c)
      else over_tcp c addr message response.attempts

  unfoldable pub send_to :
      DnsClient
      → SocketAddr
      → Message
      → Result (DnsClientResponse Message) DnsClientSendError × DnsClient
  send_to c addr message =
      if c.config.prefer_tcp
      then over_tcp c addr message []
      else after_udp c addr message (attempted udp [] (send_udp c addr message))
