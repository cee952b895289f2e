-- ===== src/Config/Listens.antt =====
-- The listen addresses that `Config::validate` of src/config/mod.rs lets through.
use load_ants.Prelude.{◌≡◌, true, Option, none, some, Bool-cases, inl, inr, arith, is_empty}
use load_ants.Prelude.Texts.{Text, codes}
use load_ants.Errors.{ok}
use load_ants.Config.Core.{
  AddrParser, AdminConfig, server_checks, validate_server, validate_admin, validate_socket_addr,
  custom, optional,
}
use load_ants.Config.Validate.{Config, UrlParser, validate, messages, config_checks}
use load_ants.Config.Sound.{Passes, checks-All, custom-ok}
use load_ants.Router.{Patterns}
use load_ants.Upstream.Doh.{Urls}

module _ (V : Urls) (SocketAddr : Type 0) where
  parses-socket_addr :
      (addrs : AddrParser) (text : Text)
      → validate_socket_addr addrs text ≡ ok tt
      → addrs text ≡ true
  unfolding validate_socket_addr
  parses-socket_addr addrs text h = ground (arith, h)

  -- An address that is there parses.
  abbrev pub Parses : AddrParser → Option Text → Type 0
  Parses addrs none = Unit
  Parses addrs (some text) = addrs text ≡ true

  optional-Parses :
      (addrs : AddrParser) (message : Text) (o : Option Text)
      → Passes (optional (λ a. custom message (validate_socket_addr addrs a)) o)
      → Parses addrs o
  optional-Parses addrs message none h = tt
  optional-Parses addrs message (some text) h =
      parses-socket_addr addrs text (custom-ok message (validate_socket_addr addrs text) h)

  abbrev pub listen_of : Option AdminConfig → Option Text
  listen_of none = none
  listen_of (some a) = some a.listen

  admin-Parses :
      (addrs : AddrParser) (o : Option AdminConfig)
      → Passes (optional (validate_admin addrs) o)
      → Parses addrs (listen_of o)
  unfolding validate_admin
  admin-Parses addrs none h = tt
  admin-Parses addrs (some a) h = parses-socket_addr addrs a.listen (
      custom-ok (codes "Invalid admin server listen address format")
        (validate_socket_addr addrs a.listen) h)

  -- Every address that the servers listen on parses.
  pub record Listens (addrs : AddrParser) (config : Config V SocketAddr) : Type 0 where
    pub udp_parses : addrs config.server.listen_udp ≡ true
    pub tcp_parses : addrs config.server.listen_tcp ≡ true
    pub http_parses : Parses addrs config.server.listen_http
    pub admin_parses : Parses addrs (listen_of config.admin)

  messages-Listens :
      (addrs : AddrParser) (urls : UrlParser) (P : Patterns) (config : Config V SocketAddr)
      → Passes (messages V SocketAddr addrs urls P config)
      → Listens addrs config
  unfolding messages validate_server
  messages-Listens addrs urls P config h =
      let passed = checks-All (config_checks V SocketAddr addrs urls P config) h in
      let server = checks-All (server_checks addrs config.server) passed.0 in
      record {
        udp_parses = parses-socket_addr addrs config.server.listen_udp (
            custom-ok (codes "Invalid UDP listen address format")
              (validate_socket_addr addrs config.server.listen_udp) server.0);
        tcp_parses = parses-socket_addr addrs config.server.listen_tcp (
            custom-ok (codes "Invalid TCP listen address format")
              (validate_socket_addr addrs config.server.listen_tcp) server.1.0);
        http_parses =
            optional-Parses addrs (codes "Invalid HTTP listen address format")
              config.server.listen_http server.1.1.0;
        admin_parses = admin-Parses addrs config.admin passed.1.0;
      }

  -- A configuration that passes `validate` has addresses that parse.
  pub validate-Listens :
      (addrs : AddrParser) (urls : UrlParser) (P : Patterns) (config : Config V SocketAddr)
      → validate V SocketAddr addrs urls P config ≡ ok tt
      → Listens addrs config
  unfolding validate
  validate-Listens addrs urls P config h =
      elim (Bool-cases (is_empty (messages V SocketAddr addrs urls P config))) [
        | inl e ↦ messages-Listens addrs urls P config e
        | inr e ↦ absurd (ground (arith, e, h))
      ]
