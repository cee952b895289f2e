-- ===== src/Admin.antt =====
-- src/admin.rs: the admin server, and its handler that empties the cache. The cache is shared with the
-- request handler: what the handler below gives back is the cache of both. The routes and the listener
-- are left out.
pub mod Refresh
pub mod Tests
use load_ants.Prelude.{ℕ, Bool, true, false, List, [], ◌∷◌, Option, none, some, if◌then◌else◌}
use load_ants.Prelude.Texts.{Text, codes}
use load_ants.Errors.{Result, ok, err}
use load_ants.Metrics.{Metrics}
use load_ants.Proto.{Proto}
use load_ants.Cache.{Moka, DnsCache, clear, is_enabled}
use load_ants.Upstream.Json.{Json}

module _ (D : Proto) (moka : Moka D) (shuffle : List D.Record → List D.Record) where
  module _ (SocketAddr : Type 0) where
    pub record AdminServer : Type 0 where
      pub listen_addr : SocketAddr
      pub shutdown_requested : Bool
      pub cache : Option (DnsCache D moka)

    -- `AdminServer::new`
    abbrev pub new : SocketAddr → AdminServer
    new listen_addr = record { listen_addr = listen_addr; shutdown_requested = false; cache = none }

    -- `AdminServer::with_cache`
    abbrev pub with_cache : DnsCache D moka → AdminServer → AdminServer
    with_cache cache server = record server { cache = some cache }

    -- `AdminServer::shutdown`
    abbrev pub shutdown : AdminServer → AdminServer
    shutdown server = record server { shutdown_requested = true }

  module _ (J : Json) where
    open J use {Value}

    abbrev pub reply : Text → Text → Value
    reply status message =
        J.object ((codes "status", J.string status) ∷ (codes "message", J.string message) ∷ [])

    -- The result: the body, or a status and the body.
    unfoldable pub refresh_cache_handler :
        Option (DnsCache D moka)
        → Metrics
        → Result Value (ℕ × Value) × (Option (DnsCache D moka) × Metrics)
    refresh_cache_handler none m =
        (err (500, reply (codes "error") (codes "DNS cache is not configured")), (none, m))
    refresh_cache_handler (some cache) m =
        if is_enabled D moka shuffle cache
        then (
          ok (reply (codes "success") (codes "DNS cache has been cleared")),
          (some (clear D moka shuffle cache m).0, (clear D moka shuffle cache m).1),
        )
        else (err (400, reply (codes "error") (codes "DNS cache is not enabled")), (some cache, m))
