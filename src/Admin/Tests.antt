-- ===== src/Admin/Tests.antt =====
-- A test of src/admin.rs, with the toys of the cache and of JSON.
use load_ants.Prelude.{some}
use load_ants.Cache.Tests.{toy_moka, toy_moka_laws, in_order, cache}
use load_ants.Proto.Toy.{toy_proto}
use load_ants.Upstream.Toy.{toy_json}
use load_ants.Admin.{[], refresh_cache_handler}
use load_ants.Admin.Refresh.{Refreshed, refresh_cache_handler-Refreshed}

refresh_cache_handler-Refreshed_example :
    Refreshed toy_proto toy_moka in_order toy_json toy_moka_laws
      (some cache)
      []
      (refresh_cache_handler toy_proto toy_moka in_order toy_json (some cache) [])
refresh_cache_handler-Refreshed_example =
    refresh_cache_handler-Refreshed toy_proto toy_moka in_order toy_json toy_moka_laws (some cache)
      []
