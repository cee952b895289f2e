-- ===== src/Lib.antt =====
-- load-ants, a DNS forwarder that answers over UDP, TCP and DoH and asks upstream servers over DoH
-- or plain DNS. A request goes to the handler (src/handler.rs), which looks into the cache
-- (src/cache.rs), asks the routing engine (src/router.rs) what to do with the name, and either
-- refuses it or forwards it to an upstream group, one of whose servers a load balancer
-- (src/balancer.rs) selects. The rules of the engine come from the configuration (src/config) and
-- from lists loaded over HTTP (src/remote_rule).
--
-- The files and what they model:
-- Prelude and its modules: the parts of the standard library that the code uses. A `String` is the
--   list of its code points; a hash map is an association list; a `usize` has 64 bits.
-- Errors, Errors/Display: src/error.rs. Metrics: the updates of src/metrics.rs, as a list that is
--   passed through every operation that makes some; durations are not kept.
-- Config: src/config. Core, Rule, Patterns, Upstream and Validate follow core.rs, rule.rs, upstream.rs,
--   common.rs and mod.rs, Default its `Config::default`; Upstream/Groups, Sound and Listens say what
--   the checks promise.
-- Router: src/router.rs. Names, Prefilter, Build and Find follow the source function by function;
--   Entries and Route describe routing by the list of rules alone; Reverse, Suffix, Indices,
--   Candidates, LastRegex, RegexSpec, BuildSteps, BuildSpec and Attempts prove the parts equal, Spec
--   the whole, and BlockFirst and Unseen are about what follows. The loop over suffixes has for fuel the length of the key and one; each round drops
--   a dot, so that is enough.
-- Balancer: src/balancer.rs. A selection is one step; interleaved selections are not modelled.
-- Http, Upstream/HttpClient: src/upstream/http_client.rs, with the settings of reqwest as data.
-- Upstream/DnsClient: src/upstream/dns_client.rs over connections that are a parameter; the map of
--   connections is a function of the address.
-- Upstream/Doh, Upstream/Json: src/upstream/doh.rs and json.rs; Json/Normalize, Json/Records and
--   Json/Convert are the parts of json.rs. The loop over a TXT text has its length for fuel; each round
--   but the last takes two characters away.
-- Upstream/Manager: src/upstream/manager.rs, Manager/Forward its `forward`; Manager/Valid and
--   Manager/Answer are about both, Ids, Service, System and Validated about the manager behind the
--   request handler and made of a validated configuration. A panic is the absence of a result.
-- Doh: src/doh, Handlers its handlers.rs and Serialize its json.rs; Spec and RoundTrip are about them.
-- Server: the adapter of src/server.rs.
-- Remote: src/remote_rule, its parser, loader and merge.
-- Proto: the messages of hickory-proto, a record of parameters with named laws, and Proto/Wire their
--   binary form, names and record data; Proto/Toy is an instance of both for the tests.
-- Cache: src/cache.rs over the map of moka and the shuffle of rand, both parameters. The loop that
--   partitions the answers has their number for fuel, one round for each. Ttl, Adjust, Shuffle and
--   Lookup are about what is kept and read.
-- Handler: src/handler.rs over the cache, the router and an interface to the upstream manager, which
--   Upstream/Service fills. That an upstream answers under the id of the query is a condition of
--   Handler/Answer; Upstream/Service is about which answers of the manager do.
-- Admin: src/admin.rs, Admin/Refresh what its handler leaves in the cache.
-- Start: `create_components` of src/main.rs, what the program is made of; Start/Sound and Start/Refused
--   are about it. `routed`, `managed` and `administered` are its rest after each step that can fail.
--
-- Not modelled: the listeners of src/server.rs, src/doh/server.rs and src/admin.rs, the arguments and
-- the run of the servers (src/main.rs, src/args.rs), reading the configuration (serde) and the text of
-- its collected errors; logging, the length of time outs and concurrency.
pub mod Admin
pub mod Prelude
pub mod Errors
pub mod Metrics
pub mod Config
pub mod Router
pub mod Balancer
pub mod Http
pub mod Upstream
pub mod Doh
pub mod Server
pub mod Start
pub mod Remote
pub mod Proto
pub mod Cache
pub mod Handler
