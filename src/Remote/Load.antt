-- ===== src/Remote/Load.antt =====
-- What `RemoteRuleLoader::load` of src/remote_rule/loader.rs gives.
use load_ants.Router.Entries.{entries}
use load_ants.Remote.Accepted.{route_rules-Accepted, parse_v2ray-Fine, Accepted}
use load_ants.Prelude.Texts.{utf8_len, Text}
use load_ants.Remote.Parser.{parse_v2ray}
use load_ants.Config.Rule.{RouteRuleConfig}
use load_ants.Remote.Loader.{
  v2ray, parser_for, RuleFormat, request_of, create_http_client, RemoteRuleLoader, RemoteRuleConfig,
  new_loader, load,
}
use load_ants.Http.{from_send_error, is_success, HttpResponse, HttpClientConfig, Http}
use load_ants.Router.{Patterns}
use load_ants.Errors.{map_err, http, ok_injective, ok, >>=-eq-ok, guard-eq-ok, map_err-eq-ok}
use load_ants.Prelude.{refl, arith, ap, sym, ◌∙◌, not, ltb, ◌≡◌, ◌≤◌, true, List, All}

module _ (P : Patterns) (H : Http) where
  open H use {Client}

  parser_for_lem : (f : RuleFormat) (content : Text) → parser_for f content ≡ parse_v2ray content
  parser_for_lem v2ray content = refl

  made_from :
      (config : RemoteRuleConfig) (http_config : HttpClientConfig) (l : RemoteRuleLoader Client)
      → new_loader H config http_config ≡ ok l
      → (l.config ≡ config) × ((content : Text) → l.parser content ≡ parse_v2ray content)
  unfolding new_loader
  made_from config http_config l made =
      let (client, created, rest) =
        >>=-eq-ok (create_http_client H http_config config.proxy config.retry) _ made in
      let e = ok_injective rest in
      (
        ap (λ k. k.config) (sym e),
        λ content. ap (λ k. k.parser content) (sym e) ∙ parser_for_lem config.format content,
      )

  -- What `RemoteRuleLoader::load` gives: the response had a status of success, its text is not
  -- over the limit, and of the rules `Router::new` refuses none but a regular expression that
  -- does not compile.
  pub load-Accepted :
      (config : RemoteRuleConfig) (http_config : HttpClientConfig) (l : RemoteRuleLoader Client)
      (rules : List RouteRuleConfig)
      → new_loader H config http_config ≡ ok l
      → load H l ≡ ok rules
      → (response : HttpResponse) × (content : Text) × (H.send (request_of H l) ≡ ok response)
        × (is_success response.status ≡ true)
        × (response.text ≡ ok content)
        × (utf8_len content ≤ config.max_size)
        × All (Accepted P) (entries rules)
  unfolding load
  load-Accepted config http_config l rules made loaded =
      let (same, parses) = made_from config http_config l made in
      let (response, sent, after) =
        >>=-eq-ok (map_err from_send_error (H.send (request_of H l))) _ loaded in
      let (content, read, next) = >>=-eq-ok _ _ after in
      let (good, text) = guard-eq-ok (not (is_success response.status)) _ _ read in
      let (parsed, checked, last) = >>=-eq-ok _ _ next in
      let (small, parse) = guard-eq-ok (ltb l.config.max_size (utf8_len content)) _ _ checked in
      let fine = parse_v2ray-Fine P content parsed (sym (parses content) ∙ parse) in
      (
        response,
        content,
        map_err-eq-ok from_send_error _ sent,
        ground (arith, good),
        map_err-eq-ok http _ text,
        ground (arith, small, same),
        rw (sym (ok_injective last)) (route_rules-Accepted P l.config parsed fine),
      )
