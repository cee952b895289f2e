-- ===== src/Config/Upstream/Groups.antt =====
-- What `validate_group_scheme` of src/config/upstream.rs makes sure of.
use load_ants.Prelude.{
  arith, ◌≡◌, refl, List, [], ◌∷◌, Option, none, some, All, inl, inr, Option-cases,
}
use load_ants.Prelude.Texts.{Text}
use load_ants.Errors.{ok}
use load_ants.Config.Upstream.{
  UpstreamScheme, UpstreamServerConfig, doh_server, dns_server, UpstreamGroupConfig, as_doh, as_dns,
  all_doh, all_dns, validate_group_scheme, RetryConfig,
}

-- Plain DNS knows neither retries nor a proxy.
abbrev pub Plain : UpstreamScheme → Option RetryConfig → Option Text → Type 0
Plain UpstreamScheme.doh retry proxy = Unit
Plain UpstreamScheme.dns retry proxy = (retry ≡ none) × (proxy ≡ none)

module _ {Url SocketAddr : Type 0} where
  -- A server of the kind that a scheme asks for.
  abbrev pub Fits : UpstreamScheme → UpstreamServerConfig Url SocketAddr → Type 0
  Fits UpstreamScheme.doh s = (d : _) × (as_doh s ≡ some d)
  Fits UpstreamScheme.dns s = (d : _) × (as_dns s ≡ some d)

  all_doh-All :
      (l : List (UpstreamServerConfig Url SocketAddr))
      → all_doh l ≡ ok tt
      → All (Fits UpstreamScheme.doh) l
  unfolding all_doh
  all_doh-All [] h = tt
  all_doh-All (doh_server s ∷ l) h = ((s, refl), all_doh-All l h)
  all_doh-All (dns_server s ∷ l) h = absurd (cc)

  all_dns-All :
      (l : List (UpstreamServerConfig Url SocketAddr))
      → all_dns l ≡ ok tt
      → All (Fits UpstreamScheme.dns) l
  unfolding all_dns
  all_dns-All [] h = tt
  all_dns-All (doh_server s ∷ l) h = absurd (cc)
  all_dns-All (dns_server s ∷ l) h = ((s, refl), all_dns-All l h)

  group-Fits :
      (scheme : UpstreamScheme) (g : UpstreamGroupConfig Url SocketAddr)
      → validate_group_scheme (record g { scheme = scheme }) ≡ ok tt
      → All (Fits scheme) g.servers × Plain scheme g.retry g.proxy
  unfolding validate_group_scheme
  group-Fits UpstreamScheme.doh g h = (all_doh-All g.servers h, tt)
  group-Fits UpstreamScheme.dns g h = elim (Option-cases g.retry) [
    | inr (r, e) ↦ absurd (ground (arith, e, h))
    | inl e ↦ elim (Option-cases g.proxy) [
      | inr (p, f) ↦ absurd (ground (arith, e, f, h))
      | inl f ↦ (all_dns-All g.servers (ground (arith, e, f, h)), (e, f))
    ]
  ]

  -- A group that passes the check has servers of its scheme only, and one for plain DNS has neither
  -- retries nor a proxy.
  pub validate_group_scheme-Fits :
      (g : UpstreamGroupConfig Url SocketAddr)
      → validate_group_scheme g ≡ ok tt
      → All (Fits g.scheme) g.servers × Plain g.scheme g.retry g.proxy
  validate_group_scheme-Fits g h = group-Fits g.scheme g h
