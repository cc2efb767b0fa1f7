-- ===== src/Protocol/UrlGuard/Pinned.antt =====
-- What a URL that passes the guard of src/protocol/url_guard.rs may connect to.
use jecp_server.Prelude.{
  ok-injective, ℕ, ◌≡◌, ap, subst, Bool, true, false, Option, none, some, List, [], ◌∷◌, Text, All,
  arith, ok, guard, ok_or, >>=-eq-ok, if◌then◌else◌, Bool-cases, inl, inr,
}
use jecp_server.Protocol.UrlGuard.{
  IpAddr, IpNet, SocketAddr, Url, ValidatedUrl, is_denied, choose, check_literal, pin, literal_ip,
  bad_host, host_syntax, dns_resolve_failed, parsed_host, validate_outbound_url,
}

module _ (contains : IpNet → IpAddr → Bool) where
  -- Where the resolver's answers give an address to connect to, none of them is denied.
  pub choose-allowed :
      (host : Text) (chosen : Option SocketAddr) (resolved : List SocketAddr) (sa : SocketAddr)
      → choose contains host chosen resolved ≡ ok sa
      → All (λ x. is_denied contains x.ip ≡ false) resolved
  unfolding choose
  choose-allowed host none [] sa h = tt
  choose-allowed host (some c) [] sa h = tt
  choose-allowed host none (x ∷ rest) sa h = elim (Bool-cases (is_denied contains x.ip)) [
    | inl d ↦ absurd (ground arith)
    | inr d ↦ (d, choose-allowed host (some x) rest sa (ground arith))
  ]
  choose-allowed host (some c) (x ∷ rest) sa h = elim (Bool-cases (is_denied contains x.ip)) [
    | inl d ↦ absurd (ground arith)
    | inr d ↦ (d, choose-allowed host (some c) rest sa (ground arith))
  ]

  -- And the chosen one is not denied, if the one before is not.
  choose-pinned :
      (host : Text) (chosen : Option SocketAddr) (resolved : List SocketAddr) (sa : SocketAddr)
      → ((c : SocketAddr) → chosen ≡ some c → is_denied contains c.ip ≡ false)
      → choose contains host chosen resolved ≡ ok sa
      → is_denied contains sa.ip ≡ false
  unfolding choose
  choose-pinned host none [] sa k h = absurd (cc)
  choose-pinned host (some c) [] sa k h = k sa (ap some (ok-injective h))
  choose-pinned host none (x ∷ rest) sa k h = elim (Bool-cases (is_denied contains x.ip)) [
    | inl d ↦ absurd (ground arith)
    | inr d ↦ choose-pinned host (some x) rest sa (λ c e. ground (arith, d)) (ground arith)
  ]
  choose-pinned host (some c) (x ∷ rest) sa k h = elim (Bool-cases (is_denied contains x.ip)) [
    | inl d ↦ absurd (ground arith)
    | inr d ↦ choose-pinned host (some c) rest sa k (ground arith)
  ]

  module _ (parse : Text → Option Url) (lookup_host : Text → ℕ → Option (List SocketAddr))
      (test_mode : Bool) where
    pin-allowed :
        (ip : Option IpAddr) (host_str : Text) (url : Url) (sa : SocketAddr)
        → check_literal contains host_str ip ≡ ok tt
        → pin contains parse lookup_host test_mode ip host_str url ≡ ok sa
        → is_denied contains sa.ip ≡ false
    unfolding pin check_literal
    pin-allowed (some ip) host_str url sa c h =
        let a = >>=-eq-ok (ok_or url.port_or_known_default _) _ h in
        ground (arith, ok-injective a.2)
    pin-allowed none host_str url sa c h =
        let a = >>=-eq-ok (guard (if bad_host host_str then false else true) host_syntax) _ h in
        let b = >>=-eq-ok (ok_or url.port_or_known_default host_syntax) _ a.2 in
        let l = >>=-eq-ok (ok_or (lookup_host host_str b.0) dns_resolve_failed) _ b.2 in
        choose-pinned host_str none l.0 sa (λ x e. absurd (cc)) l.2

    -- A URL that passes the guard is pinned to an address that is not denied.
    pub validate_outbound_url-allowed :
        (url_str : Text) (v : ValidatedUrl)
        → validate_outbound_url contains parse lookup_host test_mode url_str ≡ ok v
        → is_denied contains v.pinned_addr.ip ≡ false
    unfolding validate_outbound_url
    validate_outbound_url-allowed url_str v h =
        let p = >>=-eq-ok (parsed_host contains parse lookup_host test_mode url_str) _ h in
        let c = >>=-eq-ok (check_literal contains p.0.1 (literal_ip p.0.0)) _ p.2 in
        let a =
          >>=-eq-ok (pin contains parse lookup_host test_mode (literal_ip p.0.0) p.0.1 p.0.2) _
            c.2 in
        subst (λ x. is_denied contains x.pinned_addr.ip ≡ false) (ok-injective a.2)
          (pin-allowed (literal_ip p.0.0) p.0.1 p.0.2 a.0 c.1 a.1)
