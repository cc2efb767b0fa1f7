-- ===== src/Protocol/UrlGuard.antt =====
-- src/protocol/url_guard.rs: the guard of outbound URLs against internal addresses.
-- The crates `url` (a parse gives what the source reads of it), `ipnet` (`contains`) and the resolver are
-- parameters. An IPv4 address is a number below 2^32, an IPv6 address one below 2^128. The messages
-- inside the errors are left out.
pub mod Ranges
pub mod Pinned
mod Tests
use Prim.Native.String.{String}
use text.Mathlib.Text.{◌==◌ as str_eq}
use jecp_server.Prelude.{
  ℕ, ◌*◌, ◌+◌, ◌/◌, ◌%◌, ◌^◌, Bool, true, false, ◌&&◌, ◌||◌, Option, none, some, List, [], ◌∷◌,
  Text, any, codes, text_eq, ◌==◌, Result, ok, err, guard, ok_or, ◌>>=◌, ◌>>◌, if◌then◌else◌,
}

pub data IpAddr : Type 0 where
  v4 : ℕ → IpAddr
  v6 : ℕ → IpAddr

-- The first address of the network, and the length of its prefix.
pub data IpNet : Type 0 where
  net4 : ℕ → ℕ → IpNet
  net6 : ℕ → ℕ → IpNet

abbrev pub deny_cidrs : List IpNet
deny_cidrs =
    net4 0 8
    ∷ net4 (10 * 2 ^ 24) 8
    ∷ net4 (127 * 2 ^ 24) 8
    ∷ net4 (169 * 2 ^ 24 + 254 * 2 ^ 16) 16
    ∷ net4 (172 * 2 ^ 24 + 16 * 2 ^ 16) 12
    ∷ net4 (192 * 2 ^ 24 + 168 * 2 ^ 16) 16
    ∷ net6 1 128
    ∷ net6 (0xfe80 * 2 ^ 112) 10
    ∷ net6 (0xfc00 * 2 ^ 112) 7
    ∷ net6 (0xffff * 2 ^ 32) 96
    ∷ []

-- `to_ipv4_mapped`, for the addresses ::ffff:a.b.c.d.
pub to_ipv4_mapped : ℕ → Option ℕ
to_ipv4_mapped a = if a / 2 ^ 32 == 0xffff then some (a % 2 ^ 32) else none

pub normalized : IpAddr → IpAddr
unfolding to_ipv4_mapped
normalized (v4 a) = v4 a
normalized (v6 a) = elim (to_ipv4_mapped a) [ some b ↦ v4 b | none ↦ v6 a ]

pub record SocketAddr : Type 0 where
  pub ip : IpAddr
  pub port : ℕ

pub data Host : Type 0 where
  ipv4 : ℕ → Host
  ipv6 : ℕ → Host
  domain : Text → Host

pub record Url : Type 0 where
  pub scheme : String
  pub host : Option Host
  pub host_str : Option Text
  pub port_or_known_default : Option ℕ

pub record ValidatedUrl : Type 0 where
  pub url : Text
  pub host : Text
  pub pinned_addr : SocketAddr

pub data UrlGuardError : Type 0 where
  parse_error scheme host_syntax dns_resolve_failed : UrlGuardError
  resolved_to_deny_cidr : Text → IpAddr → UrlGuardError

unfoldable pub reason : UrlGuardError → String
reason parse_error = "parse_error"
reason scheme = "scheme"
reason host_syntax = "host_syntax"
reason (resolved_to_deny_cidr host ip) = "resolved_to_deny_cidr"
reason dns_resolve_failed = "dns_resolve_failed"

pub scheme_ok : Bool → String → Bool
scheme_ok test_mode s = str_eq s "https" || (test_mode && str_eq s "http")

pub literal_ip : Host → Option IpAddr
literal_ip (ipv4 a) = some (v4 a)
literal_ip (ipv6 a) = some (v6 a)
literal_ip (domain d) = none

-- Empty, a lone dot, or with a NUL inside.
pub bad_host : Text → Bool
bad_host [] = true
bad_host (c ∷ cs) = text_eq (c ∷ cs) (codes ".") || any (λ d. d == 0) (c ∷ cs)

module _ (contains : IpNet → IpAddr → Bool) where
  pub is_denied : IpAddr → Bool
  unfolding normalized
  is_denied addr = any (λ net. contains net (normalized addr)) deny_cidrs

  -- The first resolved address, unless one is denied.
  pub choose : Text → Option SocketAddr → List SocketAddr → Result UrlGuardError SocketAddr
  unfolding is_denied
  choose host none [] = err dns_resolve_failed
  choose host (some chosen) [] = ok chosen
  choose host none (sa ∷ rest) =
      let more = choose host (some sa) rest in
      if is_denied sa.ip then err (resolved_to_deny_cidr host sa.ip) else more
  choose host (some chosen) (sa ∷ rest) =
      let more = choose host (some chosen) rest in
      if is_denied sa.ip then err (resolved_to_deny_cidr host sa.ip) else more

  -- The check of a literal address, and what the address is.
  pub check_literal : Text → Option IpAddr → Result UrlGuardError (Unit {0})
  unfolding is_denied
  check_literal host none = ok tt
  check_literal host (some ip) =
      guard (if is_denied ip then false else true) (resolved_to_deny_cidr host ip)

  module _ (parse : Text → Option Url) (lookup_host : Text → ℕ → Option (List SocketAddr))
      (test_mode : Bool) where
    -- The parse and the scheme, with the host and its text.
    pub parsed_host : Text → Result UrlGuardError (Host × Text × Url)
    unfolding scheme_ok
    parsed_host url_str = do
      url ← ok_or (parse url_str) parse_error
      guard (scheme_ok test_mode url.scheme) scheme
      host ← ok_or url.host host_syntax
      host_str ← ok_or url.host_str host_syntax
      ok (host, host_str, url)

    -- A literal address is pinned without the resolver.
    pub pin : Option IpAddr → Text → Url → Result UrlGuardError SocketAddr
    unfolding choose bad_host
    pin (some ip) host_str url = do
      port ← ok_or url.port_or_known_default host_syntax
      ok (record { ip = ip; port = port })
    pin none host_str url = do
      guard (if bad_host host_str then false else true) host_syntax
      port ← ok_or url.port_or_known_default host_syntax
      resolved ← ok_or (lookup_host host_str port) dns_resolve_failed
      choose host_str none resolved

    pub validate_outbound_url : Text → Result UrlGuardError ValidatedUrl
    unfolding parsed_host check_literal pin literal_ip
    validate_outbound_url url_str = do
      (host, host_str, url) ← parsed_host url_str
      check_literal host_str (literal_ip host)
      pinned ← pin (literal_ip host) host_str url
      ok (record { url = url_str; host = host_str; pinned_addr = pinned })

    pub validate_outbound_url_preflight : Text → Result UrlGuardError (Unit {0})
    unfolding parsed_host check_literal literal_ip bad_host
    validate_outbound_url_preflight url_str = do
      (host, host_str, url) ← parsed_host url_str
      check_literal host_str (literal_ip host)
      guard (if bad_host host_str then false else true) host_syntax
