-- ===== src/Protocol/UrlGuard/Tests.antt =====
-- The guard on concrete addresses, with prefixes compared by division.
use jecp_server.Prelude.{
  ℕ, ◌-◌, ◌/◌, ◌^◌, ◌≡◌, refl, Bool, false, Option, none, some, List, [], ◌∷◌, Text, text_eq, codes,
  ok, ◌==◌,
}
use jecp_server.Protocol.UrlGuard.{
  IpAddr, v4, v6, IpNet, net4, net6, SocketAddr, Url, domain, ValidatedUrl, is_denied, choose,
  validate_outbound_url,
}
use jecp_server.Protocol.UrlGuard.Ranges.{IsContains, internal4, is_denied_v4}
use jecp_server.Protocol.UrlGuard.Pinned.{validate_outbound_url-allowed}

abbrev contains : IpNet → IpAddr → Bool
contains (net4 b l) (v4 a) = a / 2 ^ (32 - l) == b / 2 ^ (32 - l)
contains (net6 b l) (v6 a) = a / 2 ^ (128 - l) == b / 2 ^ (128 - l)
contains (net4 b l) (v6 a) = false
contains (net6 b l) (v4 a) = false

contains-IsContains : IsContains contains
contains-IsContains = record {
  same4 = λ b l a. refl;
  same6 = λ b l a. refl;
  other4 = λ b l a. refl;
  other6 = λ b l a. refl;
}

-- 93.184.216.34
abbrev address : SocketAddr
address = record { ip = v4 1572395042; port = 443 }

abbrev parse : Text → Option Url
parse s = some (record {
  scheme = "https";
  host = some (domain (codes "example.com"));
  host_str = some (codes "example.com");
  port_or_known_default = some 443;
})

abbrev lookup_host : Text → ℕ → Option (List SocketAddr)
lookup_host host port = some (address ∷ [])

chosen : choose contains (codes "example.com") none (address ∷ []) ≡ ok address
unfolding choose
chosen = refl

abbrev valid : ValidatedUrl
valid = record {
  url = codes "https://example.com/";
  host = codes "example.com";
  pinned_addr = address;
}

passes :
    validate_outbound_url contains parse lookup_host false (codes "https://example.com/") ≡ ok valid
unfolding validate_outbound_url text_eq
passes = refl

validate_outbound_url-allowed_example : is_denied contains (v4 1572395042) ≡ false
validate_outbound_url-allowed_example =
    validate_outbound_url-allowed contains parse lookup_host false (codes "https://example.com/")
      valid passes

-- 127.0.0.1
is_denied_v4_example : is_denied contains (v4 2130706433) ≡ internal4 2130706433
is_denied_v4_example = is_denied_v4 contains contains-IsContains 2130706433
