-- ===== src/Protocol/UrlGuard/Ranges.antt =====
-- Which addresses the deny list of src/protocol/url_guard.rs covers, as ranges.
use jecp_server.Prelude.{
  ℕ, ◌*◌, ◌+◌, ◌-◌, ◌/◌, ◌^◌, ◌<◌, ◌≡◌, ap, ◌∙◌, Bool, false, ◌&&◌, ◌||◌, any, arith, ltb, leb,
  ◌==◌,
}
use jecp_server.Protocol.UrlGuard.{
  IpAddr, v4, v6, IpNet, net4, net6, deny_cidrs, normalized, is_denied,
}

-- What the crate `ipnet` documents of `contains`: an address of the same family whose leading bits are
-- those of the network.
pub record IsContains (contains : IpNet → IpAddr → Bool) : Type 0 where
  pub same4 : (b l a : ℕ) → contains (net4 b l) (v4 a) ≡ (a / 2 ^ (32 - l) == b / 2 ^ (32 - l))
  pub same6 : (b l a : ℕ) → contains (net6 b l) (v6 a) ≡ (a / 2 ^ (128 - l) == b / 2 ^ (128 - l))
  pub other4 : (b l a : ℕ) → contains (net4 b l) (v6 a) ≡ false
  pub other6 : (b l a : ℕ) → contains (net6 b l) (v4 a) ≡ false

-- From `lo` on, below `hi`.
abbrev pub between : ℕ → ℕ → ℕ → Bool
between lo hi a = leb lo a && ltb a hi

-- 0.0.0.0/8, 10/8, 127/8, 169.254/16, 172.16/12 and 192.168/16.
abbrev pub internal4 : ℕ → Bool
internal4 a =
    between 0 16777216 a
    || (between 167772160 184549376 a
        || (between 2130706432 2147483648 a
            || (between 2851995648 2852061184 a
                || (between 2886729728 2887778304 a || between 3232235520 3232301056 a))))

-- ::1, fe80::/10 and fc00::/7.
abbrev pub internal6 : ℕ → Bool
internal6 a =
    (a == 1)
    || (between (0xfe80 * 2 ^ 112) (0xfec0 * 2 ^ 112) a
        || between (0xfc00 * 2 ^ 112) (0xfe00 * 2 ^ 112) a)

normalized-mapped : (a : ℕ) → a < 2 ^ 32 → normalized (v6 (0xffff * 2 ^ 32 + a)) ≡ v4 a
unfolding normalized
normalized-mapped a h = ground arith

normalized_v6 : (a : ℕ) → (a / 2 ^ 32 == 0xffff) ≡ false → normalized (v6 a) ≡ v6 a
unfolding normalized
normalized_v6 a n = ground arith

module _ (contains : IpNet → IpAddr → Bool) (L : IsContains contains) where
  -- With `contains` as documented, an IPv4 address is denied exactly when it lies in one of the six internal ranges.
  pub is_denied_v4 : (a : ℕ) → is_denied contains (v4 a) ≡ internal4 a
  unfolding is_denied
  is_denied_v4 a =
      rw
        (
          L.same4 0 8 a,
          L.same4 (10 * 2 ^ 24) 8 a,
          L.same4 (127 * 2 ^ 24) 8 a,
          L.same4 (169 * 2 ^ 24 + 254 * 2 ^ 16) 16 a,
          L.same4 (172 * 2 ^ 24 + 16 * 2 ^ 16) 12 a,
          L.same4 (192 * 2 ^ 24 + 168 * 2 ^ 16) 16 a,
          L.other6 1 128 a,
          L.other6 (0xfe80 * 2 ^ 112) 10 a,
          L.other6 (0xfc00 * 2 ^ 112) 7 a,
          L.other6 (0xffff * 2 ^ 32) 96 a,
        )
        (ground arith)

  -- With `contains` as documented, an IPv4-mapped IPv6 address is denied exactly when the IPv4 address
  -- inside it lies in one of these ranges.
  pub is_denied-mapped :
      (a : ℕ) → a < 2 ^ 32 → is_denied contains (v6 (0xffff * 2 ^ 32 + a)) ≡ internal4 a
  unfolding is_denied
  is_denied-mapped a h =
      ap (λ x. any (λ net. contains net x) deny_cidrs) (normalized-mapped a h) ∙ is_denied_v4 a

  -- With `contains` as documented, any other IPv6 address is denied exactly when it is ::1, link-local or unique local.
  pub is_denied_v6 :
      (a : ℕ)
      → a < 2 ^ 128
      → (a / 2 ^ 32 == 0xffff) ≡ false
      → is_denied contains (v6 a) ≡ internal6 a
  unfolding is_denied
  is_denied_v6 a h n =
      ap (λ x. any (λ net. contains net x) deny_cidrs) (normalized_v6 a n)
      ∙ rw
          (
            L.other4 0 8 a,
            L.other4 (10 * 2 ^ 24) 8 a,
            L.other4 (127 * 2 ^ 24) 8 a,
            L.other4 (169 * 2 ^ 24 + 254 * 2 ^ 16) 16 a,
            L.other4 (172 * 2 ^ 24 + 16 * 2 ^ 16) 12 a,
            L.other4 (192 * 2 ^ 24 + 168 * 2 ^ 16) 16 a,
            L.same6 1 128 a,
            L.same6 (0xfe80 * 2 ^ 112) 10 a,
            L.same6 (0xfc00 * 2 ^ 112) 7 a,
            L.same6 (0xffff * 2 ^ 32) 96 a,
          )
          (ground arith)
