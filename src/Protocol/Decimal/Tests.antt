-- ===== src/Protocol/Decimal/Tests.antt =====
-- A number, printed and read back.
use jecp_server.Prelude.{◌≡◌, refl, some, none, codes}
use jecp_server.Protocol.Decimal.{parse_u128}

read : parse_u128 (codes "5000") ≡ some 5000
unfolding parse_u128
read = refl

too_large : parse_u128 (codes "340282366920938463463374607431768211456") ≡ none
unfolding parse_u128
too_large = refl
