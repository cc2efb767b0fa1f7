-- ===== src/Routes/InvokeX402/Split.antt =====
-- The split of a payment between the provider, the hub and the network.
use jecp_server.Prelude.{◌∙◌, lt→ltb, ℕ, ◌+◌, ◌*◌, ◌-◌, ◌/◌, ◌%◌, ◌^◌, ◌≤◌, ◌<◌, ◌≡◌, refl, arith}
use jecp_server.Routes.InvokeX402.{split_shares, mul_i64, div_i64, sub_i64}

mul_i64-exact : (w k : ℕ) → w * k < 2 ^ 64 → mul_i64 w k ≡ w * k
unfolding mul_i64
mul_i64-exact w k h = omega arith

sub_i64-exact : (a b : ℕ) → b ≤ a → a < 2 ^ 64 → sub_i64 a b ≡ a - b
unfolding sub_i64
sub_i64-exact a b h l = omega arith

add-sub_i64 : (a b c : ℕ) → (b + c + sub_i64 (sub_i64 a b) c) % 2 ^ 64 ≡ a % 2 ^ 64
unfolding sub_i64
add-sub_i64 a b c = omega arith

-- The parts of an amount add up to it in 64-bit arithmetic, whatever the amount.
pub split_shares-wraps :
    (amount_micro : ℕ)
    → let s = split_shares amount_micro in
      (s.provider + s.hub + s.network) % 2 ^ 64 ≡ amount_micro % 2 ^ 64
unfolding split_shares
split_shares-wraps amount_micro =
    add-sub_i64 (amount_micro % 2 ^ 64) (split_shares amount_micro).provider
      (split_shares amount_micro).hub
    ∙ ground arith

div_i64-exact : (w k : ℕ) → w < 2 ^ 63 → div_i64 w k ≡ w / k
unfolding div_i64
div_i64-exact w k h = rw (lt→ltb w (2 ^ 63) h) refl

-- Below the bound at which the source's product leaves an i64, the provider gets 85 % and the hub 10 %,
-- each rounded down, and the network the rest: at least 5 %, at most two units more, and the parts add
-- up to the amount.
pub split_shares-exact :
    (amount_micro : ℕ)
    → amount_micro * 8500 < 2 ^ 63
    → let s = split_shares amount_micro in
      (s.provider ≡ amount_micro * 85 / 100)
      × (s.hub ≡ amount_micro / 10)
      × (s.provider + s.hub + s.network ≡ amount_micro)
      × (amount_micro ≤ s.network * 20)
      × (s.network * 20 < amount_micro + 40)
unfolding split_shares
split_shares-exact amount_micro h = (
  provider,
  hub,
  rw (provider, hub, small) (omega arith),
  rw (provider, hub, small) (omega arith),
  rw (provider, hub, small) (omega arith),
)
  where
    small : amount_micro % 2 ^ 64 ≡ amount_micro
    small = omega arith

    provider : (split_shares amount_micro).provider ≡ amount_micro * 85 / 100
    provider =
        rw
          (
            small,
            mul_i64-exact amount_micro 8500 (omega arith),
            div_i64-exact (amount_micro * 8500) 10000 h,
          )
          (omega arith)

    hub : (split_shares amount_micro).hub ≡ amount_micro / 10
    hub =
        rw
          (
            small,
            mul_i64-exact amount_micro 1000 (omega arith),
            div_i64-exact (amount_micro * 1000) 10000 (omega arith),
          )
          (omega arith)
