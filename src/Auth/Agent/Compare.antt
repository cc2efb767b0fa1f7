-- ===== src/Auth/Agent/Compare.antt =====
-- The comparison in constant time of src/auth/agent.rs is equality.
use jecp_server.Prelude.{
  ℕ, ◌/◌, ◌^◌, ◌<◌, ◌≡◌, ◌↔◌, refl, true, [], ◌∷◌, Text, All, length, zero, suc, arith,
}
use jecp_server.Auth.Agent.{xor, or, diff_bytes, constant_time_eq}

xor-zero : (bits x y : ℕ) → x < 2 ^ bits → y < 2 ^ bits → xor bits x y ≡ 0 → x ≡ y
unfolding xor
xor-zero zero x y a b h = omega arith
xor-zero (suc bits) x y a b h =
    ground (arith, xor-zero bits (x / 2) (y / 2) (omega arith) (omega arith))

xor_self : (bits x : ℕ) → xor bits x x ≡ 0
unfolding xor
xor_self zero x = refl
xor_self (suc bits) x = ground (arith, xor_self bits (x / 2))

or-zero : (bits x y : ℕ) → x < 2 ^ bits → y < 2 ^ bits → or bits x y ≡ 0 → (x ≡ 0) × (y ≡ 0)
unfolding or
or-zero zero x y a b h = (omega arith, omega arith)
or-zero (suc bits) x y a b h =
    let r = or-zero bits (x / 2) (y / 2) (omega arith) (omega arith) (ground arith) in
    (ground (arith, r), ground (arith, r))

or-zeros : (bits : ℕ) → or bits 0 0 ≡ 0
unfolding or
or-zeros zero = refl
or-zeros (suc bits) = ground (arith, or-zeros bits)

or-lt : (bits x y : ℕ) → or bits x y < 2 ^ bits
unfolding or
or-lt zero x y = omega arith
or-lt (suc bits) x y = ground (arith, or-lt bits (x / 2) (y / 2))

xor-lt : (bits x y : ℕ) → xor bits x y < 2 ^ bits
unfolding xor
xor-lt zero x y = omega arith
xor-lt (suc bits) x y = ground (arith, xor-lt bits (x / 2) (y / 2))

diff_bytes-zero :
    (diff : ℕ) (a b : Text)
    → diff < 2 ^ 8
    → All (λ x. x < 256) a
    → All (λ x. x < 256) b
    → length a ≡ length b
    → diff_bytes diff a b ≡ 0
    → (diff ≡ 0) × (a ≡ b)
unfolding diff_bytes
diff_bytes-zero diff [] [] d p q l h = (h, refl)
diff_bytes-zero diff [] (y ∷ b) d p q l h = absurd (omega arith)
diff_bytes-zero diff (x ∷ a) [] d p q l h = absurd (omega arith)
diff_bytes-zero diff (x ∷ a) (y ∷ b) d p q l h =
    let r =
      diff_bytes-zero (or 8 diff (xor 8 x y)) a b (or-lt 8 diff (xor 8 x y)) p.1 q.1 (omega arith)
        h in
    let z = or-zero 8 diff (xor 8 x y) d (xor-lt 8 x y) r.0 in
    (z.0, rw (xor-zero 8 x y p.0 q.0 z.1, r.1) refl)

diff_bytes_self : (a : Text) → diff_bytes 0 a a ≡ 0
unfolding diff_bytes
diff_bytes_self [] = refl
diff_bytes_self (x ∷ a) = rw (xor_self 8 x, or-zeros 8) (diff_bytes_self a)

-- Two byte strings compare equal exactly when they are equal.
pub constant_time_eq_iff :
    (a b : Text)
    → All (λ x. x < 256) a
    → All (λ x. x < 256) b
    → (constant_time_eq a b ≡ true) ↔ (a ≡ b)
unfolding constant_time_eq
constant_time_eq_iff a b p q = (
  (λ h. (diff_bytes-zero 0 a b (omega arith) p q (ground arith) (ground arith)).1),
  λ e. rw e (ground (arith, diff_bytes_self b)),
)
