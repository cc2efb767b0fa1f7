-- ===== src/Auth/ReplayCache/Position.antt =====
-- Where an entry stands in the order of an LRU cache, and what each operation does to its place.
use jecp_server.Prelude.{
  ℕ, zero, suc, ◌≤◌, ◌≡◌, ◌↔◌, ◌⊎◌, inl, inr, Bool, true, false, some, List, [], ◌∷◌, arith, take,
  Bool-cases,
}
use jecp_server.Auth.ReplayCache.Lru.{find, without}

module _ {K : Type 0} (key_eq : K → K → Bool) where
  -- The first entry of `k` is among the first `n`, and holds `t`.
  abbrev pub FoundWithin : K → ℕ → ℕ → List (K × ℕ) → Type 0
  FoundWithin k t zero l = ⊥
  FoundWithin k t (suc n) [] = ⊥
  FoundWithin k t (suc n) ((j, v) ∷ l) =
      ((key_eq j k ≡ true) × (v ≡ t)) ⊎ ((key_eq j k ≡ false) × FoundWithin k t n l)

  pub FoundWithin-find :
      (k : K) (t n : ℕ) (l : List (K × ℕ)) → FoundWithin k t n l → find key_eq k l ≡ some t
  unfolding find
  FoundWithin-find k t zero l h = absurd h
  FoundWithin-find k t (suc n) [] h = absurd h
  FoundWithin-find k t (suc n) ((j, v) ∷ l) h = ground (arith, FoundWithin-find k t n l)

  pub FoundWithin-suc :
      (k : K) (t n : ℕ) (l : List (K × ℕ)) → FoundWithin k t n l → FoundWithin k t (suc n) l
  FoundWithin-suc k t zero l h = absurd h
  FoundWithin-suc k t (suc n) [] h = absurd h
  FoundWithin-suc k t (suc n) ((j, v) ∷ l) (inl h) = inl h
  FoundWithin-suc k t (suc n) ((j, v) ∷ l) (inr h) = inr (h.0, FoundWithin-suc k t n l h.1)

  pub FoundWithin-take :
      (k : K) (t n m : ℕ) (l : List (K × ℕ))
      → n ≤ m
      → FoundWithin k t n l
      → FoundWithin k t n (take m l)
  FoundWithin-take k t zero m l e h = absurd h
  FoundWithin-take k t (suc n) zero l e h = absurd (omega arith)
  FoundWithin-take k t (suc n) (suc m) [] e h = absurd h
  FoundWithin-take k t (suc n) (suc m) ((j, v) ∷ l) e (inl h) = inl h
  FoundWithin-take k t (suc n) (suc m) ((j, v) ∷ l) e (inr h) =
      inr (h.0, FoundWithin-take k t n m l (omega arith) h.1)

  module _ (key_eq_iff : (a b : K) → (key_eq a b ≡ true) ↔ (a ≡ b)) where
    -- The entry of another key goes, and `k` stays or moves to the front.
    pub FoundWithin-without :
        (k r : K) (t n : ℕ) (l : List (K × ℕ))
        → key_eq r k ≡ false
        → FoundWithin k t n l
        → FoundWithin k t n (without key_eq r l)
    unfolding without
    FoundWithin-without k r t zero l e h = absurd h
    FoundWithin-without k r t (suc n) [] e h = absurd h
    FoundWithin-without k r t (suc n) ((j, v) ∷ l) e (inl h) = elim (Bool-cases (key_eq j r)) [
      | inl same ↦ absurd (ground (arith, key_eq_iff j r, same))
      | inr other ↦ rw other (inl h)
    ]
    FoundWithin-without k r t (suc n) ((j, v) ∷ l) e (inr h) = elim (Bool-cases (key_eq j r)) [
      | inl same ↦ rw same (FoundWithin-suc k t n _ (FoundWithin-without k r t n l e h.1))
      | inr other ↦ rw other (inr (h.0, FoundWithin-without k r t n l e h.1))
    ]
