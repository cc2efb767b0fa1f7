-- ===== src/Auth/ReplayCache/Lru.antt =====
-- What src/auth/replay_cache.rs relies on of the crate `lru`.
use jecp_server.Prelude.{
  ℕ, ◌≤◌, ◌≡◌, Bool, Option, none, some, List, [], ◌∷◌, length, take, if◌then◌else◌,
}

module _ {K V : Type 0} (key_eq : K → K → Bool) where
  unfoldable pub find : K → List (K × V) → Option V
  find k [] = none
  find k ((j, v) ∷ l) = if key_eq j k then some v else find k l

  unfoldable pub without : K → List (K × V) → List (K × V)
  without k [] = []
  without k ((j, v) ∷ l) = if key_eq j k then without k l else (j, v) ∷ without k l

-- `iter` visits the entries, most recently used first. `peek` does not change the order, `put` makes
-- its entry the most recent and drops the least recent one past the capacity.
pub record LruCache (K V : Type 0) (key_eq : K → K → Bool) : Type 1 where
  pub Cache : Type 0
  pub new : ℕ → Cache
  pub peek : Cache → K → Option V
  pub pop : Cache → K → Cache
  pub put : Cache → K → V → Cache
  pub len : Cache → ℕ
  pub cap : Cache → ℕ
  pub iter : Cache → List (K × V)
  pub iter-new : (n : ℕ) → iter (new n) ≡ []
  pub peek_lem : (c : Cache) (k : K) → peek c k ≡ find key_eq k (iter c)
  pub iter-pop : (c : Cache) (k : K) → iter (pop c k) ≡ without key_eq k (iter c)
  pub iter-put :
      (c : Cache) (k : K) (v : V)
      → iter (put c k v) ≡ take (cap c) ((k, v) ∷ without key_eq k (iter c))
  pub len_lem : (c : Cache) → len c ≡ length (iter c)
  pub len-le-cap : (c : Cache) → len c ≤ cap c
  pub cap-new : (n : ℕ) → cap (new n) ≡ n
  pub cap-pop : (c : Cache) (k : K) → cap (pop c k) ≡ cap c
  pub cap-put : (c : Cache) (k : K) (v : V) → cap (put c k v) ≡ cap c
