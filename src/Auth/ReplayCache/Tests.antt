-- ===== src/Auth/ReplayCache/Tests.antt =====
-- Runs of the replay cache over a list that keeps the documented order of the crate `lru`.
use jecp_server.Prelude.{
  ℕ, zero, suc, ◌*◌, ◌≤◌, ◌≡◌, refl, Bool, List, [], ◌∷◌, arith, codes, length, take,
  length-take-le, take-all,
}
use jecp_server.Auth.ReplayCache.{
  first, replay, Key, key_eq, MemoryReplayCache, check_and_insert, new,
}
use jecp_server.Auth.ReplayCache.Lru.{LruCache, find, without}
use jecp_server.Auth.ReplayCache.Window.{check_and_insert-answer}
use jecp_server.Auth.ReplayCache.Flood.{Call, replay_after_first, run}

record ListCache (K : Type 0) : Type 0 where
  capacity : ℕ
  entries : List (K × ℕ)

take-nil : {K : Type 0} (n : ℕ) → take {A = K × ℕ} n [] ≡ []
take-nil zero = refl
take-nil (suc n) = refl

module _ {K : Type 0} (beq : K → K → Bool) where
  length-without-le : (k : K) (l : List (K × ℕ)) → length (without beq k l) ≤ length l
  unfolding without
  length-without-le k [] = omega arith
  length-without-le k ((j, v) ∷ l) = ground (arith, length-without-le k l)

  iter-pop_list :
      (n : ℕ) (k : K) (l : List (K × ℕ))
      → take n (without beq k (take n l)) ≡ without beq k (take n l)
  iter-pop_list n k l =
      take-all n _ (omega (arith, length-without-le k (take n l), length-take-le n l))

  iter-put_list : (n : ℕ) (l : List (K × ℕ)) → take n (take n l) ≡ take n l
  iter-put_list n l = take-all n _ (length-take-le n l)

  abbrev list_lru : LruCache K ℕ beq
  list_lru = record {
    Cache = ListCache K;
    new = λ n. record { capacity = n; entries = [] };
    peek = λ c k. find beq k (take c.capacity c.entries);
    pop = λ c k. record c { entries = without beq k (take c.capacity c.entries) };
    put = λ c k v. record c {
      entries = take c.capacity ((k, v) ∷ without beq k (take c.capacity c.entries));
    };
    len = λ c. length (take c.capacity c.entries);
    cap = λ c. c.capacity;
    iter = λ c. take c.capacity c.entries;
    iter-new = λ n. take-nil n;
    peek_lem = λ c k. refl;
    iter-pop = λ c k. iter-pop_list c.capacity k c.entries;
    iter-put =
        λ c k v. iter-put_list c.capacity ((k, v) ∷ without beq k (take c.capacity c.entries));
    len_lem = λ c. refl;
    len-le-cap = λ c. length-take-le c.capacity c.entries;
    cap-new = λ n. refl;
    cap-pop = λ c k. refl;
    cap-put = λ c k v. refl;
  }

abbrev lru_cache : LruCache Key ℕ key_eq
lru_cache = list_lru key_eq

abbrev seconds : ℕ → ℕ
seconds n = n * 1_000_000_000

abbrev empty : MemoryReplayCache lru_cache
empty = new lru_cache "hub" 2 (seconds 600)

abbrev sighting : Call
sighting = record {
  agent_id = "alice";
  nonce = codes "00aaff";
  now = seconds 10;
  later = seconds 10;
}

abbrev other : Call
other = record { agent_id = "bob"; nonce = codes "00aaff"; now = seconds 20; later = seconds 20 }

abbrev again : Call
again = record {
  agent_id = "alice";
  nonce = codes "00AAFF";
  now = seconds 610;
  later = seconds 610;
}

sighting_is_first :
    (check_and_insert lru_cache empty sighting.agent_id sighting.nonce sighting.now
      sighting.later).0
    ≡ first
unfolding new find key_eq
sighting_is_first =
    check_and_insert-answer lru_cache empty sighting.agent_id sighting.nonce sighting.now
      sighting.later

replay_after_first_example :
    let c =
      run lru_cache
        (check_and_insert lru_cache empty "alice" (codes "00aaff") (seconds 10) (seconds 10)).1
        (other ∷ []) in
    (check_and_insert lru_cache c "alice" (codes "00AAFF") (seconds 610) (seconds 610)).0 ≡ replay
unfolding new
replay_after_first_example =
    replay_after_first lru_cache empty sighting (other ∷ []) again sighting_is_first (omega arith)
      (omega arith) (omega arith) refl refl
