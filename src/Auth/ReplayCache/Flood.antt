-- ===== src/Auth/ReplayCache/Flood.antt =====
-- A seen triple stays in the replay cache while fewer calls follow than the cache has room for, and
-- until its time to live is over, whatever the calls are.
use Prim.Native.String.{String}
use jecp_server.Prelude.{
  ℕ, suc, ◌+◌, ◌≤◌, ◌<◌, ◌≡◌, inl, inr, refl, false, List, [], ◌∷◌, arith, Text, length, All,
  Bool-cases, Option-cases, subst,
}
use jecp_server.Auth.ReplayCache.{
  first, replay, Key, key_eq, Inner, MemoryReplayCache, check_entries, check_and_insert, drop_stale,
  record_first, key_of, to_ascii_lowercase,
}
use jecp_server.Auth.ReplayCache.Lru.{LruCache, without}
use jecp_server.Auth.ReplayCache.Position.{
  FoundWithin, FoundWithin-find, FoundWithin-suc, FoundWithin-take, FoundWithin-without,
}
use jecp_server.Auth.ReplayCache.Window.{
  key_eq_iff, cap-check_entries, first-FoundWithin, check_and_insert-answer,
}

pub record Call : Type 0 where
  pub agent_id : String
  pub nonce : Text
  pub now : ℕ
  pub later : ℕ

module _ (L : LruCache Key ℕ key_eq) where
  open L use {Cache, iter, peek, len, cap}

  pub run : MemoryReplayCache L → List Call → MemoryReplayCache L
  run c [] = c
  run c (a ∷ rest) = run (check_and_insert L c a.agent_id a.nonce a.now a.later).1 rest

  drop_stale-other :
      (ttl now t n : ℕ) (k j : Key) (c : Cache)
      → key_eq j k ≡ false
      → FoundWithin key_eq k t n (iter c)
      → FoundWithin key_eq k t n (iter (drop_stale L ttl now j c))
  unfolding drop_stale
  drop_stale-other ttl now t n k j c e h =
      ground (arith, L.iter-pop c j, FoundWithin-without key_eq key_eq_iff k j t n (iter c) e h)

  cap-drop_stale : (ttl now : ℕ) (j : Key) (c : Cache) → cap (drop_stale L ttl now j c) ≡ cap c
  unfolding drop_stale
  cap-drop_stale ttl now j c = ground (arith, L.cap-pop c j)

  -- A call moves an entry back by one place at most.
  check_entries-other :
      (ttl now later t n : ℕ) (k j : Key) (s : Inner L)
      → key_eq j k ≡ false
      → suc n ≤ cap s.entries
      → FoundWithin key_eq k t n (iter s.entries)
      → FoundWithin key_eq k t (suc n) (iter (check_entries L ttl now later j s).1.entries)
  unfolding check_entries
  check_entries-other ttl now later t n k j s e room h =
      let c = drop_stale L ttl now j s.entries in
      let kept = drop_stale-other ttl now t n k j s.entries e h in
      elim (Option-cases (peek c j)) [
        | inl miss ↦
            let moved : FoundWithin key_eq k t (suc n) ((j, later) ∷ without key_eq j (iter c)) =
              inr (e, FoundWithin-without key_eq key_eq_iff k j t n (iter c) e kept) in
            let fits : suc n ≤ cap c = omega (arith, cap-drop_stale ttl now j s.entries) in
            rw (miss, check_entries, record_first)
              (rw (L.iter-put c j later) (FoundWithin-take key_eq k t (suc n) (cap c) _ fits moved))
        | inr (v, hit) ↦ rw (hit, check_entries) (FoundWithin-suc key_eq k t n (iter c) kept)
      ]

  check_entries_self :
      (ttl now later t n : ℕ) (k : Key) (s : Inner L)
      → now ≤ t + ttl
      → FoundWithin key_eq k t n (iter s.entries)
      → (check_entries L ttl now later k s).1.entries ≡ s.entries
  unfolding check_entries drop_stale
  check_entries_self ttl now later t n k s fresh h =
      ground (arith, L.peek_lem s.entries k, FoundWithin-find key_eq k t n (iter s.entries) h)

  module _ (k : Key) (t : ℕ) where
    step-FoundWithin :
        (n : ℕ) (c : MemoryReplayCache L) (a : Call)
        → suc n ≤ cap c.inner.entries
        → a.now ≤ t + c.ttl
        → FoundWithin key_eq k t n (iter c.inner.entries)
        → FoundWithin key_eq k t
            (suc n)
            (iter (check_and_insert L c a.agent_id a.nonce a.now a.later).1.inner.entries)
    unfolding check_and_insert
    step-FoundWithin n c a room fresh h =
        let j = key_of L c a.agent_id a.nonce in
        elim (Bool-cases (key_eq j k)) [
          | inl same ↦
              let e : j ≡ k = (key_eq_iff j k).0 same in
              rw e (
                rw (check_entries_self c.ttl a.now a.later t n k c.inner fresh h)
                  (FoundWithin-suc key_eq k t n (iter c.inner.entries) h))
          | inr other ↦ check_entries-other c.ttl a.now a.later t n k j c.inner other room h
        ]

    run-FoundWithin :
        (n : ℕ) (c : MemoryReplayCache L) (calls : List Call)
        → length calls + n ≤ cap c.inner.entries
        → All (λ a. a.now ≤ t + c.ttl) calls
        → FoundWithin key_eq k t n (iter c.inner.entries)
        → FoundWithin key_eq k t (length calls + n) (iter (run c calls).inner.entries)
    unfolding run
    run-FoundWithin n c [] room fresh h =
        subst (λ m. FoundWithin key_eq k t m (iter c.inner.entries)) (omega arith) h
    run-FoundWithin n c (a ∷ calls) room fresh h =
        let c' = (check_and_insert L c a.agent_id a.nonce a.now a.later).1 in
        let same : cap c'.inner.entries ≡ cap c.inner.entries =
          unfold check_and_insert in cap-check_entries L c.ttl a.now a.later _ c.inner in
        subst (λ m. FoundWithin key_eq k t m (iter (run c' calls).inner.entries)) (omega arith)
          (run-FoundWithin (suc n) c' calls (omega (arith, same))
            (unfold check_and_insert in fresh.1) (step-FoundWithin n c a (omega arith) fresh.0 h))

  run_config :
      (c : MemoryReplayCache L) (calls : List Call)
      → ((run c calls).ttl ≡ c.ttl) × ((run c calls).hub_id ≡ c.hub_id)
  unfolding run check_and_insert
  run_config c [] = (refl, refl)
  run_config c (a ∷ rest) =
      run_config (check_and_insert L c a.agent_id a.nonce a.now a.later).1 rest

  -- A triple that was a first sighting is answered `replay` when it comes again, in any case of its
  -- hex digits, as long as fewer other calls came between than the cache has entries, and all of
  -- them no later than the time to live after the first sighting.
  pub replay_after_first :
      (c : MemoryReplayCache L) (a : Call) (calls : List Call) (b : Call)
      → (check_and_insert L c a.agent_id a.nonce a.now a.later).0 ≡ first
      → length calls < cap c.inner.entries
      → All (λ x. x.now ≤ a.later + c.ttl) calls
      → b.now ≤ a.later + c.ttl
      → b.agent_id ≡ a.agent_id
      → to_ascii_lowercase b.nonce ≡ to_ascii_lowercase a.nonce
      → let c' = run (check_and_insert L c a.agent_id a.nonce a.now a.later).1 calls in
        (check_and_insert L c' b.agent_id b.nonce b.now b.later).0 ≡ replay
  replay_after_first c a calls b e room fresh in_time same_agent same_nonce =
      let c₁ = (check_and_insert L c a.agent_id a.nonce a.now a.later).1 in
      let k = key_of L c a.agent_id a.nonce in
      let c₂ = run c₁ calls in
      let ttl₁ : c₁.ttl ≡ c.ttl = unfold check_and_insert in refl in
      let hub₁ : c₁.hub_id ≡ c.hub_id = unfold check_and_insert in refl in
      let same : cap c₁.inner.entries ≡ cap c.inner.entries =
        unfold check_and_insert in cap-check_entries L c.ttl a.now a.later k c.inner in
      let front : FoundWithin key_eq k a.later 1 (iter c₁.inner.entries) =
        unfold check_and_insert in
        first-FoundWithin L c.ttl a.now a.later k c.inner (omega arith)
          (unfold check_and_insert in e) in
      let kept =
        run-FoundWithin k a.later 1 c₁ calls (omega (arith, same))
          (unfold check_and_insert in fresh) front in
      ground (
        arith,
        check_and_insert-answer L c₂ b.agent_id b.nonce b.now b.later,
        run_config c₁ calls,
        ttl₁,
        hub₁,
        same_agent,
        same_nonce,
        FoundWithin-find key_eq k a.later (length calls + 1) (iter c₂.inner.entries) kept,
      )
