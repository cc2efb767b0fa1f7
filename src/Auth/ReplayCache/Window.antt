-- ===== src/Auth/ReplayCache/Window.antt =====
-- One call of the replay cache: what it answers, and what it keeps.
use text.Mathlib.TextEquality.{eq_iff}
use Prim.Native.String.{String}
use jecp_server.Prelude.{
  ℕ, ◌-◌, ◌<◌, ◌≡◌, ◌↔◌, refl, Bool, true, false, Option, none, some, List, [], ◌∷◌, arith, Text,
  text_eq_iff, leb, if◌then◌else◌,
}
use jecp_server.Auth.ReplayCache.{
  first, replay, Key, key_eq, Inner, MemoryReplayCache, check_entries, check_and_insert, drop_stale,
  key_of,
}
use jecp_server.Auth.ReplayCache.Lru.{LruCache, find, without}
use jecp_server.Auth.ReplayCache.Position.{FoundWithin, FoundWithin-take}

pub key_eq_iff : (a b : Key) → (key_eq a b ≡ true) ↔ (a ≡ b)
unfolding key_eq
key_eq_iff a b = (
  λ h.
      ground (
        arith,
        eq_iff a.hub_id b.hub_id,
        eq_iff a.agent_id b.agent_id,
        text_eq_iff a.nonce b.nonce,
      ),
  λ e. ground (
    arith,
    e,
    eq_iff a.hub_id b.hub_id,
    eq_iff a.agent_id b.agent_id,
    text_eq_iff a.nonce b.nonce,
  ),
)

find-without_self : (k : Key) (l : List (Key × ℕ)) → find key_eq k (without key_eq k l) ≡ none
unfolding find without
find-without_self k [] = refl
find-without_self k ((j, v) ∷ l) = ground (arith, find-without_self k l)

module _ (L : LruCache Key ℕ key_eq) where
  open L use {Cache, iter, peek, len, cap}

  -- Seen: an entry of the key that is not older than the time to live.
  abbrev pub is_seen : ℕ → ℕ → Option ℕ → Bool
  is_seen ttl now none = false
  is_seen ttl now (some inserted) = leb (now - inserted) ttl

  peek-drop_stale :
      (ttl now : ℕ) (k : Key) (c : Cache)
      → peek (drop_stale L ttl now k c) k ≡ (if is_seen ttl now (peek c k) then peek c k else none)
  unfolding drop_stale
  peek-drop_stale ttl now k c =
      ground (arith, L.peek_lem (L.pop c k) k, L.iter-pop c k, find-without_self k (iter c))

  -- A call answers `replay` exactly when its triple is in the cache and not older than the time to
  -- live.
  pub check_and_insert-answer :
      (c : MemoryReplayCache L) (agent : String) (nonce : Text) (now later : ℕ)
      → (check_and_insert L c agent nonce now later).0 ≡ (
          if is_seen c.ttl now (find key_eq (key_of L c agent nonce) (iter c.inner.entries))
          then replay
          else first)
  unfolding check_and_insert check_entries
  check_and_insert-answer c agent nonce now later = ground (
    arith,
    peek-drop_stale c.ttl now (key_of L c agent nonce) c.inner.entries,
    L.peek_lem c.inner.entries (key_of L c agent nonce),
  )

  pub cap-check_entries :
      (ttl now later : ℕ) (k : Key) (s : Inner L)
      → cap (check_entries L ttl now later k s).1.entries ≡ cap s.entries
  unfolding check_entries drop_stale
  cap-check_entries ttl now later k s = ground (
    arith,
    L.cap-pop s.entries k,
    L.cap-put s.entries k later,
    L.cap-put (L.pop s.entries k) k later,
  )

  -- A first sighting puts its triple at the front.
  pub first-FoundWithin :
      (ttl now later : ℕ) (k : Key) (s : Inner L)
      → 0 < cap s.entries
      → (check_entries L ttl now later k s).0 ≡ first
      → FoundWithin key_eq k later 1 (iter (check_entries L ttl now later k s).1.entries)
  unfolding check_entries drop_stale
  first-FoundWithin ttl now later k s pos h = ground (
    arith,
    key_eq_iff k k,
    L.cap-pop s.entries k,
    L.iter-put s.entries k later,
    L.iter-put (L.pop s.entries k) k later,
    FoundWithin-take key_eq k later 1 (cap s.entries)
        ((k, later) ∷ without key_eq k (iter s.entries)),
    FoundWithin-take key_eq k later 1 (cap s.entries)
        ((k, later) ∷ without key_eq k (iter (L.pop s.entries k))),
  )
