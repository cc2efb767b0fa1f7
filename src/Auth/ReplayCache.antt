-- ===== src/Auth/ReplayCache.antt =====
-- src/auth/replay_cache.rs: the cache of seen (hub, agent, nonce) triples.
-- The mutex makes each call one step. The crate `lru` is the parameter `LruCache`: its documented
-- view, most recently used entry first, and what `peek`, `pop`, `put` and `len` do to it.
-- `Instant` and `Duration` are nanoseconds.
pub mod Lru
pub mod Position
pub mod Window
pub mod Flood
mod Tests
use Prim.Native.String.{String}
use text.Mathlib.Text.{◌==◌ as str_eq}
use jecp_server.Prelude.{
  ℕ, ◌+◌, ◌-◌, ◌*◌, ◌%◌, ◌^◌, Bool, true, false, ◌&&◌, Option, none, some, List, [], ◌∷◌, map, max,
  Text, ltb, leb, text_eq, if◌then◌else◌,
}
use Lru.{LruCache}

pub data Replay : Type 0 where
  first replay : Replay

pub record Key : Type 0 where
  pub hub_id : String
  pub agent_id : String
  pub nonce : Text

pub key_eq : Key → Key → Bool
key_eq a b = str_eq a.hub_id b.hub_id && (str_eq a.agent_id b.agent_id && text_eq a.nonce b.nonce)

-- `to_ascii_lowercase`, byte by byte.
abbrev pub to_ascii_lowercase : Text → Text
to_ascii_lowercase = map (λ c. if leb 65 c && leb c 90 then c + 32 else c)

-- `+= 1` on a `u64`.
abbrev pub succ_u64 : ℕ → ℕ
succ_u64 n = (n + 1) % 2 ^ 64

pub record CacheStats : Type 0 where
  pub size : ℕ
  pub capacity : ℕ
  pub evictions_total : ℕ
  pub hits_total : ℕ
  pub misses_total : ℕ

module _ (L : LruCache Key ℕ key_eq) where
  open L use {Cache, peek, pop, put, len, cap}

  pub record Inner : Type 0 where
    pub entries : Cache
    pub evictions : ℕ
    pub hits : ℕ
    pub misses : ℕ

  pub record MemoryReplayCache : Type 0 where
    pub hub_id : String
    pub ttl : ℕ
    pub inner : Inner

  abbrev pub is_stale : ℕ → ℕ → Option ℕ → Bool
  is_stale ttl now none = false
  is_stale ttl now (some inserted) = ltb ttl (now - inserted)

  pub drop_stale : ℕ → ℕ → Key → Cache → Cache
  drop_stale ttl now key c = if is_stale ttl now (peek c key) then pop c key else c

  pub record_first : ℕ → Key → Inner → Replay × Inner
  record_first now key s = (
    first,
    record s {
      entries = put s.entries key now;
      evictions = if leb (cap s.entries) (len s.entries) then succ_u64 s.evictions else s.evictions;
      misses = succ_u64 s.misses;
    },
  )

  -- `now` is the reading of `elapsed`, `later` that of `Instant::now` for the new entry.
  pub check_entries : ℕ → ℕ → ℕ → Key → Inner → Replay × Inner
  unfolding drop_stale record_first
  check_entries ttl now later key s =
      let s' = record s { entries = drop_stale ttl now key s.entries } in
      elim (peek s'.entries key) [
        | some inserted ↦ (replay, record s' { hits = succ_u64 s'.hits })
        | none ↦ record_first later key s'
      ]

  abbrev pub key_of : MemoryReplayCache → String → Text → Key
  key_of c agent_id nonce = record {
    hub_id = c.hub_id;
    agent_id = agent_id;
    nonce = to_ascii_lowercase nonce;
  }

  pub check_and_insert : MemoryReplayCache → String → Text → ℕ → ℕ → Replay × MemoryReplayCache
  check_and_insert c agent_id nonce now later =
      let (r, s) = check_entries c.ttl now later (key_of c agent_id nonce) c.inner in
      (r, record c { inner = s })

  pub new : String → ℕ → ℕ → MemoryReplayCache
  new hub_id capacity ttl = record {
    hub_id = hub_id;
    ttl = ttl;
    inner = record { entries = L.new (max capacity 1); evictions = 0; hits = 0; misses = 0 };
  }

  pub stats : MemoryReplayCache → CacheStats
  stats c = record {
    size = len c.inner.entries;
    capacity = cap c.inner.entries;
    evictions_total = c.inner.evictions;
    hits_total = c.inner.hits;
    misses_total = c.inner.misses;
  }
