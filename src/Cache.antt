-- ===== src/Cache.antt =====
-- PayloadCache of cache/payload.py. `_data` is the ordered dictionary, least recently used entry
-- first; a time is a reading of the monotonic clock.
pub mod Bounds
pub mod Reads
mod Tests
use opencti_middleware.Base.{
  ℕ, ◌+◌, ◌*◌, ◌/◌, String, Bool, true, false, Option, none, some, List, [], ◌∷◌, ◌++◌, length, max,
  ltb, leb, if◌then◌else◌, find, without,
}

-- `dict[str, str]`
abbrev pub Payload : Type 0
Payload = List (String × String)

pub record Entry : Type 0 where
  pub payload : Payload
  pub expires_at : ℕ

pub record CacheStats : Type 0 where
  pub entries : ℕ
  pub max_entries : ℕ
  pub hits : ℕ
  pub misses : ℕ
  pub evictions : ℕ
  pub expirations : ℕ
  pub approx_bytes : ℕ

pub record PayloadCache : Type 0 where
  pub entry_bytes : ℕ
  pub max_entries : ℕ
  pub ttl : ℕ
  pub degraded_ttl : ℕ
  pub degraded : Bool
  pub entries : List (String × Entry)
  pub hits : ℕ
  pub misses : ℕ
  pub evictions : ℕ
  pub expirations : ℕ

unfoldable pub new_cache : ℕ → ℕ → ℕ → ℕ → PayloadCache
new_cache budget_bytes max_entry_bytes ttl_s degraded_ttl_s = record {
  entry_bytes = max 1 max_entry_bytes;
  max_entries = max 1 (budget_bytes / max 1 max_entry_bytes);
  ttl = ttl_s;
  degraded_ttl = degraded_ttl_s;
  degraded = false;
  entries = [];
  hits = 0;
  misses = 0;
  evictions = 0;
  expirations = 0;
}

unfoldable pub set_degraded : Bool → PayloadCache → PayloadCache
set_degraded degraded c = record c { degraded = degraded }

abbrev pub active_ttl : PayloadCache → ℕ
active_ttl c = if c.degraded then c.degraded_ttl else c.ttl

-- `get`, at the time `now`
unfoldable pub cache_get : ℕ → String → PayloadCache → Option Payload × PayloadCache
cache_get now key c = elim (find key c.entries) [
  | none ↦ (none, record c { misses = c.misses + 1 })
  | some entry ↦
      if leb entry.expires_at now
      then (
        none,
        record c {
          entries = without key c.entries;
          expirations = c.expirations + 1;
          misses = c.misses + 1;
        },
      )
      else (
        some entry.payload,
        record c { entries = without key c.entries ++ (key, entry) ∷ []; hits = c.hits + 1 },
      )
]

-- the loop of `set`: entries leave from the old end, and are counted
unfoldable pub evict : ℕ → List (String × Entry) → List (String × Entry)
evict max_entries [] = []
evict max_entries (e ∷ entries) =
    let rest = evict max_entries entries in
    if ltb max_entries (length (e ∷ entries)) then rest else e ∷ entries

unfoldable pub evicted : ℕ → List (String × Entry) → ℕ
evicted max_entries [] = 0
evicted max_entries (e ∷ entries) =
    let rest = evicted max_entries entries in
    if ltb max_entries (length (e ∷ entries)) then rest + 1 else 0

-- `set`, at the time `now`
unfoldable pub cache_set : ℕ → String → Payload → PayloadCache → PayloadCache
cache_set now key payload c =
    let entry : Entry = record { payload = payload; expires_at = now + active_ttl c } in
    let entries = without key c.entries ++ (key, entry) ∷ [] in
    record c {
      entries = evict c.max_entries entries;
      evictions = c.evictions + evicted c.max_entries entries;
    }

unfoldable pub invalidate : String → PayloadCache → Bool × PayloadCache
invalidate key c = elim (find key c.entries) [
  | none ↦ (false, c)
  | some _ ↦ (true, record c { entries = without key c.entries })
]

unfoldable pub clear : PayloadCache → PayloadCache
clear c = record c { entries = [] }

unfoldable pub cache_stats : PayloadCache → CacheStats
cache_stats c = record {
  entries = length c.entries;
  max_entries = c.max_entries;
  hits = c.hits;
  misses = c.misses;
  evictions = c.evictions;
  expirations = c.expirations;
  approx_bytes = length c.entries * c.entry_bytes;
}
