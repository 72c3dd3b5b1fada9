-- ===== src/Cache/Bounds.antt =====
-- The cache of cache/payload.py stays within its budget, and its counters add up.
use opencti_middleware.Base.{
  ℕ, ◌+◌, ◌*◌, ◌/◌, ◌≤◌, ◌<◌, max, String, ◌≡◌, refl, ◌∙◌, Bool, List, [], ◌∷◌, ◌++◌, arith, inl,
  inr, length, length-append, leb, Bool-cases, Option-cases, find, without, DistinctKeys,
  find-without, length-without-le, length-without_found, without-DistinctKeys, append-DistinctKeys,
  eq_refl,
}
use native.Mathlib.Nat.{div-add-mod}
use opencti_middleware.Cache.{
  Payload, Entry, PayloadCache, new_cache, set_degraded, cache_get, evict, evicted, cache_set,
  invalidate, clear, cache_stats,
}

-- At most `max_entries` entries, each key once.
pub record IsValid (c : PayloadCache) : Type 0 where
  pub positive : 0 < c.max_entries
  pub bounded : length c.entries ≤ c.max_entries
  pub distinct : DistinctKeys c.entries

length-evict-le : (n : ℕ) (l : List (String × Entry)) → length (evict n l) ≤ n
unfolding evict
length-evict-le n [] = omega arith
length-evict-le n (e ∷ l) = ground (arith, length-evict-le n l)

evict-DistinctKeys : (n : ℕ) (l : List (String × Entry)) → DistinctKeys l → DistinctKeys (evict n l)
unfolding evict
evict-DistinctKeys n [] d = tt
evict-DistinctKeys n (e ∷ l) d = ground (arith, evict-DistinctKeys n l)

pub length-evict : (n : ℕ) (l : List (String × Entry)) → length (evict n l) + evicted n l ≡ length l
unfolding evict evicted
length-evict n [] = refl
length-evict n (e ∷ l) = ground (arith, length-evict n l)

pub new_cache-IsValid :
    (budget entry ttl degraded : ℕ) → IsValid (new_cache budget entry ttl degraded)
unfolding new_cache
new_cache-IsValid budget entry ttl degraded = record {
  positive = omega arith;
  bounded = omega arith;
  distinct = tt;
}

-- the entries with the one of `key` at the young end
moved-DistinctKeys :
    (key : String) (e : Entry) (l : List (String × Entry))
    → DistinctKeys l
    → DistinctKeys (without key l ++ (key, e) ∷ [])
moved-DistinctKeys key e l d =
    append-DistinctKeys key e (without key l) (rw (find-without key key l, eq_refl key))
      (without-DistinctKeys key l d)

-- A write keeps the cache valid: the ceiling on its entries holds after it.
pub cache_set-IsValid :
    (now : ℕ) (key : String) (p : Payload) (c : PayloadCache)
    → IsValid c
    → IsValid (cache_set now key p c)
unfolding cache_set
cache_set-IsValid now key p c v = record {
  positive = v.positive;
  bounded = length-evict-le c.max_entries _;
  distinct = evict-DistinctKeys c.max_entries _ (moved-DistinctKeys key _ c.entries v.distinct);
}

-- A read keeps the cache valid, whether it hits, misses or finds an entry expired.
pub cache_get-IsValid :
    (now : ℕ) (key : String) (c : PayloadCache) → IsValid c → IsValid (cache_get now key c).1
unfolding cache_get
cache_get-IsValid now key c v = elim (Option-cases (find key c.entries)) [
  | inl e ↦ rw (e, cache_get) assumption
  | inr (entry, e) ↦ elim (Bool-cases (leb entry.expires_at now)) [
    | inl old ↦
        rw (e, cache_get, old)
          (record {
            positive = v.positive;
            bounded = omega (arith, length-without-le key c.entries);
            distinct = without-DistinctKeys key c.entries v.distinct;
          })
    | inr fresh ↦
        rw (e, cache_get, fresh)
          (record {
            positive = v.positive;
            bounded = omega (
              arith,
              length-without_found key c.entries entry e,
              length-append (without key c.entries) ((key, entry) ∷ []),
            );
            distinct = moved-DistinctKeys key entry c.entries v.distinct;
          })
  ]
]

-- The calls that the cache serves.
pub data Call : Type 0 where
  get : ℕ → String → Call
  set : ℕ → String → Payload → Call
  invalidated : String → Call
  cleared : Call
  degraded : Bool → Call

unfoldable pub call : Call → PayloadCache → PayloadCache
call (get now key) c = (cache_get now key c).1
call (set now key p) c = cache_set now key p c
call (invalidated key) c = (invalidate key c).1
call cleared c = clear c
call (degraded b) c = set_degraded b c

unfoldable pub call_all : List Call → PayloadCache → PayloadCache
call_all [] c = c
call_all (k ∷ ks) c = call_all ks (call k c)

invalidate-IsValid : (key : String) (c : PayloadCache) → IsValid c → IsValid (invalidate key c).1
unfolding invalidate
invalidate-IsValid key c v =
    ground (arith, length-without-le key c.entries, without-DistinctKeys key c.entries)

call-IsValid : (k : Call) (c : PayloadCache) → IsValid c → IsValid (call k c)
unfolding call clear set_degraded
call-IsValid (get now key) c v = cache_get-IsValid now key c v
call-IsValid (set now key p) c v = cache_set-IsValid now key p c v
call-IsValid (invalidated key) c v = invalidate-IsValid key c v
call-IsValid cleared c v = record { positive = v.positive; bounded = omega arith; distinct = tt }
call-IsValid (degraded b) c v = assumption

call-sizes :
    (k : Call) (c : PayloadCache)
    → ((call k c).max_entries ≡ c.max_entries) × ((call k c).entry_bytes ≡ c.entry_bytes)
unfolding call clear set_degraded cache_get cache_set invalidate
call-sizes (get now key) c = ground arith
call-sizes (set now key p) c = (refl, refl)
call-sizes (invalidated key) c = ground arith
call-sizes cleared c = (refl, refl)
call-sizes (degraded b) c = (refl, refl)

mul_mono_left : {a b : ℕ} (e : ℕ) → a ≤ b → a * e ≤ b * e
mul_mono_left e h = grind arith

call_all-within :
    (ks : List Call) (c : PayloadCache) (m e : ℕ)
    → IsValid c
    → c.max_entries ≡ m
    → c.entry_bytes ≡ e
    → length (call_all ks c).entries * (call_all ks c).entry_bytes ≤ m * e
unfolding call_all
call_all-within [] c m e v p q = rw (← p, ← q) (mul_mono_left _ v.bounded)
call_all-within (k ∷ ks) c m e v p q =
    let (same_m, same_e) = call-sizes k c in
    call_all-within ks (call k c) m e (call-IsValid k c v) (same_m ∙ p) (same_e ∙ q)

budget-le : (b e : ℕ) → 0 < e → max 1 (b / e) * e ≤ max b e
budget-le b e pos = elim (Bool-cases (leb 1 (b / e))) [
  | inl some_fit ↦
      let h : max 1 (b / e) ≡ b / e = ground arith in rw h (omega (arith, div-add-mod b e))
  | inr none_fit ↦ let h : max 1 (b / e) ≡ 1 = ground arith in rw h (omega arith)
]

-- Whatever calls a new cache has served, the bytes that its statistics report are within the budget,
-- unless the budget is less than one entry: then they are at most one entry.
pub call_all-approx_bytes :
    (budget max_entry_bytes ttl degraded_ttl : ℕ) (ks : List Call)
    → (cache_stats (call_all ks (new_cache budget max_entry_bytes ttl degraded_ttl))).approx_bytes
      ≤ max budget (max 1 max_entry_bytes)
unfolding cache_stats
call_all-approx_bytes budget max_entry_bytes ttl degraded_ttl ks =
    let c = new_cache budget max_entry_bytes ttl degraded_ttl in
    let h =
      call_all-within ks c (max 1 (budget / max 1 max_entry_bytes)) (max 1 max_entry_bytes)
        (new_cache-IsValid budget max_entry_bytes ttl degraded_ttl) (unfold new_cache in refl)
        (unfold new_cache in refl) in
    omega (arith, budget-le budget (max 1 max_entry_bytes) (omega arith))
