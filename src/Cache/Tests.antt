-- ===== src/Cache/Tests.antt =====
-- The cache on two entries.
use opencti_middleware.Base.{◌≤◌, ◌≡◌, refl, true, some, [], ◌∷◌}
use opencti_middleware.Cache.{
  Payload, PayloadCache, new_cache, set_degraded, cache_get, evict, evicted, cache_set, invalidate,
  clear, cache_stats,
}
use opencti_middleware.Cache.Bounds.{
  IsValid, new_cache-IsValid, cache_set-IsValid, Call, call, call_all, call_all-approx_bytes,
}
use opencti_middleware.Cache.Reads.{cache_get-cache_set_self}

program : Unit {0}
unfolding new_cache set_degraded cache_get cache_set evict evicted invalidate clear cache_stats call
    call_all
program = tt

abbrev hit : Payload
hit = ("found", "true") ∷ []

-- room for two entries of 1024 bytes
abbrev small : PayloadCache
small = new_cache 2500 1024 100 10

abbrev two : PayloadCache
two = cache_set 2 "b" hit (cache_set 1 "a" hit small)

-- a read makes an entry young, so the next write pushes out the other
lru_order :
    (cache_set 4 "c" hit (cache_get 3 "a" two).1).entries
    ≡ ("a", record { payload = hit; expires_at = 101 })
      ∷ ("c", record { payload = hit; expires_at = 104 })
      ∷ []
unfolding program
lru_order = refl

two-IsValid : IsValid two
two-IsValid =
    cache_set-IsValid 2 "b" hit _
      (cache_set-IsValid 1 "a" hit small (new_cache-IsValid 2500 1024 100 10))

call_all-approx_bytes_example :
    (cache_stats (
      call_all
        (Call.set 1 "a" hit ∷ Call.set 2 "b" hit ∷ Call.set 3 "c" hit ∷ [])
        small)).approx_bytes
    ≤ 2500
call_all-approx_bytes_example =
    call_all-approx_bytes 2500 1024 100 10
      (Call.set 1 "a" hit ∷ Call.set 2 "b" hit ∷ Call.set 3 "c" hit ∷ [])

-- the flag that is set after the write does not shorten the life of the entry
cache_get-cache_set_self_example :
    (cache_get 90 "c" (set_degraded true (cache_set 4 "c" hit two))).0 ≡ some hit
unfolding program
cache_get-cache_set_self_example = cache_get-cache_set_self 4 90 "c" hit true two two-IsValid
