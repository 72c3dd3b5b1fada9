-- ===== src/Live/Answers.antt =====
-- What a lookup answers, and what it leaves in the payload cache (backends/live.py).
use opencti_middleware.Base.{
  ℕ, ◌+◌, String, ◌≡◌, ◌⊎◌, refl, ◌∙◌, sym, ap, inl, inr, Bool, true, false, Option, none, some, [],
  ◌∷◌, arith, ltb,
}
use opencti_middleware.Base.Text.{concat, str_eq-false}
use opencti_middleware.Base.Result.{Result, Exception, ok, raise, breaker_open, opencti_error}
use opencti_middleware.Client.{Client}
use opencti_middleware.Cache.{Payload, PayloadCache, cache_get, cache_set, active_ttl, set_degraded}
use opencti_middleware.Cache.Bounds.{IsValid, cache_get-IsValid}
use opencti_middleware.Cache.Reads.{cache_get-cache_set_self}
use opencti_middleware.Mapper.Payload.{degraded}
use opencti_middleware.Indicators.{Normalized, lookupable, cache_key}
use opencti_middleware.Live.{
  World, cache_read, cache_written, LookupResult, LiveBackend, fetch, payload_key, settle_lookup,
  lookup_read, live_lookup,
}

abbrev pub is_upstream : Exception → Bool
is_upstream (breaker_open m) = true
is_upstream (opencti_error m) = true
is_upstream _ = false

-- an answer from the payload cache, which stays as reading it left it
pub record FromCache (cached : Option Payload) (payloads : PayloadCache) (r : LookupResult)
    (payloads' : PayloadCache) : Type 0 where
  pub source : r.source ≡ "payload_cache"
  pub kept : cached ≡ some r.payload
  pub unchanged : payloads' ≡ payloads

-- an answer of OpenCTI, which is written to the cache
pub record FromUpstream (cached : Option Payload) (fetched : Result Payload)
    (write : Payload → PayloadCache) (r : LookupResult) (payloads' : PayloadCache) : Type 0 where
  pub source : r.source ≡ "opencti"
  pub absent : cached ≡ none
  pub answered : fetched ≡ ok r.payload
  pub written : payloads' ≡ write r.payload

-- the degraded payload, for a failure of OpenCTI; the cache stays as reading it left it
pub record Degraded (cached : Option Payload) (fetched : Result Payload) (payloads : PayloadCache)
    (r : LookupResult) (payloads' : PayloadCache) : Type 0 where
  pub source : r.source ≡ "degraded"
  pub absent : cached ≡ none
  pub error : Exception
  pub failed : fetched ≡ raise error
  pub upstream : is_upstream error ≡ true
  pub payload : r.payload ≡ degraded
  pub unchanged : payloads' ≡ payloads

-- What a lookup keeps to, from what the cache has and what a fetch comes to.
abbrev pub KeepsCache :
    Option Payload
    → Result Payload
    → PayloadCache
    → (Payload → PayloadCache)
    → Result LookupResult × LiveBackend
    → Type 0
KeepsCache cached fetched payloads write (raise e, b') =
    (cached ≡ none) × (fetched ≡ raise e) × (is_upstream e ≡ false) × (b'.payloads ≡ payloads)
KeepsCache cached fetched payloads write (ok r, b') =
    FromCache cached payloads r b'.payloads
    ⊎ FromUpstream cached fetched write r b'.payloads
    ⊎ Degraded cached fetched payloads r b'.payloads

-- the cache after a payload is written at the end of a fetch
abbrev pub cache_with : World → Normalized → LiveBackend → PayloadCache → Payload → PayloadCache
cache_with w n b payloads payload =
    cache_set (w.clock cache_written) (payload_key b n) payload payloads

settle_lookup-KeepsCache :
    (w : World) (n : Normalized) (b : LiveBackend) (r : Result Payload × Client)
    → KeepsCache none r.0 b.payloads (cache_with w n b b.payloads) (settle_lookup w n b r)
unfolding settle_lookup
settle_lookup-KeepsCache w n b (ok payload, c) =
    inr (inl (record { source = refl; absent = refl; answered = refl; written = refl }))
settle_lookup-KeepsCache w n b (raise (breaker_open m), c) = inr (
    inr (record {
      source = refl;
      absent = refl;
      error = breaker_open m;
      failed = refl;
      upstream = refl;
      payload = refl;
      unchanged = refl;
    }))
settle_lookup-KeepsCache w n b (raise (opencti_error m), c) = inr (
    inr (record {
      source = refl;
      absent = refl;
      error = opencti_error m;
      failed = refl;
      upstream = refl;
      payload = refl;
      unchanged = refl;
    }))
settle_lookup-KeepsCache w n b (raise _, c) = (refl, refl, refl, refl)

lookup_read-KeepsCache :
    (w : World) (n : Normalized) (b : LiveBackend) (r : Option Payload × PayloadCache)
    → KeepsCache r.0
        (fetch w b.settings n b.client).0
        r.1
        (cache_with w n b r.1)
        (lookup_read w n b r)
unfolding lookup_read
lookup_read-KeepsCache w n b (some payload, payloads) =
    inl (record { source = refl; kept = refl; unchanged = refl })
lookup_read-KeepsCache w n b (none, payloads) =
    settle_lookup-KeepsCache w n (record b { payloads = payloads }) (fetch w b.settings n b.client)

-- A value that can be looked up gets the payload that the cache has for it; or, where it has none, the
-- payload that OpenCTI answers, which is written to the cache; or, where OpenCTI fails or the breaker is
-- open, the degraded payload. Any other exception of the fetch comes out. Each answer names its source,
-- and but for the answer of OpenCTI the cache is as reading it left it.
pub live_lookup-KeepsCache :
    (w : World) (n : Normalized) (b : LiveBackend)
    → lookupable n ≡ true
    → KeepsCache
        (cache_get (w.clock cache_read) (payload_key b n) b.payloads).0
        (fetch w b.settings n b.client).0
        (cache_get (w.clock cache_read) (payload_key b n) b.payloads).1
        (cache_with w n b (cache_get (w.clock cache_read) (payload_key b n) b.payloads).1)
        (live_lookup w n b)
unfolding live_lookup
live_lookup-KeepsCache w n b h =
    rw (h, live_lookup)
      (lookup_read-KeepsCache w n b (cache_get (w.clock cache_read) (payload_key b n) b.payloads))

settle_lookup-settings :
    (w : World) (n : Normalized) (b : LiveBackend) (r : Result Payload × Client)
    → (settle_lookup w n b r).1.settings ≡ b.settings
unfolding settle_lookup
settle_lookup-settings w n b (ok payload, c) = refl
settle_lookup-settings w n b (raise (breaker_open m), c) = refl
settle_lookup-settings w n b (raise (opencti_error m), c) = refl
settle_lookup-settings w n b (raise _, c) = refl

lookup_read-settings :
    (w : World) (n : Normalized) (b : LiveBackend) (r : Option Payload × PayloadCache)
    → (lookup_read w n b r).1.settings ≡ b.settings
unfolding lookup_read
lookup_read-settings w n b (some payload, payloads) = refl
lookup_read-settings w n b (none, payloads) =
    settle_lookup-settings w n (record b { payloads = payloads }) (fetch w b.settings n b.client)

live_lookup-settings :
    (w : World) (n : Normalized) (b : LiveBackend) → (live_lookup w n b).1.settings ≡ b.settings
unfolding live_lookup
live_lookup-settings w n b = ground (
  arith,
  lookup_read-settings w n b (cache_get (w.clock cache_read) (payload_key b n) b.payloads),
)

-- the cache of a backend, with its degraded flag set
abbrev pub with_degraded : Bool → LiveBackend → LiveBackend
with_degraded d b = record b { payloads = set_degraded d b.payloads }

cache_get-active_ttl :
    (now : ℕ) (key : String) (c : PayloadCache) → active_ttl (cache_get now key c).1 ≡ active_ttl c
unfolding cache_get
cache_get-active_ttl now key c = ground arith

lookup_cached :
    (w : World) (n : Normalized) (b : LiveBackend) (p : Payload)
    → lookupable n ≡ true
    → (cache_get (w.clock cache_read) (payload_key b n) b.payloads).0 ≡ some p
    → ((live_lookup w n b).0 ≡ ok (record { payload = p; source = "payload_cache" }))
      × ((live_lookup w n b).1.client ≡ b.client)
unfolding live_lookup lookup_read
lookup_cached w n b p h e =
    rw (h, live_lookup) (go (cache_get (w.clock cache_read) (payload_key b n) b.payloads) e)
  where
    go :
        (r : Option Payload × PayloadCache)
        → r.0 ≡ some p
        → ((lookup_read w n b r).0 ≡ ok (record { payload = p; source = "payload_cache" }))
          × ((lookup_read w n b r).1.client ≡ b.client)
    go (some q, payloads) e = ground arith
    go (none, payloads) e = cc

-- An answer that a lookup got from OpenCTI, with a valid payload cache, is given again from the
-- cache, without a request, until its time to live is over; a degraded flag that is set meanwhile
-- changes nothing for it.
pub live_lookup_again :
    (w w' : World) (n : Normalized) (d : Bool) (b : LiveBackend) (p : Payload)
    → lookupable n ≡ true
    → IsValid b.payloads
    → (live_lookup w n b).0 ≡ ok (record { payload = p; source = "opencti" })
    → ltb (w'.clock cache_read) (w.clock cache_written + active_ttl b.payloads) ≡ true
    → ((live_lookup w' n (with_degraded d (live_lookup w n b).1)).0
        ≡ ok (record { payload = p; source = "payload_cache" }))
      × ((live_lookup w' n (with_degraded d (live_lookup w n b).1)).1.client
          ≡ (live_lookup w n b).1.client)
live_lookup_again w w' n d b p h v e fresh =
    let key = payload_key b n in
    let read = (cache_get (w.clock cache_read) key b.payloads).1 in
    let kept = live_lookup-KeepsCache w n b h in
    let written = written_of _ e kept in
    let key' : payload_key (live_lookup w n b).1 n ≡ key =
      ap (λ s. concat (s.cache_key_version ∷ ":" ∷ cache_key n ∷ []))
        (live_lookup-settings w n b) in
    let ttl = cache_get-active_ttl (w.clock cache_read) key b.payloads in
    let got =
      cache_get-cache_set_self (w.clock cache_written) (w'.clock cache_read) key p d read
        (cache_get-IsValid (w.clock cache_read) key b.payloads v) in
    lookup_cached w' n (with_degraded d (live_lookup w n b).1) p h (
      rw (key', written)
        (got
          ∙ rw (ap (λ t. ltb (w'.clock cache_read) (w.clock cache_written + t)) ttl ∙ fresh) refl))
  where
    written_of :
        (r : Result LookupResult × LiveBackend)
        → r.0 ≡ ok (record { payload = p; source = "opencti" })
        → KeepsCache
            (cache_get (w.clock cache_read) (payload_key b n) b.payloads).0
            (fetch w b.settings n b.client).0
            (cache_get (w.clock cache_read) (payload_key b n) b.payloads).1
            (cache_with w n b (cache_get (w.clock cache_read) (payload_key b n) b.payloads).1)
            r
        → r.1.payloads
          ≡ cache_set
              (w.clock cache_written)
              (payload_key b n)
              p
              (cache_get (w.clock cache_read) (payload_key b n) b.payloads).1
    written_of (raise x, b') e k = cc
    written_of (ok r, b') e k =
        let same : r ≡ record { payload = p; source = "opencti" } = cc in
        let source : r.source ≡ "opencti" = ap (λ r. r.source) same in
        let payload : r.payload ≡ p = ap (λ r. r.payload) same in
        elim k [
          | inl cached ↦
              absurd (str_eq-false "payload_cache" "opencti" refl (sym cached.source ∙ source))
          | inr (inl asked) ↦
              asked.written
              ∙ ap
                  (cache_with w n b (cache_get (w.clock cache_read) (payload_key b n) b.payloads).1)
                  payload
          | inr (inr failed) ↦
              absurd (str_eq-false "degraded" "opencti" refl (sym failed.source ∙ source))
        ]
