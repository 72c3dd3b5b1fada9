-- ===== src/Live/Traffic.antt =====
-- How many requests a lookup sends to OpenCTI (backends/live.py).
use opencti_middleware.Base.{
  ℕ, ◌+◌, ◌≤◌, String, ◌≡◌, refl, Bool, true, false, ◌&&◌, Option, none, some, arith, inl, inr,
  Bool-cases, Option-cases, if◌then◌else◌,
}
use opencti_middleware.Base.Json.{Json}
use opencti_middleware.Base.Result.{Result, ok, raise, breaker_open, opencti_error}
use opencti_middleware.Breaker.{allows}
use opencti_middleware.Client.{Client, Outcome, execute}
use opencti_middleware.Client.Outcomes.{execute-Accounted}
use opencti_middleware.Settings.{Settings}
use opencti_middleware.Cache.{Payload, PayloadCache, cache_get}
use opencti_middleware.Indicators.{IndicatorType, domain, Normalized, lookupable}
use opencti_middleware.Live.{
  World, Reading, host_asked, host_settled, exact_asked, exact_settled, cache_read, LiveBackend,
  query, fallback_host, fetch_host, fetch, payload_key, settle_lookup, lookup_read, live_lookup,
}

-- between none and `k` more requests
abbrev pub SendsAtMost : ℕ → Client → Client → Type 0
SendsAtMost k c c' = (c.sent ≤ c'.sent) × (c'.sent ≤ c.sent + k)

execute-SendsAtMost :
    (py_str : Json → String) (now later : ℕ) (first second : Outcome) (c : Client)
    → SendsAtMost 2 c (execute py_str now later true first second c).1
execute-SendsAtMost py_str now later first second c =
    let (refused, passed) = execute-Accounted py_str later now true first second c in
    elim (Bool-cases (allows now c.breaker)) [
      | inl pass ↦ let sent = (passed pass).1 in ground arith
      | inr refuse ↦ let same = (refused refuse).1 in ground arith
    ]

query-SendsAtMost :
    (w : World) (asked settled : Reading) (s : Settings) (value : String) (kind : IndicatorType)
    (match_type : String) (c : Client)
    → SendsAtMost 2 c (query w asked settled s value kind match_type c).1
unfolding query
query-SendsAtMost w asked settled s value kind match_type c =
    execute-SendsAtMost w.py.str_of _ _ _ _ c

fetch_host-SendsAtMost :
    (w : World) (s : Settings) (n : Normalized) (c : Client)
    → SendsAtMost 2 c (fetch_host w s n c).1
unfolding fetch_host
fetch_host-SendsAtMost w s n c = elim (Option-cases (fallback_host w s n)) [
  | inl e ↦ rw (e, fetch_host) (omega arith, omega arith)
  | inr (host, e) ↦
      rw (e, fetch_host) (query-SendsAtMost w host_asked host_settled s host domain "hostname" c)
]

fetch-SendsAtMost :
    (w : World) (s : Settings) (n : Normalized) (c : Client) → SendsAtMost 4 c (fetch w s n c).1
unfolding fetch
fetch-SendsAtMost w s n c =
    let exact = query-SendsAtMost w exact_asked exact_settled s n.value n.kind "exact" c in
    let again =
      fetch_host-SendsAtMost w s n
        (query w exact_asked exact_settled s n.value n.kind "exact" c).1 in
    ground arith

pub settle_lookup-client :
    (w : World) (n : Normalized) (b : LiveBackend) (r : Result Payload × Client)
    → (settle_lookup w n b r).1.client ≡ r.1
unfolding settle_lookup
settle_lookup-client w n b (ok payload, c) = refl
settle_lookup-client w n b (raise (breaker_open m), c) = refl
settle_lookup-client w n b (raise (opencti_error m), c) = refl
settle_lookup-client w n b (raise _, c) = refl

abbrev pub is_none : Option Payload → Bool
is_none none = true
is_none (some p) = false

-- whether a lookup has to ask OpenCTI: the value can be looked up and is not cached
abbrev pub asks : World → Normalized → LiveBackend → Bool
asks w n b = lookupable n && is_none (cache_get (w.clock cache_read) (payload_key b n) b.payloads).0

lookup_read-SendsAtMost :
    (w : World) (n : Normalized) (b : LiveBackend) (r : Option Payload × PayloadCache)
    → SendsAtMost (if is_none r.0 then 4 else 0) b.client (lookup_read w n b r).1.client
unfolding lookup_read
lookup_read-SendsAtMost w n b (some payload, payloads) = (omega arith, omega arith)
lookup_read-SendsAtMost w n b (none, payloads) =
    rw (settle_lookup-client w n (record b { payloads = payloads }) (fetch w b.settings n b.client))
      (fetch-SendsAtMost w b.settings n b.client)

-- A lookup sends at most four requests, two for the value and two for its hostname, and none for a
-- value that is skipped or cached.
pub live_lookup-SendsAtMost :
    (w : World) (n : Normalized) (b : LiveBackend)
    → SendsAtMost (if asks w n b then 4 else 0) b.client (live_lookup w n b).1.client
unfolding live_lookup
live_lookup-SendsAtMost w n b = elim (Bool-cases (lookupable n)) [
  | inl e ↦
      rw (e, live_lookup)
        (lookup_read-SendsAtMost w n b
          (cache_get (w.clock cache_read) (payload_key b n) b.payloads))
  | inr e ↦ rw (e, live_lookup) (omega arith, omega arith)
]
