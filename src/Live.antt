-- ===== src/Live.antt =====
-- The live backend (backends/live.py): a value is looked up in the payload cache and then asked of
-- OpenCTI. Requests of one key at the same time share one fetch (SingleFlight); here one lookup runs
-- from its start to its end.
mod Traffic
mod Answers
pub mod Tests
use opencti_middleware.Base.{
  ℕ, ◌+◌, String, Bool, true, ◌&&◌, Option, none, some, List, [], ◌∷◌, str_eq, if◌then◌else◌,
  insert,
}
use opencti_middleware.Base.Text.{concat}
use opencti_middleware.Base.Json.{
  Json, Items, Fields, obj, arr, str, cons, nil, field, end, get, truthy,
}
use opencti_middleware.Base.Result.{
  Result, ok, raise, breaker_open, opencti_error, attribute_error, key_error, type_error, ◌>>=◌,
}
use opencti_middleware.Base.Python.{Python, as_dict, or_dict}
use opencti_middleware.Settings.{Settings, query_types_for}
use opencti_middleware.Client.{Client, Outcome, execute}
use opencti_middleware.Breaker.{allows}
use opencti_middleware.Cache.{Payload, PayloadCache, cache_get, cache_set}
use opencti_middleware.Mapper.Payload.{build_payload, miss, degraded}
use opencti_middleware.Indicators.{
  IndicatorType, domain, type_text, hash_algorithm, is_url, Normalized, lookupable, cache_key,
  value_filter, hash_filter,
}

-- The readings of the clock during a lookup.
pub data Reading : Type 0 where
  cache_read exact_asked exact_settled host_asked host_settled cache_written : Reading

-- What a lookup meets outside: OpenCTI, which answers the n-th request by its variables, the clock,
-- the date, and Python's conversions.
pub record World : Type 0 where
  pub opencti : Json → ℕ → Outcome
  pub clock : Reading → ℕ
  pub today : ℕ
  pub py : Python
  pub url_hostname : String → Option String

pub record LookupResult : Type 0 where
  pub payload : Payload
  pub source : String

pub record LiveBackend : Type 0 where
  pub client : Client
  pub settings : Settings
  pub payloads : PayloadCache

json_list : List String → Items
json_list [] = nil
json_list (s ∷ ss) = cons (str s) (json_list ss)

-- the variables of the lookup query
unfoldable pub variables : Settings → String → IndicatorType → Json
unfolding json_list
variables s value kind = obj (
    field "filters"
      (elim (hash_algorithm kind) [
        | none ↦ value_filter value
        | some algorithm ↦ hash_filter algorithm value
      ])
      (field "types" (arr (json_list (query_types_for s (type_text kind)))) end))

-- `edges[0]` of a value that is true
abbrev pub first_edge : Json → Result Json
first_edge (arr (cons edge rest)) = ok edge
first_edge (str s) = raise attribute_error
first_edge (obj fs) = raise key_error
first_edge _ = raise type_error

-- `build_payload` with the entity type of the node, where it has one. A type that is no text fails
-- only if there is a payload to build.
unfoldable pub typed_payload :
    World → Settings → String → IndicatorType → String → Fields → Result (Option Payload)
typed_payload w s value kind match_type node =
    let build : String → Result (Option Payload) =
      λ indicator_type. build_payload w.py s w.today value indicator_type match_type node in
    if truthy (get "entity_type" node)
    then elim (get "entity_type" node) [
      | str indicator_type ↦ build indicator_type
      | _ ↦ build "" >>= λ p. elim p [ none ↦ ok none | some _ ↦ raise attribute_error ]
    ]
    else build (type_text kind)

-- the payload in the data that a query returns
unfoldable pub read_node :
    World → Settings → String → IndicatorType → String → Json → Result (Option Payload)
read_node w s value kind match_type result = as_dict result >>= λ fs.
    as_dict (or_dict (get "stixCyberObservables" fs)) >>= λ observables.
    if truthy (get "edges" observables)
    then (first_edge (get "edges" observables) >>= as_dict >>= λ edge.
        as_dict (or_dict (get "node" edge)) >>= typed_payload w s value kind match_type)
    else ok none

-- `_query`
unfoldable pub query :
    World
    → Reading
    → Reading
    → Settings
    → String
    → IndicatorType
    → String
    → Client
    → Result (Option Payload) × Client
query w asked settled s value kind match_type c =
    let v = variables s value kind in
    let (result, c') =
      execute w.py.str_of (w.clock asked) (w.clock settled) true (w.opencti v c.sent)
        (w.opencti v (c.sent + 1)) c in
    (result >>= read_node w s value kind match_type, c')

-- `payload["value"] = ...` and `payload["matched_value"] = ...`
abbrev pub as_matched : String → String → Payload → Payload
as_matched value host p = insert "matched_value" host (insert "value" value p)

abbrev pub or_miss : Option Payload → Payload
or_miss none = miss
or_miss (some p) = p

-- The hostname that is asked for after a URL, where the settings say so.
unfoldable pub fallback_host : World → Settings → Normalized → Option String
fallback_host w s n =
    if is_url n.kind && s.url_hostname_fallback
    then elim (w.url_hostname n.value) [
      | none ↦ none
      | some host ↦ if str_eq host "" then none else some host
    ]
    else none

-- the rest of `_fetch`, after a miss of the exact value
unfoldable pub fetch_host : World → Settings → Normalized → Client → Result Payload × Client
fetch_host w s n c = elim (fallback_host w s n) [
  | none ↦ (ok miss, c)
  | some host ↦
      let (p, c') = query w host_asked host_settled s host domain "hostname" c in
      (
        p >>= λ found.
            ok (elim found [ none ↦ miss | some payload ↦ as_matched n.value host payload ]),
        c',
      )
]

-- `_fetch`
unfoldable pub fetch : World → Settings → Normalized → Client → Result Payload × Client
fetch w s n c =
    let (p, c') = query w exact_asked exact_settled s n.value n.kind "exact" c in
    let again = fetch_host w s n c' in
    elim p [ raise e ↦ (raise e, c') | ok (some payload) ↦ (ok payload, c') | ok none ↦ again ]

abbrev pub payload_key : LiveBackend → Normalized → String
payload_key b n = concat (b.settings.cache_key_version ∷ ":" ∷ cache_key n ∷ [])

-- what becomes of a fetch
unfoldable pub settle_lookup :
    World → Normalized → LiveBackend → Result Payload × Client → Result LookupResult × LiveBackend
settle_lookup w n b (ok payload, c) = (
  ok (record { payload = payload; source = "opencti" }),
  record b {
    client = c;
    payloads = cache_set (w.clock cache_written) (payload_key b n) payload b.payloads;
  },
)
settle_lookup w n b (raise (breaker_open m), c) =
    (ok (record { payload = degraded; source = "degraded" }), record b { client = c })
settle_lookup w n b (raise (opencti_error m), c) =
    (ok (record { payload = degraded; source = "degraded" }), record b { client = c })
settle_lookup w n b (raise e, c) = (raise e, record b { client = c })

-- a value that is looked up, after the cache was read
unfoldable pub lookup_read :
    World
    → Normalized
    → LiveBackend
    → Option Payload × PayloadCache
    → Result LookupResult × LiveBackend
lookup_read w n b (some payload, payloads) =
    (ok (record { payload = payload; source = "payload_cache" }), record b { payloads = payloads })
lookup_read w n b (none, payloads) =
    settle_lookup w n (record b { payloads = payloads }) (fetch w b.settings n b.client)

-- `lookup`
unfoldable pub live_lookup : World → Normalized → LiveBackend → Result LookupResult × LiveBackend
live_lookup w n b =
    if lookupable n
    then lookup_read w n b (cache_get (w.clock cache_read) (payload_key b n) b.payloads)
    else (ok (record { payload = miss; source = "skip" }), b)

unfoldable pub live_ready : ℕ → LiveBackend → Bool
live_ready now b = allows now b.client.breaker
