-- ===== src/Live/Tests.antt =====
-- Lookups against an OpenCTI that knows one domain.
use opencti_middleware.Base.{ℕ, String, ◌≡◌, refl, true, none, some, [], ◌∷◌, ◌==◌, if◌then◌else◌}
use opencti_middleware.Base.{pos}
use opencti_middleware.Base.Text.{strip, show_nat}
use opencti_middleware.Base.Json.{Json, obj, arr, str, int, cons, nil, field, end}
use opencti_middleware.Base.Result.{ok}
use opencti_middleware.Base.Python.{Python}
use opencti_middleware.Settings.{defaults, query_types_for}
use opencti_middleware.Breaker.{new, state, allows, record_success, record_failure}
use opencti_middleware.Client.{
  response, timeout, detail, fail, error_message, graphql_errors, read_body, read_response, settle,
  attempt_loop, execute,
}
use opencti_middleware.Cache.{
  Payload, new_cache, cache_get, cache_set, evict, evicted, set_degraded,
}
use opencti_middleware.Cache.Bounds.{new_cache-IsValid}
use opencti_middleware.Mapper.Policy.{
  bounded_text, parse_dt, is_expired, passes_policy, candidates, survives, survivors,
}
use opencti_middleware.Mapper.Ranking.{rank, rank_le, rank_all, place, sort, select_indicators}
use opencti_middleware.Mapper.Labels.{
  labels, marking, label_loop, labels_loop, see_label, first_definition,
}
use opencti_middleware.Mapper.Payload.{
  build_payload, payload_of, read_parts, all_fields, compact, phase_names, virustotal_url, degraded,
}
use opencti_middleware.Indicators.{domain, Normalized}
use opencti_middleware.Live.{
  World, LiveBackend, variables, typed_payload, read_node, query, fallback_host, fetch_host, fetch,
  settle_lookup, lookup_read, live_lookup,
}
use opencti_middleware.Live.Answers.{
  KeepsCache, cache_with, with_degraded, live_lookup-KeepsCache, live_lookup_again,
}

abbrev list_of : Json → Json
list_of v = arr (cons v nil)

abbrev indicator : Json
indicator = obj (field "name" (str "seen") (field "x_opencti_score" (int (pos 80)) end))

abbrev observable : Json
observable = obj (
    field "entity_type" (str "Hostname") (
      field "indicators" (obj (field "edges" (list_of (obj (field "node" indicator end))) end))
        end))

abbrev body : Json
body = obj (
    field "data"
      (obj (
        field "stixCyberObservables"
          (obj (field "edges" (list_of (obj (field "node" observable end))) end)) end))
      end)

abbrev pub text_of : Json → String
text_of (str s) = s
text_of (int (pos n)) = show_nat n
text_of _ = "None"

abbrev pub py : Python
py = record { str_of = text_of; int_of = λ s. none; fromisoformat = λ s. none }

-- the time of each reading is `start`
abbrev pub world : ℕ → World
world start = record {
  opencti = λ v k. if k == 0 then response 200 (some body) else timeout "" "ReadTimeout";
  clock = λ r. start;
  today = 2024;
  py = py;
  url_hostname = λ u. some "evil.example";
}

abbrev pub backend : LiveBackend
backend = record {
  client = record { breaker = new 5 30; last_error = none; sent = 0 };
  settings = defaults "https://opencti.example" "token" "key";
  payloads = new_cache 4096 1024 100 10;
}

abbrev pub evil : Normalized
evil = record {
  original = "evil.example";
  value = "evil.example";
  kind = domain;
  skip_reason = none;
}

program : Unit {0}
unfolding strip show_nat query_types_for state allows record_success record_failure detail fail
    error_message graphql_errors read_body read_response settle attempt_loop execute new_cache
    cache_get cache_set evict evicted set_degraded bounded_text parse_dt is_expired passes_policy
    candidates survives survivors rank rank_le rank_all place sort select_indicators labels marking
    label_loop labels_loop see_label first_definition build_payload payload_of read_parts all_fields
    compact phase_names virustotal_url variables typed_payload read_node query fallback_host
    fetch_host fetch settle_lookup lookup_read live_lookup
program = tt

abbrev found : Payload
found =
    ("found", "true")
    ∷ ("value", "evil.example")
    ∷ ("type", "Hostname")
    ∷ ("match_type", "exact")
    ∷ ("score", "80")
    ∷ ("detection", "false")
    ∷ ("expired", "false")
    ∷ ("revoked", "false")
    ∷ ("indicator_name", "seen")
    ∷ ("indicator_count", "1")
    ∷ ("virustotal_url", "https://www.virustotal.com/gui/domain/evil.example")
    ∷ []

hit : (live_lookup (world 7) evil backend).0 ≡ ok (record { payload = found; source = "opencti" })
unfolding program
hit = refl

abbrev down : LiveBackend
down = record backend { client = record { breaker = new 5 30; last_error = none; sent = 1 } }

-- a timeout is an answer, and is not cached
unanswered :
    (live_lookup (world 7) evil down).0 ≡ ok (record { payload = degraded; source = "degraded" })
unfolding program
unanswered = refl

live_lookup-KeepsCache_example :
    KeepsCache
      (cache_get 7 "v1:Domain-Name:evil.example" backend.payloads).0
      (fetch (world 7) backend.settings evil backend.client).0
      (cache_get 7 "v1:Domain-Name:evil.example" backend.payloads).1
      (cache_with
        (world 7)
        evil
        backend
        (cache_get 7 "v1:Domain-Name:evil.example" backend.payloads).1)
      (live_lookup (world 7) evil backend)
unfolding program
live_lookup-KeepsCache_example = live_lookup-KeepsCache (world 7) evil backend refl

live_lookup_again_example :
    ((live_lookup (world 106) evil (with_degraded true (live_lookup (world 7) evil backend).1)).0
      ≡ ok (record { payload = found; source = "payload_cache" }))
    × ((live_lookup
          (world 106)
          evil
          (with_degraded true (live_lookup (world 7) evil backend).1)).1.client
        ≡ (live_lookup (world 7) evil backend).1.client)
unfolding program
live_lookup_again_example =
    live_lookup_again (world 7) (world 106) evil true backend found refl
      (new_cache-IsValid 4096 1024 100 10) refl refl
