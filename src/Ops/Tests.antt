-- ===== src/Ops/Tests.antt =====
-- The endpoints on a service whose breaker is open, and on one that is well.
use opencti_middleware.Base.{ℕ, String, ◌≡◌, ◌↔◌, refl, true, false, none, some, [], find}
use opencti_middleware.Base.{pos}
use opencti_middleware.Base.Json.{Json, bool, int, str, obj, field, end}
use opencti_middleware.Base.Result.{Exception, ok}
use opencti_middleware.Settings.{defaults}
use opencti_middleware.Breaker.{new, record_failure, allows, state}
use opencti_middleware.Client.{Outcome, response, health}
use opencti_middleware.Cache.{cache_stats}
use opencti_middleware.Membership.{init, stats}
use opencti_middleware.Live.{LiveBackend, live_ready}
use opencti_middleware.Live.Tests.{backend}
use opencti_middleware.Split.{SplitBackend, split_ready}
use opencti_middleware.Loader.Tests.{program}
use opencti_middleware.Api.{
  App, Request, with_split, live_only, compare_digest, verify_api_key, backend_ready,
}
use opencti_middleware.Lifespan.{Service, initial_service}
use opencti_middleware.Ops.{
  live_describe, split_describe, backend_describe, stream_info, reconcile_info, readyz, gauges,
  live_of,
}
use opencti_middleware.Ops.Readiness.{readyz_misleads_iff}
use opencti_middleware.Ops.Config.{is_problem, ConfigReport, report_of, validate_config}
use opencti_middleware.Ops.Problems.{AllWell, validate_config_iff}

abbrev ratio : ℕ → ℕ → Json
ratio hits misses = int (pos 0)

-- one failure has opened the breaker at 10
abbrev broken : LiveBackend
broken = record backend {
  client = record { breaker = record_failure 10 (new 1 30); last_error = none; sent = 1 };
}

abbrev split : SplitBackend
split = record { membership = init none 0 true 500000; live = broken; ready = true; stale = false }

abbrev service : Service
service = record (initial_service broken) { backend = with_split split; membership_role = "reader" }

endpoints : Unit {0}
unfolding program record_failure allows state init stats live_ready split_ready backend_ready
    cache_stats live_describe split_describe backend_describe stream_info reconcile_info readyz
    gauges compare_digest verify_api_key health is_problem validate_config
endpoints = tt

-- the status says that the service is not ready, and the body that it is
misled :
    ((readyz ratio 12 0 none service).0 ≡ 503)
    × (find "ready" (readyz ratio 12 0 none service).1 ≡ some (bool true))
unfolding endpoints
misled = (refl, refl)

readyz_misleads_iff_example :
    (((readyz ratio 12 0 none service).0 ≡ 503)
      × (find "ready" (readyz ratio 12 0 none service).1 ≡ some (bool true)))
    ↔ ((s : SplitBackend) × (service.backend ≡ with_split s)
        × (s.ready ≡ true)
        × (allows 12 s.live.client.breaker ≡ false))
readyz_misleads_iff_example = readyz_misleads_iff ratio 12 0 none service

open_gauge :
    find "opencti_breaker_state" (gauges ratio 12 none service.backend) ≡ some (int (pos 2))
unfolding endpoints
open_gauge = refl

abbrev py_str : Json → String
py_str (str s) = s
py_str _ = "None"

abbrev show : Exception → String
show x = "failed"

abbrev key : String
key = "0123456789abcdef0123456789abcdef"

abbrev app : App
app = record {
  settings = defaults "https://opencti.example" "token" key;
  backend = live_only backend;
}

abbrev asking : Request
asking = record { x_api_key = some key; headers = λ h. none; x_customer_code = none }

abbrev version : Outcome
version = response 200 (
    some
      (obj (field "data" (obj (field "about" (obj (field "version" (str "7.26") end)) end)) end)))

abbrev report : ConfigReport
report = report_of py_str show app.settings (ok (str "7.26")) [] "note"

all_ready : report.status ≡ "ready"
unfolding endpoints
all_ready = refl

validate_config_iff_example :
    (report.status ≡ "ready")
    ↔ AllWell app.settings (health py_str 1 2 version version (live_of app.backend).client).0
validate_config_iff_example =
    validate_config_iff py_str show (λ s. "x-api-key") (λ a. []) "note" 1 2 version version asking
      app
      (validate_config py_str show (λ s. "x-api-key") (λ a. []) "note" 1 2 version version asking
        app).1
      report (unfold endpoints in refl)
