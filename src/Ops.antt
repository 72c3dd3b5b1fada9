-- ===== src/Ops.antt =====
-- The operational endpoints (api/ops.py): readiness, the gauges of the metrics, and the validation of
-- the configuration, with the reports of the parts (`describe` of backends/live.py, backends/split.py
-- and reconcile.py, and obs/metrics.py). Times are whole seconds, so rounding them changes nothing; the
-- hit ratio, a rounded fraction, is an argument.
mod Readiness
pub mod Config
mod Problems
mod Tests
use opencti_middleware.Base.{
  ℕ, ◌+◌, ◌-◌, String, Option, none, some, List, [], ◌∷◌, ◌++◌, ◌==◌, if◌then◌else◌, insert,
}
use Prim.Native.String
use opencti_middleware.Base.{pos}
use opencti_middleware.Base.Json.{Json, null, bool, int, str}
use opencti_middleware.Breaker.{BreakerState, closed, opened, half_open, state}
use opencti_middleware.Cache.{cache_stats}
use opencti_middleware.Membership.{stats, effective}
use opencti_middleware.Live.{LiveBackend}
use opencti_middleware.Split.{SplitBackend}
use opencti_middleware.Stream.{StreamStats, activity_lag, event_lag}
use opencti_middleware.Reconcile.{Reconciler}
use opencti_middleware.Api.{Backend, live_only, with_split, backend_ready}
use opencti_middleware.Lifespan.{Service}

-- the fields of a report
abbrev pub ReportFields : Type 0
ReportFields = List (String × Json)

-- `{**fields, **more}`
abbrev pub merge : ReportFields → ReportFields → ReportFields
merge fields [] = fields
merge fields ((k, v) ∷ more) = merge (insert k v fields) more

abbrev pub number_json : ℕ → Json
number_json n = int (pos n)

abbrev pub text_or_null : Option String → Json
text_or_null none = null
text_or_null (some s) = str s

-- the value of a `BreakerState`
abbrev pub state_text : BreakerState → String
state_text closed = "closed"
state_text opened = "open"
state_text half_open = "half_open"

-- `_stream_info`
unfoldable pub stream_info : ℕ → Option StreamStats → ReportFields
stream_info now none = ("stream", str "disabled") ∷ []
stream_info now (some s) =
    ("stream", str (if s.connected then "connected" else "disconnected"))
    ∷ ("stream_events_applied", number_json s.events_applied)
    ∷ ("stream_adds", number_json s.adds)
    ∷ ("stream_removes", number_json s.removes)
    ∷ ("stream_reconnects", number_json s.reconnects)
    ∷ ("stream_heartbeats", number_json s.heartbeats)
    ∷ ("stream_activity_lag_s", number_json (activity_lag now s))
    ∷ ("stream_event_lag_s", number_json (event_lag now s))
    ∷ ("stream_upstream_time_lag_s", int s.upstream_time_lag)
    ∷ ("stream_cursor", text_or_null s.last_event_id)
    ∷ ("stream_error", text_or_null s.last_error)
    ∷ []

-- the seconds since a time that is there and not 0
abbrev pub age_or_null : ℕ → Option ℕ → Json
age_or_null now none = null
age_or_null now (some at) = if at == 0 then null else number_json (now - at)

-- `describe` of the statistics of the reconciler, where there is one
unfoldable pub reconcile_info : ℕ → Option Reconciler → ReportFields
reconcile_info now none = ("reconcile", str "reader") ∷ []
reconcile_info now (some r) =
    ("reconcile_rebuilds", number_json r.stats.rebuilds)
    ∷ ("reconcile_failures", number_json r.stats.failures)
    ∷ ("reconcile_last_reason", text_or_null r.stats.last_reason)
    ∷ ("reconcile_last_duration_s", number_json r.stats.last_duration_s)
    ∷ ("reconcile_age_s", age_or_null now r.stats.last_at)
    ∷ ("reconcile_generation", number_json r.stats.generation)
    ∷ ("reconcile_running", bool r.stats.running)
    ∷ []

-- the value of the breaker's gauge (`observe_breaker`)
abbrev pub breaker_value : BreakerState → ℕ
breaker_value closed = 0
breaker_value half_open = 1
breaker_value opened = 2

abbrev pub live_of : Backend → LiveBackend
live_of (live_only b) = b
live_of (with_split s) = s.live

abbrev pub membership_gauges : Backend → ReportFields
membership_gauges (live_only _) = []
membership_gauges (with_split s) =
    ("opencti_membership_entries", int (effective (stats s.membership)))
    ∷ ("opencti_membership_bytes", number_json (stats s.membership).bytes_shared)
    ∷ []

abbrev pub stream_gauges : ℕ → Option StreamStats → ReportFields
stream_gauges now none = []
stream_gauges now (some s) =
    ("opencti_stream_connected", number_json (if s.connected then 1 else 0))
    ∷ ("opencti_membership_lag_seconds", number_json (activity_lag now s))
    ∷ ("opencti_stream_events_applied_total", number_json s.events_applied)
    ∷ ("opencti_stream_reconnects_total", number_json s.reconnects)
    ∷ []

module _ (hit_ratio : ℕ → ℕ → Json) where
  -- `describe` of the live backend, with the number of fetches that are under way
  unfoldable pub live_describe : ℕ → ℕ → LiveBackend → ReportFields
  live_describe now inflight b =
      let c = cache_stats b.payloads in
      ("backend", str "live")
      ∷ ("breaker", str (state_text (state now b.client.breaker)))
      ∷ ("cache_entries", number_json c.entries)
      ∷ ("cache_max_entries", number_json c.max_entries)
      ∷ ("cache_hit_ratio", hit_ratio c.hits c.misses)
      ∷ ("inflight", number_json inflight)
      ∷ []

  -- `describe` of the split backend
  unfoldable pub split_describe : ℕ → ℕ → SplitBackend → ReportFields
  split_describe now inflight s =
      let m = stats s.membership in
      merge (live_describe now inflight s.live) (
        ("backend", str "split")
        ∷ ("ready", bool s.ready)
        ∷ ("stale", bool s.stale)
        ∷ ("membership_packed", number_json m.packed)
        ∷ ("membership_added", number_json m.added)
        ∷ ("membership_tombstoned", number_json m.tombstoned)
        ∷ ("membership_effective", int (effective m))
        ∷ ("membership_bytes", number_json m.bytes_shared)
        ∷ [])

  unfoldable pub backend_describe : ℕ → ℕ → Backend → ReportFields
  backend_describe now inflight (live_only b) = live_describe now inflight b
  backend_describe now inflight (with_split s) = split_describe now inflight s

  -- the gauges that `prometheus` sets, by their names
  unfoldable pub gauges : ℕ → Option StreamStats → Backend → ReportFields
  gauges now stream backend =
      let b = live_of backend in
      let c = cache_stats b.payloads in
      ("opencti_breaker_state", number_json (breaker_value (state now b.client.breaker)))
      ∷ (membership_gauges backend
          ++ (("opencti_payload_cache_entries", number_json c.entries)
              ∷ ("opencti_payload_cache_hit_ratio", hit_ratio c.hits c.misses)
              ∷ stream_gauges now stream))

  -- `readyz`: the status and the body
  unfoldable pub readyz : ℕ → ℕ → Option StreamStats → Service → ℕ × ReportFields
  readyz now inflight stream v =
      let ready = backend_ready now v.backend in
      (
        if ready then 200 else 503,
        merge
            (merge
              (merge (("ready", bool ready) ∷ ("membership_role", str v.membership_role) ∷ [])
                (backend_describe now inflight v.backend))
              (stream_info now stream))
            (reconcile_info now v.reconciler),
      )
