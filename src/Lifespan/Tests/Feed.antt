-- ===== src/Lifespan/Tests/Feed.antt =====
-- A service whose live stream brings one event.
use opencti_middleware.Base.{String, ◌≡◌, ◌↔◌, refl, true, none, some, List, [], ◌∷◌}
use opencti_middleware.Membership.{init}
use opencti_middleware.Membership.Tests.{digest}
use opencti_middleware.Bootstrap.Tests.{normalize}
use opencti_middleware.Split.{SplitBackend, new_split}
use opencti_middleware.Lifespan.Tests.{live, starts}
use opencti_middleware.Base.Json.{Json, obj, str, field, end}
use opencti_middleware.Base.Python.{Python}
use opencti_middleware.Membership.{add, contains, fingerprint, overlay_full}
use opencti_middleware.Indicators.{Normalized, domain}
use opencti_middleware.Live.{fallback_host}
use opencti_middleware.Live.Tests.{world}
use opencti_middleware.Split.{mark_ready, mark_stale, stream_health, host_known, split_lookup}
use opencti_middleware.Split.Dismissal.{by_membership}
use opencti_middleware.Stream.{
  Consumer, activity_lag, extract_values, single_yield, typed_yield, handle, dispatch, read_event,
  apply_event, write_values, write_value, finish_event, note_id,
}
use opencti_middleware.Stream.Run.{Event, handle_all}
use opencti_middleware.Lifespan.Callbacks.{
  new_consumer, watch_stream_health, add_to_split, remove_from_split, norm, hooks_of,
}
use opencti_middleware.Lifespan.Updates.{MayDismiss, answers_after, stream_dismissal_iff}

-- the backend of the built set, once it serves
abbrev serving : SplitBackend
serving = mark_ready true (new_split (init none 0 true 500000) live)

abbrev created : Json
created =
    obj (field "data" (obj (field "type" (str "url") (field "value" (str "b.example") end))) end)

abbrev str_of : Json → String
str_of (str s) = s
str_of _ = "None"

abbrev py : Python
py = record { str_of = str_of; int_of = λ s. none; fromisoformat = λ s. none }

abbrev events : List Event
events = record { at = 6; kind = "create"; event_id = some "2-0"; text = "created" } ∷ []

abbrev consumer : Consumer SplitBackend
consumer = new_consumer 5 serving

abbrev after_events : SplitBackend
after_events =
    (handle_all (hooks_of digest normalize py (λ t. some created) (λ j. none)) (λ e. "failed") none
      events consumer).1.sink

abbrev asked : Normalized
asked = record { original = "b.example"; value = "b.example"; kind = domain; skip_reason = none }

streams : Unit {0}
unfolding starts activity_lag add_to_split remove_from_split norm watch_stream_health stream_health
    mark_stale mark_ready split_lookup host_known fallback_host extract_values single_yield
    typed_yield handle dispatch read_event apply_event write_values write_value finish_event note_id
    handle_all add contains fingerprint overlay_full
streams = tt

-- before the event the value is dismissed, and after it it is not
event_arrives :
    (by_membership (split_lookup digest (world 7) asked serving).0 ≡ true)
    × (contains digest after_events.membership "b.example" ≡ true)
unfolding streams
event_arrives = (refl, refl)

stream_dismissal_iff_example :
    (by_membership (split_lookup digest (world 7) asked after_events).0 ≡ true)
    ↔ MayDismiss
        (answers_after digest normalize py (λ t. some created) (λ j. none) events serving)
        (world 7)
        asked
        serving
stream_dismissal_iff_example =
    stream_dismissal_iff digest normalize py (λ t. some created) (λ j. none) (λ e. "failed") none
      events consumer (world 7) asked
