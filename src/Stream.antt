-- ===== src/Stream.antt =====
-- The consumer of OpenCTI's live stream (opencti/stream.py): the values that an event touches, the
-- statistics, `_handle`, and the reconnecting loop of `run`. The set that the callbacks change is a
-- state `S` of the caller; the clock, the JSON parser and `normalize` are arguments.
pub mod Events
pub mod Delivery
pub mod Run
mod Backoff
mod Accounts
mod Tests
use opencti_middleware.Base.{
  ℕ, ◌+◌, ◌-◌, String, Bool, false, not, ◌&&◌, Option, none, some, List, [], ◌∷◌, ◌++◌, ◌==◌,
  str_eq, if◌then◌else◌, ℤ,
}
use opencti_middleware.Base.{pos}
use opencti_middleware.Base.Text.{text_elem}
use opencti_middleware.Base.Json.{Json, Fields, obj, int, str, arr, get, get?, values, truthy}
use opencti_middleware.Base.Result.{Result, Exception, ok, raise, type_error, ◌>>=◌}
use opencti_middleware.Base.Python.{Python, as_dict, or_dict, iterate_or_empty}

abbrev pub observable_types : List String
observable_types = "ipv4-addr" ∷ "ipv6-addr" ∷ "domain-name" ∷ "url" ∷ "hostname" ∷ []

abbrev pub add_events : List String
add_events = "create" ∷ "update" ∷ "merge" ∷ []

abbrev pub remove_events : List String
remove_events = "delete" ∷ []

abbrev pub heartbeat_events : List String
heartbeat_events = "heartbeat" ∷ []

abbrev pub metrics_events : List String
metrics_events = "consumer_metrics" ∷ []

pub record StreamStats : Type 0 where
  pub connected : Bool
  pub events_applied : ℕ
  pub events_skipped : ℕ
  pub adds : ℕ
  pub removes : ℕ
  pub reconnects : ℕ
  pub heartbeats : ℕ
  pub last_event_id : Option String
  pub last_error : Option String
  pub upstream_time_lag : ℤ
  pub last_activity_at : ℕ
  pub last_event_at : ℕ

abbrev pub new_stats : ℕ → StreamStats
new_stats now = record {
  connected = false;
  events_applied = 0;
  events_skipped = 0;
  adds = 0;
  removes = 0;
  reconnects = 0;
  heartbeats = 0;
  last_event_id = none;
  last_error = none;
  upstream_time_lag = pos 0;
  last_activity_at = now;
  last_event_at = now;
}

unfoldable pub activity_lag : ℕ → StreamStats → ℕ
activity_lag now s = now - s.last_activity_at

unfoldable pub event_lag : ℕ → StreamStats → ℕ
event_lag now s = now - s.last_event_at

-- What a generator yields, and the exception that it ends with if it does not end by itself.
pub record Yield : Type 0 where
  pub yielded : List String
  pub raised : Option Exception

abbrev pub nothing : Yield
nothing = record { yielded = []; raised = none }

abbrev pub stops : Exception → Yield
stops e = record { yielded = []; raised = some e }

-- the values of a generator, and then those of another if it did not raise
abbrev pub then_yield : Yield → Yield → Yield
then_yield y z = elim y.raised [
  | none ↦ record { yielded = y.yielded ++ z.yielded; raised = z.raised }
  | some e ↦ y
]

-- the values of `observable_values`, where an entry has one
unfoldable pub observable_yield : Python → List Json → Yield
observable_yield py [] = nothing
observable_yield py (obj fs ∷ rest) =
    let more = observable_yield py rest in
    if truthy (get "value" fs)
    then record more { yielded = py.str_of (get "value" fs) ∷ more.yielded }
    else more
observable_yield py (_ ∷ rest) = observable_yield py rest

unfoldable pub extension_yield : Python → List Json → Yield
extension_yield py [] = nothing
extension_yield py (obj fs ∷ rest) =
    let more = extension_yield py rest in
    elim (iterate_or_empty (get "observable_values" fs)) [
      | raise e ↦ stops e
      | ok entries ↦ then_yield (observable_yield py entries) more
    ]
extension_yield py (_ ∷ rest) = extension_yield py rest

unfoldable pub indicator_yield : Python → Fields → Yield
indicator_yield py stix = elim (as_dict (or_dict (get "extensions" stix))) [
  | raise e ↦ stops e
  | ok extensions ↦ extension_yield py (values extensions)
]

-- an observable of a type that is looked up, with a value
unfoldable pub single_yield : Python → Fields → String → Yield
single_yield py stix stix_type =
    if text_elem stix_type observable_types && truthy (get "value" stix)
    then record { yielded = py.str_of (get "value" stix) ∷ []; raised = none }
    else nothing

-- A list or a dictionary has no hash, so it cannot be looked for in a frozenset.
unfoldable pub typed_yield : Python → Fields → Json → Yield
typed_yield py stix (str stix_type) =
    if str_eq stix_type "indicator" then indicator_yield py stix else single_yield py stix stix_type
typed_yield py stix (arr _) = stops type_error
typed_yield py stix (obj _) = stops type_error
typed_yield py stix _ = nothing

unfoldable pub extract_values : Python → Fields → Yield
extract_values py payload = elim (get "data" payload) [
  | obj stix ↦ typed_yield py stix (get "type" stix)
  | _ ↦ nothing
]

-- `rebuild_requests` counts the calls of `on_overlay_full`.
pub record Consumer (S : Type 0) : Type 0 where
  pub cursor : Option String
  pub stats : StreamStats
  pub sink : S
  pub rebuild_requests : ℕ

-- What a consumer is given: its callbacks on what it writes to, and what it uses of Python, the
-- `str`, the JSON parser and `float`.
pub record Hooks (S : Type 0) : Type 0 where
  pub py : Python
  pub loads : String → Option Json
  pub float_of : Json → Option ℤ
  pub normalize : String → Option String
  pub on_add : String → S → S
  pub on_remove : String → S → S
  pub overlay_full : S → Bool

module _ {S : Type 0} (hooks : Hooks S) where
  unfoldable pub skip_event : Consumer S → Consumer S
  skip_event c = record c { stats = record c.stats { events_skipped = c.stats.events_skipped + 1 } }

  unfoldable pub note_id : Option String → Consumer S → Consumer S
  note_id none c = c
  note_id (some id) c =
      if str_eq id ""
      then c
      else record c { cursor = some id; stats = record c.stats { last_event_id = some id } }

  -- the lag that OpenCTI reports, where the event is readable
  unfoldable pub note_metrics : String → Consumer S → Consumer S
  note_metrics text c = elim (hooks.loads text) [
    | some (obj fs) ↦
        elim (hooks.float_of (elim (get? "timeLag" fs) [ none ↦ int (pos 0) | some lag ↦ lag ])) [
          | some lag ↦ record c { stats = record c.stats { upstream_time_lag = lag } }
          | none ↦ c
        ]
    | _ ↦ c
  ]

  -- one value of an event
  unfoldable pub write_value : String → String → Consumer S → Consumer S
  write_value kind value c =
      if text_elem kind remove_events
      then record c {
        sink = hooks.on_remove value c.sink;
        stats = record c.stats { removes = c.stats.removes + 1 };
      }
      else record c {
        sink = hooks.on_add value c.sink;
        stats = record c.stats { adds = c.stats.adds + 1 };
      }

  -- the loop over the values, with the count of those that were touched
  unfoldable pub write_values : String → List String → Consumer S → ℕ × Consumer S
  write_values kind [] c = (0, c)
  write_values kind (raw ∷ rest) c = elim (hooks.normalize raw) [
    | none ↦ write_values kind rest c
    | some value ↦
        let (touched, c') = write_values kind rest (write_value kind value c) in (touched + 1, c')
  ]

  -- the end of `_handle`, after the loop
  unfoldable pub finish_event : ℕ → ℕ → Consumer S → Consumer S
  finish_event now touched c = if touched == 0 then skip_event c else record c {
    stats = record c.stats { events_applied = c.stats.events_applied + 1; last_event_at = now };
    rebuild_requests =
        if hooks.overlay_full c.sink then c.rebuild_requests + 1 else c.rebuild_requests;
  }

  unfoldable pub apply_event : ℕ → String → Fields → Consumer S → Result (Unit {0}) × Consumer S
  apply_event now kind payload c =
      let y = extract_values hooks.py payload in
      let (touched, c') = write_values kind y.yielded c in
      elim y.raised [ some e ↦ (raise e, c') | none ↦ (ok tt, finish_event now touched c') ]

  -- what is not JSON, and what is no object, is skipped
  unfoldable pub read_event : ℕ → String → Option Json → Consumer S → Result (Unit {0}) × Consumer S
  read_event now kind (some (obj payload)) c = apply_event now kind payload c
  read_event now kind _ c = (ok tt, skip_event c)

  unfoldable pub dispatch : ℕ → String → String → Consumer S → Result (Unit {0}) × Consumer S
  dispatch now kind text c =
      if text_elem kind heartbeat_events
      then (ok tt, record c { stats = record c.stats { heartbeats = c.stats.heartbeats + 1 } })
      else if text_elem kind metrics_events
      then (ok tt, note_metrics text c)
      else if str_eq kind "connected"
      then (ok tt, c)
      else if not (text_elem kind add_events) && not (text_elem kind remove_events)
      then (ok tt, skip_event c)
      else read_event now kind (hooks.loads text) c

  -- `_handle`: any event moves the cursor and counts as activity.
  unfoldable pub handle :
      ℕ → String → Option String → String → Consumer S → Result (Unit {0}) × Consumer S
  handle now kind event_id text c =
      let c₁ = note_id event_id c in
      dispatch now kind text (record c₁ { stats = record c₁.stats { last_activity_at = now } })
