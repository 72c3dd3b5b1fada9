-- ===== src/Stream/Tests.antt =====
-- The consumer on a few events, with JSON texts read from a table.
use opencti_middleware.Base.{
  ℕ, min, String, ◌≡◌, refl, Option, none, some, List, [], ◌∷◌, arith, All, str_eq, if◌then◌else◌,
  ℤ,
}
use Prim.Native.String.{len}
use opencti_middleware.Base.Json.{Json, obj, str, arr, nil, field, end}
use opencti_middleware.Base.Result.{Exception, raise, type_error}
use opencti_middleware.Base.Python.{Python}
use opencti_middleware.Base.Text.{show_nat}
use opencti_middleware.Membership.{
  MembershipSet, add, remove, contains, overlay_full, empty, fingerprint, init,
}
use opencti_middleware.Membership.Overlay.{apply, apply_all}
use opencti_middleware.Stream.{
  Hooks, Consumer, new_stats, extract_values, observable_yield, extension_yield, indicator_yield,
  single_yield, typed_yield, handle, dispatch, read_event, apply_event, write_values, write_value,
  finish_event, skip_event, note_id, note_metrics,
}
use opencti_middleware.Stream.Run.{
  Event, Connection, Running, handle_all, consume_once, note_failure, run_once, run,
}
use opencti_middleware.Stream.Events.{put_all, payload_updates, event_updates, updates_of}
use opencti_middleware.Stream.Delivery.{
  payload_failure, event_failure, handled, all_updates, WritesSet,
}
use opencti_middleware.Stream.Backoff.{Fails, run-doubled, refused-Fails, doubled}

-- a digest of one byte, the length of the value
digest : String → List ℕ
digest v = len v ∷ []

created : Json
created = obj (
    field "data" (obj (field "type" (str "domain-name") (field "value" (str "evil.example") end)))
      end)

no_hash : Json
no_hash = obj (field "data" (obj (field "type" (arr nil) end)) end)

loads : String → Option Json
loads text =
    if str_eq text "created"
    then some created
    else if str_eq text "no hash"
    then some no_hash
    else none

text_of : Json → String
text_of (str s) = s
text_of _ = "None"

abbrev py : Python
py = record { str_of = text_of; int_of = λ s. none; fromisoformat = λ s. none }

abbrev float_of : Json → Option ℤ
float_of j = none

abbrev normalize : String → Option String
normalize v = if str_eq v "" then none else some v

abbrev hooks : Hooks MembershipSet
hooks = record {
  py = py;
  loads = loads;
  float_of = float_of;
  normalize = normalize;
  on_add = add digest;
  on_remove = remove digest;
  overlay_full = overlay_full;
}

abbrev writes : WritesSet digest hooks
writes = record { adds = refl; removes = refl }

abbrev describe : Exception → String
describe e = "failed"

abbrev idle : Consumer MembershipSet
idle = record { cursor = none; stats = new_stats 0; sink = empty; rebuild_requests = 0 }

abbrev events : List Event
events =
    record { at = 1; kind = "heartbeat"; event_id = some "1-0"; text = "" }
    ∷ record { at = 2; kind = "create"; event_id = some "2-0"; text = "created" }
    ∷ record { at = 3; kind = "delete"; event_id = some "3-0"; text = "no hash" }
    ∷ record { at = 4; kind = "delete"; event_id = some "4-0"; text = "created" }
    ∷ []

program : Unit {0}
unfolding digest created no_hash loads text_of show_nat empty init fingerprint add remove contains
    overlay_full apply apply_all extract_values observable_yield extension_yield indicator_yield
    single_yield typed_yield handle dispatch read_event apply_event write_values write_value
    finish_event skip_event note_id note_metrics handle_all consume_once note_failure run_once run
    put_all payload_updates event_updates updates_of payload_failure event_failure handled
    all_updates
program = tt

-- the event that raises has moved the cursor, and ends the connection
cursor : (handle_all hooks describe none events idle).1.cursor ≡ some "3-0"
unfolding program
cursor = refl

raised : (handle_all hooks describe none events idle).0 ≡ raise type_error
unfolding program
raised = refl

abbrev refused : Connection
refused = record { status = 401; reason = "Unauthorized"; events = []; broken = none }

abbrev starting : Running MembershipSet
starting = record { consumer = idle; backoff = 1; waits = [] }

abbrev tries : List Connection
tries = refused ∷ refused ∷ refused ∷ []

tries-Fails : All (Fails hooks describe) tries
tries-Fails = let f = refused-Fails hooks describe refused refl in (f, (f, (f, tt)))

run-doubled_example : (run hooks describe tries starting).backoff ≡ min (doubled 3 1) 60
run-doubled_example = run-doubled hooks describe tries starting (omega arith) tries-Fails
