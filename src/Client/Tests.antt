-- ===== src/Client/Tests.antt =====
-- `execute` on responses of OpenCTI.
use opencti_middleware.Base.{◌≡◌, refl, true, false, none, some, String}
use opencti_middleware.Base.Json.{Json, str, arr, obj, nil, cons, end, field}
use opencti_middleware.Base.Result.{ok, raise, breaker_open, opencti_error, attribute_error}
use opencti_middleware.Breaker.{allows, record_success, record_failure, new}
use opencti_middleware.Client.{Outcome, connect_error, response, Client, settle, execute, health}
use opencti_middleware.Client.Outcomes.{Accounted, execute-Accounted}

program : Unit {0}
unfolding allows record_success record_failure execute settle health
program = tt

abbrev py_str : Json → String
py_str (str s) = s
py_str _ = "?"

abbrev client : Client
client = record { breaker = new 5 30; last_error = none; sent = 0 }

abbrev answer : Outcome
answer = response 200 (
    some
      (obj (field "data" (obj (field "about" (obj (field "version" (str "7.26") end)) end)) end)))

abbrev refusal : Outcome
refusal =
    response 200
      (some (obj (field "errors" (arr (cons (obj (field "message" (str "denied") end)) nil)) end)))

-- the version is read from the answer
health_version : (health py_str 1 2 answer answer client).0 ≡ ok (str "7.26")
unfolding program
health_version = refl

connect_twice :
    (execute py_str 1 2 true
      (connect_error "" "ConnectTimeout")
      (connect_error "" "ConnectTimeout")
      client).0
    ≡ raise (opencti_error "connect failed: ConnectTimeout")
unfolding program
connect_twice = refl

graphql_refusal : execute py_str 1 2 true refusal answer client ≡ (
  raise (opencti_error "graphql error: denied"),
  record { breaker = record_failure 2 (new 5 30); last_error = some "graphql: denied"; sent = 1 },
)
unfolding program
graphql_refusal = refl

-- a body that is a list escapes as an AttributeError
list_body :
    execute py_str 1 2 true (response 200 (some (arr nil))) answer client
    ≡ (raise attribute_error, record client { sent = 1 })
unfolding program
list_body = refl

execute-Accounted_example :
    let result = execute py_str 1 2 true (connect_error "refused" "ConnectError") answer client in
    (allows 1 (new 5 30) ≡ false
      → (result.0 ≡ raise (breaker_open "circuit breaker open")) × (result.1 ≡ client))
    × (allows 1 (new 5 30) ≡ true → Accounted 2 client result.0 result.1 × (result.1.sent ≡ 2))
execute-Accounted_example =
    execute-Accounted py_str 2 1 true (connect_error "refused" "ConnectError") answer client
