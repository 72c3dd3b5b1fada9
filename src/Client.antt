-- ===== src/Client.antt =====
-- OpenCTIClient of opencti/client.py. What httpx does with each POST is an argument: the outcome of
-- the first and of the second attempt. The semaphore only delays, and has no counterpart.
pub mod Outcomes
mod Tests
use opencti_middleware.Base.{
  ℕ, zero, suc, ◌+◌, String, Bool, false, Option, none, some, List, [], ◌∷◌, ltb, ◌==◌, str_eq,
  if◌then◌else◌,
}
use opencti_middleware.Base.Text.{concat, text_take, show_nat}
use opencti_middleware.Base.Json.{Json, str, arr, obj, cons, end, get, get?, truthy, dict_or_empty}
use opencti_middleware.Base.Result.{
  Result, ok, raise, breaker_open, opencti_error, attribute_error, type_error, key_error, ◌>>=◌,
}
use opencti_middleware.Breaker.{CircuitBreaker, allows, record_success, record_failure}

-- What a POST comes to: an httpx exception with its message and its class name, or a response with
-- its status and its body, `none` where the body is not JSON.
pub data Outcome : Type 0 where
  connect_error timeout http_error : String → String → Outcome
  response : ℕ → Option Json → Outcome

-- `sent` counts the requests that have left the process.
pub record Client : Type 0 where
  pub breaker : CircuitBreaker
  pub last_error : Option String
  pub sent : ℕ

unfoldable pub detail : String → String → String
detail message class = if str_eq message "" then class else message

unfoldable pub fail : ℕ → String → Client → Client
fail now reason c = record c { last_error = some reason; breaker = record_failure now c.breaker }

-- `errors[0].get("message", errors[0])`, as a text by `py_str`
unfoldable pub error_message : (Json → String) → Json → Result String
error_message py_str (arr (cons (obj fs) es)) =
    ok
      (text_take 200 (py_str (elim (get? "message" fs) [ none ↦ obj fs | some message ↦ message ])))
error_message py_str (arr _) = raise attribute_error
error_message py_str (str _) = raise attribute_error
error_message py_str (obj _) = raise key_error
error_message py_str _ = raise type_error

-- What a body with errors comes to.
unfoldable pub graphql_errors : (Json → String) → ℕ → Json → Client → Result Json × Client
unfolding error_message fail
graphql_errors py_str now errors c = elim (error_message py_str errors) [
  | raise e ↦ (raise e, c)
  | ok message ↦ (
    raise (opencti_error (concat ("graphql error: " ∷ message ∷ []))),
    fail now (concat ("graphql: " ∷ message ∷ [])) c,
  )
]

-- What follows a 200 whose body is JSON.
unfoldable pub read_body : (Json → String) → ℕ → Json → Client → Result Json × Client
read_body py_str now (obj body) c =
    if truthy (get "errors" body) then graphql_errors py_str now (get "errors" body) c else (
      ok (if truthy (get "data" body) then get "data" body else obj end),
      record c { breaker = record_success c.breaker; last_error = none },
    )
read_body py_str now _ c = (raise attribute_error, c)

unfoldable pub read_response : (Json → String) → ℕ → ℕ → Option Json → Client → Result Json × Client
unfolding fail read_body graphql_errors
read_response py_str now status content c =
    if status == 200
    then elim content [
      | some body ↦ read_body py_str now body c
      | none ↦ (raise (opencti_error "malformed json from OpenCTI"), fail now "malformed json" c)
    ]
    else (
      raise (opencti_error (concat ("unexpected status " ∷ show_nat status ∷ []))),
      fail now (concat ("status " ∷ show_nat status ∷ [])) c,
    )

-- One attempt that is not retried.
unfoldable pub settle : (Json → String) → ℕ → Outcome → Client → Result Json × Client
unfolding detail fail read_response
settle py_str now (connect_error m k) c = (
  raise (opencti_error (concat ("connect failed: " ∷ detail m k ∷ []))),
  fail now (concat ("connect: " ∷ detail m k ∷ [])) c,
)
settle py_str now (timeout m k) c = (
  raise (opencti_error (concat ("timeout: " ∷ detail m k ∷ []))),
  fail now (concat ("timeout: " ∷ detail m k ∷ [])) c,
)
settle py_str now (http_error m k) c = (
  raise (opencti_error (concat ("http error: " ∷ detail m k ∷ []))),
  fail now (concat ("http: " ∷ detail m k ∷ [])) c,
)
settle py_str now (response status content) c = read_response py_str now status content c

-- A POST leaves the process.
abbrev pub send : Client → Client
send c = record c { sent = c.sent + 1 }

-- `for attempt in range(attempts)`: a connection error is retried while attempts are left.
unfoldable pub attempt_loop : (Json → String) → ℕ → ℕ → List Outcome → Client → Result Json × Client
attempt_loop py_str now zero outcomes c = (raise (opencti_error "unreachable"), c)
attempt_loop py_str now (suc left) [] c = (raise (opencti_error "unreachable"), c)
attempt_loop py_str now (suc left) (connect_error m k ∷ outcomes) c =
    let retry = attempt_loop py_str now left outcomes (send c) in
    if ltb 0 left then retry else settle py_str now (connect_error m k) (send c)
attempt_loop py_str now (suc left) (outcome ∷ outcomes) c = settle py_str now outcome (send c)

-- `execute`, asked at the time `now` and settled at the time `later`.
unfoldable pub execute :
    (Json → String) → ℕ → ℕ → Bool → Outcome → Outcome → Client → Result Json × Client
unfolding attempt_loop
execute py_str now later retry_connect first second c =
    if allows now c.breaker
    then attempt_loop py_str later (if retry_connect then 2 else 1) (first ∷ second ∷ []) c
    else (raise (breaker_open "circuit breaker open"), c)

about_version : Json → Result Json
about_version (obj body) = elim (dict_or_empty (get "about" body)) [
  | none ↦ raise attribute_error
  | some about ↦ ok (get "version" about)
]
about_version _ = raise attribute_error

-- `health`: the version that OpenCTI reports, where it reports one
unfoldable pub health : (Json → String) → ℕ → ℕ → Outcome → Outcome → Client → Result Json × Client
unfolding about_version
health py_str now later first second c =
    let (r, c') = execute py_str now later false first second c in (r >>= about_version, c')
