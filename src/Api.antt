-- ===== src/Api.antt =====
-- The HTTP API (api/lookup.py and api/deps.py): the key check, the tenant, one lookup and a bulk of
-- them. A lookup that never returns, since its defanging does not, is `none`.
mod Access
mod Bulk
mod OneByOne
mod Tests
use Prim.Native.Char.{code}
use opencti_middleware.Base.{
  ℕ, ◌+◌, ◌-◌, ◌*◌, String, Bool, not, ◌&&◌, Option, none, some, List, [], ◌∷◌, length, take, ltb,
  str_eq, if◌then◌else◌, insert,
}
use opencti_middleware.Base.Result.{Result, Exception, ok, raise, type_error}
use opencti_middleware.Base.Text.{text_length, text_take, all_chars, between, show_nat}
use opencti_middleware.Settings.{Settings}
use opencti_middleware.Cache.{Payload}
use opencti_middleware.Indicators.{Normalized}
use opencti_middleware.Indicators.Normalize.{Texts}
use opencti_middleware.Indicators.Classify.{normalize}
use opencti_middleware.Live.{World, LookupResult, LiveBackend, live_lookup, live_ready}
use opencti_middleware.Split.{SplitBackend, split_lookup, split_ready}

-- `app.state.backend`
pub data Backend : Type 0 where
  live_only : LiveBackend → Backend
  with_split : SplitBackend → Backend

-- `app.state`, as far as the lookups go
pub record App : Type 0 where
  pub settings : Settings
  pub backend : Backend

-- A request: the header X-API-Key, any header by its name, and the header with the tenant.
pub record Request : Type 0 where
  pub x_api_key : Option String
  pub headers : String → Option String
  pub x_customer_code : Option String

-- An HTTP error by its status, or an exception, which becomes a status of 500.
pub data Refusal : Type 0 where
  status : ℕ → Refusal
  crash : Exception → Refusal

pub data Response {ℓ} (B : Type ℓ) : Type ℓ where
  refused : Refusal → Response B
  answered : B → Response B

-- `hmac.compare_digest`, which takes ASCII texts only
unfoldable pub compare_digest : String → String → Result Bool
compare_digest a b =
    if all_chars (λ c. ltb (code c) 128) a && all_chars (λ c. ltb (code c) 128) b
    then ok (str_eq a b)
    else raise type_error

-- a text that is there and not empty
abbrev pub or_none : Option String → Option String
or_none none = none
or_none (some s) = if str_eq s "" then none else some s

-- the key that comes with a request
abbrev pub supplied_key : (String → String) → Settings → Request → Option String
supplied_key lower s q = or_none (
    if str_eq (lower s.api_key_header) "x-api-key" then q.x_api_key else q.headers s.api_key_header)

-- `verify_api_key`, before what follows it
unfoldable pub verify_api_key : (String → String) → Settings → Request → Option Refusal
verify_api_key lower s q = elim (supplied_key lower s q) [
  | none ↦ some (status 401)
  | some key ↦ elim (compare_digest key s.api_key) [
    | raise x ↦ some (crash x)
    | ok same ↦ if same then none else some (status 403)
  ]
]

-- `customer_code`
abbrev pub customer_code : Request → Option String
customer_code q = elim (or_none q.x_customer_code) [
  | none ↦ none
  | some code ↦ some (text_take 64 code)
]

-- the payload with the tenant, where there is one
abbrev pub with_tenant : Option String → Payload → Payload
with_tenant none payload = payload
with_tenant (some tenant) payload = insert "customer_code" tenant payload

abbrev pub max_bulk : ℕ
max_bulk = 500

-- the body of a bulk lookup
pub record BulkBody : Type 0 where
  pub count : String
  pub truncated : String
  pub results : List (String × Payload)

-- `normalize` with the settings, and rounds enough for the length of the text
abbrev pub classified : Texts → Settings → String → Option Normalized
classified texts s value =
    normalize texts (record { skip_private = s.skip_private_ips; skip_tlds = s.skip_tlds })
      (2 * text_length value) value

abbrev pub body_of : List String → List (String × Payload) → BulkBody
body_of values results = record {
  count = show_nat (length results);
  truncated = if ltb max_bulk (length values) then "true" else "false";
  results = results;
}

-- the response of `lookup_bulk`
abbrev pub bulk_body :
    List String → Result (List (String × Payload)) × App → Response BulkBody × App
bulk_body values (raise x, app) = (refused (crash x), app)
bulk_body values (ok results, app) = (answered (body_of values results), app)

module _ (blake2b : String → List ℕ) where
  -- `backend.lookup`
  unfoldable pub backend_lookup : World → Normalized → Backend → Result LookupResult × Backend
  backend_lookup w n (live_only b) = let (r, b') = live_lookup w n b in (r, live_only b')
  backend_lookup w n (with_split b) = let (r, b') = split_lookup blake2b w n b in (r, with_split b')

  -- `lookup` once the request is admitted
  unfoldable pub answer : World → Option String → Normalized → App → Response Payload × App
  answer w tenant n app =
      let (r, backend) = backend_lookup w n app.backend in
      (
        elim r [
          | raise x ↦ refused (crash x)
          | ok result ↦ answered (with_tenant tenant result.payload)
        ],
        record app { backend = backend },
      )

  module _ (texts : Texts) where
    -- `lookup`: the key is checked before the length of the value
    unfoldable pub lookup : World → Request → String → App → Option (Response Payload × App)
    lookup w q value app = elim (verify_api_key texts.lower app.settings q) [
      | some refusal ↦ some (refused refusal, app)
      | none ↦
          if not (between 1 2048 (text_length value))
          then some (refused (status 422), app)
          else elim (classified texts app.settings value) [
            | none ↦ none
            | some n ↦ some (answer w (customer_code q) n app)
          ]
    ]

    -- the loop of `lookup_bulk`, at the n-th value of the batch
    unfoldable pub bulk_loop :
        (ℕ → World)
        → ℕ
        → List String
        → List (String × Payload)
        → App
        → Option (Result (List (String × Payload)) × App)
    bulk_loop worlds n [] results app = some (ok results, app)
    bulk_loop worlds n (raw ∷ values) results app = elim (classified texts app.settings raw) [
      | none ↦ none
      | some parsed ↦
          let (r, backend) = backend_lookup (worlds n) parsed app.backend in
          let app' = record app { backend = backend } in
          elim r [
            | raise x ↦ some (raise x, app')
            | ok result ↦ bulk_loop worlds (n + 1) values (insert raw result.payload results) app'
          ]
    ]

    -- `lookup_bulk`
    unfoldable pub lookup_bulk :
        (ℕ → World) → Request → List String → App → Option (Response BulkBody × App)
    lookup_bulk worlds q values app = elim (verify_api_key texts.lower app.settings q) [
      | some refusal ↦ some (refused refusal, app)
      | none ↦ elim (bulk_loop worlds 0 (take max_bulk values) [] app) [
        | none ↦ none
        | some r ↦ some (bulk_body values r)
      ]
    ]

-- `backend.ready`
unfoldable pub backend_ready : ℕ → Backend → Bool
backend_ready now (live_only b) = live_ready now b
backend_ready now (with_split b) = split_ready now b

-- the status of `readyz`
abbrev pub readyz_status : ℕ → App → ℕ
readyz_status now app = if backend_ready now app.backend then 200 else 503
