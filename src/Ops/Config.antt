-- ===== src/Ops/Config.antt =====
-- `validate_config` of api/ops.py.
use opencti_middleware.Base.{
  ℕ, String, Bool, ◌||◌, none, some, List, [], ◌∷◌, leb, str_eq, if◌then◌else◌,
}
use opencti_middleware.Base.Json.{Json}
use opencti_middleware.Base.Text.{text_length, text_take, has_prefix, join, concat}
use opencti_middleware.Base.Result.{Result, Exception, ok, raise, cancelled}
use opencti_middleware.Settings.{
  Settings, HitPolicy, live_only as only_live, expiry_aware, all_indicators,
}
use opencti_middleware.Client.{Outcome, Client, health}
use opencti_middleware.Api.{
  Backend, live_only, with_split, App, Request, Response, refused, answered, crash, verify_api_key,
}
use opencti_middleware.Lifespan.{with_client}
use opencti_middleware.Ops.{ReportFields, live_of}

-- the value of a `HitPolicy`
abbrev pub policy_text : HitPolicy → String
policy_text only_live = "live_only"
policy_text expiry_aware = "expiry_aware"
policy_text all_indicators = "all"

abbrev pub key_check : Settings → String
key_check s = if leb 32 (text_length s.api_key) then "ok" else "weak (<32 chars)"

abbrev pub url_check : Settings → String
url_check s = if str_eq s.opencti_url "" then "missing" else "ok"

-- a text that says that a check has failed
unfoldable pub is_problem : String → Bool
is_problem v = has_prefix "failed" v || has_prefix "missing" v || has_prefix "weak" v

-- the keys of the checks that have failed
abbrev pub problems_of : List (String × String) → List String
problems_of [] = []
problems_of ((k, v) ∷ checks) =
    let rest = problems_of checks in if is_problem v then k ∷ rest else rest

abbrev pub status_text : List String → String
status_text [] = "ready"
status_text (_ ∷ _) = "issues"

-- the body of `validate_config`
pub record ConfigReport : Type 0 where
  pub status : String
  pub problems : List String
  pub checks : List (String × String)
  pub backend : ReportFields
  pub memory : String

abbrev pub replace_client : Client → Backend → Backend
replace_client c (live_only b) = live_only (record b { client = c })
replace_client c (with_split s) = with_split (with_client c s)

module _ (py_str : Json → String) (show : Exception → String) where
  -- what the call of OpenCTI comes to, as a text
  abbrev pub health_check : Result Json → String
  health_check (ok version) = concat ("ok (v" ∷ py_str version ∷ ")" ∷ [])
  health_check (raise x) = text_take 200 (concat ("failed: " ∷ show x ∷ []))

  abbrev pub checks_of : Settings → Result Json → List (String × String)
  checks_of s version =
      ("api_key", key_check s)
      ∷ ("opencti_url", url_check s)
      ∷ ("hit_policy", policy_text s.hit_policy)
      ∷ ("domain_match_types", join "," s.domain_match_types)
      ∷ ("opencti_connectivity", health_check version)
      ∷ []

  abbrev pub report_of : Settings → Result Json → ReportFields → String → ConfigReport
  report_of s version backend memory =
      let checks = checks_of s version in
      let problems = problems_of checks in
      record {
        status = status_text problems;
        problems = problems;
        checks = checks;
        backend = backend;
        memory = memory;
      }

  -- the response, once OpenCTI was asked; a cancellation ends the request
  abbrev pub config_response :
      (App → ReportFields) → String → Result Json → App → Response ConfigReport × App
  config_response describe memory (raise cancelled) app = (refused (crash cancelled), app)
  config_response describe memory version app =
      (answered (report_of app.settings version (describe app) memory), app)

  -- `validate_config`, at the times before and after the call of OpenCTI and with what the attempts
  -- of that call come to
  unfoldable pub validate_config :
      (String → String)
      → (App → ReportFields)
      → String
      → ℕ
      → ℕ
      → Outcome
      → Outcome
      → Request
      → App
      → Response ConfigReport × App
  validate_config lower describe memory now later first second q app =
      elim (verify_api_key lower app.settings q) [
        | some refusal ↦ (refused refusal, app)
        | none ↦
            let (version, c) = health py_str now later first second (live_of app.backend).client in
            config_response describe memory version
              (record app { backend = replace_client c app.backend })
      ]
