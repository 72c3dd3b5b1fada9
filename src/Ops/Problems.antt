-- ===== src/Ops/Problems.antt =====
-- When `validate_config` of api/ops.py says that the service is ready.
use opencti_middleware.Base.{
  ℕ, zero, suc, ◌≤◌, String, ◌≡◌, ◌↔◌, refl, ◌∙◌, ap, true, false, List, [], ◌∷◌, arith, inl, inr,
  All, leb, str_eq, leb→le, Bool-cases, Option-cases,
}
use Prim.Native.String
use Prim.Native.Char.{Char}
use text.Mathlib.TextLemmas.{cons-append}
use opencti_middleware.Base.Json.{Json}
use opencti_middleware.Base.Text.{str_eq-false, text_length, text_take, has_prefix, join, concat}
use opencti_middleware.Base.Result.{Result, Exception, ok, raise}
use opencti_middleware.Settings.{
  Settings, HitPolicy, live_only as only_live, expiry_aware, all_indicators,
}
use mathlib.Core.Path.{subst}
use opencti_middleware.Base.Result.{cancelled}
use opencti_middleware.Client.{Outcome, health}
use opencti_middleware.Api.{App, Request, Response, refused, answered, verify_api_key}
use opencti_middleware.Ops.{ReportFields, live_of}
use opencti_middleware.Ops.Config.{
  policy_text, key_check, url_check, is_problem, problems_of, health_check, status_text, checks_of,
  report_of, ConfigReport, replace_client, config_response, validate_config,
}

policy_text-is_problem : (p : HitPolicy) → is_problem (policy_text p) ≡ false
unfolding is_problem
policy_text-is_problem only_live = refl
policy_text-is_problem expiry_aware = refl
policy_text-is_problem all_indicators = refl

has_prefix-append : (p s t : String) → has_prefix p s ≡ true → has_prefix p (String.◌++◌ s t) ≡ true
has_prefix-append String.[] s t h = refl
has_prefix-append (String.◌∷◌ c p) String.[] t h = cc
has_prefix-append (String.◌∷◌ c p) (String.◌∷◌ d s) t h =
    rw (cons-append d s t) (ground (arith, has_prefix-append p s t))

has_prefix-text_take :
    (p s : String) (n : ℕ)
    → text_length p ≤ n
    → has_prefix p s ≡ true
    → has_prefix p (text_take n s) ≡ true
has_prefix-text_take String.[] s n le h = refl
has_prefix-text_take (String.◌∷◌ c p) s zero le h = absurd (omega arith)
has_prefix-text_take (String.◌∷◌ c p) String.[] (suc n) le h = cc
has_prefix-text_take (String.◌∷◌ c p) (String.◌∷◌ d s) (suc n) le h =
    ground (arith, has_prefix-text_take p s n)

abbrev Passes : String × String → Type 0
Passes check = is_problem check.1 ≡ false

status_text_iff :
    (checks : List (String × String))
    → (status_text (problems_of checks) ≡ "ready") ↔ All Passes checks
status_text_iff [] = (λ h. tt, λ h. refl)
status_text_iff ((k, v) ∷ checks) = elim (Bool-cases (is_problem v)) [
  | inl bad ↦ rw bad (λ h. absurd (str_eq-false "issues" "ready" refl h), λ h. absurd cc)
  | inr good ↦
      let more = status_text_iff checks in
      rw good (λ h. (refl, more.0 h), λ (h : (false ≡ false) × All Passes checks). more.1 h.1)
]

key_check_iff : (s : Settings) → (is_problem (key_check s) ≡ false) ↔ (32 ≤ text_length s.api_key)
unfolding is_problem
key_check_iff s = elim (Bool-cases (leb 32 (text_length s.api_key))) [
  | inl long ↦ (λ h. leb→le 32 _ long, λ h. rw long refl)
  | inr short ↦
      (λ h. let bad : true ≡ false = rw short at h in absurd cc, λ h. absurd (ground arith))
]

url_check_iff :
    (s : Settings) → (is_problem (url_check s) ≡ false) ↔ (str_eq s.opencti_url "" ≡ false)
unfolding is_problem
url_check_iff s = elim (Bool-cases (str_eq s.opencti_url "")) [
  | inl none_there ↦ (λ h. let bad : true ≡ false = rw none_there at h in absurd cc, λ h. absurd cc)
  | inr there ↦ (λ h. there, λ h. rw there refl)
]

abbrev letter_o : Char
letter_o = "o"

-- the checks that `validate_config` makes have all passed
pub record AllWell (s : Settings) (version : Result Json) : Type 0 where
  pub long_key : 32 ≤ text_length s.api_key
  pub has_url : str_eq s.opencti_url "" ≡ false
  pub plain_types : is_problem (join "," s.domain_match_types) ≡ false
  pub answers : (v : Json) × (version ≡ ok v)

module _ (py_str : Json → String) (show : Exception → String) where
  ok-is_problem : (version : Json) → is_problem (health_check py_str show (ok version)) ≡ false
  unfolding is_problem
  ok-is_problem version = rw (cons-append letter_o "k (v" (concat (py_str version ∷ ")" ∷ []))) refl

  raise-is_problem : (x : Exception) → is_problem (health_check py_str show (raise x)) ≡ true
  unfolding is_problem
  raise-is_problem x =
      let starts =
        has_prefix-text_take "failed" (concat ("failed: " ∷ show x ∷ [])) 200 (omega arith)
          (has_prefix-append "failed" "failed: " (concat (show x ∷ [])) refl) in
      rw starts refl

  -- A report says `ready` exactly if all is well.
  report_of_iff :
      (s : Settings) (version : Result Json) (backend : ReportFields) (memory : String)
      → ((report_of py_str show s version backend memory).status ≡ "ready") ↔ AllWell s version
  report_of_iff s version backend memory = (
    λ h.
        let (key, (url, (_, (types, (called, _))))) =
          (status_text_iff (checks_of py_str show s version)).0 h in
        record {
          long_key = (key_check_iff s).0 key;
          has_url = (url_check_iff s).0 url;
          plain_types = types;
          answers = called_ok version called;
        },
    λ well.
        let (v, e) = well.answers in
        (status_text_iff (checks_of py_str show s version)).1 (
          (key_check_iff s).1 well.long_key,
          (
            (url_check_iff s).1 well.has_url,
            (
              policy_text-is_problem s.hit_policy,
              (
                well.plain_types,
                (ap (λ r. is_problem (health_check py_str show r)) e ∙ ok-is_problem v, tt),
              ),
            ),
          ),
        ),
  )
    where
      called_ok :
          (r : Result Json)
          → is_problem (health_check py_str show r) ≡ false
          → (v : Json) × (r ≡ ok v)
      called_ok (ok v) h = (v, refl)
      called_ok (raise x) h = let bad = raise-is_problem x in absurd cc

  reported-status :
      (describe : App → ReportFields) (memory : String) (version : Result Json) (app : App)
      (report : ConfigReport) (app' : App)
      → config_response py_str show describe memory version app ≡ (answered report, app')
      → (report.status ≡ "ready") ↔ AllWell app.settings version
  reported-status describe memory (ok v) app report app' h =
      let same : report_of py_str show app.settings (ok v) (describe app) memory ≡ report = cc in
      subst (λ r. (r.status ≡ "ready") ↔ AllWell app.settings (ok v)) same
        (report_of_iff app.settings (ok v) (describe app) memory)
  reported-status describe memory (raise cancelled) app report app' h = absurd cc
  reported-status describe memory (raise x) app report app' h =
      let same : report_of py_str show app.settings (raise x) (describe app) memory ≡ report = cc in
      subst (λ r. (r.status ≡ "ready") ↔ AllWell app.settings (raise x)) same
        (report_of_iff app.settings (raise x) (describe app) memory)

  -- Where `validate_config` answers, it says `ready` exactly if the key has 32 characters or more, there
  -- is a URL, OpenCTI has answered the request for its version, and the list of the domain types does not
  -- begin like the text of a failed check.
  pub validate_config_iff :
      (lower : String → String) (describe : App → ReportFields) (memory : String) (now later : ℕ)
      (first second : Outcome) (q : Request) (app app' : App) (report : ConfigReport)
      → validate_config py_str show lower describe memory now later first second q app
        ≡ (answered report, app')
      → (report.status ≡ "ready")
        ↔ AllWell app.settings (health py_str now later first second (live_of app.backend).client).0
  unfolding validate_config
  validate_config_iff lower describe memory now later first second q app app' report h =
      let out : Response ConfigReport × App = (answered report, app') in
      elim (Option-cases (verify_api_key lower app.settings q)) [
        | inr (x, e) ↦ let bad : (refused x, app) ≡ out = rw (e, validate_config) at h in absurd cc
        | inl e ↦
            let (version, c) = health py_str now later first second (live_of app.backend).client in
            let next : App = record app { backend = replace_client c app.backend } in
            let asked : config_response py_str show describe memory version next ≡ out =
              rw (e, validate_config) at h in
            reported-status describe memory version next report app' asked
      ]
