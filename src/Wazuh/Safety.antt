-- ===== src/Wazuh/Safety.antt =====
-- What a run of the integration asks and sends (wazuh/custom-opencti.py).
use opencti_middleware.Base.{
  ℕ, ◌≤◌, String, ◌≡◌, ◌⊎◌, refl, ap, Bool, true, ◌||◌, Option, List, [], ◌∷◌, arith, inl, inr,
  length, All, str_eq, if◌then◌else◌,
}
use opencti_middleware.Base.{if_cases}
use opencti_middleware.Base.Result.{Result, ok, raise}
use opencti_middleware.Base.Text.{has_prefix}
use opencti_middleware.Base.Json.{Json, Fields, null, truthy}
use opencti_middleware.Wazuh.{Address, extract_indicators}
use opencti_middleware.Wazuh.Report.{
  HookRequest, Reply, Run, send_request, results_of, AlertFile, not_found, invalid, holds_alert,
  lookup_all, report, ended, reported, run_alert, main,
}

abbrev pub is_http : HookRequest → Bool
is_http r = has_prefix "http://" r.url || has_prefix "https://" r.url

-- at most one call of `urlopen`, and for a URL of HTTP
abbrev IsModest : List HookRequest → Type 0
IsModest rs = (length rs ≤ 1) × All (λ r. is_http r ≡ true) rs

-- A run calls `urlopen` once at most, for a URL of HTTP; it sends no event without a call; and where it
-- ends with another code than 0 it has made none.
pub record IsCareful (r : Run) : Type 0 where
  pub modest : IsModest r.requests
  pub asked_first : r.requests ≡ [] → r.events ≡ []
  pub errors_early : (r.exit_code ≡ 0) ⊎ (r.requests ≡ [])

-- without a call there is no body
abbrev AsksOnce : List HookRequest × Json → Type 0
AsksOnce (rs, body) = IsModest rs × (rs ≡ [] → body ≡ null)

-- without a call there are no results
abbrev Looked : List HookRequest × Result (List (String × Json)) → Type 0
Looked (rs, results) = IsModest rs × (rs ≡ [] → results ≡ ok [])

send_request-AsksOnce :
    (middleware : HookRequest → Reply) (r : HookRequest) → AsksOnce (send_request middleware r)
unfolding send_request
send_request-AsksOnce middleware r =
    if_cases AsksOnce (is_http r) (λ e. ((omega arith, (e, tt)), λ h. absurd cc))
      (λ e. ((omega arith, tt), λ h. refl))

module _ (urlencode : String → String) (middleware : HookRequest → Reply) where
  lookup_all-Looked :
      (base_url api_key : String) (indicators : List String)
      → Looked (lookup_all urlencode middleware base_url api_key indicators)
  unfolding lookup_all results_of
  lookup_all-Looked base_url api_key [] =
      let (modest, none_asked) = send_request-AsksOnce middleware _ in
      (modest, λ h. ap results_of (none_asked h))
  lookup_all-Looked base_url api_key (indicator ∷ []) =
      let (modest, none_asked) = send_request-AsksOnce middleware _ in
      (
        modest,
        λ h. ap (λ body. ok (if truthy body then (indicator, body) ∷ [] else [])) (none_asked h),
      )
  lookup_all-Looked base_url api_key (indicator ∷ next ∷ others) =
      let (modest, none_asked) = send_request-AsksOnce middleware _ in
      (modest, λ h. ap results_of (none_asked h))

module _ (py_str : Json → String) (dumps : List (String × Json) → String)
    (urlencode : String → String) (middleware : HookRequest → Reply)
    (ip_address : String → Option Address) (digests_in : String → List String)
    (lower : String → String) where
  ended-IsCareful : (exit_code : ℕ) → IsCareful (ended py_str dumps exit_code)
  ended-IsCareful exit_code = record {
    modest = (omega arith, tt);
    asked_first = λ h. refl;
    errors_early = inr refl;
  }

  reported-IsCareful :
      (alert : Fields) (x : List HookRequest × Result (List (String × Json)))
      → Looked x
      → IsCareful (reported py_str dumps alert x)
  unfolding report
  reported-IsCareful alert (rs, raise e) (modest, silent) = record {
    modest = modest;
    asked_first = λ h. refl;
    errors_early = inl refl;
  }
  reported-IsCareful alert (rs, ok results) (modest, silent) = record {
    modest = modest;
    asked_first = λ h.
        let nothing : results ≡ [] = (let k = silent h in cc) in
        ap (report py_str dumps alert) nothing;
    errors_early = inl refl;
  }

  run_alert-IsCareful :
      (api_key hook_url : String) (alert : Fields)
      → IsCareful (
          run_alert py_str dumps urlencode middleware ip_address digests_in lower api_key hook_url
            alert)
  unfolding run_alert
  run_alert-IsCareful api_key hook_url alert =
      go (extract_indicators ip_address digests_in lower alert)
    where
      go :
          (indicators : List String)
          → IsCareful (elim indicators as (λ _. Run) [
            | [] ↦ ended py_str dumps 0
            | first ∷ others ↦
                reported py_str dumps alert
                  (lookup_all urlencode middleware hook_url api_key (first ∷ others))
          ])
      go [] = ended-IsCareful 0
      go (first ∷ others) =
          reported-IsCareful alert _
            (lookup_all-Looked urlencode middleware hook_url api_key (first ∷ others))

  -- Whatever its arguments and the alert are, and whatever `urlopen` comes to, a run calls `urlopen` once
  -- at most, for a URL that begins with `http://` or `https://`; it sends no event without a call; and
  -- where it ends with another code than 0 it has made no call.
  pub main-IsCareful :
      (read_alert : String → AlertFile) (argv : List String)
      → IsCareful
          (main py_str dumps urlencode middleware ip_address digests_in lower read_alert argv)
  unfolding main
  main-IsCareful read_alert [] = ended-IsCareful 2
  main-IsCareful read_alert (a ∷ []) = ended-IsCareful 2
  main-IsCareful read_alert (a ∷ b ∷ []) = ended-IsCareful 2
  main-IsCareful read_alert (file ∷ api_key ∷ hook_url ∷ more) =
      if_cases IsCareful (str_eq api_key "" || str_eq hook_url "") (λ _. ended-IsCareful 2)
        (λ _. loaded (read_alert file))
    where
      loaded :
          (a : AlertFile)
          → IsCareful (elim a as (λ _. Run) [
            | not_found ↦ ended py_str dumps 6
            | invalid ↦ ended py_str dumps 7
            | holds_alert alert ↦
                run_alert py_str dumps urlencode middleware ip_address digests_in lower api_key
                  hook_url alert
          ])
      loaded not_found = ended-IsCareful 6
      loaded invalid = ended-IsCareful 7
      loaded (holds_alert alert) = run_alert-IsCareful api_key hook_url alert
