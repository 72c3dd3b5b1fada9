-- ===== src/Wazuh/Report.antt =====
-- The run of the integration on an alert: the lookup at the middleware and the events of its hits
-- (`_request`, `lookup`, `load_alert` and `main` of wazuh/custom-opencti.py). A run that raises ends with
-- the code 0.
use opencti_middleware.Base.{
  ℕ, ◌-◌, String, ◌||◌, Option, none, some, List, [], ◌∷◌, ◌==◌, str_eq, if◌then◌else◌,
}
use Prim.Native.Char.{code}
use Prim.Native.String
use opencti_middleware.Base.Result.{Result, ok, raise, attribute_error, ◌>>=◌}
use opencti_middleware.Base.Text.{concat, has_prefix, drop_while_end, text_length, text_take}
use opencti_middleware.Base.Json.{
  Json, Fields, null, bool, int, str, arr, obj, field, end, get, truthy,
}
use opencti_middleware.Wazuh.{Address, extract_indicators}
use opencti_middleware.Wazuh.Event.{is_text, build_event, event_payload}

abbrev pub err_bad_arguments : ℕ
err_bad_arguments = 2

abbrev pub err_file_not_found : ℕ
err_file_not_found = 6

abbrev pub err_invalid_json : ℕ
err_invalid_json = 7

-- what `urlopen` is called with, with the values of a batch
pub record HookRequest : Type 0 where
  pub url : String
  pub api_key : String
  pub batch : Option (List String)

-- What a call of `urlopen` comes to, with any redirects that it follows: a decoded body, or an error,
-- after which no event is sent.
pub data Reply : Type 0 where
  decoded : Json → Reply
  failed : Reply

abbrev pub body_of_reply : Reply → Json
body_of_reply (decoded body) = body
body_of_reply failed = null

-- What a run has done: the calls of `urlopen`, the events, and how it ended.
pub record Run : Type 0 where
  pub requests : List HookRequest
  pub events : List String
  pub exit_code : ℕ

-- `_request`: the calls of `urlopen`, and the body
unfoldable pub send_request : (HookRequest → Reply) → HookRequest → List HookRequest × Json
send_request middleware r =
    if has_prefix "http://" r.url || has_prefix "https://" r.url
    then (r ∷ [], body_of_reply (middleware r))
    else ([], null)

-- `s[: -len(suffix)]` where the text ends in the suffix
unfoldable pub cut_suffix : String → String → String
cut_suffix suffix s =
    let head = text_take (text_length s - text_length suffix) s in
    if str_eq (String.◌++◌ head suffix) s then head else s

-- the URL without its slashes at the end and without `/lookup`; 47 is the code of the slash
unfoldable pub base_of : String → String
base_of base_url = cut_suffix "/lookup" (drop_while_end (λ c. code c == 47) base_url)

abbrev pub pairs_of : Fields → List (String × Json)
pairs_of end = []
pairs_of (field k v fs) = (k, v) ∷ pairs_of fs

-- the results of a body
unfoldable pub results_of : Json → Result (List (String × Json))
results_of (obj fs) = elim (get "results" fs) as (λ _. Result (List (String × Json))) [
  | obj rs ↦ ok (pairs_of rs)
  | null ↦ ok []
  | bool _ ↦ ok []
  | int _ ↦ ok []
  | str _ ↦ ok []
  | arr _ ↦ ok []
]
results_of body = if truthy body then raise attribute_error else ok []

-- What `load_alert` finds; an alert that is no object is left out.
pub data AlertFile : Type 0 where
  not_found invalid : AlertFile
  holds_alert : Fields → AlertFile

module _ (urlencode : String → String) (middleware : HookRequest → Reply) where
  -- `lookup`: the calls of `urlopen`, and the results
  unfoldable pub lookup_all :
      String → String → List String → List HookRequest × Result (List (String × Json))
  lookup_all base_url api_key (indicator ∷ []) =
      let (requests, body) = send_request middleware (record {
        url = concat (base_of base_url ∷ "/lookup?" ∷ urlencode indicator ∷ []);
        api_key = api_key;
        batch = none;
      }) in
      (requests, ok (if truthy body then (indicator, body) ∷ [] else []))
  lookup_all base_url api_key indicators =
      let (requests, body) = send_request middleware (record {
        url = concat (base_of base_url ∷ "/lookup/bulk" ∷ []);
        api_key = api_key;
        batch = some indicators;
      }) in
      (requests, results_of body)

module _ (py_str : Json → String) (dumps : List (String × Json) → String) where
  -- the event of a result, where it is a hit
  unfoldable pub event_of : Fields → String → Json → Option (Result String)
  event_of alert indicator (obj result) =
      if is_text "true" (get "found" result)
      then some (
          build_event py_str dumps alert indicator result >>= λ message.
          event_payload py_str dumps message (get "agent" alert))
      else none
  event_of alert indicator result = none

  -- the loop of `main`: the events that are sent, up to one that cannot be made
  unfoldable pub report : Fields → List (String × Json) → List String
  report alert [] = []
  report alert ((indicator, result) ∷ rest) =
      let more = report alert rest in
      elim (event_of alert indicator result) [
        | none ↦ more
        | some (raise _) ↦ []
        | some (ok payload) ↦ payload ∷ more
      ]

  abbrev pub ended : ℕ → Run
  ended exit_code = record { requests = []; events = []; exit_code = exit_code }

  -- the end of `main`, after the lookup
  abbrev pub reported : Fields → List HookRequest × Result (List (String × Json)) → Run
  reported alert (requests, raise _) = record { requests = requests; events = []; exit_code = 0 }
  reported alert (requests, ok results) = record {
    requests = requests;
    events = report alert results;
    exit_code = 0;
  }

  module _ (urlencode : String → String) (middleware : HookRequest → Reply)
      (ip_address : String → Option Address) (digests_in : String → List String)
      (lower : String → String) where
    -- `main` once the alert is loaded
    unfoldable pub run_alert : String → String → Fields → Run
    run_alert api_key hook_url alert = elim (extract_indicators ip_address digests_in lower alert) [
      | [] ↦ ended 0
      | first ∷ others ↦
          reported alert (lookup_all urlencode middleware hook_url api_key (first ∷ others))
    ]

    -- `main`, with the arguments after the program's name; a debug flag only changes the log
    unfoldable pub main : (String → AlertFile) → List String → Run
    main read_alert (alert_file ∷ api_key ∷ hook_url ∷ _) =
        if str_eq api_key "" || str_eq hook_url ""
        then ended err_bad_arguments
        else elim (read_alert alert_file) as (λ _. Run) [
          | not_found ↦ ended err_file_not_found
          | invalid ↦ ended err_invalid_json
          | holds_alert alert ↦ run_alert api_key hook_url alert
        ]
    main read_alert _ = ended err_bad_arguments
