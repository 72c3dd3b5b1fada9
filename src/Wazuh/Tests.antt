-- ===== src/Wazuh/Tests.antt =====
-- Extraction from a small alert.
use opencti_middleware.Base.{
  String, ◌≡◌, refl, true, false, Option, none, some, List, [], ◌∷◌, str_eq, if◌then◌else◌,
}
use opencti_middleware.Base.Text.{strip}
use opencti_middleware.Base.Json.{Fields, obj, str, field, end}
use opencti_middleware.Wazuh.{
  Address, dig_parts, dig, looks_private, note_value, note_values, note_digests, note_blob,
  note_blobs, extract_indicators,
}
use opencti_middleware.Base.Json.{Json}
use opencti_middleware.Wazuh.Event.{
  escape_location, agent_location, local_payload, event_payload, scalars, build_event,
}
use opencti_middleware.Wazuh.Location.{event_payload-injective}
use opencti_middleware.Wazuh.Report.{
  HookRequest, Reply, decoded, Run, send_request, cut_suffix, base_of, results_of, holds_alert,
  lookup_all, event_of, report, run_alert, main,
}
use opencti_middleware.Wazuh.Safety.{IsCareful, main-IsCareful}

abbrev local : Address
local = record {
  is_private = true;
  is_loopback = false;
  is_link_local = false;
  is_multicast = false;
  is_reserved = false;
  is_unspecified = false;
}

abbrev ip_address : String → Option Address
ip_address v = if str_eq v "10.0.0.1" then some local else none

abbrev digests_in : String → List String
digests_in blob = "AB" ∷ "ab" ∷ []

abbrev lower : String → String
lower d = "ab"

abbrev alert : Fields
alert =
    field "data"
      (obj (
        field "dstip" (str "10.0.0.1") (
          field "url" (str " http://evil.example/ ")
            (field "eventdata" (obj (field "Hashes" (str "MD5=AB,SHA1=ab") end)) end))))
      end

program : Unit {0}
unfolding strip dig_parts dig looks_private note_value note_values note_digests note_blob note_blobs
    extract_indicators
program = tt

extracted :
    extract_indicators ip_address digests_in lower alert ≡ "http://evil.example/" ∷ "ab" ∷ []
unfolding program
extracted = refl

abbrev py_str : Json → String
py_str (str s) = s
py_str _ = "None"

abbrev dumps : List (String × Json) → String
dumps message = "{}"

-- the middleware knows the URL
abbrev middleware : HookRequest → Reply
middleware r = decoded (
    obj (
      field "results"
        (obj (
          field "http://evil.example/" (obj (field "found" (str "true") end))
            (field "ab" (obj (field "found" (str "false") end)) end)))
        end))

abbrev agent : Fields
agent = field "id" (str "007") (field "name" (str "web|1:a") end)

reports : Unit {0}
unfolding program escape_location agent_location local_payload event_payload scalars build_event
    send_request cut_suffix base_of results_of lookup_all event_of report run_alert main
reports = tt

abbrev argv : List String
argv = "alert.json" ∷ "key" ∷ "https://mw.example/lookup/" ∷ []

abbrev reported_once : Run
reported_once = record {
  requests =
      record {
        url = "https://mw.example/lookup/bulk";
        api_key = "key";
        batch = some ("http://evil.example/" ∷ "ab" ∷ []);
      }
      ∷ [];
  events = "1:[007] (web||1|:a) any->opencti:{}" ∷ [];
  exit_code = 0;
}

one_hit :
    main py_str dumps
      (λ s. s)
      middleware
      ip_address
      digests_in
      lower
      (λ path. holds_alert (field "agent" (obj agent) alert))
      argv
    ≡ reported_once
unfolding reports
one_hit = refl

main-IsCareful_example : IsCareful (
    main py_str dumps
      (λ s. s)
      middleware
      ip_address
      digests_in
      lower
      (λ path. holds_alert (field "agent" (obj agent) alert))
      argv)
main-IsCareful_example =
    main-IsCareful py_str dumps (λ s. s) middleware ip_address digests_in lower
      (λ path. holds_alert (field "agent" (obj agent) alert)) argv

-- the same agent with one more field
abbrev agent_again : Fields
agent_again = field "version" (str "4") agent

event_payload-injective_example :
    agent_location py_str dumps agent ≡ agent_location py_str dumps agent_again
unfolding event_payload agent_location
event_payload-injective_example =
    event_payload-injective py_str dumps [] [] agent agent_again refl refl refl refl refl
