-- ===== src/Mapper/Payload.antt =====
-- The flat payload of a node (`build_payload` and `_virustotal_url`), and the answers for a miss.
use opencti_middleware.Base.{
  ℕ, String, Bool, ◌||◌, Option, none, some, List, [], ◌∷◌, length, take, str_eq, if◌then◌else◌,
}
use opencti_middleware.Base.Text.{text_take, join, concat, has_prefix, show_nat}
use opencti_middleware.Base.Json.{Json, Fields, get, truthy}
use opencti_middleware.Base.Result.{Result, ok, ◌>>=◌}
use opencti_middleware.Base.Python.{Python, as_dict, or_dict, iterate_or_empty}
use opencti_middleware.Settings.{Settings}
use opencti_middleware.Cache.{Payload}
use opencti_middleware.Mapper.Policy.{bounded_text, is_expired}
use opencti_middleware.Mapper.Ranking.{select_indicators}
use opencti_middleware.Mapper.Labels.{max_labels, max_label_len, labels, marking}

abbrev pub max_text_len : ℕ
max_text_len = 256

abbrev pub max_name_len : ℕ
max_name_len = 128

unfoldable pub virustotal_url : String → String → Option String
virustotal_url indicator_type value =
    if has_prefix "StixFile" indicator_type
    then some (concat ("https://www.virustotal.com/gui/file/" ∷ value ∷ []))
    else if str_eq indicator_type "IPv4-Addr" || str_eq indicator_type "IPv6-Addr"
    then some (concat ("https://www.virustotal.com/gui/ip-address/" ∷ value ∷ []))
    else if str_eq indicator_type "Domain-Name" || str_eq indicator_type "Hostname"
    then some (concat ("https://www.virustotal.com/gui/domain/" ∷ value ∷ []))
    else none

abbrev pub bool_text : Bool → String
bool_text b = if b then "true" else "false"

abbrev pub or_false : Option String → Option String
or_false none = some "false"
or_false (some s) = some s

-- `",".join(parts) or None`
abbrev pub joined : List String → Option String
joined parts = let text = join "," parts in if str_eq text "" then none else some text

-- `[str(p.get("phase_name"))[:64] for p in phases if p.get("phase_name")]`
unfoldable pub phase_names : Python → List Json → Result (List String)
phase_names py [] = ok []
phase_names py (p ∷ ps) = as_dict p >>= λ fs. phase_names py ps >>= λ names. ok (
    if truthy (get "phase_name" fs)
    then text_take max_label_len (py.str_of (get "phase_name" fs)) ∷ names
    else names)

-- What is asked: the settings' URL, the value, its type, and how it matched.
pub record Asked : Type 0 where
  pub opencti_url : String
  pub value : String
  pub indicator_type : String
  pub match_type : String

-- The fields that are computed from lists and dates.
pub record Parts : Type 0 where
  pub count : ℕ
  pub expired : Bool
  pub marking : Option String
  pub created_by : Json
  pub phases : List String
  pub labels : List String

abbrev pub indicator_url : Python → String → Json → Option String
indicator_url py url id =
    if truthy id
    then some (concat (url ∷ "/dashboard/observations/indicators/" ∷ py.str_of id ∷ []))
    else none

unfoldable pub all_fields : Python → Asked → Fields → Fields → Parts → List (String × Option String)
all_fields py a node primary p =
    ("found", some "true")
    ∷ ("value", some a.value)
    ∷ ("type", some a.indicator_type)
    ∷ ("match_type", some a.match_type)
    ∷ ("score", bounded_text py max_text_len (get "x_opencti_score" primary))
    ∷ ("confidence", bounded_text py max_text_len (get "confidence" primary))
    ∷ ("detection", or_false (bounded_text py max_text_len (get "x_opencti_detection" primary)))
    ∷ ("expired", some (bool_text p.expired))
    ∷ ("revoked", or_false (bounded_text py max_text_len (get "revoked" primary)))
    ∷ ("valid_from", bounded_text py max_text_len (get "valid_from" primary))
    ∷ ("valid_until", bounded_text py max_text_len (get "valid_until" primary))
    ∷ ("indicator_name", bounded_text py max_name_len (get "name" primary))
    ∷ ("indicator_count", some (show_nat p.count))
    ∷ ("pattern_type", bounded_text py 32 (get "pattern_type" primary))
    ∷ ("description", bounded_text py max_text_len (get "description" primary))
    ∷ ("marking", p.marking)
    ∷ ("observable_score", bounded_text py max_text_len (get "x_opencti_score" node))
    ∷ ("created_by", bounded_text py max_name_len p.created_by)
    ∷ ("kill_chain", joined (take max_labels p.phases))
    ∷ ("labels", joined p.labels)
    ∷ ("virustotal_url", virustotal_url a.indicator_type a.value)
    ∷ ("opencti_url", indicator_url py a.opencti_url (get "id" primary))
    ∷ []

-- the fields that are there
unfoldable pub compact : List (String × Option String) → Payload
compact [] = []
compact ((k, none) ∷ fs) = compact fs
compact ((k, some v) ∷ fs) = (k, v) ∷ compact fs

unfoldable pub read_parts : Python → ℕ → Fields → Fields → List Fields → Result Parts
read_parts py now node primary survivors = is_expired py now primary >>= λ expired.
    marking py node primary >>= λ marking.
    as_dict (or_dict (get "createdBy" primary)) >>= λ created_by.
    iterate_or_empty (get "killChainPhases" primary) >>= phase_names py >>= λ phases.
    labels py survivors >>= λ labels. ok (record {
      count = length survivors;
      expired = expired;
      marking = marking;
      created_by = get "name" created_by;
      phases = phases;
      labels = labels;
    })

unfoldable pub payload_of : Python → ℕ → Asked → Fields → List Fields → Result (Option Payload)
payload_of py now a node [] = ok none
payload_of py now a node (primary ∷ rest) = read_parts py now node primary (primary ∷ rest) >>= λ p.
    ok (some (compact (all_fields py a node primary p)))

-- `build_payload`
unfoldable pub build_payload :
    Python → Settings → ℕ → String → String → String → Fields → Result (Option Payload)
build_payload py s now value indicator_type match_type node =
    select_indicators py s now node
    >>= payload_of py now
        (record {
          opencti_url = s.opencti_url;
          value = value;
          indicator_type = indicator_type;
          match_type = match_type;
        })
        node

abbrev pub miss : Payload
miss = ("found", "false") ∷ []

abbrev pub degraded : Payload
degraded = ("found", "false") ∷ ("degraded", "true") ∷ []
