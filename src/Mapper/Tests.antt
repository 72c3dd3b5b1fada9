-- ===== src/Mapper/Tests.antt =====
-- Payloads of a small node.
use opencti_middleware.Base.{
  ℕ, String, ◌≡◌, refl, Bool, true, false, Option, none, some, List, [], ◌∷◌, map, All, str_eq,
  if◌then◌else◌,
}
use opencti_middleware.Base.{pos}
use opencti_middleware.Base.Text.{show_nat, strip}
use opencti_middleware.Base.Json.{
  Json, Items, Fields, obj, bool, null, int, str, arr, cons, nil, field, end, get,
}
use opencti_middleware.Base.Result.{ok, raise, ◌>>=◌, type_error}
use opencti_middleware.Base.Python.{Python, Datetime}
use opencti_middleware.Settings.{Settings, defaults}
use opencti_middleware.Cache.{Payload}
use opencti_middleware.Mapper.Policy.{
  bounded_text, parse_dt, is_expired, passes_policy, candidates, survives, survivors,
}
use opencti_middleware.Mapper.Ranking.{rank, rank_le, rank_all, place, sort, select_indicators}
use opencti_middleware.Mapper.Labels.{
  labels, marking, label_loop, labels_loop, see_label, first_definition,
}
use opencti_middleware.Mapper.Payload.{
  build_payload, payload_of, read_parts, all_fields, compact, phase_names, virustotal_url,
}
use opencti_middleware.Mapper.Order.{IsSorted, select_indicators-IsSorted}
use opencti_middleware.Mapper.Sizes.{FieldFits, build_payload-FieldFits}

-- a clock on which dates are small numbers
date_of : String → Option Datetime
date_of raw =
    if str_eq raw "2020"
    then some (Datetime.aware 2020)
    else if str_eq raw "2030"
    then some (Datetime.aware 2030)
    else if str_eq raw "2030 naive"
    then some (Datetime.naive 2030)
    else none

text_of : Json → String
text_of (str s) = s
text_of (int (pos n)) = show_nat n
text_of _ = "None"

abbrev py : Python
py = record { str_of = text_of; int_of = λ s. none; fromisoformat = date_of }

abbrev indicator : String → ℕ → String → Bool → Json
indicator name score until revoked = obj (
    field "name" (str name) (
      field "x_opencti_score" (int (pos score)) (
        field "valid_until" (str until) (
          field "revoked" (bool revoked) (
            field "objectLabel" (arr (cons (obj (field "value" (str name) end)) (cons null nil)))
              end)))))

abbrev edge : Json → Json
edge ind = obj (field "node" ind end)

edges : List Json → Items
edges [] = nil
edges (ind ∷ inds) = cons (edge ind) (edges inds)

abbrev node_of : List Json → Fields
node_of inds = field "indicators" (obj (field "edges" (arr (edges inds)) end)) end

abbrev fields_of : Json → Fields
fields_of (obj fs) = fs
fields_of _ = end

abbrev node : Fields
node = node_of (
    indicator "old" 90 "2020" true
    ∷ indicator "low" 10 "2030" false
    ∷ indicator "high" 80 "2030" false
    ∷ indicator "retracted" 99 "2030" true
    ∷ [])

abbrev settings : Settings
settings = defaults "https://opencti.example" "token" "key"

program : Unit {0}
unfolding strip show_nat date_of text_of edges bounded_text parse_dt is_expired passes_policy
    candidates survives survivors rank rank_le rank_all place sort select_indicators labels marking
    label_loop labels_loop see_label first_definition build_payload payload_of read_parts all_fields
    compact phase_names virustotal_url
program = tt

-- the retracted indicator is out, and the expired one comes last
best_first :
    (select_indicators py settings 2024 node >>= λ inds. ok (map (get "name") inds))
    ≡ ok (str "high" ∷ str "low" ∷ str "old" ∷ [])
unfolding program
best_first = refl

abbrev payload : Payload
payload =
    ("found", "true")
    ∷ ("value", "evil.example")
    ∷ ("type", "Domain-Name")
    ∷ ("match_type", "exact")
    ∷ ("score", "80")
    ∷ ("detection", "false")
    ∷ ("expired", "false")
    ∷ ("revoked", "false")
    ∷ ("valid_until", "2030")
    ∷ ("indicator_name", "high")
    ∷ ("indicator_count", "3")
    ∷ ("labels", "high,low,old")
    ∷ ("virustotal_url", "https://www.virustotal.com/gui/domain/evil.example")
    ∷ []

answer :
    build_payload py settings 2024 "evil.example" "Domain-Name" "exact" node ≡ ok (some payload)
unfolding program
answer = refl

-- a date without an offset is compared with one that has it
naive_date :
    build_payload py settings 2024 "evil.example" "Domain-Name" "exact"
      (node_of (indicator "n" 1 "2030 naive" true ∷ []))
    ≡ raise type_error
unfolding program
naive_date = refl

abbrev selected : List Fields
selected =
    fields_of (indicator "high" 80 "2030" false)
    ∷ fields_of (indicator "low" 10 "2030" false)
    ∷ fields_of (indicator "old" 90 "2020" true)
    ∷ []

select_indicators-IsSorted_example : IsSorted py 2024 selected
unfolding program
select_indicators-IsSorted_example = select_indicators-IsSorted py 2024 settings node selected refl

build_payload-FieldFits_example : All FieldFits payload
unfolding program
build_payload-FieldFits_example =
    build_payload-FieldFits py settings 2024 "evil.example" "Domain-Name" "exact" node payload refl
