-- ===== src/Wazuh/Event.antt =====
-- The event that goes back to Wazuh for a hit (`send_event` and `build_event` of
-- wazuh/custom-opencti.py).
use opencti_middleware.Base.{
  String, Bool, false, not, ◌||◌, none, some, List, [], ◌∷◌, str_eq, if◌then◌else◌, insert,
}
use opencti_middleware.Base.Result.{Result, ok, raise, attribute_error, ◌>>=◌}
use opencti_middleware.Base.Text.{concat, replace_char, text_take}
use opencti_middleware.Base.Json.{
  Json, Fields, null, bool, int, str, arr, obj, field, end, get, get?, truthy,
}

abbrev pub integration_name : String
integration_name = "opencti"

-- 124 is the code of the bar, and 58 that of the colon
unfoldable pub escape_location : String → String
escape_location location = replace_char 58 "|:" (replace_char 124 "||" location)

abbrev pub get_default : String → Json → Fields → Json
get_default key default fs = elim (get? key fs) [ none ↦ default | some v ↦ v ]

abbrev pub is_text : String → Json → Bool
is_text text (str s) = str_eq s text
is_text text _ = false

module _ (py_str : Json → String) (dumps : List (String × Json) → String) where
  unfoldable pub agent_location : Fields → String
  agent_location agent = concat (
      "["
      ∷ py_str (get "id" agent)
      ∷ "] ("
      ∷ py_str (get "name" agent)
      ∷ ") "
      ∷ py_str (get_default "ip" (str "any") agent)
      ∷ [])

  unfoldable pub local_payload : List (String × Json) → String
  local_payload message = concat ("1:" ∷ integration_name ∷ ":" ∷ dumps message ∷ [])

  -- the text that `send_event` sends
  unfoldable pub event_payload : List (String × Json) → Json → Result String
  event_payload message (obj agent) =
      if not (truthy (obj agent)) || is_text "000" (get "id" agent)
      then ok (local_payload message)
      else ok (
          concat (
            "1:"
            ∷ escape_location (agent_location agent)
            ∷ "->"
            ∷ integration_name
            ∷ ":"
            ∷ dumps message
            ∷ []))
  event_payload message agent =
      if truthy agent then raise attribute_error else ok (local_payload message)

  -- the entries of a result that are texts, numbers or truth values
  unfoldable pub scalars : Fields → List (String × Json)
  scalars end = []
  scalars (field k (str s) fs) = (k, str s) ∷ scalars fs
  scalars (field k (int n) fs) = (k, int n) ∷ scalars fs
  scalars (field k (bool b) fs) = (k, bool b) ∷ scalars fs
  scalars (field k _ fs) = scalars fs

  -- `alert.get("rule") or {}`, as far as `get` can be called on it
  abbrev pub rule_of : Fields → Result Fields
  rule_of alert =
      if truthy (get "rule" alert)
      then (elim (get "rule" alert) as (λ _. Result Fields) [
        | obj fs ↦ ok fs
        | null ↦ raise attribute_error
        | bool _ ↦ raise attribute_error
        | int _ ↦ raise attribute_error
        | str _ ↦ raise attribute_error
        | arr _ ↦ raise attribute_error
      ])
      else ok end

  -- `build_event`, without the envelope
  unfoldable pub build_event : Fields → String → Fields → Result (List (String × Json))
  build_event alert indicator result = rule_of alert >>= λ rule. ok (
      insert "source_alert_id" (str (py_str (get_default "id" (str "") alert))) (
        insert "source_rule_description"
          (str (text_take 256 (py_str (get_default "description" (str "") rule))))
          (insert "source_rule_id" (str (py_str (get_default "id" (str "") rule)))
            (insert "indicator" (str indicator) (scalars result)))))
