-- ===== src/Mapper/Labels.antt =====
-- The labels and the marking of a payload (`_labels` and `_marking`).
use opencti_middleware.Base.{
  ℕ, String, Bool, true, false, Option, none, some, List, [], ◌∷◌, ◌++◌, length, leb, if◌then◌else◌,
}
use opencti_middleware.Base.Text.{strip, text_take, text_elem}
use opencti_middleware.Base.Json.{Json, Fields, get, truthy}
use opencti_middleware.Base.Result.{Result, ok, ◌>>=◌}
use opencti_middleware.Base.Python.{Python, as_dict, or_dict, iterate_or_empty}

abbrev pub max_labels : ℕ
max_labels = 24

abbrev pub max_label_len : ℕ
max_label_len = 64

-- `seen.setdefault(text, None)`
abbrev pub add_label : String → List String → List String
add_label text seen = if text_elem text seen then seen else seen ++ text ∷ []

unfoldable pub see_label : Python → Json → List String → List String
see_label py value seen =
    if truthy value
    then add_label (text_take max_label_len (strip (py.str_of value))) seen
    else seen

-- The inner loop, over the labels of one indicator. The result says whether it returned early.
unfoldable pub label_loop : Python → List Json → List String → Result (List String × Bool)
label_loop py [] seen = ok (seen, false)
label_loop py (label ∷ rest) seen = as_dict (or_dict label) >>= λ fs.
    let seen' = see_label py (get "value" fs) seen in
    let more = label_loop py rest seen' in
    if leb max_labels (length seen') then ok (seen', true) else more

unfoldable pub labels_loop : Python → List Fields → List String → Result (List String)
labels_loop py [] seen = ok seen
labels_loop py (ind ∷ inds) seen = iterate_or_empty (get "objectLabel" ind) >>= λ ls.
    label_loop py ls seen >>= λ r.
    let more = labels_loop py inds r.0 in if r.1 then ok r.0 else more

unfoldable pub labels : Python → List Fields → Result (List String)
labels py inds = labels_loop py inds []

-- the first definition among the markings
unfoldable pub first_definition : Python → List Json → Result (Option String)
first_definition py [] = ok none
first_definition py (m ∷ ms) = as_dict (or_dict m) >>= λ fs.
    let rest = first_definition py ms in
    if truthy (get "definition" fs)
    then ok (some (text_take max_label_len (py.str_of (get "definition" fs))))
    else rest

-- `_marking`: the markings of the indicator come before those of the observable.
unfoldable pub marking : Python → Fields → Fields → Result (Option String)
marking py node primary =
    iterate_or_empty (get "objectMarking" primary) >>= first_definition py >>= λ found. elim found [
      | some definition ↦ ok (some definition)
      | none ↦ iterate_or_empty (get "objectMarking" node) >>= first_definition py
    ]
