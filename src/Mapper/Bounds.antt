-- ===== src/Mapper/Bounds.antt =====
-- The sizes of what a payload holds: the labels and the texts.
use opencti_middleware.Base.{
  ℕ, ◌+◌, ◌≤◌, ◌<◌, String, ◌≡◌, refl, Bool, true, false, ◌||◌, Option, none, some, List, [], ◌∷◌,
  ◌++◌, arith, inl, inr, length, All, length-append, leb, str_eq, Bool-cases, if◌then◌else◌, eq_iff,
}
use opencti_middleware.Base.Text.{text_length, text_take, text_length-take-le, text_elem, strip}
use opencti_middleware.Base.Json.{Json, Fields, obj, bool, null, int, str, arr, get, truthy}
use opencti_middleware.Base.Result.{ok, ok_of_bind}
use opencti_middleware.Base.Python.{Python, as_dict, or_dict, iterate_or_empty}
use opencti_middleware.Mapper.Policy.{bounded_text}
use opencti_middleware.Mapper.Labels.{add_label, see_label, label_loop, labels_loop, labels}

-- each once
unfoldable pub NoRepeats : List String → Type 0
NoRepeats [] = Unit
NoRepeats (t ∷ ts) = (text_elem t ts ≡ false) × NoRepeats ts

abbrev pub AllWithin : ℕ → List String → Type 0
AllWithin limit = All (λ t. text_length t ≤ limit)

-- What a list of labels in the making satisfies.
pub record IsLabels (ls : List String) : Type 0 where
  pub within : AllWithin 64 ls
  pub once : NoRepeats ls

text_elem-append :
    (t u : String) (ts : List String) → text_elem t (ts ++ u ∷ []) ≡ (text_elem t ts || str_eq u t)
text_elem-append t u [] = ground arith
text_elem-append t u (x ∷ ts) = ground (arith, text_elem-append t u ts)

pub append-NoRepeats :
    (u : String) (ts : List String)
    → NoRepeats ts
    → text_elem u ts ≡ false
    → NoRepeats (ts ++ u ∷ [])
unfolding NoRepeats
append-NoRepeats u [] n h = (refl, tt)
append-NoRepeats u (t ∷ ts) n h =
    ground (arith, append-NoRepeats u ts n.1, text_elem-append t u ts, eq_iff u t, eq_iff t u)

append-AllWithin :
    (n : ℕ) (u : String) (ts : List String)
    → AllWithin n ts
    → text_length u ≤ n
    → AllWithin n (ts ++ u ∷ [])
append-AllWithin n u [] a h = (h, tt)
append-AllWithin n u (t ∷ ts) a h = (a.0, append-AllWithin n u ts a.1 h)

add_label-IsLabels :
    (u : String) (ts : List String) → text_length u ≤ 64 → IsLabels ts → IsLabels (add_label u ts)
add_label-IsLabels u ts h l = elim (Bool-cases (text_elem u ts)) [
  | inl e ↦ rw e l
  | inr e ↦ rw e (record {
    within = append-AllWithin 64 u ts l.within h;
    once = append-NoRepeats u ts l.once e;
  })
]

see_label-IsLabels :
    (py : Python) (value : Json) (ts : List String) → IsLabels ts → IsLabels (see_label py value ts)
unfolding see_label
see_label-IsLabels py value ts l = elim (Bool-cases (truthy value)) [
  | inl e ↦ rw e (add_label-IsLabels _ ts (text_length-take-le 64 (strip (py.str_of value))) l)
  | inr e ↦ rw e l
]

length-see_label-le :
    (py : Python) (value : Json) (ts : List String) → length (see_label py value ts) ≤ length ts + 1
unfolding see_label
length-see_label-le py value ts =
    ground (arith, length-append ts (text_take 64 (strip (py.str_of value)) ∷ []))

-- The inner loop stops early with 24 labels, and otherwise ends with fewer.
label_loop-IsLabels :
    (py : Python) (ls : List Json) (seen : List String) {r : List String × Bool}
    → IsLabels seen
    → length seen < 24
    → label_loop py ls seen ≡ ok r
    → IsLabels r.0 × (length r.0 ≤ 24) × (r.1 ≡ false → length r.0 < 24)
unfolding label_loop
label_loop-IsLabels py [] seen l h e = ground arith
label_loop-IsLabels py (label ∷ ls) seen {r} l h e =
    let (fs, e', k) = ok_of_bind (as_dict (or_dict label)) e in
    let grown = length-see_label-le py (get "value" fs) seen in
    let seen' = see_label-IsLabels py (get "value" fs) seen l in
    elim (Bool-cases (leb 24 (length (see_label py (get "value" fs) seen)))) [
      | inl full ↦ ground arith
      | inr more ↦
          label_loop-IsLabels py ls (see_label py (get "value" fs) seen) seen' (ground arith)
            (ground arith)
    ]

labels_loop-IsLabels :
    (py : Python) (inds : List Fields) (seen : List String) {ls : List String}
    → IsLabels seen
    → length seen < 24
    → labels_loop py inds seen ≡ ok ls
    → IsLabels ls × (length ls ≤ 24)
unfolding labels_loop
labels_loop-IsLabels py [] seen l h e = ground arith
labels_loop-IsLabels py (ind ∷ inds) seen l h e =
    let (found, e', k) = ok_of_bind (iterate_or_empty (get "objectLabel" ind)) e in
    let (r, e'', k') = ok_of_bind (label_loop py found seen) k in
    let (a, b, c) = label_loop-IsLabels py found seen l h e'' in
    elim (Bool-cases r.1) [
      | inl full ↦ ground arith
      | inr more ↦ labels_loop-IsLabels py inds r.0 a (c more) (ground arith)
    ]

-- The labels of a payload are at most 24 texts of at most 64 characters each, without repetition.
pub labels-IsLabels :
    (py : Python) (inds : List Fields) (ls : List String)
    → labels py inds ≡ ok ls
    → IsLabels ls × (length ls ≤ 24)
unfolding labels NoRepeats
labels-IsLabels py inds ls e =
    labels_loop-IsLabels py inds [] (record { within = tt; once = tt }) (omega arith) e

-- nothing, or a text of at most `limit` characters
abbrev pub WithinLimit : ℕ → Option String → Type 0
WithinLimit limit none = Unit
WithinLimit limit (some t) = text_length t ≤ limit

module _ (py : Python) (limit : ℕ) where
  take-WithinLimit :
      (t : String) → WithinLimit limit (if str_eq t "" then none else some (text_take limit t))
  take-WithinLimit t = elim (Bool-cases (str_eq t "")) [
    | inl e ↦ rw e tt
    | inr e ↦ rw e (text_length-take-le limit t)
  ]

  pub bounded_text-le : (value : Json) → 5 ≤ limit → WithinLimit limit (bounded_text py limit value)
  unfolding bounded_text
  bounded_text-le null h = tt
  bounded_text-le (bool true) h = omega arith
  bounded_text-le (bool false) h = omega arith
  bounded_text-le (int n) h = take-WithinLimit _
  bounded_text-le (str t) h = take-WithinLimit _
  bounded_text-le (arr vs) h = take-WithinLimit _
  bounded_text-le (obj fs) h = take-WithinLimit _
