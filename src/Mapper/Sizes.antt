-- ===== src/Mapper/Sizes.antt =====
-- How long the fields of a payload are.
use opencti_middleware.Base.{
  ℕ, ◌≤◌, String, ◌≡◌, Bool, true, false, ◌||◌, Option, none, some, List, [], ◌∷◌, arith, length,
  All, length-take, str_eq, if◌then◌else◌,
}
use mathlib.Core.Path.{subst}
use opencti_middleware.Base.Text.{text_length, text_elem}
use opencti_middleware.Base.Json.{Fields, get}
use opencti_middleware.Base.Result.{ok, ◌>>=◌, ok_of_bind}
use opencti_middleware.Base.Python.{Python, as_dict, or_dict, iterate_or_empty}
use opencti_middleware.Settings.{Settings}
use opencti_middleware.Cache.{Payload}
use opencti_middleware.Mapper.Policy.{is_expired}
use opencti_middleware.Mapper.Ranking.{select_indicators}
use opencti_middleware.Mapper.Labels.{marking, labels}
use opencti_middleware.Mapper.Payload.{
  Asked, Parts, phase_names, or_false, bool_text, all_fields, compact, read_parts, payload_of,
  build_payload,
}
use opencti_middleware.Mapper.Bounds.{labels-IsLabels, AllWithin, WithinLimit, bounded_text-le}
use opencti_middleware.Mapper.Answer.{joined-le, AllWithin-take, phase_names-AllWithin, marking-le}

-- The limit of a field, where it has one: 24 labels or phases of 64 characters with their commas, 128
-- characters for a name, 64 for the marking, 32 for the type of the pattern, and 256 for any other text
-- of OpenCTI. What the caller sent, the URLs and the
-- count have none.
abbrev pub limit_of : String → Option ℕ
limit_of key =
    if text_elem key
      ("value" ∷ "type" ∷ "match_type" ∷ "virustotal_url" ∷ "opencti_url" ∷ "indicator_count" ∷ [])
    then none
    else if str_eq key "labels" || str_eq key "kill_chain"
    then some 1560
    else if str_eq key "indicator_name" || str_eq key "created_by"
    then some 128
    else if str_eq key "marking"
    then some 64
    else if str_eq key "pattern_type"
    then some 32
    else some 256

abbrev HasSize : String × Option String → Type 0
HasSize f = elim (limit_of f.0) [ none ↦ Unit | some limit ↦ WithinLimit limit f.1 ]

-- the fields of a payload that have a limit keep to it
abbrev pub FieldFits : String × String → Type 0
FieldFits f = elim (limit_of f.0) [ none ↦ Unit | some limit ↦ text_length f.1 ≤ limit ]

or_false-WithinLimit : (o : Option String) → WithinLimit 256 o → WithinLimit 256 (or_false o)
or_false-WithinLimit none w = omega arith
or_false-WithinLimit (some t) w = w

bool_text-le : (b : Bool) → text_length (bool_text b) ≤ 256
bool_text-le true = omega arith
bool_text-le false = omega arith

compact-FieldFits :
    (fs : List (String × Option String)) → All HasSize fs → All FieldFits (compact fs)
unfolding compact
compact-FieldFits [] h = tt
compact-FieldFits ((k, none) ∷ fs) h = compact-FieldFits fs h.1
compact-FieldFits ((k, some v) ∷ fs) h = (h.0, compact-FieldFits fs h.1)

-- What the parts of a payload satisfy.
record PartsFit (p : Parts) : Type 0 where
  marking : WithinLimit 64 p.marking
  phases : AllWithin 64 p.phases
  labels : AllWithin 64 p.labels
  few : length p.labels ≤ 24

read_parts-PartsFit :
    (py : Python) (now : ℕ) (node primary : Fields) (inds : List Fields) {p : Parts}
    → read_parts py now node primary inds ≡ ok p
    → PartsFit p
unfolding read_parts
read_parts-PartsFit py now node primary inds {p} e =
    let (expired, e₀, k₀) = ok_of_bind (is_expired py now primary) e in
    let (m, e₁, k₁) = ok_of_bind (marking py node primary) k₀ in
    let (c, e₂, k₂) = ok_of_bind (as_dict (or_dict (get "createdBy" primary))) k₁ in
    let (names, e₃, k₃) =
      ok_of_bind (iterate_or_empty (get "killChainPhases" primary) >>= phase_names py) k₂ in
    let (ps, e₄, k₄) = ok_of_bind (iterate_or_empty (get "killChainPhases" primary)) e₃ in
    let (ls, e₅, k₅) = ok_of_bind (labels py inds) k₃ in
    let good = labels-IsLabels py inds ls e₅ in
    let fit : PartsFit (record {
      count = length inds;
      expired = expired;
      marking = m;
      created_by = get "name" c;
      phases = names;
      labels = ls;
    }) =
      record {
        marking = marking-le py node primary e₁;
        phases = phase_names-AllWithin py ps k₄;
        labels = good.0.within;
        few = good.1;
      } in
    ground arith

all_fields-HasSize :
    (py : Python) (a : Asked) (node primary : Fields) (p : Parts)
    → PartsFit p
    → All HasSize (all_fields py a node primary p)
unfolding all_fields
all_fields-HasSize py a node primary p f = (
  omega arith,
  (
    tt,
    (
      tt,
      (
        tt,
        (
          bounded_text-le py 256 _ (omega arith),
          (
            bounded_text-le py 256 _ (omega arith),
            (
              or_false-WithinLimit _ (bounded_text-le py 256 _ (omega arith)),
              (
                bool_text-le p.expired,
                (
                  or_false-WithinLimit _ (bounded_text-le py 256 _ (omega arith)),
                  (
                    bounded_text-le py 256 _ (omega arith),
                    (
                      bounded_text-le py 256 _ (omega arith),
                      (
                        bounded_text-le py 128 _ (omega arith),
                        (
                          tt,
                          (
                            bounded_text-le py 32 _ (omega arith),
                            (
                              bounded_text-le py 256 _ (omega arith),
                              (
                                f.marking,
                                (
                                  bounded_text-le py 256 _ (omega arith),
                                  (
                                    bounded_text-le py 128 _ (omega arith),
                                    (
                                      joined-le _ (AllWithin-take 64 24 p.phases f.phases)
                                          (ground (arith, length-take 24 p.phases)),
                                      (joined-le p.labels f.labels f.few, (tt, (tt, tt))),
                                    ),
                                  ),
                                ),
                              ),
                            ),
                          ),
                        ),
                      ),
                    ),
                  ),
                ),
              ),
            ),
          ),
        ),
      ),
    ),
  ),
)

payload_of-FieldFits :
    (py : Python) (now : ℕ) (a : Asked) (node : Fields) (inds : List Fields) (p : Payload)
    → payload_of py now a node inds ≡ ok (some p)
    → All FieldFits p
unfolding payload_of
payload_of-FieldFits py now a node [] p e = absurd (ground arith)
payload_of-FieldFits py now a node (primary ∷ rest) p e =
    let (parts, e', k) = ok_of_bind (read_parts py now node primary (primary ∷ rest)) e in
    let fit = read_parts-PartsFit py now node primary (primary ∷ rest) e' in
    let same : compact (all_fields py a node primary parts) ≡ p = ground arith in
    subst (All FieldFits) same
      (compact-FieldFits _ (all_fields-HasSize py a node primary parts fit))

-- Every field of a payload that has a limit keeps to it: 128 characters for the names of the indicator
-- and of its creator, 64 for the marking, 32 for the type of the pattern, 1560 for the labels and for
-- the kill chain, and 256 for any other text of OpenCTI. The value, its type, how it matched, the
-- URLs and the count are not limited.
pub build_payload-FieldFits :
    (py : Python) (s : Settings) (now : ℕ) (value indicator_type match_type : String)
    (node : Fields) (p : Payload)
    → build_payload py s now value indicator_type match_type node ≡ ok (some p)
    → All FieldFits p
unfolding build_payload
build_payload-FieldFits py s now value indicator_type match_type node p e =
    let (inds, e', k) = ok_of_bind (select_indicators py s now node) e in
    payload_of-FieldFits py now _ node inds p k
