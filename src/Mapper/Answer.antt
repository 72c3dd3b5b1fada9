-- ===== src/Mapper/Answer.antt =====
-- What `build_payload` answers: when there is no payload, and how long its texts are.
use opencti_middleware.Base.{
  ℕ, zero, suc, ◌+◌, ◌*◌, ◌≤◌, String, ◌≡◌, ◌↔◌, true, Option, none, List, [], ◌∷◌, arith, inl, inr,
  length, take, filter, str_eq, Bool-cases, Option-cases,
}
use opencti_middleware.Base.Text.{text_length, text_length-take-le, text_length-append, join}
use opencti_middleware.Base.Json.{Json, Fields, get, truthy}
use opencti_middleware.Base.Result.{ok, ◌>>=◌, ok_of_bind}
use opencti_middleware.Base.Python.{Python, as_dict, or_dict, iterate_or_empty}
use opencti_middleware.Settings.{Settings}
use opencti_middleware.Cache.{Payload}
use opencti_middleware.Mapper.Policy.{candidates}
use opencti_middleware.Mapper.Ranking.{select_indicators}
use opencti_middleware.Mapper.Labels.{first_definition, marking}
use opencti_middleware.Mapper.Payload.{
  Asked, phase_names, joined, read_parts, payload_of, build_payload,
}
use opencti_middleware.Mapper.Counts.{kept_count, count-select_indicators}
use opencti_middleware.Mapper.Bounds.{AllWithin, WithinLimit}

-- There is no payload exactly if none of the candidates survives the policy and the score.
pub build_payload-none_iff :
    (py : Python) (s : Settings) (now : ℕ) (value indicator_type match_type : String)
    (node : Fields) (cs : List Json) (r : Option Payload)
    → candidates node ≡ ok cs
    → build_payload py s now value indicator_type match_type node ≡ ok r
    → (r ≡ none) ↔ (kept_count py now s (λ ind. true) cs ≡ 0)
unfolding build_payload payload_of
build_payload-none_iff py s now value indicator_type match_type node cs r c h =
    let (inds, e, k) = ok_of_bind (select_indicators py s now node) h in
    let counted = count-select_indicators py now s (λ ind. true) node cs inds c e in
    go inds counted k
  where
    asked : Asked
    asked = record {
      opencti_url = s.opencti_url;
      value = value;
      indicator_type = indicator_type;
      match_type = match_type;
    }

    go :
        (inds : List Fields)
        → length (filter (λ ind. true) inds) ≡ kept_count py now s (λ ind. true) cs
        → payload_of py now asked node inds ≡ ok r
        → (r ≡ none) ↔ (kept_count py now s (λ ind. true) cs ≡ 0)
    go [] counted k = ground arith
    go (primary ∷ rest) counted k =
        let (p, e, k') = ok_of_bind (read_parts py now node primary (primary ∷ rest)) k in
        ground arith

length-joined :
    (t rest : String)
    → text_length (Prim.Native.String.◌++◌ t (Prim.Native.String.◌++◌ "," rest))
      ≡ text_length t + 1 + text_length rest
length-joined t rest =
    omega
      (arith, text_length-append t (Prim.Native.String.◌++◌ "," rest), text_length-append "," rest)

text_length-join-le :
    (m : ℕ) (ts : List String) → AllWithin m ts → text_length (join "," ts) ≤ (m + 1) * length ts
text_length-join-le m [] a = omega arith
text_length-join-le m (t ∷ []) a = omega arith
text_length-join-le m (t ∷ u ∷ ts) a =
    let rest = text_length-join-le m (u ∷ ts) a.1 in
    ground (arith, length-joined t (join "," (u ∷ ts)))

pub joined-le : (ts : List String) → AllWithin 64 ts → length ts ≤ 24 → WithinLimit 1560 (joined ts)
joined-le ts a h = elim (Bool-cases (str_eq (join "," ts) "")) [
  | inl e ↦ rw e tt
  | inr e ↦ rw e (omega (arith, text_length-join-le 64 ts a))
]

pub AllWithin-take : (m n : ℕ) (ts : List String) → AllWithin m ts → AllWithin m (take n ts)
AllWithin-take m zero ts a = tt
AllWithin-take m (suc n) [] a = tt
AllWithin-take m (suc n) (t ∷ ts) a = (a.0, AllWithin-take m n ts a.1)

pub phase_names-AllWithin :
    (py : Python) (ps : List Json) {names : List String}
    → phase_names py ps ≡ ok names
    → AllWithin 64 names
unfolding phase_names
phase_names-AllWithin py [] e = ground arith
phase_names-AllWithin py (p ∷ ps) e =
    let (fs, e', k) = ok_of_bind (as_dict p) e in
    let (names, e'', k') = ok_of_bind (phase_names py ps) k in
    let rest = phase_names-AllWithin py ps e'' in
    ground (arith, text_length-take-le 64 (py.str_of (get "phase_name" fs)))

first_definition-le :
    (py : Python) (ms : List Json) {d : Option String}
    → first_definition py ms ≡ ok d
    → WithinLimit 64 d
unfolding first_definition
first_definition-le py [] e = ground arith
first_definition-le py (m ∷ ms) e =
    let (fs, e', k) = ok_of_bind (as_dict (or_dict m)) e in
    elim (Bool-cases (truthy (get "definition" fs))) [
      | inl found ↦ ground (arith, text_length-take-le 64 (py.str_of (get "definition" fs)))
      | inr more ↦ first_definition-le py ms (ground arith)
    ]

pub marking-le :
    (py : Python) (node primary : Fields) {d : Option String}
    → marking py node primary ≡ ok d
    → WithinLimit 64 d
unfolding marking
marking-le py node primary {d} e =
    let (first, e', k) =
      ok_of_bind (iterate_or_empty (get "objectMarking" primary) >>= first_definition py) e in
    let (ms, e'', k') = ok_of_bind (iterate_or_empty (get "objectMarking" primary)) e' in
    let here = first_definition-le py ms k' in
    elim (Option-cases first) [
      | inl missing ↦
          let there : (iterate_or_empty (get "objectMarking" node) >>= first_definition py) ≡ ok d =
            ground arith in
          let (ns, u, v) = ok_of_bind (iterate_or_empty (get "objectMarking" node)) there in
          first_definition-le py ns v
      | inr (t, found) ↦ ground arith
    ]
