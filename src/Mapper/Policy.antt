-- ===== src/Mapper/Policy.antt =====
-- Which indicators of a node count as hits: the texts and dates of the fields, `passes_policy`, and
-- the indicators that survive. The time `now` and Python's
-- conversions are arguments; the source reads the clock at each date where `now` is left out.
use opencti_middleware.Base.{
  ℕ, String, Bool, true, false, not, Option, none, some, List, [], ◌∷◌, leb, str_eq, if◌then◌else◌,
}
use opencti_middleware.Base.{leb_ℤ}
use opencti_middleware.Base.Text.{strip, text_take, replace_char}
use opencti_middleware.Base.Json.{Json, Fields, null, bool, str, arr, nil, get, get?, truthy}
use opencti_middleware.Base.Result.{Result, ok, raise, type_error, ◌>>=◌}
use opencti_middleware.Base.Python.{Python, Datetime, int_or_zero, as_dict, or_dict, iterate}
use opencti_middleware.Settings.{Settings, HitPolicy}

-- `_s`: a text of at most `limit` characters that is not empty, or nothing
unfoldable pub bounded_text : Python → ℕ → Json → Option String
bounded_text py limit null = none
bounded_text py limit (bool b) = some (if b then "true" else "false")
bounded_text py limit value =
    let text = strip (py.str_of value) in
    if str_eq text "" then none else some (text_take limit text)

-- `_parse_dt`; 90 is the code of Z
unfoldable pub parse_dt : Python → Json → Option Datetime
parse_dt py (str raw) =
    if str_eq raw "" then none else py.fromisoformat (replace_char 90 "+00:00" raw)
parse_dt py _ = none

-- A date without an offset cannot be compared with the present, which has one.
unfoldable pub is_expired : Python → ℕ → Fields → Result Bool
is_expired py now node = elim (parse_dt py (get "valid_until" node)) [
  | none ↦ ok false
  | some (Datetime.aware t) ↦ ok (leb t now)
  | some (Datetime.naive t) ↦ raise type_error
]

unfoldable pub passes_policy : Python → ℕ → Fields → HitPolicy → Result Bool
passes_policy py now node HitPolicy.all_indicators = ok true
passes_policy py now node HitPolicy.live_only = ok (not (truthy (get "revoked" node)))
passes_policy py now node HitPolicy.expiry_aware =
    if truthy (get "revoked" node) then is_expired py now node else ok true

-- `[e["node"] for e in edges if e.get("node")]`
edge_nodes : List Json → Result (List Json)
edge_nodes [] = ok []
edge_nodes (e ∷ es) = as_dict e >>= λ fs.
    edge_nodes es >>= λ nodes. ok (if truthy (get "node" fs) then get "node" fs ∷ nodes else nodes)

-- the nodes of the edges of `indicators`
unfoldable pub candidates : Fields → Result (List Json)
unfolding edge_nodes
candidates node = as_dict (or_dict (get "indicators" node)) >>= λ raw.
    iterate (elim (get? "edges" raw) [ none ↦ arr nil | some edges ↦ edges ]) >>= edge_nodes

unfoldable pub survives : Python → Settings → ℕ → Fields → Result Bool
survives py s now ind = passes_policy py now ind s.hit_policy >>= λ passes.
    if passes
    then (int_or_zero py (get "x_opencti_score" ind) >>= λ score. ok (leb_ℤ s.min_score score))
    else ok false

-- the candidates that survive, in the order of the edges
unfoldable pub survivors : Python → Settings → ℕ → List Json → Result (List Fields)
survivors py s now [] = ok []
survivors py s now (candidate ∷ rest) = as_dict candidate >>= λ ind.
    survives py s now ind >>= λ keep.
    survivors py s now rest >>= λ inds. ok (if keep then ind ∷ inds else inds)
