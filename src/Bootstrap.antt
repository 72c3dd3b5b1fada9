-- ===== src/Bootstrap.antt =====
-- The bootstrap of the membership set (bootstrap.py): the pages of OpenCTI, the values in them, and
-- the set that is built from those. `normalize`, with the settings' skip rules, is an argument, as is
-- what OpenCTI answers. A run has fuel for a number of pages: OpenCTI could go on for ever.
mod Pages
mod Complete
pub mod Packed
pub mod Tests
use opencti_middleware.Base.{
  ℕ, zero, suc, ◌+◌, ◌*◌, String, Bool, true, false, ◌&&◌, Option, none, some, List, [], ◌∷◌, ◌++◌,
  length, leb, if◌then◌else◌, ℤ,
}
use opencti_middleware.Base.{pos}
use opencti_middleware.Base.Json.{Json, Fields, obj, str, null, int, field, end, get, get?, truthy}
use opencti_middleware.Base.Result.{Result, ok, raise, attribute_error, ◌>>=◌}
use opencti_middleware.Base.Python.{Python, as_dict, or_dict, iterate_or_empty, int_or_zero}
use opencti_middleware.Settings.{Settings, MembershipSource, observables, indicators}
use opencti_middleware.Client.{Client, Outcome, execute}
use opencti_middleware.Membership.{Segments, MembershipSet, build}
use opencti_middleware.Indicators.{Normalized, lookupable}

-- The documents of queries.py that the bootstrap sends.
pub data Document : Type 0 where
  bootstrap_indicators bootstrap_observables count_of_indicators count_of_observables : Document

-- OpenCTI, which answers the n-th request by its document and variables, and the clock, read twice
-- for every request.
pub record Upstream : Type 0 where
  pub opencti : Document → Json → ℕ → Outcome
  pub clock : ℕ → ℕ
  pub py : Python

-- `client.execute`
unfoldable pub ask : Upstream → Bool → Document → Json → Client → Result Json × Client
ask u retry document v c =
    execute u.py.str_of (u.clock (2 * c.sent)) (u.clock (2 * c.sent + 1)) retry
      (u.opencti document v c.sent) (u.opencti document v (c.sent + 1)) c

abbrev pub is_precise : MembershipSource → Bool
is_precise indicators = true
is_precise observables = false

abbrev pub document_of : Bool → Document
document_of precise = if precise then bootstrap_indicators else bootstrap_observables

abbrev pub root_of : Bool → String
root_of precise = if precise then "indicators" else "stixCyberObservables"

-- `_count`
unfoldable pub count : Upstream → Document → String → Client → Result ℤ × Client
count u document root c =
    let (result, c') = ask u false document (obj end) c in
    (
      result >>= as_dict >>= λ fs. as_dict (or_dict (get root fs)) >>= λ block.
          as_dict (elim (get? "pageInfo" block) [ none ↦ obj end | some info ↦ info ]) >>= λ info.
          int_or_zero u.py (get "globalCount" info),
      c',
    )

-- `(o.get("node") or {}).get("observable_value")` for each edge
unfoldable pub edge_texts : List Json → Result (List Json)
edge_texts [] = ok []
edge_texts (o ∷ os) = as_dict o >>= λ fs. as_dict (or_dict (get "node" fs)) >>= λ node.
    edge_texts os >>= λ rest. ok (get "observable_value" node ∷ rest)

-- the values of one edge of a page
unfoldable pub edge_values : Bool → Json → Result (List Json)
edge_values precise edge = as_dict edge >>= λ fs. as_dict (or_dict (get "node" fs)) >>= λ node.
    if precise
    then (as_dict (or_dict (get "observables" node)) >>= λ block.
        iterate_or_empty (get "edges" block) >>= edge_texts)
    else ok (get "observable_value" node ∷ [])

unfoldable pub reached_limit : Option ℕ → List String → Bool
reached_limit none loaded = false
reached_limit (some limit) loaded = leb limit (length loaded)

-- The values loaded so far, and whether the limit has been reached.
abbrev pub Loaded : Type 0
Loaded = List String × Bool

-- the next cursor and what is loaded, where a page leads to another
abbrev pub following : Result (Loaded × Option Json) → Option (Json × List String)
following (ok (r, some after)) = some (after, r.0)
following _ = none

-- the variables of a page
abbrev pub page_variables : ℕ → Json → Json
page_variables size cursor = obj (field "first" (int (pos size)) (field "after" cursor end))

module _ (normalize : String → Normalized) (limit : Option ℕ) where
  -- the value that is stored for a value of OpenCTI, if it can be looked up
  unfoldable pub stored : Json → Result (Option String)
  stored (str raw) =
      let parsed = normalize raw in ok (if lookupable parsed then some parsed.value else none)
  stored _ = raise attribute_error

  -- what is loaded after one value, and whether that reaches the limit
  unfoldable pub load_value : Option String → List String → Loaded
  load_value none loaded = (loaded, false)
  load_value (some text) loaded = (loaded ++ text ∷ [], reached_limit limit (loaded ++ text ∷ []))

  -- the loop over the values of an edge
  unfoldable pub load_values : List Json → List String → Result Loaded
  load_values [] loaded = ok (loaded, false)
  load_values (value ∷ values) loaded =
      let skip = load_values values loaded in
      if truthy value
      then (stored value >>= λ v.
          let r = load_value v loaded in
          let more = load_values values r.0 in if r.1 then ok r else more)
      else skip

  -- the loop over the edges of a page
  unfoldable pub load_edges : Bool → List Json → List String → Result Loaded
  load_edges precise [] loaded = ok (loaded, false)
  load_edges precise (edge ∷ edges) loaded = edge_values precise edge >>= λ values.
      load_values values loaded >>= λ r.
      let more = load_edges precise edges r.0 in if r.1 then ok r else more

  -- what a page leads to: the end, or the cursor of the next page
  unfoldable pub next_cursor : Fields → Result (Option Json)
  next_cursor block = as_dict (or_dict (get "pageInfo" block)) >>= λ info. ok (
      if truthy (get "hasNextPage" info) && truthy (get "endCursor" info)
      then some (get "endCursor" info)
      else none)

  -- one page of `_iter_page`, consumed by `iter_values`
  unfoldable pub load_block : Bool → Json → List String → Result (Loaded × Option Json)
  load_block precise result loaded = as_dict result >>= λ fs.
      as_dict (or_dict (get (root_of precise) fs)) >>= λ block.
      iterate_or_empty (get "edges" block) >>= λ edges. load_edges precise edges loaded >>= λ r.
      if r.1 then ok (r, none) else (next_cursor block >>= λ cursor. ok (r, cursor))

  -- the page that `_iter_page` asks for
  unfoldable pub load_page :
      Upstream → Bool → ℕ → Json → List String → Client → Result (Loaded × Option Json) × Client
  load_page u precise size cursor loaded c =
      let (result, c') = ask u true (document_of precise) (page_variables size cursor) c in
      (result >>= λ answer. load_block precise answer loaded, c')

  -- `_iter_page` and `iter_values`; `none` when the fuel is used up
  unfoldable pub load_pages :
      Upstream → Bool → ℕ → ℕ → Json → List String → Client → Option (Result Loaded) × Client
  load_pages u precise size zero cursor loaded c = (none, c)
  load_pages u precise size (suc fuel) cursor loaded c =
      let (page, c') = load_page u precise size cursor loaded c in
      elim (following page) [
        | none ↦ (some (page >>= λ p. ok p.0), c')
        | some (after, loaded') ↦ load_pages u precise size fuel after loaded' c'
      ]

-- What `build_membership` reports of its run: the rates are left out.
pub record Report : Type 0 where
  pub indicators : ℤ
  pub observables : ℤ
  pub values_loaded : ℕ
  pub unique_packed : ℕ
  pub truncated : Bool

module _ (blake2b : String → List ℕ) (unique : List ℕ → List ℕ) (padding : ℕ → List ℕ)
    (normalize : String → Normalized) where
  -- the end of `build_membership`, once the values are loaded
  unfoldable pub pack_values :
      Settings
      → Option ℕ
      → String
      → ℤ
      → ℤ
      → List String
      → Segments
      → Result (MembershipSet × Report × Segments)
  pack_values s max_entries name inds obs values shm =
      build blake2b unique padding values name s.membership_overlay_max max_entries shm >>= λ r.
      ok (
        r.0,
        record {
          indicators = inds;
          observables = obs;
          values_loaded = length values;
          unique_packed = r.0.count;
          truncated = reached_limit max_entries values;
        },
        r.1,
      )

  -- the pages, after the two counts
  unfoldable pub load_and_pack :
      Upstream
      → Settings
      → ℕ
      → Option ℕ
      → String
      → ℤ
      → ℤ
      → Client
      → Segments
      → Option (Result (MembershipSet × Report × Segments)) × Client
  load_and_pack u s fuel max_entries name inds obs c shm =
      let (loaded, c') =
        load_pages normalize max_entries u (is_precise s.membership_source)
          s.membership_bootstrap_page_size fuel null [] c in
      elim loaded [
        | none ↦ (none, c')
        | some r ↦ (some (r >>= λ values. pack_values s max_entries name inds obs values.0 shm), c')
      ]

  unfoldable pub build_membership :
      Upstream
      → Settings
      → ℕ
      → Option ℕ
      → String
      → Client
      → Segments
      → Option (Result (MembershipSet × Report × Segments)) × Client
  build_membership u s fuel max_entries name c shm =
      let (inds, c₁) = count u count_of_indicators "indicators" c in
      let (obs, c₂) = count u count_of_observables "stixCyberObservables" c₁ in
      elim inds [
        | raise e ↦ (some (raise e), c₁)
        | ok i ↦ elim obs [
          | raise e ↦ (some (raise e), c₂)
          | ok o ↦ load_and_pack u s fuel max_entries name i o c₂ shm
        ]
      ]
