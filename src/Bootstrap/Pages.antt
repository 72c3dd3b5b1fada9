-- ===== src/Bootstrap/Pages.antt =====
-- What the bootstrap loads from the pages that OpenCTI serves (`_iter_page` and `iter_values`).
use opencti_middleware.Base.{
  ℕ, zero, suc, ◌<◌, String, ◌≡◌, ◌∙◌, sym, ap, Bool, true, false, false≢true, Option, none, some,
  List, [], ◌∷◌, ◌++◌, arith, inl, inr, length, length-append, leb, Bool-cases, Option-cases,
  if◌then◌else◌,
}
use mathlib.Core.Path.{subst}
use opencti_middleware.Base.{then_branch, else_branch}
use opencti_middleware.Base.Json.{Json, get, truthy}
use opencti_middleware.Base.Result.{Result, ok, raise, ◌>>=◌, ok_of_bind}
use opencti_middleware.Base.Python.{as_dict, or_dict, iterate_or_empty}
use opencti_middleware.Client.{Client}
use opencti_middleware.Indicators.{Normalized}
use opencti_middleware.Bootstrap.{
  Upstream, Loaded, following, load_page, load_value, ask, document_of, root_of, page_variables,
  edge_values, reached_limit, stored, load_values, load_edges, next_cursor, load_block, load_pages,
}

module _ (normalize : String → Normalized) (limit : ℕ) where
  -- fewer than the limit, or as many as it and the loading has stopped
  pub WithinLimit : Loaded → Type 0
  WithinLimit r = if r.1 then length r.0 ≡ limit else length r.0 < limit

  below_limit : (r : Loaded) → r.1 ≡ false → WithinLimit r → length r.0 < limit
  unfolding WithinLimit
  below_limit (loaded, true) h w = absurd (false≢true (sym h))
  below_limit (loaded, false) h w = w

  load_value-WithinLimit :
      (v : Option String) (loaded : List String)
      → length loaded < limit
      → WithinLimit (load_value normalize (some limit) v loaded)
  unfolding load_value WithinLimit reached_limit
  load_value-WithinLimit none loaded h = h
  load_value-WithinLimit (some text) loaded h =
      let longer = length-append loaded (text ∷ []) in
      elim (Bool-cases (leb limit (length (loaded ++ text ∷ [])))) [
        | inl full ↦ rw full (ground arith)
        | inr more ↦ rw more (ground arith)
      ]

  load_values-WithinLimit :
      (values : List Json) (loaded : List String) {r : Loaded}
      → length loaded < limit
      → load_values normalize (some limit) values loaded ≡ ok r
      → WithinLimit r
  unfolding load_values WithinLimit
  load_values-WithinLimit [] loaded h e = ground arith
  load_values-WithinLimit (value ∷ values) loaded {r} h e = elim (Bool-cases (truthy value)) [
    | inr blank ↦ load_values-WithinLimit values loaded h (else_branch _ _ _ blank e)
    | inl held ↦
        let (v, e', k) =
          ok_of_bind (stored normalize (some limit) value) (then_branch _ _ _ held e) in
        let once = load_value-WithinLimit v loaded h in
        elim (Bool-cases (load_value normalize (some limit) v loaded).1) [
          | inl full ↦
              let same : load_value normalize (some limit) v loaded ≡ r = ground arith in
              subst WithinLimit same once
          | inr more ↦
              load_values-WithinLimit values _ (below_limit _ more once) (else_branch _ _ _ more k)
        ]
  ]

  load_edges-WithinLimit :
      (precise : Bool) (edges : List Json) (loaded : List String) {r : Loaded}
      → length loaded < limit
      → load_edges normalize (some limit) precise edges loaded ≡ ok r
      → WithinLimit r
  unfolding load_edges WithinLimit
  load_edges-WithinLimit precise [] loaded h e = ground arith
  load_edges-WithinLimit precise (edge ∷ edges) loaded {r} h e =
      let (values, e', k) = ok_of_bind (edge_values precise edge) e in
      let (q, e'', k') = ok_of_bind (load_values normalize (some limit) values loaded) k in
      let once = load_values-WithinLimit values loaded h e'' in
      elim (Bool-cases q.1) [
        | inl full ↦ let same : q ≡ r = ground arith in subst WithinLimit same once
        | inr more ↦
            load_edges-WithinLimit precise edges q.0 (below_limit _ more once)
              (else_branch _ _ _ more k')
      ]

  -- A page that does not end the loading leaves it below the limit.
  load_block-WithinLimit :
      (precise : Bool) (answer : Json) (loaded : List String) {r : Loaded} {next : Option Json}
      → length loaded < limit
      → load_block normalize (some limit) precise answer loaded ≡ ok (r, next)
      → WithinLimit r × (r.1 ≡ true → next ≡ none)
  unfolding load_block
  load_block-WithinLimit precise answer loaded {r} {next} h e =
      let (fs, e₁, k₁) = ok_of_bind (as_dict answer) e in
      let (block, e₂, k₂) = ok_of_bind (as_dict (or_dict (get (root_of precise) fs))) k₁ in
      let (edges, e₃, k₃) = ok_of_bind (iterate_or_empty (get "edges" block)) k₂ in
      let (q, e₄, k₄) = ok_of_bind (load_edges normalize (some limit) precise edges loaded) k₃ in
      let once = load_edges-WithinLimit precise edges loaded h e₄ in
      elim (Bool-cases q.1) [
        | inl full ↦
            let same : q ≡ r = ground arith in
            let ends : next ≡ none = ground arith in (subst WithinLimit same once, λ t. ends)
        | inr more ↦
            let (cursor, e₅, k₅) =
              ok_of_bind (next_cursor normalize (some limit) block) (else_branch _ _ _ more k₄) in
            let same : q ≡ r = ground arith in
            (
              subst WithinLimit same once,
              λ t. absurd (false≢true (sym more ∙ ap (λ p. p.1) same ∙ t)),
            )
      ]

  load_page-WithinLimit :
      (u : Upstream) (precise : Bool) (size : ℕ) (cursor : Json) (loaded : List String) (c : Client)
      {r : Loaded} {next : Option Json}
      → length loaded < limit
      → (load_page normalize (some limit) u precise size cursor loaded c).0 ≡ ok (r, next)
      → WithinLimit r × (r.1 ≡ true → next ≡ none)
  unfolding load_page
  load_page-WithinLimit u precise size cursor loaded c h e =
      let (answer, e', k) =
        ok_of_bind (ask u true (document_of precise) (page_variables size cursor) c).0 e in
      load_block-WithinLimit precise answer loaded h k

  following-some :
      (page : Result (Loaded × Option Json)) {after : Json} {loaded : List String}
      → following page ≡ some (after, loaded)
      → (r : Loaded) × (page ≡ ok (r, some after)) × (r.0 ≡ loaded)
  following-some (raise x) e = cc
  following-some (ok (r, none)) e = cc
  following-some (ok (r, some next)) e = (r, ground arith, ground arith)

  -- Whatever OpenCTI serves, a bootstrap with a positive limit that returns has loaded as many values as
  -- the limit if it stopped there, and fewer if the pages ended before.
  pub load_pages-WithinLimit :
      (u : Upstream) (precise : Bool) (size fuel : ℕ) (cursor : Json) (loaded : List String)
      (c : Client) (r : Loaded)
      → length loaded < limit
      → (load_pages normalize (some limit) u precise size fuel cursor loaded c).0 ≡ some (ok r)
      → WithinLimit r
  unfolding load_pages
  load_pages-WithinLimit u precise size zero cursor loaded c r h e = cc
  load_pages-WithinLimit u precise size (suc fuel) cursor loaded c r h e =
      let page = (load_page normalize (some limit) u precise size cursor loaded c).0 in
      let c' = (load_page normalize (some limit) u precise size cursor loaded c).1 in
      elim (Option-cases (following page)) [
        | inl last ↦
            let ended : (page >>= λ p. ok p.0) ≡ ok r = ground arith in
            let (p, e', k) = ok_of_bind page ended in
            let same : p.0 ≡ r = cc in
            subst WithinLimit same (load_page-WithinLimit u precise size cursor loaded c h e').0
        | inr ((after, q), more) ↦
            let (p, e', same) = following-some page more in
            let (within, ends) = load_page-WithinLimit u precise size cursor loaded c h e' in
            let rest : (load_pages normalize (some limit) u precise size fuel after q c').0
                ≡ some (ok r) =
              ground arith in
            elim (Bool-cases p.1) [
              | inl full ↦ let impossible = ends full in cc
              | inr open_ended ↦
                  load_pages-WithinLimit u precise size fuel after q c' r
                    (subst (λ l. length l < limit) same (below_limit p open_ended within)) rest
            ]
      ]
