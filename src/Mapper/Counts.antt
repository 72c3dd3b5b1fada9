-- ===== src/Mapper/Counts.antt =====
-- How many indicators are selected (`select_indicators`).
use opencti_middleware.Base.{
  ℕ, suc, ◌≡◌, refl, Bool, true, ◌&&◌, List, [], ◌∷◌, arith, length, filter,
}
use opencti_middleware.Base.Json.{Json, Fields, obj}
use opencti_middleware.Base.Result.{ok, ◌>>=◌, ok_of_bind}
use opencti_middleware.Base.Python.{Python, as_dict}
use opencti_middleware.Settings.{Settings}
use opencti_middleware.Mapper.Policy.{candidates, survives, survivors}
use opencti_middleware.Mapper.Ranking.{Ranked, rank_all, place, sort, select_indicators}
use opencti_middleware.Mapper.Order.{inds_of, rank_all-IsRanked}

-- how many indicators have a property
abbrev pub how_many : (Fields → Bool) → List Fields → ℕ
how_many p inds = length (filter p inds)

count-place :
    (p : Fields → Bool) (e : Ranked) (es : List Ranked)
    → how_many p (inds_of (place e es)) ≡ how_many p (inds_of (e ∷ es))
unfolding place inds_of
count-place p e [] = refl
count-place p e (d ∷ ds) = ground (arith, count-place p e ds)

count-sort :
    (p : Fields → Bool) (es : List Ranked)
    → how_many p (inds_of (sort es)) ≡ how_many p (inds_of es)
unfolding sort inds_of
count-sort p [] = refl
count-sort p (e ∷ es) = ground (arith, count-sort p es, count-place p e (sort es))

module _ (py : Python) (now : ℕ) where
  -- how many of the candidates that survive the policy and the score have a property
  unfoldable pub kept_count : Settings → (Fields → Bool) → List Json → ℕ
  kept_count s p [] = 0
  kept_count s p (c ∷ cs) =
      let rest = kept_count s p cs in
      elim (as_dict c >>= λ ind. survives py s now ind >>= λ b. ok (b && p ind)) [
        | ok true ↦ suc rest
        | _ ↦ rest
      ]

  count-survivors :
      (s : Settings) (p : Fields → Bool) (cs : List Json) {inds : List Fields}
      → survivors py s now cs ≡ ok inds
      → how_many p inds ≡ kept_count s p cs
  unfolding survivors kept_count
  count-survivors s p [] h = ground arith
  count-survivors s p (obj ind ∷ cs) h =
      let (b, e', k') = ok_of_bind (survives py s now ind) h in
      let (rest, e'', k'') = ok_of_bind (survivors py s now cs) k' in
      let hyp = count-survivors s p cs e'' in rw (e', kept_count) (ground arith)
  count-survivors s p (c ∷ cs) h = absurd (ground arith)

  -- Whatever property is counted, as many of the selected indicators have it as of the candidates that
  -- survive: the sort neither loses an indicator nor repeats one.
  pub count-select_indicators :
      (s : Settings) (p : Fields → Bool) (node : Fields) (cs : List Json) (inds : List Fields)
      → candidates node ≡ ok cs
      → select_indicators py s now node ≡ ok inds
      → how_many p inds ≡ kept_count s p cs
  unfolding select_indicators inds_of
  count-select_indicators s p node cs inds c h =
      let (rs, e, k) = ok_of_bind (candidates node >>= survivors py s now >>= rank_all py now) h in
      let (ks, e', k') = ok_of_bind (candidates node >>= survivors py s now) e in
      let (cs', e'', k'') = ok_of_bind (candidates node) e' in
      let survived = count-survivors s p cs' k'' in
      let sorted = count-sort p rs in
      let ranked = (rank_all-IsRanked py now ks k').1 in ground arith
