-- ===== src/Split/Swap.antt =====
-- What lookups do after a new membership set is swapped in (`swap_membership` of backends/split.py).
use opencti_middleware.Base.{
  ℕ, String, ◌≡◌, ◌∙◌, sym, ap, Bool, true, false, not, ◌&&◌, false≢true, none, List, [], ◌∷◌, map,
  arith, inl, inr, ◌==◌, str_eq, Bool-cases, eq_iff, elem,
}
use opencti_middleware.Base.Text.{text_elem}
use opencti_middleware.Base.Result.{ok}
use opencti_middleware.Membership.{
  Segments, MembershipSet, fingerprint, contains, build, adopt_overlay,
}
use opencti_middleware.Membership.Reads.{IsUnique, contains-build, build_lem}
use opencti_middleware.Membership.Overlay.{
  Update, added, removed, contains-adopt_overlay, apply_all, written_all, contains-apply_all,
}
use opencti_middleware.Indicators.{Normalized}
use opencti_middleware.Live.{World}
use opencti_middleware.Split.{SplitBackend, swap_membership, split_lookup}
use opencti_middleware.Split.Dismissal.{by_membership, by_membership_iff}

-- the backend after updates of the live stream
abbrev pub updated : (String → List ℕ) → List Update → SplitBackend → SplitBackend
updated blake2b us s = record s { membership = apply_all blake2b us s.membership }

-- no update removes a value with this fingerprint
abbrev pub spared : (String → List ℕ) → ℕ → List Update → Bool
spared blake2b fp [] = true
spared blake2b fp (added v ∷ us) = spared blake2b fp us
spared blake2b fp (removed v ∷ us) = not (fingerprint blake2b v == fp) && spared blake2b fp us

module _ (blake2b : String → List ℕ) where
  written_all-spared :
      (us : List Update) (before : String → Bool) (v : String)
      → spared blake2b (fingerprint blake2b v) us ≡ true
      → before v ≡ true
      → written_all blake2b us before v ≡ true
  written_all-spared [] before v h b = b
  written_all-spared (added u ∷ us) before v h b = written_all-spared us _ v h (ground arith)
  written_all-spared (removed u ∷ us) before v h b =
      written_all-spared us _ v (ground arith) (ground arith)

  elem-map :
      (v : String) (values : List String)
      → text_elem v values ≡ true
      → elem (fingerprint blake2b v) (map (fingerprint blake2b) values) ≡ true
  elem-map v [] h = absurd (false≢true h)
  elem-map v (x ∷ values) h =
      let same : str_eq x v ≡ true → fingerprint blake2b x ≡ fingerprint blake2b v =
        λ e. ap (fingerprint blake2b) ((eq_iff x v).0 e) in
      ground (arith, elem-map v values, same)

  adopted :
      (m old : MembershipSet) (v : String)
      → m.tombstones ≡ []
      → elem (fingerprint blake2b v) old.tombstones ≡ false
      → contains blake2b m v ≡ true
      → contains blake2b (adopt_overlay m old) v ≡ true
  adopted m old v fresh kept h = ground (arith, contains-adopt_overlay blake2b m old fresh v)

  module _ (unique : List ℕ → List ℕ) (padding : ℕ → List ℕ) (u : IsUnique unique) where
    -- A set is built without a ceiling from values of which one is asked for (with a `unique` that
    -- sorts and drops repetitions) and swapped in. Then the value is not dismissed by the
    -- membership set, after any updates of the live stream, unless the overlay that was carried
    -- over or one of those updates has removed its fingerprint.
    pub corpus_not_dismissed :
        (values : List String) (name : String) (overlay_max : ℕ) (shm : Segments)
        (m : MembershipSet) (shm' : Segments) (s : SplitBackend) (us : List Update) (w : World)
        (n : Normalized)
        → build blake2b unique padding values name overlay_max none shm ≡ ok (m, shm')
        → text_elem n.value values ≡ true
        → elem (fingerprint blake2b n.value) s.membership.tombstones ≡ false
        → spared blake2b (fingerprint blake2b n.value) us ≡ true
        → by_membership
            (split_lookup blake2b w n (updated blake2b us (swap_membership m true s shm').0)).0
          ≡ false
    unfolding swap_membership
    corpus_not_dismissed values name overlay_max shm m shm' s us w n built known kept later =
        let there =
          contains-build blake2b unique padding u values name overlay_max none shm built n.value
          ∙ elem-map n.value values known in
        let (packed, words, no_added, fresh) =
          build_lem blake2b unique padding u values name overlay_max none shm built in
        let carried = adopted m s.membership n.value fresh kept there in
        let held : contains blake2b (apply_all blake2b us (adopt_overlay m s.membership)) n.value
            ≡ true =
          ap (λ f. f n.value) (contains-apply_all blake2b us (adopt_overlay m s.membership))
          ∙ written_all-spared us _ n.value later carried in
        elim (Bool-cases (
          by_membership
            (split_lookup blake2b w n (updated blake2b us (swap_membership m true s shm').0)).0)) [
              | inl e ↦
                  let d =
                    (by_membership_iff blake2b w n
                        (updated blake2b us (swap_membership m true s shm').0)).0
                      e in
                  absurd (false≢true (sym d.absent ∙ held))
              | inr e ↦ e
            ]
