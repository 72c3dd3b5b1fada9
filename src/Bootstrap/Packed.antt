-- ===== src/Bootstrap/Packed.antt =====
-- What `build_membership` of bootstrap.py returns is what `build` packs from the values it has loaded.
use opencti_middleware.Base.{
  ℕ, String, ◌≡◌, ◌∙◌, ap, Bool, Option, none, some, List, [], inl, inr, Option-cases, ℤ,
}
use opencti_middleware.Base.Result.{Result, ok, raise, ok_of_bind, Result-cases}
use opencti_middleware.Base.Json.{null}
use opencti_middleware.Settings.{Settings}
use opencti_middleware.Client.{Client}
use opencti_middleware.Membership.{Segments, MembershipSet, build}
use opencti_middleware.Indicators.{Normalized}
use opencti_middleware.Bootstrap.{
  Upstream, Report, is_precise, count, count_of_indicators, count_of_observables, load_pages,
  pack_values, load_and_pack, build_membership,
}

module _ (blake2b : String → List ℕ) (unique : List ℕ → List ℕ) (padding : ℕ → List ℕ)
    (normalize : String → Normalized) where
  -- the values that the pages of OpenCTI hold, up to the ceiling
  abbrev pub Loads : Upstream → ℕ → Settings → Option ℕ → List String → Type 0
  Loads u fuel s max_entries values =
      (c : Client) × (flag : Bool) × ((load_pages normalize max_entries u
          (is_precise s.membership_source) s.membership_bootstrap_page_size fuel null [] c).0
        ≡ some (ok (values, flag)))

  -- the set was built from values that were loaded, under the name and the ceiling asked for
  abbrev pub IsBuilt :
      Upstream → ℕ → Settings → Option ℕ → String → Segments → MembershipSet → Segments → Type 0
  IsBuilt u fuel s max_entries name shm set shm' =
      (values : List String) × Loads u fuel s max_entries values
      × (build blake2b unique padding values name s.membership_overlay_max max_entries shm
          ≡ ok (set, shm'))

  pack_values-build :
      (s : Settings) (max_entries : Option ℕ) (name : String) (inds obs : ℤ) (values : List String)
      (shm : Segments) (set : MembershipSet) (report : Report) (shm' : Segments)
      → pack_values blake2b unique padding normalize s max_entries name inds obs values shm
        ≡ ok (set, report, shm')
      → build blake2b unique padding values name s.membership_overlay_max max_entries shm
        ≡ ok (set, shm')
  unfolding pack_values
  pack_values-build s limit name inds obs values shm set report shm' h =
      let (r, e, k) =
        ok_of_bind (build blake2b unique padding values name s.membership_overlay_max limit shm)
          h in
      let same : r ≡ (set, shm') = cc in e ∙ ap ok same

  load_and_pack-IsBuilt :
      (u : Upstream) (s : Settings) (fuel : ℕ) (max_entries : Option ℕ) (name : String)
      (inds obs : ℤ) (c : Client) (shm : Segments) (set : MembershipSet) (report : Report)
      (shm' : Segments)
      → (load_and_pack blake2b unique padding normalize u s fuel max_entries name inds obs c shm).0
        ≡ some (ok (set, report, shm'))
      → IsBuilt u fuel s max_entries name shm set shm'
  unfolding load_and_pack
  load_and_pack-IsBuilt u s fuel limit name inds obs c shm set report shm' h =
      let loaded =
        (load_pages normalize limit u (is_precise s.membership_source)
          s.membership_bootstrap_page_size fuel null [] c).0 in
      let out : Option (Result (MembershipSet × Report × Segments)) =
        some (ok (set, report, shm')) in
      elim (Option-cases loaded) [
        | inl e ↦ let bad : none ≡ out = rw (e, load_and_pack) at h in absurd cc
        | inr (raise x, e) ↦
            let bad : some (raise x) ≡ out = rw (e, load_and_pack) at h in absurd cc
        | inr (ok values, e) ↦
            let packed : some
                  (pack_values blake2b unique padding normalize s limit name inds obs values.0 shm)
                ≡ out =
              rw (e, load_and_pack) at h in
            (
              values.0,
              (c, values.1, e),
              pack_values-build s limit name inds obs values.0 shm set report shm' cc,
            )
      ]

  pub build_membership-IsBuilt :
      (u : Upstream) (s : Settings) (fuel : ℕ) (max_entries : Option ℕ) (name : String) (c : Client)
      (shm : Segments) (set : MembershipSet) (report : Report) (shm' : Segments)
      → (build_membership blake2b unique padding normalize u s fuel max_entries name c shm).0
        ≡ some (ok (set, report, shm'))
      → IsBuilt u fuel s max_entries name shm set shm'
  unfolding build_membership
  build_membership-IsBuilt u s fuel limit name c shm set report shm' h =
      let (inds, c₁) = count u count_of_indicators "indicators" c in
      let (obs, c₂) = count u count_of_observables "stixCyberObservables" c₁ in
      let out : Option (Result (MembershipSet × Report × Segments)) =
        some (ok (set, report, shm')) in
      elim (Result-cases inds) [
        | inl (x, e) ↦ let bad : some (raise x) ≡ out = rw (e, build_membership) at h in absurd cc
        | inr (i, e) ↦ elim (Result-cases obs) [
          | inl (x, k) ↦
              let bad : some (raise x) ≡ out = rw (e, k, build_membership) at h in absurd cc
          | inr (o, k) ↦
              let packed : (load_and_pack blake2b unique padding normalize u s fuel limit name i o
                    c₂ shm).0
                  ≡ out =
                rw (e, k, build_membership) at h in
              load_and_pack-IsBuilt u s fuel limit name i o c₂ shm set report shm' packed
        ]
      ]
