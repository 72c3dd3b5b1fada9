-- ===== src/Reconcile/Answers.antt =====
-- What lookups and other workers see of a rebuild (`_rebuild` of reconcile.py).
use opencti_middleware.Base.{
  ℕ, String, ◌≡◌, ◌≢◌, refl, ◌∙◌, sym, ap, Bool, true, false, Option, none, some, List, map, arith,
  inl, inr, Option-cases, eq_refl, elem,
}
use opencti_middleware.Base.Result.{Result, ok}
use opencti_middleware.Settings.{Settings}
use opencti_middleware.Membership.{
  Segments, find_segment, MembershipSet, fingerprint, contains, close, adopt_overlay, attach,
}
use opencti_middleware.Membership.Packing.{limit_to}
use opencti_middleware.Membership.Reads.{IsUnique, contains-build, build_lem}
use opencti_middleware.Membership.Overlay.{said, contains-adopt_overlay, apply_all}
use opencti_middleware.Split.{swap_membership}
use opencti_middleware.Split.Swap.{updated}
use opencti_middleware.Indicators.{Normalized}
use opencti_middleware.Bootstrap.{Report}
use opencti_middleware.Bootstrap.Packed.{Loads, IsBuilt}
use opencti_middleware.Shared.{
  holds, SharedMembershipState, next_generation, is_stale, sweep_stale_segments, StateFile,
}
use opencti_middleware.Shared.Sweep.{find_segment-sweep_kept}
use opencti_middleware.Loader.{Machine, plan_of, kept, state_of, max_entries_of, attach_to}
use opencti_middleware.Loader.Published.{attach_to-state_of, built_set_attaches}
use opencti_middleware.Reconcile.{
  Reconciler, set_running, Round, kept_after, count_rebuild, adopt_build, meanwhile, rebuild,
}
use opencti_middleware.Reconcile.Rebuild.{call_all-SameWork, after_build, Rebuilt, rebuild-Rebuilt}

-- the backend after the swap
adopt_build-backend :
    (o : Round) (reason : String) (file : StateFile) (set : MembershipSet) (shm : Segments)
    (r : Reconciler)
    → ((adopt_build o reason file set shm r).0.backend.membership
        ≡ adopt_overlay set r.backend.membership)
      × ((adopt_build o reason file set shm r).0.backend.ready ≡ true)
unfolding adopt_build count_rebuild swap_membership
adopt_build-backend o reason file set shm r = (refl, refl)

-- a swap removes no segment
close_kept : (s : MembershipSet) (shm : Segments) → (close (some false) s shm).1 ≡ shm
unfolding close
close_kept s shm = elim (Option-cases s.shm) [
  | inl e ↦ rw (e, close) refl
  | inr (name, e) ↦ rw (e, close) refl
]

-- the segments after the swap and the sweep
pub adopt_build-shm :
    (o : Round) (reason : String) (file : StateFile) (set : MembershipSet) (shm : Segments)
    (r : Reconciler)
    → (adopt_build o reason file set shm r).1
      ≡ (sweep_stale_segments o.surroundings.is_dir
          (kept_after file r.backend.membership.shm)
          o.surroundings.stuck
          shm).1
unfolding adopt_build swap_membership
adopt_build-shm o reason file set shm r =
    ap
      (λ t.
        (sweep_stale_segments o.surroundings.is_dir (kept_after file r.backend.membership.shm)
          o.surroundings.stuck t).1)
      (close_kept r.backend.membership shm)

-- the new segment is kept
new_kept :
    (file : StateFile) (old : Option String) (stuck : String → Bool)
    → is_stale (kept_after file old) stuck (plan_of file).name ≡ false
unfolding is_stale kept_after kept
new_kept file none stuck = ground (arith, eq_refl (plan_of file).name)
new_kept file (some name) stuck = ground (arith, eq_refl (plan_of file).name)

-- `attach` looks at the segment of its name only
attach-eq :
    (name : String) (count overlay_max : ℕ) (shm shm' : Segments)
    → find_segment name shm ≡ find_segment name shm'
    → attach name count overlay_max shm ≡ attach name count overlay_max shm'
unfolding attach
attach-eq name count overlay_max shm shm' e = rw (e, attach) refl

module _ (blake2b : String → List ℕ) (unique : List ℕ → List ℕ) (padding : ℕ → List ℕ)
    (normalize : String → Normalized) where
  pub after_build-backend :
      (o : Round) (r : Reconciler)
      → (after_build blake2b unique padding normalize o r).backend
        ≡ updated blake2b o.updates r.backend
  unfolding meanwhile
  after_build-backend o r =
      ap (updated blake2b o.updates) (call_all-SameWork o.building (set_running true r)).0

  -- What a rebuild that succeeded has done
  pub success :
      (s : Settings) (o : Round) (reason : String) (r r' : Reconciler) (m m' : Machine) (b : Bool)
      → rebuild blake2b unique padding normalize s o reason r m ≡ (some (ok b), r', m')
      → (set : MembershipSet) × (report : Report) × (shm : Segments) × IsBuilt blake2b unique
          padding normalize o.surroundings.upstream o.surroundings.page_fuel s
          (max_entries_of r.budget_bytes)
          (plan_of m.folder.state_file).name
          m.shm
          set
          shm
        × (m'.folder.state_file
            ≡ holds (state_of o.surroundings.now (plan_of m.folder.state_file) set report))
        × ((r', m'.shm)
            ≡ adopt_build o reason m.folder.state_file set shm
                (after_build blake2b unique padding normalize o r))
  success s o reason r r' m m' b h =
      go _ h (rebuild-Rebuilt blake2b unique padding normalize s o reason r m)
    where
      go :
          (out : Option (Result Bool) × Reconciler × Machine)
          → out ≡ (some (ok b), r', m')
          → Rebuilt blake2b unique padding normalize s o reason r m out
          → (set : MembershipSet) × (report : Report) × (shm : Segments) × IsBuilt blake2b unique
              padding normalize o.surroundings.upstream o.surroundings.page_fuel s
              (max_entries_of r.budget_bytes)
              (plan_of m.folder.state_file).name
              m.shm
              set
              shm
            × (m'.folder.state_file
                ≡ holds (state_of o.surroundings.now (plan_of m.folder.state_file) set report))
            × ((r', m'.shm)
                ≡ adopt_build o reason m.folder.state_file set shm
                    (after_build blake2b unique padding normalize o r))
      go _ e (Rebuilt.exhausted _ _) = absurd cc
      go _ e (Rebuilt.failed x _ _) = absurd cc
      go _ e (Rebuilt.succeeded set report shm r₁ m₁ built written adopted) =
          let machine : m₁ ≡ m' = ap (λ p. p.2) e in
          let reconciler : r₁ ≡ r' = ap (λ p. p.1) e in
          (
            set,
            report,
            shm,
            built,
            ap (λ x. x.folder.state_file) (sym machine) ∙ ap (λ f. f.state_file) written,
            ap (λ p. (p.1, p.2.shm)) (sym e) ∙ adopted,
          )

  module _ (uniq : IsUnique unique) where
    -- After a rebuild that succeeds the backend trusts a set of which each answer is known: where
    -- the old set's overlay, with the live-stream updates that arrived during the rebuild, says
    -- something of a value, that is the answer; for every other value it is whether its fingerprint
    -- is that of a value loaded from the pages of OpenCTI (with a `unique` that sorts and drops
    -- repetitions).
    pub rebuild_answers :
        (s : Settings) (o : Round) (reason : String) (r r' : Reconciler) (m m' : Machine) (b : Bool)
        → rebuild blake2b unique padding normalize s o reason r m ≡ (some (ok b), r', m')
        → (r'.backend.ready ≡ true)
          × (values : List String) × Loads blake2b unique padding normalize o.surroundings.upstream
              o.surroundings.page_fuel s
              (max_entries_of r.budget_bytes)
              values
          × ((v : String)
              → contains blake2b r'.backend.membership v
                ≡ elim (said blake2b (apply_all blake2b o.updates r.backend.membership) v) [
                  | some answer ↦ answer
                  | none ↦
                      elem (fingerprint blake2b v) (
                        map (fingerprint blake2b) (limit_to (max_entries_of r.budget_bytes) values))
                ])
    rebuild_answers s o reason r r' m m' b h =
        let (set, report, shm, (values, loads, k), written, adopted) =
          success s o reason r r' m m' b h in
        let after = after_build blake2b unique padding normalize o r in
        let (member, ready) = adopt_build-backend o reason m.folder.state_file set shm after in
        let old = ap (λ b. b.membership) (after_build-backend o r) in
        let now : r'.backend.membership
            ≡ adopt_overlay set (apply_all blake2b o.updates r.backend.membership) =
          ap (λ p. p.0.backend.membership) adopted ∙ member ∙ ap (adopt_overlay set) old in
        let (packed, words, no_added, fresh) =
          build_lem blake2b unique padding uniq values _ _ _ m.shm k in
        (
          ap (λ p. p.0.backend.ready) adopted ∙ ready,
          values,
          loads,
          λ v.
              ap (λ t. contains blake2b t v) now
              ∙ contains-adopt_overlay blake2b set
                  (apply_all blake2b o.updates r.backend.membership) fresh v
              ∙ ap
                  (λ b.
                    elim (said blake2b (apply_all blake2b o.updates r.backend.membership) v)
                      as (λ _. Bool) [ none ↦ b | some answer ↦ answer ])
                  (contains-build blake2b unique padding uniq values _ _ _ m.shm k v),
        )

    -- After a rebuild that succeeds the published generation is the next one, and where the set is
    -- not empty, a worker that attaches by the published state gets a set that answers every value
    -- as the newly built one does without its overlay: by whether its fingerprint is that of a
    -- value loaded from the pages of OpenCTI (with a `unique` that sorts and drops repetitions).
    pub rebuild_attaches :
        (s : Settings) (o : Round) (reason : String) (r r' : Reconciler) (m m' : Machine) (b : Bool)
        → rebuild blake2b unique padding normalize s o reason r m ≡ (some (ok b), r', m')
        → (st : SharedMembershipState) × (m'.folder.state_file ≡ holds st)
          × (st.generation ≡ next_generation m.folder.state_file)
          × (values : List String) × Loads blake2b unique padding normalize o.surroundings.upstream
              o.surroundings.page_fuel s
              (max_entries_of r.budget_bytes)
              values
          × (st.count ≢ 0
              → (t : MembershipSet) × (attach_to st s m'.shm ≡ some t)
                × ((v : String)
                    → contains blake2b t v
                      ≡ elem (fingerprint blake2b v) (
                          map
                            (fingerprint blake2b)
                            (limit_to (max_entries_of r.budget_bytes) values))))
    unfolding state_of plan_of
    rebuild_attaches s o reason r r' m m' b h =
        let e = o.surroundings in
        let (set, report, shm, (values, loads, k), written, adopted) =
          success s o reason r r' m m' b h in
        let plan = plan_of m.folder.state_file in
        let after = after_build blake2b unique padding normalize o r in
        let left =
          ap (λ p. p.1) adopted ∙ adopt_build-shm o reason m.folder.state_file set shm after in
        let found : find_segment plan.name m'.shm ≡ find_segment plan.name shm =
          ap (find_segment plan.name) left
          ∙ find_segment-sweep_kept e.is_dir
              (kept_after m.folder.state_file after.backend.membership.shm) e.stuck plan.name shm
              (new_kept m.folder.state_file after.backend.membership.shm e.stuck) in
        (
          state_of e.now plan set report,
          written,
          refl,
          values,
          loads,
          λ filled.
              let (named, t, at, same) =
                built_set_attaches blake2b unique padding normalize uniq e.upstream e.page_fuel s
                  (max_entries_of r.budget_bytes) plan.name m.shm shm set (values, loads, k) filled
                  s.membership_overlay_max in
              (
                t,
                attach_to-state_of e.now plan set report s m'.shm t named
                    (attach-eq plan.name set.count s.membership_overlay_max m'.shm shm found ∙ at),
                λ v. same v ∙ contains-build blake2b unique padding uniq values _ _ _ m.shm k v,
              ),
        )
