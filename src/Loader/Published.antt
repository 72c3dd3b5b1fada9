-- ===== src/Loader/Published.antt =====
-- What a builder publishes (`_build_and_publish` of membership_loader.py), and who can attach to it.
use opencti_middleware.Base.{
  ℕ, String, ◌≡◌, ◌≢◌, ◌⊎◌, refl, ◌∙◌, sym, ap, true, Option, none, some, List, [], ◌∷◌, arith, inl,
  inr, Option-cases, eq_refl,
}
use mathlib.Core.Path.{subst}
use mathlib.Core.Option.{some-injective}
use opencti_middleware.Base.Result.{Result, ok, raise, file_exists, ok_of_bind}
use opencti_middleware.Settings.{Settings}
use opencti_middleware.Membership.{
  Segments, find_segment, MembershipSet, contains, build, allocate, attach, init,
}
use opencti_middleware.Membership.Reads.{IsUnique, contains-attach}
use opencti_middleware.Indicators.{Normalized}
use opencti_middleware.Bootstrap.{Upstream, Report, build_membership}
use opencti_middleware.Bootstrap.Packed.{IsBuilt, build_membership-IsBuilt}
use opencti_middleware.Shared.{
  SharedMembershipState, SharedStateDir, holds, publish, next_generation, is_stale,
  sweep_stale_segments,
}
use opencti_middleware.Shared.Sweep.{find_segment-sweep_kept}
use opencti_middleware.Shared.Publish.{publish_cases}
use opencti_middleware.Loader.{
  LoadedMembership, Machine, Surroundings, Plan, plan_of, kept, state_of, builder_loaded,
  publish_built, settle_build, attach_to, build_and_publish,
}

-- A set that is not empty is in a new segment of that name.
allocate_cases :
    (a pad : List ℕ) (name : String) (overlay_max : ℕ) (shm : Segments) (s : MembershipSet)
    (shm' : Segments)
    → allocate a pad name overlay_max shm ≡ ok (s, shm')
    → ((a ≡ []) × (s.count ≡ 0)) ⊎ ((a ≢ []) × (s.shm ≡ some name) × (find_segment name shm ≡ none))
unfolding allocate init
allocate_cases [] pad name om shm s shm' h =
    let same : init none 0 true om ≡ s = cc in inl (refl, ap (λ m. m.count) (sym same))
allocate_cases (x ∷ a) pad name om shm s shm' h = elim (Option-cases (find_segment name shm)) [
  | inr (w, e) ↦
      let made : Result (MembershipSet × Segments) = ok (s, shm') in
      let bad : raise file_exists ≡ made = rw (e, allocate) at h in absurd cc
  | inl e ↦ inr (λ k. absurd cc, ground arith, e)
]

publish_built_lem :
    (e : Surroundings) (d : SharedStateDir) (plan : Plan) (set : MembershipSet) (report : Report)
    (shm : Segments) (m m' : Machine) (l : LoadedMembership)
    → (publish_built e d plan (set, report, shm) m).0 ≡ ok l
    → (publish_built e d plan (set, report, shm) m).1 ≡ m'
    → (builder_loaded d plan set report ≡ l)
      × (m' ≡ record m {
        folder = record m.folder { state_file = holds (state_of e.now plan set report) };
        shm = shm;
      })
unfolding publish_built
publish_built_lem e d plan set report shm m m' l result machine =
    let state = state_of e.now plan set report in
    let (done, returned, k) = ok_of_bind (publish e.disk state m.folder).0 result in
    let loaded : builder_loaded d plan set report ≡ l = cc in
    elim (publish_cases e.disk state m.folder) [
      | inr (x, raised, _) ↦ absurd cc
      | inl (_, j) ↦ (loaded, sym machine ∙ ap (λ f. record m { folder = f; shm = shm }) j)
    ]

-- attaching by the state that a builder has published
pub attach_to-state_of :
    (now : ℕ) (plan : Plan) (set : MembershipSet) (report : Report) (s : Settings) (shm : Segments)
    (r : MembershipSet)
    → set.shm ≡ some plan.name
    → attach plan.name set.count s.membership_overlay_max shm ≡ ok r
    → attach_to (state_of now plan set report) s shm ≡ some r
unfolding attach_to state_of
attach_to-state_of now plan set report s shm r named at =
    rw (named, attach_to) (rw (at, attach_to) refl)

module _ (blake2b : String → List ℕ) (unique : List ℕ → List ℕ) (padding : ℕ → List ℕ)
    (normalize : String → Normalized) where
  -- What a successful `_build_and_publish` has done: built a set, and published its state.
  pub record Published (e : Surroundings) (s : Settings) (max_entries : Option ℕ) (m m' : Machine)
      : Type 0 where
    pub set : MembershipSet
    pub report : Report
    pub built :
        IsBuilt blake2b unique padding normalize e.upstream e.page_fuel s max_entries
          (plan_of m.folder.state_file).name
          (sweep_stale_segments e.is_dir (kept m.folder.state_file) e.stuck m.shm).1
          set
          m'.shm
    pub state : m'.folder ≡ record m.folder {
      state_file = holds (state_of e.now (plan_of m.folder.state_file) set report);
    }

  pub build_and_publish-Published :
      (e : Surroundings) (s : Settings) (d : SharedStateDir) (max_entries : Option ℕ)
      (m m' : Machine) (l : LoadedMembership)
      → build_and_publish blake2b unique padding normalize e s d max_entries m ≡ (some (ok l), m')
      → (p : Published e s max_entries m m') × (builder_loaded d
            (plan_of m.folder.state_file)
            p.set
            p.report
          ≡ l)
  unfolding build_and_publish settle_build
  build_and_publish-Published e s d limit m m' l h =
      let plan = plan_of m.folder.state_file in
      let shm = (sweep_stale_segments e.is_dir (kept m.folder.state_file) e.stuck m.shm).1 in
      let r =
        build_membership blake2b unique padding normalize e.upstream s e.page_fuel limit plan.name
          m.client shm in
      let out : Option (Result LoadedMembership) = some (ok l) in
      let result : (build_and_publish blake2b unique padding normalize e s d limit m).0 ≡ out =
        ap (λ r. r.0) h in
      elim (Option-cases r.0) [
        | inl k ↦
            let bad : none ≡ out = rw (k, build_and_publish, settle_build) at result in absurd cc
        | inr (raise x, k) ↦
            let bad : some (raise x) ≡ out = rw (k, build_and_publish) at result in absurd cc
        | inr (ok (set, report, shm'), k) ↦
            let m₁ = record m { client = r.1; shm = shm } in
            let end : (
              some (publish_built e d plan (set, report, shm') m₁).0,
              (publish_built e d plan (set, report, shm') m₁).1,
            )
                ≡ (out, m') =
              rw (k, build_and_publish) at h in
            let (loaded, machine) =
              publish_built_lem e d plan set report shm' m₁ m' l
                (some-injective _ _ (ap (λ p. p.0) end)) (ap (λ p. p.1) end) in
            (
              record {
                set = set;
                report = report;
                built =
                    subst
                      (IsBuilt blake2b unique padding normalize e.upstream e.page_fuel s limit
                        plan.name shm set)
                      (sym (ap (λ m. m.shm) machine))
                      (build_membership-IsBuilt blake2b unique padding normalize e.upstream s
                        e.page_fuel limit plan.name m.client shm set report shm' k);
                state = ap (λ m. m.folder) machine;
              },
              loaded,
            )
      ]

  -- the name of the next segment is kept by the sweep before the build
  plan_kept :
      (e : Surroundings) (m : Machine)
      → find_segment
          (plan_of m.folder.state_file).name
          (sweep_stale_segments e.is_dir (kept m.folder.state_file) e.stuck m.shm).1
        ≡ find_segment (plan_of m.folder.state_file).name m.shm
  unfolding kept is_stale
  plan_kept e m =
      find_segment-sweep_kept e.is_dir (kept m.folder.state_file) e.stuck
        (plan_of m.folder.state_file).name m.shm
        (ground (arith, eq_refl (plan_of m.folder.state_file).name))

  -- While a segment has the name of the generation to come, as when a builder died between making
  -- its segment and publishing it, whatever `_build_and_publish` returns is an empty set: with a
  -- corpus that is not empty it cannot return.
  pub leftover_blocks_builds :
      (e : Surroundings) (s : Settings) (d : SharedStateDir) (max_entries : Option ℕ)
      (m m' : Machine) (l : LoadedMembership) (words : List ℕ)
      → find_segment (plan_of m.folder.state_file).name m.shm ≡ some words
      → build_and_publish blake2b unique padding normalize e s d max_entries m ≡ (some (ok l), m')
      → (set : MembershipSet) × (l.membership ≡ some set) × (set.count ≡ 0)
  unfolding build
  leftover_blocks_builds e s d limit m m' l words there h =
      let (p, loaded) = build_and_publish-Published e s d limit m m' l h in
      let (values, _, k) = p.built in
      elim (allocate_cases _ _ _ _ _ p.set m'.shm k) [
        | inl (_, zero_count) ↦ (p.set, ap (λ l. l.membership) (sym loaded), zero_count)
        | inr (_, _, free) ↦ absurd (let same = plan_kept e m in cc)
      ]

  module _ (uniq : IsUnique unique) where
    pub built_set_attaches :
        (u : Upstream) (fuel : ℕ) (s : Settings) (limit : Option ℕ) (name : String)
        (shm shm' : Segments) (set : MembershipSet)
        → IsBuilt blake2b unique padding normalize u fuel s limit name shm set shm'
        → set.count ≢ 0
        → (m : ℕ)
        → (set.shm ≡ some name)
          × (r : MembershipSet) × (attach name set.count m shm' ≡ ok r)
          × ((v : String) → contains blake2b r v ≡ contains blake2b set v)
    unfolding build
    built_set_attaches u fuel s limit name shm shm' set (values, _, k) filled m =
        elim (allocate_cases _ _ _ _ _ set shm' k) [
          | inl (_, zero_count) ↦ absurd (filled zero_count)
          | inr (words, named, _) ↦
              let (r, at, same) =
                contains-attach blake2b unique padding uniq values name s.membership_overlay_max
                  limit shm k words m in
              (named, r, at, same)
        ]

    -- After a successful `_build_and_publish` the state file holds the next generation, and where
    -- the set is not empty, a worker that attaches by that state, in the segments as the builder has
    -- left them, gets a set that answers every value as the builder's own does (with a `unique` that
    -- sorts and drops repetitions).
    pub published_set_attaches :
        (e : Surroundings) (s : Settings) (d : SharedStateDir) (max_entries : Option ℕ)
        (m m' : Machine) (l : LoadedMembership)
        → build_and_publish blake2b unique padding normalize e s d max_entries m ≡ (some (ok l), m')
        → (st : SharedMembershipState) × (set : MembershipSet) × (m'.folder.state_file ≡ holds st)
          × (l.membership ≡ some set)
          × (st.generation ≡ next_generation m.folder.state_file)
          × (set.count ≢ 0
              → (r : MembershipSet) × (attach_to st s m'.shm ≡ some r)
                × ((v : String) → contains blake2b r v ≡ contains blake2b set v))
    unfolding state_of plan_of attach_to
    published_set_attaches e s d limit m m' l h =
        let (p, loaded) = build_and_publish-Published e s d limit m m' l h in
        let plan = plan_of m.folder.state_file in
        (
          state_of e.now plan p.set p.report,
          p.set,
          ap (λ f. f.state_file) p.state,
          ap (λ l. l.membership) (sym loaded),
          refl,
          λ filled.
              let (named, r, at, same) =
                built_set_attaches e.upstream e.page_fuel s limit plan.name _ m'.shm p.set p.built
                  filled s.membership_overlay_max in
              (r, attach_to-state_of e.now plan p.set p.report s m'.shm r named at, same),
        )
