-- ===== src/Reconcile/Rebuild.antt =====
-- What a rebuild does (`_rebuild` of reconcile.py), on success and on failure.
use opencti_middleware.Base.{
  ℕ, String, ◌≡◌, ◌⊎◌, refl, ◌∙◌, Bool, true, false, Option, none, some, List, [], ◌∷◌, inl, inr,
  Option-cases,
}
use opencti_middleware.Base.{if_cases}
use opencti_middleware.Base.Result.{Result, Exception, ok, raise}
use opencti_middleware.Settings.{Settings}
use opencti_middleware.Membership.{Segments, MembershipSet}
use opencti_middleware.Client.{Client}
use opencti_middleware.Indicators.{Normalized}
use opencti_middleware.Bootstrap.{Report, build_membership}
use opencti_middleware.Bootstrap.Packed.{IsBuilt, build_membership-IsBuilt}
use opencti_middleware.Shared.{Folder, StateFile, holds, publish}
use opencti_middleware.Shared.Publish.{publish_cases}
use opencti_middleware.Loader.{Machine, plan_of, state_of, max_entries_of}
use opencti_middleware.Reconcile.{
  Reconciler, Call, requests, stops, request, stop_reconciler, call, call_all, set_running, Round,
  adopt_build, finish_rebuild, meanwhile, rebuild,
}

-- Calls change nothing but the events and the reason that is waiting.
abbrev pub SameWork : Reconciler → Reconciler → Type 0
SameWork r r' =
    (r'.backend ≡ r.backend)
    × (r'.budget_bytes ≡ r.budget_bytes)
    × (r'.stats.rebuilds ≡ r.stats.rebuilds)
    × (r'.stats.failures ≡ r.stats.failures)

call-SameWork : (c : Call) (r : Reconciler) → SameWork r (call c r)
unfolding call request stop_reconciler
call-SameWork (requests reason) r =
    if_cases (SameWork r) r.stats.running (λ _. (refl, refl, refl, refl))
      (λ _. (refl, refl, refl, refl))
call-SameWork stops r = (refl, refl, refl, refl)

pub call_all-SameWork : (cs : List Call) (r : Reconciler) → SameWork r (call_all cs r)
unfolding call_all
call_all-SameWork [] r = (refl, refl, refl, refl)
call_all-SameWork (c ∷ cs) r =
    let (b, y, n, f) = call-SameWork c r in
    let (b', y', n', f') = call_all-SameWork cs (call c r) in (b' ∙ b, y' ∙ y, n' ∙ n, f' ∙ f)

-- What `finish_rebuild` does: all of it, or, where the publication raises, nothing that a lookup or
-- another process can see but the new segment.
finish_rebuild_cases :
    (o : Round) (reason : String) (file : StateFile) (set : MembershipSet) (report : Report)
    (shm : Segments) (r : Reconciler) (m : Machine)
    → (let state = state_of o.surroundings.now (plan_of file) set report in
        let (r', shm') = adopt_build o reason file set shm r in
        finish_rebuild o reason file (set, report, shm) r m ≡ (
          ok true,
          r',
          record m { folder = record m.folder { state_file = holds state }; shm = shm' },
        ))
      ⊎ (x : Exception) × (f : Folder) × (f.state_file ≡ m.folder.state_file)
        × (finish_rebuild o reason file (set, report, shm) r m
            ≡ (raise x, r, record m { folder = f; shm = shm }))
unfolding finish_rebuild
finish_rebuild_cases o reason file set report shm r m =
    let state = state_of o.surroundings.now (plan_of file) set report in
    let f = (publish o.surroundings.disk state m.folder).1 in
    elim (publish_cases o.surroundings.disk state m.folder) [
      | inl (returned, written) ↦ inl (rw (returned, written, finish_rebuild) refl)
      | inr (x, raised, (same, _, _)) ↦ inr (x, f, same, rw (raised, finish_rebuild) refl)
    ]

module _ (blake2b : String → List ℕ) (unique : List ℕ → List ℕ) (padding : ℕ → List ℕ)
    (normalize : String → Normalized) where
  -- the reconciler after a build, before anything is done with it
  abbrev pub after_build : Round → Reconciler → Reconciler
  after_build o r =
      set_running false (meanwhile blake2b unique padding normalize o (set_running true r))

  -- The ways in which `_rebuild` ends: the fuel is used up; it raises, and the published state and
  -- the set in place are as before; or it has built a set, published its state and adopted it.
  pub data Rebuilt (s : Settings) (o : Round) (reason : String) (r : Reconciler) (m : Machine)
      : Option (Result Bool) × Reconciler × Machine → Type 0 where
    exhausted : (r' : Reconciler) (m' : Machine) → Rebuilt s o reason r m (none, r', m')
    failed :
        (x : Exception) (m' : Machine)
        → m'.folder.state_file ≡ m.folder.state_file
        → Rebuilt s o reason r m (some (raise x), after_build o r, m')
    succeeded :
        (set : MembershipSet) (report : Report) (shm : Segments) (r' : Reconciler) (m' : Machine)
        → IsBuilt blake2b unique padding normalize o.surroundings.upstream o.surroundings.page_fuel
            s
            (max_entries_of r.budget_bytes)
            (plan_of m.folder.state_file).name
            m.shm
            set
            shm
        → m'.folder ≡ record m.folder {
          state_file = holds (state_of o.surroundings.now (plan_of m.folder.state_file) set report);
        }
        → (r', m'.shm) ≡ adopt_build o reason m.folder.state_file set shm (after_build o r)
        → Rebuilt s o reason r m (some (ok true), r', m')

  pub rebuild-Rebuilt :
      (s : Settings) (o : Round) (reason : String) (r : Reconciler) (m : Machine)
      → Rebuilt s o reason r m (rebuild blake2b unique padding normalize s o reason r m)
  unfolding rebuild
  rebuild-Rebuilt s o reason r m = elim (Option-cases build_result.0) [
    | inl k ↦ rw (k, rebuild) (Rebuilt.exhausted _ _)
    | inr (raise x, k) ↦ rw (k, rebuild) (Rebuilt.failed x _ refl)
    | inr (ok (set, report, shm), k) ↦
        elim (finish_rebuild_cases o reason m.folder.state_file set report shm (after_build o r)
          (record m { client = build_result.1 })) [
            | inr (x, f, same, e) ↦ rw (k, e, rebuild) (Rebuilt.failed x _ same)
            | inl e ↦
                rw (k, e, rebuild)
                  (Rebuilt.succeeded set report shm _ _
                    (build_membership-IsBuilt blake2b unique padding normalize
                      o.surroundings.upstream s o.surroundings.page_fuel
                      (max_entries_of r.budget_bytes) (plan_of m.folder.state_file).name m.client
                      m.shm set report shm k)
                    refl refl)
          ]
  ]
    where
      build_result : Option (Result (MembershipSet × Report × Segments)) × Client
      build_result =
          build_membership blake2b unique padding normalize o.surroundings.upstream s
            o.surroundings.page_fuel (max_entries_of r.budget_bytes)
            (plan_of m.folder.state_file).name m.client m.shm
