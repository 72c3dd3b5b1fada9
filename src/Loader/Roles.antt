-- ===== src/Loader/Roles.antt =====
-- What a load of membership_loader.py returns for each role.
use opencti_middleware.Base.{
  ℕ, String, ◌≡◌, ◌≢◌, ◌⊎◌, refl, true, false, not, Option, none, some, List, inl, inr,
  Option-cases,
}
use mathlib.Core.Path.{subst}
use opencti_middleware.Base.{if_cases}
use opencti_middleware.Base.Result.{Result, ok, raise, Result-cases}
use opencti_middleware.Base.Text.{str_eq-false}
use opencti_middleware.Settings.{Settings}
use opencti_middleware.Membership.{Segments, MembershipSet}
use opencti_middleware.Indicators.{Normalized}
use opencti_middleware.Bootstrap.{Report, build_membership, count, count_of_observables}
use opencti_middleware.Shared.{SharedStateDir, try_become_builder, new_state_dir, wait_for}
use opencti_middleware.Shared.Publish.{publish_cases}
use opencti_middleware.Loader.{
  reason, LoadedMembership, Machine, Surroundings, Plan, state_of, publish_built, settle_build,
  attach_to, unattached, settle_wait, load_as_reader, guard_build, build_and_publish, load_solo,
  load_shared, load, affordable,
}
use opencti_middleware.Loader.Locks.{try_become_builder_cases}

-- no lock file is held open
abbrev pub NoLock : Option SharedStateDir → Type 0
NoLock none = Unit
NoLock (some d) = d.lock_fd ≡ false

-- The builder has a set and holds the lock file open; every other worker holds none.
abbrev pub IsSound : ℕ → LoadedMembership → Type 0
IsSound pid l =
    ((m : MembershipSet) × (l.membership ≡ some m)
      × (l.role ≡ "builder")
      × (l.state_dir ≡ some (record { pid = pid; lock_fd = true })))
    ⊎ ((l.role ≢ "builder") × NoLock l.state_dir)

-- Where there is neither a set nor a folder to get one from, the corpus is too large.
abbrev pub IsExplained : LoadedMembership → Type 0
IsExplained l = l.membership ≡ none → l.state_dir ≡ none → l.report ≡ reason "too_large"

-- a load that returns has returned so
abbrev ReturnsSound : ℕ → Option (Result LoadedMembership) × Machine → Type 0
ReturnsSound pid (none, m) = Unit
ReturnsSound pid (some (raise x), m) = Unit
ReturnsSound pid (some (ok l), m) = IsSound pid l × IsExplained l

settle_build-ReturnsSound :
    (e : Surroundings) (pid : ℕ) (plan : Plan)
    (r : Option (Result (MembershipSet × Report × Segments))) (m : Machine)
    → ReturnsSound pid (settle_build e (record { pid = pid; lock_fd = true }) plan r m)
unfolding settle_build publish_built
settle_build-ReturnsSound e pid plan none m = tt
settle_build-ReturnsSound e pid plan (some (raise x)) m = tt
settle_build-ReturnsSound e pid plan (some (ok (set, report, shm))) m =
    elim (publish_cases e.disk (state_of e.now plan set report) m.folder) [
      | inl (returned, f) ↦
          rw (returned, settle_build, publish_built)
            (inl (set, refl, refl, refl), λ none_there. absurd cc)
      | inr (x, raised, _) ↦ rw (raised, settle_build, publish_built) tt
    ]

guard_build-ReturnsSound :
    (pid : ℕ) (d : SharedStateDir) (r : Option (Result LoadedMembership) × Machine)
    → ReturnsSound pid r
    → ReturnsSound pid (guard_build d r)
unfolding guard_build
guard_build-ReturnsSound pid d (none, m) h = h
guard_build-ReturnsSound pid d (some (raise x), m) h = tt
guard_build-ReturnsSound pid d (some (ok l), m) h = h

load_as_reader-ReturnsSound :
    (e : Surroundings) (s : Settings) (pid : ℕ) (m : Machine)
    → ReturnsSound pid (load_as_reader e s (new_state_dir pid) m)
unfolding load_as_reader settle_wait unattached
load_as_reader-ReturnsSound e s pid m =
    elim (Option-cases (wait_for e.looks e.wait_from s.membership_attach_timeout_s 0 e.look_fuel)) [
      | inl k ↦ rw (k, load_as_reader) tt
      | inr (none, k) ↦
          rw (k, load_as_reader) (inr (str_eq-false _ _ refl, refl), λ h no_folder. absurd cc)
      | inr (some st, k) ↦ elim (Option-cases (attach_to st s e.shm_then)) [
        | inl j ↦
            rw (k, j, load_as_reader, settle_wait)
              (inr (str_eq-false _ _ refl, refl), λ h no_folder. absurd cc)
        | inr (set, j) ↦
            rw (k, j, load_as_reader, settle_wait)
              (inr (str_eq-false _ _ refl, refl), λ h no_folder. absurd cc)
      ]
    ]

module _ (blake2b : String → List ℕ) (unique : List ℕ → List ℕ) (padding : ℕ → List ℕ)
    (normalize : String → Normalized) where
  load_solo-ReturnsSound :
      (e : Surroundings) (s : Settings) (limit : Option ℕ) (name : String) (pid : ℕ) (m : Machine)
      → ReturnsSound pid (load_solo blake2b unique padding normalize e s limit name m)
  unfolding load_solo
  load_solo-ReturnsSound e s limit name pid m =
      elim (Option-cases
        (build_membership blake2b unique padding normalize e.upstream s e.page_fuel limit name
          m.client m.shm).0) [
            | inl k ↦ rw (k, load_solo) tt
            | inr (raise x, k) ↦ rw (k, load_solo) tt
            | inr (ok r, k) ↦
                rw (k, load_solo) (inr (str_eq-false _ _ refl, tt), λ none_there. absurd cc)
          ]

  load_shared-ReturnsSound :
      (e : Surroundings) (s : Settings) (limit : Option ℕ) (pid : ℕ) (m : Machine)
      → ReturnsSound pid
          (load_shared blake2b unique padding normalize e s (new_state_dir pid) limit m)
  unfolding load_shared try_become_builder build_and_publish
  load_shared-ReturnsSound e s limit pid m =
      elim (try_become_builder_cases (new_state_dir pid) m.folder) [
        | inr (holder, k, t) ↦ rw (t, load_shared) (load_as_reader-ReturnsSound e s pid m)
        | inl (k, t) ↦
            rw (t, load_shared)
              (guard_build-ReturnsSound pid _ _ (settle_build-ReturnsSound e pid _ _ _))
      ]

  load-ReturnsSound :
      (e : Surroundings) (s : Settings) (pid budget : ℕ) (name : String) (m : Machine)
      → ReturnsSound pid (load blake2b unique padding normalize e s pid budget name m)
  unfolding load
  load-ReturnsSound e s pid budget name m =
      elim (Result-cases
        (count e.upstream count_of_observables "stixCyberObservables" m.client).0) [
          | inl (x, k) ↦ rw (k, load) tt
          | inr (n, k) ↦
              rw (k, load)
                (if_cases (ReturnsSound pid) (not (affordable s budget n))
                  (λ _. (inr (str_eq-false _ _ refl, tt), λ h k. refl))
                  λ _.
                    if_cases (ReturnsSound pid) (not s.membership_shared)
                      (λ _. load_solo-ReturnsSound e s _ name pid _)
                      λ _. load_shared-ReturnsSound e s _ pid _)
        ]

  -- A load that returns as the builder returns a set and the folder whose lock it holds; one that
  -- returns in any other role holds no lock.
  pub load-IsSound :
      (e : Surroundings) (s : Settings) (pid budget_bytes : ℕ) (solo_name : String) (m m' : Machine)
      (l : LoadedMembership)
      → load blake2b unique padding normalize e s pid budget_bytes solo_name m ≡ (some (ok l), m')
      → IsSound pid l
  load-IsSound e s pid budget name m m' l h =
      (subst (ReturnsSound pid) h (load-ReturnsSound e s pid budget name m)).0

  -- A load that returns neither a set nor a folder has found the corpus too large.
  pub load-IsExplained :
      (e : Surroundings) (s : Settings) (pid budget_bytes : ℕ) (solo_name : String) (m m' : Machine)
      (l : LoadedMembership)
      → load blake2b unique padding normalize e s pid budget_bytes solo_name m ≡ (some (ok l), m')
      → IsExplained l
  load-IsExplained e s pid budget name m m' l h =
      (subst (ReturnsSound pid) h (load-ReturnsSound e s pid budget name m)).1
