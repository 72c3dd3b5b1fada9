-- ===== src/Loader/Locks.antt =====
-- Who holds the builder's lock after `load` of membership_loader.py.
use opencti_middleware.Base.{
  ℕ, String, ◌≡◌, ◌≢◌, ◌⊎◌, refl, sym, ap, true, false, not, Option, none, some, List, inl, inr,
  Option-cases,
}
use mathlib.Core.Path.{subst}
use opencti_middleware.Base.{if_cases}
use opencti_middleware.Base.Result.{Result, ok, raise, Result-cases}
use opencti_middleware.Base.Text.{str_eq-false}
use opencti_middleware.Settings.{Settings}
use opencti_middleware.Membership.{Segments, MembershipSet}
use opencti_middleware.Indicators.{Normalized}
use opencti_middleware.Bootstrap.{Report, build_membership, count, count_of_observables}
use opencti_middleware.Shared.{
  Folder, SharedStateDir, try_become_builder, release_builder, new_state_dir, wait_for,
}
use opencti_middleware.Shared.Publish.{publish_cases}
use opencti_middleware.Loader.{
  LoadedMembership, Machine, Surroundings, Plan, state_of, publish_built, settle_build, attach_to,
  unattached, settle_wait, load_as_reader, guard_build, build_and_publish, load_solo, load_shared,
  load, affordable,
}

-- The lock after a load: the process that returns as the builder has found it free and holds it;
-- in every other case, errors included, it is held as before.
abbrev pub LockAfter : Option ℕ → ℕ → Result LoadedMembership → Option ℕ → Type 0
LockAfter before pid (raise x) after = after ≡ before
LockAfter before pid (ok l) after =
    ((l.role ≡ "builder") × (before ≡ none) × (after ≡ some pid))
    ⊎ ((l.role ≢ "builder") × (after ≡ before))

abbrev lock_of : Machine → Option ℕ
lock_of m = m.folder.lock_holder

-- a load that ends has left the lock so
abbrev LocksWell : Option ℕ → ℕ → Option (Result LoadedMembership) × Machine → Type 0
LocksWell before pid (none, m) = Unit
LocksWell before pid (some r, m) = LockAfter before pid r (lock_of m)

-- what a build of the holder leaves: it raises, or returns as the builder, and the lock is his
abbrev HeldBuild : Option ℕ → Option (Result LoadedMembership) × Machine → Type 0
HeldBuild holder (none, m) = Unit
HeldBuild holder (some (raise x), m) = lock_of m ≡ holder
HeldBuild holder (some (ok l), m) = (l.role ≡ "builder") × (lock_of m ≡ holder)

publish_built-HeldBuild :
    (e : Surroundings) (d : SharedStateDir) (plan : Plan) (r : MembershipSet × Report × Segments)
    (m : Machine)
    → HeldBuild (lock_of m) (some (publish_built e d plan r m).0, (publish_built e d plan r m).1)
unfolding publish_built
publish_built-HeldBuild e d plan (set, report, shm) m =
    elim (publish_cases e.disk (state_of e.now plan set report) m.folder) [
      | inl (returned, f) ↦ rw (returned, publish_built) (refl, ap (λ f. f.lock_holder) f)
      | inr (x, raised, (_, lock, _)) ↦ rw (raised, publish_built) lock
    ]

settle_build-HeldBuild :
    (e : Surroundings) (d : SharedStateDir) (plan : Plan)
    (r : Option (Result (MembershipSet × Report × Segments))) (m : Machine)
    → HeldBuild (lock_of m) (settle_build e d plan r m)
unfolding settle_build
settle_build-HeldBuild e d plan none m = tt
settle_build-HeldBuild e d plan (some (raise x)) m = refl
settle_build-HeldBuild e d plan (some (ok r)) m = publish_built-HeldBuild e d plan r m

abbrev pub Elected : SharedStateDir → Folder → Type 0
Elected d f =
    ((f.lock_holder ≡ none)
      × (try_become_builder d f ≡ (
        true,
        record d { lock_fd = true },
        record f { lock_holder = some d.pid; lock_pid = some d.pid },
      )))
    ⊎ (holder : ℕ) × (f.lock_holder ≡ some holder) × (try_become_builder d f ≡ (false, d, f))

pub try_become_builder_cases : (d : SharedStateDir) (f : Folder) → Elected d f
unfolding try_become_builder
try_become_builder_cases d f = go f.lock_holder
  where
    go : (holder : Option ℕ) → Elected d (record f { lock_holder = holder })
    go none = inl (refl, refl)
    go (some holder) = inr (holder, refl, refl)

-- the guard gives back the lock that was free
guard_build-LocksWell :
    (pid : ℕ) (d : SharedStateDir) (r : Option (Result LoadedMembership) × Machine)
    → d.lock_fd ≡ true
    → HeldBuild (some pid) r
    → LocksWell none pid (guard_build d r)
unfolding guard_build release_builder
guard_build-LocksWell pid d (none, m) fd h = tt
guard_build-LocksWell pid d (some (raise x), m) fd h = rw fd refl
guard_build-LocksWell pid d (some (ok l), m) fd h = inl (h.0, refl, h.1)

load_as_reader-LocksWell :
    (e : Surroundings) (s : Settings) (pid : ℕ) (d : SharedStateDir) (m : Machine)
    → LocksWell (lock_of m) pid (load_as_reader e s d m)
unfolding load_as_reader settle_wait unattached
load_as_reader-LocksWell e s pid d m =
    elim (Option-cases (wait_for e.looks e.wait_from s.membership_attach_timeout_s 0 e.look_fuel)) [
      | inl k ↦ rw (k, load_as_reader) tt
      | inr (none, k) ↦ rw (k, load_as_reader) (inr (str_eq-false _ _ refl, refl))
      | inr (some st, k) ↦ elim (Option-cases (attach_to st s e.shm_then)) [
        | inl j ↦ rw (k, j, load_as_reader, settle_wait) (inr (str_eq-false _ _ refl, refl))
        | inr (set, j) ↦ rw (k, j, load_as_reader, settle_wait) (inr (str_eq-false _ _ refl, refl))
      ]
    ]

module _ (blake2b : String → List ℕ) (unique : List ℕ → List ℕ) (padding : ℕ → List ℕ)
    (normalize : String → Normalized) where
  load_solo-LocksWell :
      (e : Surroundings) (s : Settings) (limit : Option ℕ) (name : String) (pid : ℕ) (m : Machine)
      → LocksWell (lock_of m) pid (load_solo blake2b unique padding normalize e s limit name m)
  unfolding load_solo
  load_solo-LocksWell e s limit name pid m =
      elim (Option-cases
        (build_membership blake2b unique padding normalize e.upstream s e.page_fuel limit name
          m.client m.shm).0) [
            | inl k ↦ rw (k, load_solo) tt
            | inr (raise x, k) ↦ rw (k, load_solo) refl
            | inr (ok r, k) ↦ rw (k, load_solo) (inr (str_eq-false _ _ refl, refl))
          ]

  load_shared-LocksWell :
      (e : Surroundings) (s : Settings) (limit : Option ℕ) (pid : ℕ) (m : Machine)
      → LocksWell
          (lock_of m)
          pid
          (load_shared blake2b unique padding normalize e s (new_state_dir pid) limit m)
  unfolding load_shared try_become_builder build_and_publish
  load_shared-LocksWell e s limit pid m =
      elim (try_become_builder_cases (new_state_dir pid) m.folder) [
        | inr (holder, k, t) ↦ rw (t, load_shared) (load_as_reader-LocksWell e s pid _ m)
        | inl (k, t) ↦
            rw (t, load_shared)
              (subst
                (λ h. LocksWell h pid (
                  guard_build won (
                    build_and_publish blake2b unique padding normalize e s won limit
                      (record m { folder = taken }))))
                (sym k) (guard_build-LocksWell pid won _ refl (settle_build-HeldBuild e won _ _ _)))
      ]
    where
      won : SharedStateDir
      won = record { pid = pid; lock_fd = true }

      taken : Folder
      taken = record m.folder { lock_holder = some pid; lock_pid = some pid }

  -- However `load` ends, if it does, a process that returns as the builder has found the lock free
  -- and holds it, and in every other case, errors included, the lock is held as before: a failed
  -- build gives the role up.
  pub load-LockAfter :
      (e : Surroundings) (s : Settings) (pid budget_bytes : ℕ) (solo_name : String) (m m' : Machine)
      (r : Result LoadedMembership)
      → load blake2b unique padding normalize e s pid budget_bytes solo_name m ≡ (some r, m')
      → LockAfter (lock_of m) pid r (lock_of m')
  unfolding load
  load-LockAfter e s pid budget name m m' r h = subst (LocksWell (lock_of m) pid) h well
    where
      well : LocksWell (lock_of m) pid (load blake2b unique padding normalize e s pid budget name m)
      well =
          elim (Result-cases
            (count e.upstream count_of_observables "stixCyberObservables" m.client).0) [
              | inl (x, k) ↦ rw (k, load) refl
              | inr (n, k) ↦
                  rw (k, load)
                    (if_cases (LocksWell (lock_of m) pid) (not (affordable s budget n))
                      (λ _. inr (str_eq-false _ _ refl, refl))
                      λ _.
                        if_cases (LocksWell (lock_of m) pid) (not s.membership_shared)
                          (λ _. load_solo-LocksWell e s _ name pid _)
                          λ _. load_shared-LocksWell e s _ pid _)
            ]
