-- ===== src/Lifespan/Stop.antt =====
-- What the stop of the service leaves (`lifespan` of main.py, after the `yield`).
use opencti_middleware.Base.{ℕ, String, ◌≡◌, refl, ◌∙◌, sym, ap, Option, none, some, List, inl, inr}
use mathlib.Core.Path.{subst}
use opencti_middleware.Base.Result.{Result, ok, raise, cancelled}
use opencti_middleware.Membership.{Segments, MembershipSet, empty}
use opencti_middleware.Indicators.{Normalized}
use opencti_middleware.Live.{LiveBackend}
use opencti_middleware.Split.{SplitBackend, new_split}
use opencti_middleware.Shared.{Folder, SharedStateDir, release_builder}
use opencti_middleware.Loader.{LoadedMembership, Machine, Surroundings}
use opencti_middleware.Loader.Locks.{LockAfter, load-LockAfter}
use opencti_middleware.Loader.Roles.{NoLock, IsSound, load-IsSound}
use opencti_middleware.Lifespan.{
  Service, Process, wire, activate_with, release_loaded, shutdown, with_client, settle_first,
  startup,
}
use opencti_middleware.Lifespan.Starts.{startup_cases, Ends}

activate_with-loaded :
    (now budget : ℕ) (target : SplitBackend) (l : LoadedMembership) (v : Service) (shm : Segments)
    (m : Option MembershipSet) (d : Option SharedStateDir)
    → (activate_with now budget target l v shm m d).0.loaded ≡ some l
unfolding activate_with wire
activate_with-loaded now budget target l v shm (some set) d = refl
activate_with-loaded now budget target l v shm none (some d) = refl
activate_with-loaded now budget target l v shm none none = refl

module _ (blake2b : String → List ℕ) (unique : List ℕ → List ℕ) (padding : ℕ → List ℕ)
    (normalize : String → Normalized) where
  -- the lock after the stop of a process is held so
  abbrev Restores : Option ℕ → Service → Machine → Type 0
  Restores before v m = (shutdown v m.folder m.shm).1.lock_holder ≡ before

  released :
      (pid : ℕ) (l : LoadedMembership) (before : Option ℕ) (f : Folder)
      → IsSound pid l
      → LockAfter before pid (ok l) f.lock_holder
      → (release_loaded (some l) f).lock_holder ≡ before
  unfolding release_loaded release_builder
  released pid l before f (inl (set, _, _, d)) (inl (_, free, _)) =
      rw (d, release_loaded) (sym free)
  released pid l before f (inl (_, _, role, _)) (inr (other, _)) = absurd (other role)
  released pid l before f (inr (other, _)) (inl (role, _, _)) = absurd (other role)
  released pid l before f (inr (_, fd)) (inr (_, held)) = go l.state_dir refl fd
    where
      go :
          (d : Option SharedStateDir)
          → l.state_dir ≡ d
          → NoLock d
          → (release_loaded (some l) f).lock_holder ≡ before
      go none e h = rw (e, release_loaded) held
      go (some d) e h = rw (e, h, release_loaded) held

  settle_first-Restores :
      (p : Process) (pending : SplitBackend) (r : Result LoadedMembership) (m : Machine)
      (before : Option ℕ)
      → LockAfter before p.pid r m.folder.lock_holder
      → ((l : LoadedMembership) → r ≡ ok l → IsSound p.pid l)
      → Ends
          (Restores before)
          (some (settle_first blake2b unique padding normalize p pending (r, m)))
  unfolding settle_first shutdown release_loaded
  settle_first-Restores p pending (raise cancelled) m before lock sound = tt
  settle_first-Restores p pending (ok l) m before lock sound =
      ap (λ o. (release_loaded o m.folder).lock_holder)
        (activate_with-loaded p.now p.budget_bytes (with_client m.client pending) l _ m.shm
          l.membership l.state_dir)
      ∙ released p.pid l before m.folder (sound l refl) lock
  settle_first-Restores p pending (raise _) m before lock sound = lock

  -- When a process has started, whatever its first load has come to, and stops with no more loads in
  -- between, the builder's lock is as it was before the start: a builder gives it up, and in
  -- any other role the process does not touch it.
  pub startup-shutdown_lock :
      (e : Surroundings) (p : Process) (live : LiveBackend) (f : Folder) (shm : Segments)
      (v : Service) (m : Machine)
      → startup blake2b unique padding normalize e p live f shm ≡ some (ok v, m)
      → (shutdown v m.folder m.shm).1.lock_holder ≡ f.lock_holder
  unfolding shutdown release_loaded
  startup-shutdown_lock e p live f shm v m h =
      subst (Ends (Restores f.lock_holder)) h
        (elim (startup_cases blake2b unique padding normalize e p live f shm) [
          | inl k ↦ rw k tt
          | inr (inl (k, none_wanted)) ↦ rw k refl
          | inr (inr (r, m', k, j)) ↦ rw j (
              settle_first-Restores p (new_split empty live) r m' f.lock_holder
                (load-LockAfter blake2b unique padding normalize e live.settings p.pid
                  p.budget_bytes p.solo_name _ m' r k)
                λ l is.
                  load-IsSound blake2b unique padding normalize e live.settings p.pid p.budget_bytes
                    p.solo_name _ m' l (k ∙ ap (λ r. (some r, m')) is))
        ])
