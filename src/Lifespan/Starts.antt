-- ===== src/Lifespan/Starts.antt =====
-- What the start of the service comes to (`lifespan` of main.py, up to the `yield`).
use opencti_middleware.Base.{ℕ, String, ◌≡◌, ◌⊎◌, refl, Option, none, some, List, inl, inr}
use opencti_middleware.Base.Result.{Result, ok, raise}
use opencti_middleware.Settings.{MembershipMode, always, auto, off}
use opencti_middleware.Membership.{Segments, empty}
use opencti_middleware.Indicators.{Normalized}
use opencti_middleware.Live.{LiveBackend}
use opencti_middleware.Split.{new_split}
use opencti_middleware.Shared.{Folder}
use opencti_middleware.Loader.{LoadedMembership, Machine, Surroundings, load}
use opencti_middleware.Lifespan.{Service, Process, initial_service, settle_first, begun, startup}

-- the service that a start has ended with is so
abbrev pub Ends : (Service → Machine → Type 0) → Option (Result Service × Machine) → Type 0
Ends P none = Unit
Ends P (some (raise _, m)) = Unit
Ends P (some (ok v, m)) = P v m

module _ (blake2b : String → List ℕ) (unique : List ℕ → List ℕ) (padding : ℕ → List ℕ)
    (normalize : String → Normalized) where
  -- What a start comes to: it never ends, the service has no set to load, or it is settled by the
  -- first load.
  abbrev pub Started :
      Surroundings
      → Process
      → LiveBackend
      → Folder
      → Segments
      → Option (Result Service × Machine)
      → Type 0
  Started e p live f shm out =
      (out ≡ none)
      ⊎ ((out
            ≡ some
                (ok (initial_service live), record { client = live.client; folder = f; shm = shm }))
          × (live.settings.membership_mode ≡ off))
      ⊎ (r : Result LoadedMembership) × (m : Machine) × (load blake2b unique padding normalize e
            live.settings p.pid p.budget_bytes p.solo_name
            (record { client = live.client; folder = f; shm = shm })
          ≡ (some r, m))
        × (out
            ≡ some (settle_first blake2b unique padding normalize p (new_split empty live) (r, m)))

  pub startup_cases :
      (e : Surroundings) (p : Process) (live : LiveBackend) (f : Folder) (shm : Segments)
      → Started e p live f shm (startup blake2b unique padding normalize e p live f shm)
  unfolding startup begun
  startup_cases e p live f shm =
      settled
        (load blake2b unique padding normalize e live.settings p.pid p.budget_bytes p.solo_name
          (record { client = live.client; folder = f; shm = shm }))
        refl live.settings.membership_mode refl
    where
      first : Machine
      first = record { client = live.client; folder = f; shm = shm }

      settled :
          (loaded : Option (Result LoadedMembership) × Machine)
          → load blake2b unique padding normalize e live.settings p.pid p.budget_bytes p.solo_name
              (record { client = live.client; folder = f; shm = shm })
            ≡ loaded
          → (mode : MembershipMode) → live.settings.membership_mode ≡ mode
          → Started e p live f shm (begun blake2b unique padding normalize p live first loaded mode)
      settled loaded h off is = inr (inl (refl, is))
      settled (none, m) h auto is = inl refl
      settled (none, m) h always is = inl refl
      settled (some r, m) h auto is = inr (inr (r, m, h, refl))
      settled (some r, m) h always is = inr (inr (r, m, h, refl))
