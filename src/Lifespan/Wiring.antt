-- ===== src/Lifespan/Wiring.antt =====
-- What runs after the start of the service (`lifespan` of main.py).
use opencti_middleware.Base.{
  ℕ, String, ◌≡◌, ◌≢◌, ◌⊎◌, refl, ◌∙◌, ap, Bool, true, false, false≢true, Option, none, some, List,
  [], ◌∷◌, ◌++◌, arith, inl, inr, any, str_eq, Bool-cases, eq_iff,
}
use mathlib.Core.Path.{subst}
use opencti_middleware.Base.Result.{Result, ok, raise, cancelled}
use opencti_middleware.Membership.{Segments, MembershipSet, empty}
use opencti_middleware.Indicators.{Normalized}
use opencti_middleware.Live.{LiveBackend}
use opencti_middleware.Split.{SplitBackend, new_split, swap_membership}
use opencti_middleware.Shared.{Folder, SharedStateDir}
use opencti_middleware.Settings.{Settings, MembershipMode, off}
use opencti_middleware.Loader.{reason, LoadedMembership, Machine, Surroundings}
use opencti_middleware.Loader.Roles.{IsSound, IsExplained, load-IsSound, load-IsExplained}
use opencti_middleware.Api.{Backend, live_only, with_split}
use opencti_middleware.Lifespan.{
  BackgroundTask, follow_generations, reconcile, consume_stream, watch_health, retry_bootstrap,
  Service, Process, followers, reconcile_tasks, reconciler_of, stream_tasks, wire, activate_with,
  no_set, settle_first, startup,
}
use opencti_middleware.Lifespan.Starts.{startup_cases, Ends}

-- the tasks that bring a set to a backend
abbrev pub brings_set : BackgroundTask → Bool
brings_set (follow_generations _ _) = true
brings_set retry_bootstrap = true
brings_set reconcile = false
brings_set consume_stream = false
brings_set watch_health = false

-- The live backend serves alone only where the settings want no set, or a load has reported the corpus
-- to be too large; a backend with a set of its own has it, or some task brings one.
abbrev pub Serves :
    MembershipMode → Option LoadedMembership → Backend → List BackgroundTask → Type 0
Serves mode loaded (live_only _) ts =
    (mode ≡ off) ⊎ (l : LoadedMembership) × (loaded ≡ some l) × (l.report ≡ reason "too_large")
Serves mode loaded (with_split s) ts = (s.ready ≡ true) ⊎ (any brings_set ts ≡ true)

abbrev pub IsAttended : Settings → Service → Type 0
IsAttended s v = Serves s.membership_mode v.loaded v.backend v.tasks

any-append_left {ℓ} :
    {A : Type ℓ} (p : A → Bool) (xs ys : List A) → any p xs ≡ true → any p (xs ++ ys) ≡ true
any-append_left p [] ys h = absurd (false≢true h)
any-append_left p (x ∷ xs) ys h = ground (arith, any-append_left p xs ys)

any-append_right {ℓ} :
    {A : Type ℓ} (p : A → Bool) (xs ys : List A) → any p ys ≡ true → any p (xs ++ ys) ≡ true
any-append_right p [] ys h = h
any-append_right p (x ∷ xs) ys h = ground (arith, any-append_right p xs ys h)

followers_bring :
    (l : LoadedMembership) (d : SharedStateDir)
    → l.state_dir ≡ some d
    → l.role ≢ "builder"
    → any brings_set (followers l) ≡ true
unfolding followers
followers_bring l d e role = elim (Bool-cases (str_eq l.role "builder")) [
  | inl same ↦ absurd (role ((eq_iff l.role "builder").0 same))
  | inr other ↦ rw (e, other, followers) refl
]

wire_brings :
    (now budget_bytes : ℕ) (l : LoadedMembership) (s : SplitBackend) (v : Service)
    → any brings_set (followers l) ≡ true
    → any brings_set (wire now budget_bytes l s v).tasks ≡ true
unfolding wire
wire_brings now budget l s v h =
    let built = reconcile_tasks (reconciler_of now budget s l) in
    any-append_left brings_set (v.tasks ++ followers l ++ built) (stream_tasks v.settings) (
      any-append_left brings_set (v.tasks ++ followers l) built
        (any-append_right brings_set v.tasks (followers l) h))

activate_with-IsAttended :
    (s : Settings) (pid now budget_bytes : ℕ) (target : SplitBackend) (l : LoadedMembership)
    (v : Service) (shm : Segments) (m : Option MembershipSet) (d : Option SharedStateDir)
    → l.membership ≡ m
    → l.state_dir ≡ d
    → IsSound pid l
    → IsExplained l
    → IsAttended s (activate_with now budget_bytes target l v shm m d).0
unfolding activate_with wire swap_membership
activate_with-IsAttended s pid now budget target l v shm (some set) d e k sound why = inl refl
activate_with-IsAttended s pid now budget target l v shm none none e k sound why =
    inr (l, refl, why e k)
activate_with-IsAttended s pid now budget target l v shm none (some d) e k sound why = elim sound [
  | inl (set, there, _, _) ↦ absurd cc
  | inr (role, _) ↦ inr (
      wire_brings now budget l target
        (record v {
          loaded = some l;
          backend = with_split target;
          membership = no_set;
          membership_role = "attaching";
        })
        (followers_bring l d k role))
]

module _ (blake2b : String → List ℕ) (unique : List ℕ → List ℕ) (padding : ℕ → List ℕ)
    (normalize : String → Normalized) where
  settle_first-IsAttended :
      (s : Settings) (p : Process) (pending : SplitBackend) (r : Result LoadedMembership)
      (m : Machine)
      → ((l : LoadedMembership) → r ≡ ok l → IsSound p.pid l × IsExplained l)
      → Ends
          (λ v _. IsAttended s v)
          (some (settle_first blake2b unique padding normalize p pending (r, m)))
  unfolding settle_first
  settle_first-IsAttended s p pending (raise cancelled) m sound = tt
  settle_first-IsAttended s p pending (ok l) m sound =
      activate_with-IsAttended s p.pid p.now p.budget_bytes _ l _ m.shm l.membership l.state_dir
        refl refl (sound l refl).0 (sound l refl).1
  settle_first-IsAttended s p pending (raise _) m sound = inr refl

  -- After the start of the service, whatever the first load of the set has come to, the live backend
  -- serves alone, because the settings want no set or the load has reported the corpus to be too large; or
  -- the backend has a set, or a task runs that brings one: the watcher of the
  -- published generations or the retry of the load.
  pub startup-IsAttended :
      (e : Surroundings) (p : Process) (live : LiveBackend) (f : Folder) (shm : Segments)
      (v : Service) (m : Machine)
      → startup blake2b unique padding normalize e p live f shm ≡ some (ok v, m)
      → IsAttended live.settings v
  startup-IsAttended e p live f shm v m h =
      subst (Ends (λ v _. IsAttended live.settings v)) h
        (elim (startup_cases blake2b unique padding normalize e p live f shm) [
          | inl k ↦ rw k tt
          | inr (inl (k, none_wanted)) ↦ rw k (inl none_wanted)
          | inr (inr (r, m', k, j)) ↦ rw j (
              settle_first-IsAttended live.settings p (new_split empty live) r m' λ l is.
                let returned = k ∙ ap (λ r. (some r, m')) is in
                (
                  load-IsSound blake2b unique padding normalize e live.settings p.pid p.budget_bytes
                      p.solo_name _ m' l returned,
                  load-IsExplained blake2b unique padding normalize e live.settings p.pid
                      p.budget_bytes p.solo_name _ m' l returned,
                ))
        ])
