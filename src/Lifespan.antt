-- ===== src/Lifespan.antt =====
-- The start and the stop of the service (`lifespan` of main.py): which backend serves after a load of
-- the membership set, and which background tasks run.
use opencti_middleware.Base.{
  ℕ, ◌+◌, min, String, Bool, true, false, Option, none, some, List, [], ◌∷◌, ◌++◌, ◌==◌, str_eq,
  if◌then◌else◌,
}
pub mod Retries
mod Pauses
pub mod Callbacks
mod Updates
mod Starts
mod Wiring
mod Stop
mod Tests
use opencti_middleware.Base.Result.{Result, ok, raise, cancelled}
use opencti_middleware.Settings.{Settings, MembershipMode, off}
use opencti_middleware.Client.{Client}
use opencti_middleware.Membership.{Segments, MembershipSet, empty, close}
use opencti_middleware.Indicators.{Normalized}
use opencti_middleware.Live.{LiveBackend}
use opencti_middleware.Split.{SplitBackend, new_split, swap_membership}
use opencti_middleware.Shared.{Folder, SharedStateDir, release_builder}
use opencti_middleware.Loader.{
  LoadReport, reason, attached, built, published, LoadedMembership, Machine, Surroundings, load,
}
use opencti_middleware.Reconcile.{Reconciler, new_reconciler, stop_reconciler}
use opencti_middleware.Api.{Backend, live_only, with_split}

-- `app.state.membership`, by the object that it is: none, the set of the backend, or a set that a
-- later one has replaced there and that is closed
pub data Held : Type 0 where
  no_set set_of_backend replaced_set : Held

-- an entry of `tasks`
pub data BackgroundTask : Type 0 where
  follow_generations : SharedStateDir → ℕ → BackgroundTask
  reconcile consume_stream watch_health : BackgroundTask
  retry_bootstrap : BackgroundTask

-- What `lifespan` keeps: the state of the application and its own variables. The backend of the
-- reconciler and the one that the stream writes to is the backend that serves.
pub record Service : Type 0 where
  pub settings : Settings
  pub backend : Backend
  pub membership : Held
  pub membership_role : String
  pub loaded : Option LoadedMembership
  pub reconciler : Option Reconciler
  pub stream : Bool
  pub tasks : List BackgroundTask

-- `report.get("attached_generation") or 0`
abbrev pub attached_generation_of : LoadReport → ℕ
attached_generation_of (attached generation _) = generation
attached_generation_of (reason _) = 0
attached_generation_of (built _) = 0
attached_generation_of (published _ _) = 0

-- `report.get("generation") or 1`
abbrev pub generation_of : LoadReport → ℕ
generation_of (published _ generation) = if generation == 0 then 1 else generation
generation_of (attached _ _) = 1
generation_of (reason _) = 1
generation_of (built _) = 1

-- the watcher of the published generations, for every worker but the builder
unfoldable pub followers : LoadedMembership → List BackgroundTask
followers l = elim l.state_dir [
  | none ↦ []
  | some d ↦
      if str_eq l.role "builder"
      then []
      else follow_generations d (attached_generation_of l.report) ∷ []
]

-- the reconciler, for the builder
unfoldable pub reconciler_of : ℕ → ℕ → SplitBackend → LoadedMembership → Option Reconciler
reconciler_of now budget_bytes split l = elim l.state_dir [
  | none ↦ none
  | some _ ↦
      if str_eq l.role "builder"
      then some (new_reconciler now split budget_bytes (generation_of l.report))
      else none
]

abbrev pub reconcile_tasks : Option Reconciler → List BackgroundTask
reconcile_tasks none = []
reconcile_tasks (some _) = reconcile ∷ []

abbrev pub stream_tasks : Settings → List BackgroundTask
stream_tasks s = if s.stream_enabled then consume_stream ∷ watch_health ∷ [] else []

-- `_activate` once the backend is chosen: what runs in the background for a split backend
unfoldable pub wire : ℕ → ℕ → LoadedMembership → SplitBackend → Service → Service
wire now budget_bytes l split v =
    let r = reconciler_of now budget_bytes split l in
    record v {
      reconciler = r;
      stream = v.settings.stream_enabled;
      tasks = v.tasks ++ followers l ++ reconcile_tasks r ++ stream_tasks v.settings;
    }

-- `_activate`, with the set and the folder of the load
unfoldable pub activate_with :
    ℕ
    → ℕ
    → SplitBackend
    → LoadedMembership
    → Service
    → Segments
    → Option MembershipSet
    → Option SharedStateDir
    → Service × Segments
activate_with now budget_bytes target l v shm (some set) _ =
    let (split, shm') = swap_membership set true target shm in
    (
      wire now budget_bytes l split (record v {
        loaded = some l;
        backend = with_split split;
        membership = set_of_backend;
        membership_role = l.role;
      }),
      shm',
    )
activate_with now budget_bytes target l v shm none (some _) = (
  wire now budget_bytes l target (record v {
    loaded = some l;
    backend = with_split target;
    membership = no_set;
    membership_role = "attaching";
  }),
  shm,
)
activate_with now budget_bytes target l v shm none none = (
  record v {
    loaded = some l;
    backend = live_only target.live;
    membership = no_set;
    membership_role = "none";
  },
  shm,
)

-- `_activate`
abbrev pub activate :
    ℕ → ℕ → SplitBackend → LoadedMembership → Service → Segments → Service × Segments
activate now budget_bytes target l v shm =
    activate_with now budget_bytes target l v shm l.membership l.state_dir

-- `_adopt`: a worker that is not the builder takes over a new generation
unfoldable pub adopt_generation : MembershipSet → Service × Segments → Service × Segments
adopt_generation set (v, shm) = elim v.backend [
  | live_only _ ↦ (v, shm)
  | with_split s ↦
      let (split, shm') = swap_membership set true s shm in
      (
        record v {
          backend = with_split split;
          membership = set_of_backend;
          membership_role = "reader";
        },
        shm',
      )
]

-- A rebuild of the reconciler has swapped a new set into the backend.
unfoldable pub rebuilt_by : Reconciler → Service → Service
rebuilt_by r v = record v {
  backend = with_split r.backend;
  reconciler = some r;
  membership = elim v.membership [
    | no_set ↦ no_set
    | set_of_backend ↦ replaced_set
    | replaced_set ↦ replaced_set
  ];
}

-- the set that `lifespan` closes at its end, where it is still open
unfoldable pub close_current : Service → Segments → Segments
close_current v shm = elim v.membership [
  | no_set ↦ shm
  | replaced_set ↦ shm
  | set_of_backend ↦ elim v.backend [
    | live_only _ ↦ shm
    | with_split s ↦ (close none s.membership shm).1
  ]
]

-- the role that `lifespan` gives up at its end
unfoldable pub release_loaded : Option LoadedMembership → Folder → Folder
release_loaded none f = f
release_loaded (some l) f = elim l.state_dir [ none ↦ f | some d ↦ (release_builder d f).1 ]

abbrev pub stopped : Option Reconciler → Option Reconciler
stopped none = none
stopped (some r) = some (stop_reconciler r)

-- `lifespan` after the `yield`
unfoldable pub shutdown : Service → Folder → Segments → Service × Folder × Segments
shutdown v f shm = (
  record v { reconciler = stopped v.reconciler; tasks = [] },
  release_loaded v.loaded f,
  close_current v shm,
)

abbrev pub with_client : Client → SplitBackend → SplitBackend
with_client c s = record s { live = record s.live { client = c } }

-- the service before a load, with the live backend only
abbrev pub initial_service : LiveBackend → Service
initial_service live = record {
  settings = live.settings;
  backend = live_only live;
  membership = no_set;
  membership_role = "none";
  loaded = none;
  reconciler = none;
  stream = false;
  tasks = [];
}

-- the service whose first load has failed
abbrev pub bootstrapping : SplitBackend → Service
bootstrapping pending = record (initial_service pending.live) {
  backend = with_split pending;
  membership_role = "bootstrapping";
  tasks = retry_bootstrap ∷ [];
}

-- the pause before the second load
abbrev pub first_delay : Settings → ℕ
first_delay s = min s.membership_bootstrap_retry_s s.membership_bootstrap_retry_max_s

-- The process: its id, its share of the memory, the name of a segment of its own, and the clock.
pub record Process : Type 0 where
  pub pid : ℕ
  pub budget_bytes : ℕ
  pub solo_name : String
  pub now : ℕ

module _ (blake2b : String → List ℕ) (unique : List ℕ → List ℕ) (padding : ℕ → List ℕ)
    (normalize : String → Normalized) where
  -- what the first load leads to; a cancellation ends the start
  unfoldable pub settle_first :
      Process → SplitBackend → Result LoadedMembership × Machine → Result Service × Machine
  settle_first p pending (raise cancelled, m) = (raise cancelled, m)
  settle_first p pending (raise _, m) = (ok (bootstrapping (with_client m.client pending)), m)
  settle_first p pending (ok l, m) =
      let target = with_client m.client pending in
      let (v, shm) = activate p.now p.budget_bytes target l (initial_service target.live) m.shm in
      (ok v, record m { shm = shm })

  -- the start after the first load, which only a service with a membership set makes
  unfoldable pub begun :
      Process
      → LiveBackend
      → Machine
      → Option (Result LoadedMembership) × Machine
      → MembershipMode
      → Option (Result Service × Machine)
  begun p live m loaded off = some (ok (initial_service live), m)
  begun p live m (none, _) mode = none
  begun p live m (some r, m') mode = some (settle_first p (new_split empty live) (r, m'))

  -- `lifespan` up to the `yield`; none where the fuel of the load is used up
  unfoldable pub startup :
      Surroundings → Process → LiveBackend → Folder → Segments → Option (Result Service × Machine)
  startup e p live f shm =
      let m : Machine = record { client = live.client; folder = f; shm = shm } in
      begun p live m
        (load blake2b unique padding normalize e live.settings p.pid p.budget_bytes p.solo_name m)
        live.settings.membership_mode
