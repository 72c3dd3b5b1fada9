-- ===== src/Loader.antt =====
-- How a worker process comes by its membership set (membership_loader.py): it builds and publishes
-- the set, attaches to the published one, or serves without. What other processes do in between, and
-- what the system answers, is an argument.
pub mod Tests
use opencti_middleware.Base.{
  ℕ, ◌/◌, String, Bool, true, false, not, ◌||◌, Option, none, some, List, [], ◌∷◌, leb, ◌==◌,
  if◌then◌else◌, ℤ,
}
pub mod Locks
pub mod Roles
mod Workers
pub mod Published
pub mod Watch
use opencti_middleware.Base.{pos, negsuc}
use opencti_middleware.Base.Result.{Result, ok, raise, ◌>>=◌}
use opencti_middleware.Settings.{Settings, always, auto, off}
use opencti_middleware.Client.{Client}
use opencti_middleware.Membership.{Segments, MembershipSet, attach, estimate_bytes}
use opencti_middleware.Indicators.{Normalized}
use opencti_middleware.Bootstrap.{Upstream, Report, count, count_of_observables, build_membership}
use opencti_middleware.Shared.{
  SharedMembershipState, StateFile, Folder, SharedStateDir, new_state_dir, try_become_builder,
  release_builder, Disk, publish, read, next_generation, segment_name, sweep_stale_segments, Looks,
  wait_for,
}

-- what a load reports
pub data LoadReport : Type 0 where
  reason : String → LoadReport
  attached : (attached_generation unique_packed : ℕ) → LoadReport
  built : Report → LoadReport
  published : Report → (generation : ℕ) → LoadReport

pub record LoadedMembership : Type 0 where
  pub membership : Option MembershipSet
  pub role : String
  pub report : LoadReport
  pub state_dir : Option SharedStateDir

-- What a worker changes: its client, and the files and the segments that all workers share.
pub record Machine : Type 0 where
  pub client : Client
  pub folder : Folder
  pub shm : Segments

-- What the worker meets: OpenCTI, the disk, the time of the publication, the mount of the segments
-- with the entries that cannot be removed, and what the wait for the builder sees and finds at its
-- end. A build has fuel for a number of pages, and a wait for a number of looks.
pub record Surroundings : Type 0 where
  pub upstream : Upstream
  pub page_fuel : ℕ
  pub disk : Disk
  pub now : ℕ
  pub is_dir : Bool
  pub stuck : String → Bool
  pub looks : Looks
  pub look_fuel : ℕ
  pub wait_from : ℕ
  pub shm_then : Segments

-- the generation and the segment of a build
pub record Plan : Type 0 where
  pub generation : ℕ
  pub name : String

unfoldable pub plan_of : StateFile → Plan
plan_of file = record {
  generation = next_generation file;
  name = segment_name (next_generation file);
}

-- the segments that the sweep before a build keeps
unfoldable pub kept : StateFile → List String
kept file = (plan_of file).name ∷ elim (read file) [ none ↦ [] | some s ↦ s.shm_name ∷ [] ]

-- the state that a builder publishes
unfoldable pub state_of : ℕ → Plan → MembershipSet → Report → SharedMembershipState
state_of now plan m report = record {
  shm_name = elim m.shm [ none ↦ plan.name | some name ↦ name ];
  count = m.count;
  generation = plan.generation;
  built_at = now;
  corpus = report.observables;
}

-- `(budget_bytes // 8) or None`
unfoldable pub max_entries_of : ℕ → Option ℕ
max_entries_of budget_bytes = if budget_bytes / 8 == 0 then none else some (budget_bytes / 8)

-- what `_build_and_publish` returns
abbrev pub builder_loaded : SharedStateDir → Plan → MembershipSet → Report → LoadedMembership
builder_loaded d plan set report = record {
  membership = some set;
  role = "builder";
  report = published report plan.generation;
  state_dir = some d;
}

-- the end of `_build_and_publish`
unfoldable pub publish_built :
    Surroundings
    → SharedStateDir
    → Plan
    → MembershipSet × Report × Segments
    → Machine
    → Result LoadedMembership × Machine
publish_built e d plan (set, report, shm) m =
    let (done, folder) = publish e.disk (state_of e.now plan set report) m.folder in
    (done >>= λ _. ok (builder_loaded d plan set report), record m { folder = folder; shm = shm })

-- what `_build_and_publish` does with what the build returns
unfoldable pub settle_build :
    Surroundings
    → SharedStateDir
    → Plan
    → Option (Result (MembershipSet × Report × Segments))
    → Machine
    → Option (Result LoadedMembership) × Machine
settle_build e d plan none m = (none, m)
settle_build e d plan (some (raise x)) m = (some (raise x), m)
settle_build e d plan (some (ok r)) m =
    let (done, m') = publish_built e d plan r m in (some done, m')

-- `_attach`
unfoldable pub attach_to : SharedMembershipState → Settings → Segments → Option MembershipSet
attach_to state s shm = elim (attach state.shm_name state.count s.membership_overlay_max shm) [
  | ok m ↦ some m
  | raise _ ↦ none
]

-- no set: the live backend serves, and attaching is tried again in the background
unfoldable pub unattached : SharedStateDir → LoadedMembership
unattached d = record {
  membership = none;
  role = "none";
  report = reason "attach_timeout";
  state_dir = some d;
}

-- what `load` returns once the wait is over
unfoldable pub settle_wait :
    SharedStateDir → Settings → Segments → Option SharedMembershipState → LoadedMembership
settle_wait d s shm none = unattached d
settle_wait d s shm (some state) = elim (attach_to state s shm) [
  | none ↦ unattached d
  | some m ↦ record {
    membership = some m;
    role = "reader";
    report = attached state.generation state.count;
    state_dir = some d;
  }
]

-- the corpus fits into the budget, or is loaded whatever its size
unfoldable pub affordable : Settings → ℕ → ℤ → Bool
affordable s budget_bytes corpus =
    (elim corpus [ pos n ↦ leb (estimate_bytes n) budget_bytes | negsuc _ ↦ true ])
    || (elim s.membership_mode [ always ↦ true | auto ↦ false | off ↦ false ])

-- a worker that does not get the builder's role
unfoldable pub load_as_reader :
    Surroundings → Settings → SharedStateDir → Machine → Option (Result LoadedMembership) × Machine
load_as_reader e s d m =
    elim (wait_for e.looks e.wait_from s.membership_attach_timeout_s 0 e.look_fuel) [
      | none ↦ (none, m)
      | some state ↦ (some (ok (settle_wait d s e.shm_then state)), m)
    ]

-- a build that raises gives the builder's role up
unfoldable pub guard_build :
    SharedStateDir
    → Option (Result LoadedMembership) × Machine
    → Option (Result LoadedMembership) × Machine
guard_build d (some (raise x), m) =
    (some (raise x), record m { folder = (release_builder d m.folder).1 })
guard_build d r = r

module _ (blake2b : String → List ℕ) (unique : List ℕ → List ℕ) (padding : ℕ → List ℕ)
    (normalize : String → Normalized) where
  -- `_build_and_publish`
  unfoldable pub build_and_publish :
      Surroundings
      → Settings
      → SharedStateDir
      → Option ℕ
      → Machine
      → Option (Result LoadedMembership) × Machine
  build_and_publish e s d max_entries m =
      let plan = plan_of m.folder.state_file in
      let (removed, shm) = sweep_stale_segments e.is_dir (kept m.folder.state_file) e.stuck m.shm in
      let (r, c) =
        build_membership blake2b unique padding normalize e.upstream s e.page_fuel max_entries
          plan.name m.client shm in
      settle_build e d plan r (record m { client = c; shm = shm })

  -- a set of this worker alone, in a segment whose name the system makes up
  unfoldable pub load_solo :
      Surroundings
      → Settings
      → Option ℕ
      → String
      → Machine
      → Option (Result LoadedMembership) × Machine
  load_solo e s max_entries name m =
      let (r, c) =
        build_membership blake2b unique padding normalize e.upstream s e.page_fuel max_entries name
          m.client m.shm in
      elim r [
        | none ↦ (none, record m { client = c })
        | some (raise x) ↦ (some (raise x), record m { client = c })
        | some (ok (set, report, shm)) ↦ (
          some (
              ok (record {
                membership = some set;
                role = "solo";
                report = built report;
                state_dir = none;
              })),
          record m { client = c; shm = shm },
        )
      ]

  -- builder or reader, depending on who wins the lock
  unfoldable pub load_shared :
      Surroundings
      → Settings
      → SharedStateDir
      → Option ℕ
      → Machine
      → Option (Result LoadedMembership) × Machine
  load_shared e s d max_entries m =
      let (won, d', folder) = try_become_builder d m.folder in
      if won
      then guard_build d' (build_and_publish e s d' max_entries (record m { folder = folder }))
      else load_as_reader e s d' m

  -- `load` of the process `pid`
  unfoldable pub load :
      Surroundings
      → Settings
      → ℕ
      → ℕ
      → String
      → Machine
      → Option (Result LoadedMembership) × Machine
  load e s pid budget_bytes solo_name m =
      let (corpus, c) = count e.upstream count_of_observables "stixCyberObservables" m.client in
      let m' = record m { client = c } in
      elim corpus [
        | raise x ↦ (some (raise x), m')
        | ok n ↦
            if not (affordable s budget_bytes n)
            then (
              some (
                  ok (record {
                    membership = none;
                    role = "none";
                    report = reason "too_large";
                    state_dir = none;
                  })),
              m',
            )
            else if not s.membership_shared
            then load_solo e s (max_entries_of budget_bytes) solo_name m'
            else load_shared e s (new_state_dir pid) (max_entries_of budget_bytes) m'
      ]
