-- ===== src/Reconcile.antt =====
-- The rebuilds of the membership set in the builder process (reconcile.py). The calls of other tasks
-- while it waits and while it builds are a part of each round.
mod Rebuild
mod Answers
mod Leftovers
mod Rounds
pub mod Tests
use opencti_middleware.Base.{
  ℕ, ◌+◌, ◌-◌, String, Bool, true, false, Option, none, some, List, [], ◌∷◌, ◌++◌, str_eq,
  if◌then◌else◌,
}
use opencti_middleware.Base.Result.{Result, ok, raise, cancelled, ◌>>=◌}
use opencti_middleware.Settings.{Settings}
use opencti_middleware.Membership.{Segments, MembershipSet}
use opencti_middleware.Membership.Overlay.{Update}
use opencti_middleware.Split.{SplitBackend, swap_membership}
use opencti_middleware.Split.Swap.{updated}
use opencti_middleware.Indicators.{Normalized}
use opencti_middleware.Bootstrap.{Report, build_membership}
use opencti_middleware.Shared.{StateFile, publish, sweep_stale_segments}
use opencti_middleware.Loader.{Machine, Surroundings, plan_of, kept, state_of, max_entries_of}

-- Times are whole seconds.
pub record ReconcileStats : Type 0 where
  pub rebuilds : ℕ
  pub failures : ℕ
  pub last_reason : Option String
  pub last_duration_s : ℕ
  pub last_at : Option ℕ
  pub generation : ℕ
  pub running : Bool
  pub pending_reason : Option String

-- The two events are known by whether they are set.
pub record Reconciler : Type 0 where
  pub backend : SplitBackend
  pub budget_bytes : ℕ
  pub trigger : Bool
  pub stop : Bool
  pub stats : ReconcileStats

-- `__init__`
abbrev pub new_reconciler : ℕ → SplitBackend → ℕ → ℕ → Reconciler
new_reconciler now backend budget_bytes generation = record {
  backend = backend;
  budget_bytes = budget_bytes;
  trigger = false;
  stop = false;
  stats = record {
    rebuilds = 0;
    failures = 0;
    last_reason = none;
    last_duration_s = 0;
    last_at = some now;
    generation = generation;
    running = false;
    pending_reason = none;
  };
}

unfoldable pub request : String → Reconciler → Reconciler
request reason r =
    if r.stats.running
    then r
    else record r { stats = record r.stats { pending_reason = some reason }; trigger = true }

unfoldable pub stop_reconciler : Reconciler → Reconciler
stop_reconciler r = record r { stop = true; trigger = true }

-- the calls of other tasks on the reconciler
pub data Call : Type 0 where
  requests : String → Call
  stops : Call

unfoldable pub call : Call → Reconciler → Reconciler
call (requests reason) r = request reason r
call stops r = stop_reconciler r

unfoldable pub call_all : List Call → Reconciler → Reconciler
call_all [] r = r
call_all (c ∷ cs) r = call_all cs (call c r)

abbrev pub set_running : Bool → Reconciler → Reconciler
set_running running r = record r { stats = record r.stats { running = running } }

-- One round of `run`: what other tasks call while it waits, whether the wait ends by its timeout,
-- what is called and which updates the live stream brings while it builds, and the clock before and
-- after the rebuild.
pub record Round : Type 0 where
  pub surroundings : Surroundings
  pub waiting : List Call
  pub timed_out : Bool
  pub building : List Call
  pub updates : List Update
  pub started : ℕ
  pub finished : ℕ

-- the segments that the sweep after a rebuild keeps
unfoldable pub kept_after : StateFile → Option String → List String
kept_after file none = kept file
kept_after file (some old_name) = kept file ++ old_name ∷ []

-- the bookkeeping of a rebuild that has succeeded
unfoldable pub count_rebuild : Round → String → ℕ → Reconciler → Reconciler
count_rebuild o reason generation r = record r {
  stats = record r.stats {
    rebuilds = r.stats.rebuilds + 1;
    generation = generation;
    last_reason = some reason;
    last_duration_s = o.finished - o.started;
    last_at = some o.finished;
  };
}

abbrev pub count_failure : Reconciler → Reconciler
count_failure r = record r { stats = record r.stats { failures = r.stats.failures + 1 } }

-- `_rebuild` after the publication: the swap, the sweep and the bookkeeping
unfoldable pub adopt_build :
    Round → String → StateFile → MembershipSet → Segments → Reconciler → Reconciler × Segments
adopt_build o reason file set shm r =
    let e = o.surroundings in
    let old_name = r.backend.membership.shm in
    let (backend, shm') = swap_membership set true r.backend shm in
    let (removed, shm'') = sweep_stale_segments e.is_dir (kept_after file old_name) e.stuck shm' in
    (count_rebuild o reason (plan_of file).generation (record r { backend = backend }), shm'')

-- `_rebuild` after the build
unfoldable pub finish_rebuild :
    Round
    → String
    → StateFile
    → MembershipSet × Report × Segments
    → Reconciler
    → Machine
    → Result Bool × Reconciler × Machine
finish_rebuild o reason file (set, report, shm) r m =
    let e = o.surroundings in
    let (done, folder) = publish e.disk (state_of e.now (plan_of file) set report) m.folder in
    let (r', shm') = adopt_build o reason file set shm r in
    elim done [
      | raise x ↦ (raise x, r, record m { folder = folder; shm = shm })
      | ok b ↦ (ok b, r', record m { folder = folder; shm = shm' })
    ]

-- what a round has come to: the loop ends, by a stop or by a cancellation, or goes on
pub data Progress : Type 0 where
  stopped interrupted looping : Progress

-- the `except` of `run`: what is no cancellation is counted, and the loop goes on
unfoldable pub settle_round : Result Bool × Reconciler × Machine → Progress × Reconciler × Machine
settle_round (ok _, r, m) = (looping, r, m)
settle_round (raise cancelled, r, m) = (interrupted, r, m)
settle_round (raise _, r, m) = (looping, count_failure r, m)

-- what a round comes to after its rebuild
unfoldable pub end_round :
    Option (Result Bool) × Reconciler × Machine → Option Progress × Reconciler × Machine
end_round (none, r, m) = (none, r, m)
end_round (some result, r, m) =
    let (progress, r', m') = settle_round (result, r, m) in (some progress, r', m')

-- the reason of a rebuild: what was asked for, or that something was
abbrev pub reason_of : Option String → String
reason_of none = "requested"
reason_of (some reason) = if str_eq reason "" then "requested" else reason

abbrev pub cleared : Reconciler → Reconciler
cleared r = record r { stats = record r.stats { pending_reason = none }; trigger = false }

-- The wait of `run`: the reason of the rebuild that follows, or none where the loop ends.
unfoldable pub wake : Bool → Reconciler → Option String × Reconciler
wake timed_out r =
    if timed_out
    then (some "scheduled", cleared r)
    else if r.stop
    then (none, cleared r)
    else (some (reason_of r.stats.pending_reason), cleared r)

module _ (blake2b : String → List ℕ) (unique : List ℕ → List ℕ) (padding : ℕ → List ℕ)
    (normalize : String → Normalized) where
  -- what other tasks do to the reconciler while it builds
  unfoldable pub meanwhile : Round → Reconciler → Reconciler
  meanwhile o r =
      let r' = call_all o.building r in record r' { backend = updated blake2b o.updates r'.backend }

  -- `_rebuild`; no result where the fuel of the build is used up
  unfoldable pub rebuild :
      Settings → Round → String → Reconciler → Machine → Option (Result Bool) × Reconciler × Machine
  rebuild s o reason r m =
      let e = o.surroundings in
      let file = m.folder.state_file in
      let (built, c) =
        build_membership blake2b unique padding normalize e.upstream s e.page_fuel
          (max_entries_of r.budget_bytes) (plan_of file).name m.client m.shm in
      let r₁ = meanwhile o (set_running true r) in
      let m₁ = record m { client = c } in
      elim built [
        | none ↦ (none, r₁, m₁)
        | some (raise x) ↦ (some (raise x), set_running false r₁, m₁)
        | some (ok p) ↦
            let (done, r₂, m₂) = finish_rebuild o reason file p (set_running false r₁) m₁ in
            (some done, r₂, m₂)
      ]

  -- One round of `run`; no progress where the fuel of the build is used up
  unfoldable pub run_round :
      Settings → Round → Reconciler → Machine → Option Progress × Reconciler × Machine
  run_round s o r m =
      if r.stop
      then (some stopped, r, m)
      else (let (reason, r₁) = wake o.timed_out (call_all o.waiting r) in
          elim reason [
            | none ↦ (some stopped, r₁, m)
            | some text ↦ end_round (rebuild s o text r₁ m)
          ])

  -- `run`, for the rounds given
  unfoldable pub run :
      Settings → List Round → Reconciler → Machine → Option Progress × Reconciler × Machine
  run s [] r m = (some looping, r, m)
  run s (o ∷ os) r m =
      let (progress, r₁, m₁) = run_round s o r m in
      elim progress [
        | some looping ↦ run s os r₁ m₁
        | some stopped ↦ (some stopped, r₁, m₁)
        | some interrupted ↦ (some interrupted, r₁, m₁)
        | none ↦ (none, r₁, m₁)
      ]
