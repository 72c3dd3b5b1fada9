-- ===== src/Loader/Workers.antt =====
-- The workers of one machine together: their steps of backends/shared_state.py, membership_loader.py
-- and reconcile.py in any order.
pub mod Order
pub mod Runs
use opencti_middleware.Base.{
  ℕ, ◌<◌, String, ◌≡◌, Bool, true, false, Option, none, some, List, [], ◌∷◌, ◌==◌, if◌then◌else◌,
}
use opencti_middleware.Settings.{Settings}
use opencti_middleware.Membership.{Segments, MembershipSet}
use opencti_middleware.Bootstrap.{Report}
use opencti_middleware.Shared.{
  Folder, SharedStateDir, StateFile, new_state_dir, try_become_builder, release_builder, Disk,
  publish, next_generation, sweep_stale_segments,
}
use opencti_middleware.Loader.{Plan, plan_of, state_of, kept}
use opencti_middleware.Loader.Watch.{watch_once}

-- The machine: what the workers share, and for each pid its `SharedStateDir`, the build that it is at,
-- and the generation that its watcher is at.
pub record Host : Type 0 where
  pub folder : Folder
  pub shm : Segments
  pub dirs : ℕ → SharedStateDir
  pub builds : ℕ → Option Plan
  pub seen : ℕ → ℕ

-- one worker's part is written
unfoldable pub assign {ℓ} : {V : Type ℓ} → ℕ → V → (ℕ → V) → ℕ → V
assign p v f q = if p == q then v else f q

abbrev pub initial : Host
initial = record {
  folder = record {
    state_file = StateFile.missing;
    temp_files = 0;
    lock_holder = none;
    lock_pid = none;
  };
  shm = [];
  dirs = new_state_dir;
  builds = λ p. none;
  seen = λ p. 0;
}

abbrev pub elect : ℕ → Host → Host
elect p h =
    let (won, d, f) = try_become_builder (h.dirs p) h.folder in
    record h { dirs = assign p d h.dirs; folder = f }

abbrev pub begin_build : ℕ → Bool → (String → Bool) → Host → Host
begin_build p is_dir stuck h = record h {
  builds = assign p (some (plan_of h.folder.state_file)) h.builds;
  shm = (sweep_stale_segments is_dir (kept h.folder.state_file) stuck h.shm).1;
}

abbrev pub end_build : ℕ → Disk → ℕ → Plan → MembershipSet → Report → Host → Host
end_build p disk now plan set report h = record h {
  builds = assign p none h.builds;
  folder = (publish disk (state_of now plan set report) h.folder).1;
}

-- A worker that gives up the builder's role, or ends and has its descriptors closed by the system.
abbrev pub leave : ℕ → Host → Host
leave p h =
    let (d, f) = release_builder (h.dirs p) h.folder in
    record h { dirs = assign p d h.dirs; folder = f; builds = assign p none h.builds }

-- The steps: an election by a worker that is not the builder, a build of the builder's that begins,
-- makes its segment, fails, or ends with a publication of the plan that it began with, a worker that
-- leaves the builder's role, and a look of a watcher.
pub data Step : Host → Host → Type 0 where
  elects : (p : ℕ) (h : Host) → (h.dirs p).lock_fd ≡ false → Step h (elect p h)
  begins :
      (p : ℕ) (is_dir : Bool) (stuck : String → Bool) (h : Host)
      → (h.dirs p).lock_fd ≡ true
      → Step h (begin_build p is_dir stuck h)
  makes :
      (p : ℕ) (plan : Plan) (words : List ℕ) (h : Host)
      → h.builds p ≡ some plan
      → Step h (record h { shm = (plan.name, words) ∷ h.shm })
  fails : (p : ℕ) (h : Host) → Step h (record h { builds = assign p none h.builds })
  ends :
      (p : ℕ) (disk : Disk) (now : ℕ) (plan : Plan) (set : MembershipSet) (report : Report)
      (h : Host)
      → h.builds p ≡ some plan
      → Step h (end_build p disk now plan set report h)
  leaves : (p : ℕ) (h : Host) → Step h (leave p h)
  watches :
      (p : ℕ) (s : Settings) (h : Host)
      → Step h (record h {
        seen = assign p (watch_once s (h.folder.state_file, h.shm) (h.seen p)).0 h.seen;
      })

pub data Steps : Host → Host → Type 0 where
  stay : (h : Host) → Steps h h
  move : (g h k : Host) → Step g h → Steps h k → Steps g k

-- The workers are in order: each knows its pid, the holder of the lock alone thinks so, only the
-- holder is at a build, which is that of the next generation, and no watcher is ahead.
pub record InOrder (h : Host) : Type 0 where
  pub pids : (p : ℕ) → (h.dirs p).pid ≡ p
  pub owner : (p : ℕ) → (h.dirs p).lock_fd ≡ true → h.folder.lock_holder ≡ some p
  pub planned :
      (p : ℕ) (plan : Plan)
      → h.builds p ≡ some plan
      → ((h.dirs p).lock_fd ≡ true) × (plan ≡ plan_of h.folder.state_file)
  pub behind : (p : ℕ) → h.seen p < next_generation h.folder.state_file
