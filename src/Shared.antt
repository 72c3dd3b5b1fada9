-- ===== src/Shared.antt =====
-- The coordination of the worker processes (backends/shared_state.py): the lock on the builder's
-- role, the state file that names the published segment, and the segments' names. What other
-- processes do in between is an argument.
pub mod Names
pub mod Sweep
pub mod Publish
pub mod Wait
pub mod Tests
use Prim.Native.String
use opencti_middleware.Base.{
  ◌*◌, ℕ, zero, suc, ◌+◌, ◌-◌, String, Bool, true, false, not, ◌&&◌, Option, none, some, List, [],
  ◌++◌, map, filter, ltb, leb, if◌then◌else◌, ℤ, sub_ℕ,
}
use opencti_middleware.Base.Result.{Result, Exception, ok, raise}
use opencti_middleware.Base.Text.{has_prefix, text_elem, show_nat}
use opencti_middleware.Membership.{Segments}

-- Times are whole seconds.
pub record SharedMembershipState : Type 0 where
  pub shm_name : String
  pub count : ℕ
  pub generation : ℕ
  pub built_at : ℕ
  pub corpus : ℤ

abbrev pub age_s : ℕ → SharedMembershipState → ℤ
age_s now s = sub_ℕ now s.built_at

-- The state file, as far as `read` tells its contents apart: `unexpected` is a JSON text without
-- exactly the five fields. Only `publish` writes the file, so the fields have their types.
pub data StateFile : Type 0 where
  missing unreadable not_json unexpected : StateFile
  holds : SharedMembershipState → StateFile

-- The directory of the two files. The process that holds the lock on the lock file is known by its
-- pid, and so is the one that has written its pid there.
pub record Folder : Type 0 where
  pub state_file : StateFile
  pub temp_files : ℕ
  pub lock_holder : Option ℕ
  pub lock_pid : Option ℕ

-- A `SharedStateDir` of a process: `_lock_fd` is known by whether there is one.
pub record SharedStateDir : Type 0 where
  pub pid : ℕ
  pub lock_fd : Bool

abbrev pub new_state_dir : ℕ → SharedStateDir
new_state_dir pid = record { pid = pid; lock_fd = false }

-- `flock` fails while any descriptor holds the lock, one of the same process too.
unfoldable pub try_become_builder : SharedStateDir → Folder → Bool × SharedStateDir × Folder
try_become_builder d f = elim f.lock_holder [
  | some _ ↦ (false, d, f)
  | none ↦ (
    true,
    record d { lock_fd = true },
    record f { lock_holder = some d.pid; lock_pid = some d.pid },
  )
]

unfoldable pub release_builder : SharedStateDir → Folder → SharedStateDir × Folder
release_builder d f =
    if d.lock_fd then (record d { lock_fd = false }, record f { lock_holder = none }) else (d, f)

abbrev pub is_builder : SharedStateDir → Bool
is_builder d = d.lock_fd

-- The exceptions of the file system at a `publish`: on the temporary file's creation, on its writing
-- and on the replacement. `stuck` says that the temporary file cannot be removed.
pub record Disk : Type 0 where
  pub mkstemp : Option Exception
  pub dump : Option Exception
  pub replace : Option Exception
  pub stuck : Bool

abbrev pub sound_disk : Disk
sound_disk = record { mkstemp = none; dump = none; replace = none; stuck = false }

-- the `except` of `publish`
abbrev pub abandon : Disk → Exception → Folder → Result Bool × Folder
abandon d e f = (raise e, if d.stuck then f else record f { temp_files = f.temp_files - 1 })

-- `publish`; what it returns is `ok true`
unfoldable pub publish : Disk → SharedMembershipState → Folder → Result Bool × Folder
publish d s f = elim d.mkstemp [
  | some e ↦ (raise e, f)
  | none ↦
      let made = record f { temp_files = f.temp_files + 1 } in
      elim d.dump [
        | some e ↦ abandon d e made
        | none ↦ elim d.replace [
          | some e ↦ abandon d e made
          | none ↦ (ok true, record made { state_file = holds s; temp_files = made.temp_files - 1 })
        ]
      ]
]

unfoldable pub read : StateFile → Option SharedMembershipState
read missing = none
read unreadable = none
read not_json = none
read unexpected = none
read (holds s) = some s

-- the file is left where it cannot be removed
unfoldable pub clear : Bool → Folder → Folder
clear stuck f = if stuck then f else record f { state_file = missing }

unfoldable pub next_generation : StateFile → ℕ
next_generation file = elim (read file) [ none ↦ 1 | some current ↦ current.generation + 1 ]

abbrev pub segment_prefix : String
segment_prefix = "octi_membership_"

unfoldable pub segment_name : ℕ → String
segment_name generation = String.◌++◌ segment_prefix (show_nat generation)

-- an entry that `sweep_stale_segments` removes, where the system lets it be removed
unfoldable pub is_stale : List String → (String → Bool) → String → Bool
is_stale keep stuck name =
    has_prefix segment_prefix name && not (text_elem name keep) && not (stuck name)

-- `sweep_stale_segments`, with the names that it returns
unfoldable pub sweep_stale_segments :
    Bool → List String → (String → Bool) → Segments → List String × Segments
sweep_stale_segments is_dir keep stuck shm =
    if is_dir
    then (
      filter (is_stale keep stuck) (map (λ s. s.0) shm),
      filter (λ s. not (is_stale keep stuck s.0)) shm,
    )
    else ([], shm)

-- The state is recent enough for the one who waits.
abbrev pub is_recent : ℕ → StateFile → Option SharedMembershipState
is_recent min_generation file = elim (read file) [
  | none ↦ none
  | some s ↦ if leb min_generation s.generation then some s else none
]

-- What the waiting process sees at its n-th look: the monotonic clock, in milliseconds, and the state
-- file.
pub record Looks : Type 0 where
  pub clock : ℕ → ℕ
  pub files : ℕ → StateFile

-- The loop of `wait_for` from the n-th look on; `none` when the fuel is used up
unfoldable pub wait_loop : Looks → ℕ → ℕ → ℕ → ℕ → Option (Option SharedMembershipState)
wait_loop l deadline min_generation zero n = none
wait_loop l deadline min_generation (suc fuel) n =
    let rest = wait_loop l deadline min_generation fuel (n + 1) in
    if ltb (l.clock n) deadline
    then (elim (is_recent min_generation (l.files n)) [ none ↦ rest | some s ↦ some (some s) ])
    else some (read (l.files n))

-- `poll_s`, in milliseconds: the sleep between two looks
abbrev pub poll_ms : ℕ
poll_ms = 250

-- `wait_for`, whose timeout is in seconds
unfoldable pub wait_for : Looks → ℕ → ℕ → ℕ → ℕ → Option (Option SharedMembershipState)
wait_for l start timeout_s min_generation fuel =
    wait_loop l (start + 1000 * timeout_s) min_generation fuel 0
