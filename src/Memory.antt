-- ===== src/Memory.antt =====
-- The memory budget (memory.py) and its split between the membership set and the payload caches of
-- the workers (`_resolve_budgets` of main.py). The fraction is a quotient of whole numbers, multiplied
-- exactly.
mod Limits
mod Tests
use opencti_middleware.Base.{
  ℕ, ◌-◌, ◌*◌, ◌/◌, ◌^◌, min, max, String, Bool, false, ◌&&◌, Option, none, some, ltb, str_eq,
  if◌then◌else◌, ℤ,
}
use opencti_middleware.Base.{pos}
use opencti_middleware.Base.Text.{strip}
use opencti_middleware.Settings.{Settings, Budget, automatic, megabytes}

abbrev pub mb : ℕ
mb = 1048576

abbrev pub v1_unlimited : ℕ
v1_unlimited = 2 ^ 62

-- a limit that a cgroup file holds: not "max", a positive whole number, and not the sentinel of v1
unfoldable pub limit_in : (String → Option ℤ) → Option String → Option ℕ
limit_in int_of none = none
limit_in int_of (some content) =
    let raw = strip content in
    if str_eq raw "max" then none else elim (int_of raw) [
      | some (pos n) ↦ if ltb 0 n && ltb n v1_unlimited then some n else none
      | _ ↦ none
    ]

-- `_read_cgroup_limit`, from the contents of the two files, `none` for one that cannot be read
unfoldable pub read_cgroup_limit : (String → Option ℤ) → Option String → Option String → Option ℕ
read_cgroup_limit int_of v2 v1 = elim (limit_in int_of v2) [
  | some limit ↦ some limit
  | none ↦ limit_in int_of v1
]

pub record MemoryBudget : Type 0 where
  pub detected_limit : ℕ
  pub source : String
  pub usable : ℕ
  pub per_worker : ℕ
  pub workers : ℕ

-- the fraction of the memory that is used
pub record Fraction : Type 0 where
  pub numerator : ℕ
  pub denominator : ℕ

abbrev pub usable_of : Fraction → ℕ → Option ℕ → ℕ → ℕ
usable_of f reserve_bytes (some override) detected = min override (detected - reserve_bytes)
usable_of f reserve_bytes none detected =
    min ((detected - reserve_bytes) * f.numerator / f.denominator) (detected - reserve_bytes)

-- `detect`, on a host with so many bytes
unfoldable pub detect : Option ℕ → ℕ → ℕ → Fraction → ℕ → Option ℕ → MemoryBudget
detect cgroup host workers f reserve_bytes override =
    let constrained : Bool = elim cgroup [ none ↦ false | some limit ↦ ltb limit host ] in
    let detected : ℕ = elim cgroup [
      | none ↦ host
      | some limit ↦ if ltb limit host then limit else host
    ] in
    record {
      detected_limit = detected;
      source = if constrained then "cgroup" else "host";
      usable = usable_of f reserve_bytes override detected;
      per_worker = usable_of f reserve_bytes override detected / max 1 workers;
      workers = workers;
    }

abbrev pub override_of : Budget → Option ℕ
override_of automatic = none
override_of (megabytes n) = some (n * mb)

-- What `_resolve_budgets` returns, but for the text of the log.
pub record Shares : Type 0 where
  pub budget : MemoryBudget
  pub membership_bytes : ℕ
  pub payload_bytes : ℕ

abbrev pub payload_share : Budget → MemoryBudget → ℕ
payload_share (megabytes n) b = n * mb
payload_share automatic b = max (8 * mb) (b.per_worker / 4)

unfoldable pub resolve_budgets : Option ℕ → ℕ → Fraction → Settings → Shares
unfolding detect
resolve_budgets cgroup host f s =
    let budget =
      detect cgroup host s.workers f (s.memory_reserve_mb * mb)
        (override_of s.mirror_max_memory_mb) in
    let payload_bytes = payload_share s.payload_cache_max_mb budget in
    record {
      budget = budget;
      membership_bytes = budget.usable - payload_bytes * s.workers;
      payload_bytes = payload_bytes;
    }
