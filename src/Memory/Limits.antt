-- ===== src/Memory/Limits.antt =====
-- The sum of what the membership set and the payload caches may take.
use opencti_middleware.Base.{
  ℕ, zero, suc, ◌+◌, ◌-◌, ◌*◌, ◌/◌, ◌≤◌, max, ◌≡◌, Option, none, some, arith, inl, inr, ltb, leb,
  Bool-cases,
}
use native.Mathlib.Nat.{div-mul-le_self, div-le_self, mul-le-mul_right}
use opencti_middleware.Settings.{Settings, automatic}
use opencti_middleware.Memory.{Fraction, mb, usable_of, detect, resolve_budgets, override_of}

usable_of-le :
    (f : Fraction) (reserve detected : ℕ) (override : Option ℕ)
    → usable_of f reserve override detected ≤ detected - reserve
usable_of-le f reserve detected none = omega arith
usable_of-le f reserve detected (some n) = omega arith

detect-le :
    (cgroup : Option ℕ) (host workers : ℕ) (f : Fraction) (reserve : ℕ) (override : Option ℕ)
    → (detect cgroup host workers f reserve override).usable ≤ host - reserve
unfolding detect
detect-le none host workers f reserve override = usable_of-le f reserve host override
detect-le (some limit) host workers f reserve override = elim (Bool-cases (ltb limit host)) [
  | inl e ↦ rw (e, detect) (ground (arith, usable_of-le f reserve limit override))
  | inr e ↦ rw (e, detect) (usable_of-le f reserve host override)
]

quarter-le : (usable w : ℕ) → usable / max 1 w / 4 * w ≤ usable
quarter-le usable zero = omega arith
quarter-le usable (suc w) =
    let whole = div-mul-le_self usable (suc w) in
    let part = mul-le-mul_right (suc w) (div-le_self (usable / suc w) 4) in
    let same : max 1 (suc w) ≡ suc w = ground arith in rw same (omega arith)

per_worker_share :
    (cgroup : Option ℕ) (host workers : ℕ) (f : Fraction) (reserve : ℕ) (override : Option ℕ)
    → (detect cgroup host workers f reserve override).per_worker / 4 * workers
      ≤ (detect cgroup host workers f reserve override).usable
unfolding detect
per_worker_share cgroup host workers f reserve override = quarter-le _ workers

larger-le : (a b w limit : ℕ) → a * w ≤ limit → b * w ≤ limit → max a b * w ≤ limit
larger-le a b w limit h k = elim (Bool-cases (leb a b)) [
  | inl e ↦ let same : max a b ≡ b = ground arith in rw same k
  | inr e ↦ let same : max a b ≡ a = ground arith in rw same h
]

-- With automatic payload caches, and room for their floor of 8 MB for each worker, the membership
-- set and the caches of all workers together take exactly the usable memory, which leaves the reserve
-- of the host alone.
pub resolve_budgets_sum :
    (cgroup : Option ℕ) (host : ℕ) (f : Fraction) (s : Settings)
    → s.payload_cache_max_mb ≡ automatic
    → 8 * mb * s.workers ≤ (resolve_budgets cgroup host f s).budget.usable
    → ((resolve_budgets cgroup host f s).membership_bytes
          + (resolve_budgets cgroup host f s).payload_bytes * s.workers
        ≡ (resolve_budgets cgroup host f s).budget.usable)
      × ((resolve_budgets cgroup host f s).budget.usable ≤ host - s.memory_reserve_mb * mb)
unfolding resolve_budgets
resolve_budgets_sum cgroup host f s a floor =
    let b =
      detect cgroup host s.workers f (s.memory_reserve_mb * mb)
        (override_of s.mirror_max_memory_mb) in
    let share =
      per_worker_share cgroup host s.workers f (s.memory_reserve_mb * mb)
        (override_of s.mirror_max_memory_mb) in
    let fits = larger-le (8 * mb) (b.per_worker / 4) s.workers b.usable floor share in
    let limited =
      detect-le cgroup host s.workers f (s.memory_reserve_mb * mb)
        (override_of s.mirror_max_memory_mb) in
    (rw a (omega arith), limited)
