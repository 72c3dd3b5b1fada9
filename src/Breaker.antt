-- ===== src/Breaker.antt =====
-- CircuitBreaker of opencti/client.py. Times are readings of the monotonic clock; `_lock` has no
-- counterpart, since a step here is atomic.
pub mod Recovery
mod Tests
use opencti_middleware.Base.{ℕ, ◌+◌, Bool, true, false, not, ◌&&◌, leb, if◌then◌else◌}

pub data BreakerState : Type 0 where
  closed opened half_open : BreakerState

abbrev pub is_opened : BreakerState → Bool
is_opened opened = true
is_opened closed = false
is_opened half_open = false

-- `_state` is `stored`.
pub record CircuitBreaker : Type 0 where
  pub fail_threshold : ℕ
  pub reset_after_s : ℕ
  pub stored : BreakerState
  pub failures : ℕ
  pub opened_at : ℕ

abbrev pub new : ℕ → ℕ → CircuitBreaker
new fail_threshold reset_after_s = record {
  fail_threshold = fail_threshold;
  reset_after_s = reset_after_s;
  stored = closed;
  failures = 0;
  opened_at = 0;
}

-- `state`: time since the opening at least `reset_after_s` reads as half open.
unfoldable pub state : ℕ → CircuitBreaker → BreakerState
state now b =
    if is_opened b.stored && leb (b.opened_at + b.reset_after_s) now then half_open else b.stored

unfoldable pub allows : ℕ → CircuitBreaker → Bool
unfolding state
allows now b = not (is_opened (state now b))

unfoldable pub record_success : CircuitBreaker → CircuitBreaker
record_success b = record b { stored = closed; failures = 0 }

unfoldable pub record_failure : ℕ → CircuitBreaker → CircuitBreaker
record_failure now b =
    if leb b.fail_threshold (b.failures + 1) && not (is_opened b.stored)
    then record b { failures = b.failures + 1; stored = opened; opened_at = now }
    else record b { failures = b.failures + 1 }
