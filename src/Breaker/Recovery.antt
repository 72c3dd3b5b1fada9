-- ===== src/Breaker/Recovery.antt =====
-- When the circuit breaker of opencti/client.py refuses, and when it lets requests through again.
use opencti_middleware.Base.{
  ℕ, ◌+◌, ◌<◌, ◌≡◌, refl, true, ◌||◌, List, [], ◌∷◌, arith, length, leb, ltb, ◌==◌, if◌then◌else◌,
}
use opencti_middleware.Breaker.{
  closed, opened, CircuitBreaker, new, allows, record_success, record_failure,
}

-- Failures at the given times, one after the other.
unfoldable pub fail_all : List ℕ → CircuitBreaker → CircuitBreaker
fail_all [] b = b
fail_all (t ∷ ts) b = fail_all ts (record_failure t b)

-- What every reachable breaker satisfies: half open is never stored, and it is closed exactly while
-- the failures in a row are fewer than the threshold.
pub record IsValid (b : CircuitBreaker) : Type 0 where
  pub positive : 0 < b.fail_threshold
  pub stored_as : b.stored ≡ (if leb b.fail_threshold b.failures then opened else closed)

-- A new breaker is valid.
pub new-IsValid : (threshold reset : ℕ) → 0 < threshold → IsValid (new threshold reset)
new-IsValid threshold reset h = record { positive = h; stored_as = ground arith }

-- A failure keeps a breaker valid: half open is never stored, and the breaker is open exactly if the
-- failures in a row have reached the threshold.
pub record_failure-IsValid :
    (now : ℕ) (b : CircuitBreaker) → IsValid b → IsValid (record_failure now b)
unfolding record_failure
record_failure-IsValid now b v = ground arith

pub record_success-IsValid : (b : CircuitBreaker) → IsValid b → IsValid (record_success b)
unfolding record_success
record_success-IsValid b v = ground arith

-- A valid breaker refuses a request exactly if the failures in a row have reached the threshold and
-- less than the reset time has passed since it opened.
pub allows_iff :
    (now : ℕ) (b : CircuitBreaker)
    → IsValid b
    → allows now b ≡ (ltb b.failures b.fail_threshold || leb (b.opened_at + b.reset_after_s) now)
unfolding allows
allows_iff now b v = ground arith

-- An open breaker stays as it was opened through any number of further failures: they move neither
-- the time of its opening nor, with that, the moment from which it lets every request through.
pub allows-fail_all :
    (b : CircuitBreaker)
    → b.stored ≡ opened
    → (ts : List ℕ) (now : ℕ) → allows now (fail_all ts b) ≡ leb (b.opened_at + b.reset_after_s) now
unfolding fail_all
allows-fail_all b o [] now = unfold allows in ground arith
allows-fail_all b o (t ∷ ts) now =
    let kept : (record_failure t b).stored ≡ opened = unfold record_failure in ground arith in
    let same : (record_failure t b).opened_at + (record_failure t b).reset_after_s
        ≡ b.opened_at + b.reset_after_s =
      unfold record_failure in ground arith in
    rw (← same) (allows-fail_all (record_failure t b) kept ts now)

-- A closed breaker opens at the failure that makes the failures in a row reach the threshold, not
-- before it, and the opening is dated to that failure.
pub opens_at_threshold :
    (b : CircuitBreaker) (now : ℕ)
    → IsValid b
    → b.stored ≡ closed
    → ((record_failure now b).stored
        ≡ (if b.failures + 1 == b.fail_threshold then opened else closed))
      × ((record_failure now b).opened_at
          ≡ (if b.failures + 1 == b.fail_threshold then now else b.opened_at))
unfolding record_failure
opens_at_threshold b now v c = ground arith

stays_closed :
    (b : CircuitBreaker) (ts : List ℕ)
    → b.stored ≡ closed
    → b.failures + length ts < b.fail_threshold
    → (fail_all ts b).stored ≡ closed
unfolding fail_all
stays_closed b [] c few = c
stays_closed b (t ∷ ts) c few =
    stays_closed (record_failure t b) ts (unfold record_failure in ground arith)
      (unfold record_failure in ground arith)

-- A success closes the breaker whatever its state was, and then every request passes while fewer
-- than `fail_threshold` failures in a row have followed.
pub success_then_failures :
    (b : CircuitBreaker) (ts : List ℕ) (now : ℕ)
    → length ts < b.fail_threshold
    → allows now (fail_all ts (record_success b)) ≡ true
success_then_failures b ts now few =
    let c =
      stays_closed (record_success b) ts (unfold record_success in refl)
        (unfold record_success in omega arith) in
    unfold allows in ground arith
