-- ===== src/Breaker/Tests.antt =====
-- The circuit breaker at the thresholds of config.py: five failures, thirty seconds.
use opencti_middleware.Base.{◌≡◌, refl, true, [], ◌∷◌, arith}
use opencti_middleware.Breaker.{
  opened, half_open, CircuitBreaker, new, state, allows, record_success, record_failure,
}
use opencti_middleware.Breaker.Recovery.{IsValid, fail_all, allows-fail_all, opens_at_threshold}

abbrev fresh : CircuitBreaker
fresh = new 5 30

program : Unit {0}
unfolding state allows record_success record_failure fail_all
program = tt

abbrev four : CircuitBreaker
four = record fresh { failures = 4 }

abbrev five : CircuitBreaker
five = record fresh { failures = 5; stored = opened; opened_at = 9 }

opens : fail_all (1 ∷ 2 ∷ 3 ∷ 8 ∷ 9 ∷ []) fresh ≡ five
unfolding program
opens = refl

half_open_later : state 39 five ≡ half_open
unfolding program
half_open_later = refl

four-IsValid : IsValid four
four-IsValid = record { positive = omega arith; stored_as = refl }

opens_at_threshold_example :
    ((record_failure 9 four).stored ≡ opened) × ((record_failure 9 four).opened_at ≡ 9)
opens_at_threshold_example = opens_at_threshold four 9 four-IsValid refl

-- a failed probe at 40 does not make the breaker refuse at 41
allows-fail_all_example : allows 41 (fail_all (40 ∷ []) five) ≡ true
allows-fail_all_example = allows-fail_all five refl (40 ∷ []) 41
