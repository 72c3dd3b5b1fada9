-- ===== src/SingleFlight/Tests.antt =====
-- Three tasks that ask for one value.
use opencti_middleware.Base.{ℕ, String, ◌≡◌, ◌⊎◌, refl, none, some, find}
use opencti_middleware.Base.Result.{Result, ok, raise, cancelled}
use opencti_middleware.SingleFlight.{
  leading, waiting, finished, Flight, start, begin, complete, resume, cancel_waiting, begins, Reach,
  here, next,
}
use opencti_middleware.SingleFlight.Sharing.{one_call, no_orphan, outcome_shared}

program : Unit {0}
unfolding begin complete resume cancel_waiting
program = tt

abbrev crowd : Flight ℕ
crowd = begin 1 "k" (begin 0 "k" start)

crowd-Reach : Reach crowd
unfolding program
crowd-Reach = next (next here (begins 0 "k" refl)) (begins 1 "k" refl)

leads : crowd.tasks 0 ≡ leading "k" 0
unfolding program
leads = refl

waits : crowd.tasks 1 ≡ waiting 0
unfolding program
waits = refl

-- after the flight has landed the next caller leads again
asks_again : (begin 2 "k" (complete 0 (ok 7) crowd)).tasks 2 ≡ leading "k" 1
unfolding program
asks_again = refl

one_call_example : ◌≡◌ {A = ℕ} 0 0
one_call_example = one_call crowd-Reach 0 0 "k" 0 0 leads leads

no_orphan_example :
    ((outcome : Result ℕ) × (crowd.futures 0 ≡ some outcome))
    ⊎ ((key : String) × (j : ℕ) × (crowd.tasks j ≡ leading key 0))
no_orphan_example = no_orphan crowd-Reach 1 0 waits

outcome_shared_example :
    (find "k" (complete 0 (raise cancelled) crowd).inflight ≡ none)
    × ((complete 0 (raise cancelled) crowd).tasks 0 ≡ finished (raise cancelled))
    × ((resume 1 (complete 0 (raise cancelled) crowd)).tasks 1 ≡ finished (raise cancelled))
outcome_shared_example = outcome_shared crowd-Reach 0 1 "k" 0 (raise cancelled) leads waits
