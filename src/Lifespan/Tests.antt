-- ===== src/Lifespan/Tests.antt =====
-- A builder that starts, rebuilds and stops, and a process whose first loads fail.
mod Feed
use opencti_middleware.Base.{
  String, ◌≡◌, refl, Bool, true, Option, none, some, List, [], ◌∷◌, map, set_add, discard, union,
  difference,
}
use opencti_middleware.Base.Result.{Result, ok, raise}
use opencti_middleware.Membership.{Segments, init, close, adopt_overlay, unlink_segment, empty}
use opencti_middleware.Membership.Tests.{digest, unique, padding}
use opencti_middleware.Client.{timeout}
use opencti_middleware.Bootstrap.Tests.{client, normalize, upstream}
use opencti_middleware.Live.{LiveBackend}
use opencti_middleware.Live.Tests.{backend}
use opencti_middleware.Split.{new_split, swap_membership}
use opencti_middleware.Shared.{Folder}
use opencti_middleware.Shared.Tests.{folder}
use opencti_middleware.Loader.{Machine, Surroundings}
use opencti_middleware.Loader.Tests.{surroundings, program}
use opencti_middleware.Reconcile.{Reconciler, rebuild}
use opencti_middleware.Reconcile.Tests.{round, rounds, reconciler}
use opencti_middleware.Lifespan.{
  BackgroundTask, reconcile, consume_stream, watch_health, Service, Process, reconciler_of,
  followers, wire, activate_with, rebuilt_by, close_current, release_loaded, shutdown,
  initial_service, bootstrapping, settle_first, begun, startup,
}
use opencti_middleware.Lifespan.Retries.{
  Turn, Retry, first_retry, settle_turn, retry_turn, retry_loop,
}
use opencti_middleware.Lifespan.Pauses.{Paced, retry_loop-Paced}
use opencti_middleware.Lifespan.Wiring.{IsAttended, startup-IsAttended}
use opencti_middleware.Lifespan.Stop.{startup-shutdown_lock}

abbrev pub live : LiveBackend
live = record backend { client = client }

abbrev process : Process
process = record { pid = 7; budget_bytes = 80; solo_name = "psm_1"; now = 5 }

unfoldable pub starts : Unit {0}
unfolding program swap_membership close adopt_overlay unlink_segment union difference set_add
    discard new_split empty reconciler_of followers wire activate_with rebuilt_by close_current
    release_loaded shutdown settle_first begun startup settle_turn retry_turn retry_loop
starts = tt

abbrev boot : Option (Result Service × Machine)
boot = startup digest unique padding normalize surroundings process live folder []

-- the role and the tasks of a service
abbrev running : Option (Result Service × Machine) → Option (String × List BackgroundTask)
running (some (ok v, m)) = some (v.membership_role, v.tasks)
running (some (raise _, m)) = none
running none = none

builder_runs : running boot ≡ some ("builder", reconcile ∷ consume_stream ∷ watch_health ∷ [])
unfolding starts
builder_runs = refl

abbrev service : Service
service = elim boot as (λ _. Service) [
  | some (ok v, m) ↦ v
  | some (raise _, m) ↦ initial_service live
  | none ↦ initial_service live
]

abbrev host : Machine
host = elim boot as (λ _. Machine) [
  | some (_, m) ↦ m
  | none ↦ record { client = client; folder = folder; shm = [] }
]

startup-IsAttended_example : IsAttended live.settings service
unfolding starts
startup-IsAttended_example =
    startup-IsAttended digest unique padding normalize surroundings process live folder [] service
      host refl

startup-shutdown_lock_example :
    (shutdown service host.folder host.shm).1.lock_holder ≡ folder.lock_holder
unfolding starts
startup-shutdown_lock_example =
    startup-shutdown_lock digest unique padding normalize surroundings process live folder []
      service host refl

-- the segment of the builder goes with it
stop_unlinks :
    (map (λ s. s.0) host.shm ≡ "octi_membership_1" ∷ [])
    × ((shutdown service host.folder host.shm).2 ≡ [])
unfolding starts
stop_unlinks = (refl, refl)

abbrev reconciler_in : Option Reconciler → Reconciler
reconciler_in (some r) = r
reconciler_in none = reconciler

-- the service after one rebuild of the reconciler
abbrev second : Option (Result Bool) × Reconciler × Machine
second =
    rebuild digest unique padding normalize live.settings round "scheduled"
      (reconciler_in service.reconciler) host

-- After a rebuild the set that is closed at the stop is the one of the start, so the segment of the
-- current set stays.
stop_leaves_segment :
    map (λ s. s.0) (shutdown (rebuilt_by second.1 service) second.2.folder second.2.shm).2
    ≡ "octi_membership_2" ∷ "octi_membership_1" ∷ []
unfolding starts rounds
stop_leaves_segment = refl

-- OpenCTI is down at the first two loads
abbrev down : Surroundings
down = record surroundings { upstream = record upstream { opencti = λ d v k. timeout "read" "" } }

abbrev waiting : Service
waiting = bootstrapping (new_split (init none 0 true 500000) live)

abbrev turn : Surroundings → Turn
turn e = record { meanwhile = λ s. s; others = λ p. p; process = process; surroundings = e }

abbrev turns : List Turn
turns = turn down ∷ turn surroundings ∷ []

abbrev retried : Option (Service × Retry × Folder × Segments)
retried =
    retry_loop digest unique padding normalize turns waiting (first_retry live.settings) folder []

abbrev after_retry : Retry
after_retry = record { attempt = 3; delay = 10; waits = 10 ∷ 5 ∷ []; finished = true }

abbrev ended : Service × Retry × Folder × Segments
ended = elim retried as (λ _. Service × Retry × Folder × Segments) [
  | some r ↦ r
  | none ↦ (waiting, first_retry live.settings, folder, [])
]

-- the second load succeeds, after pauses of 5 and 10 seconds
recovers : (ended.1 ≡ after_retry) × (ended.0.membership_role ≡ "builder")
unfolding starts
recovers = (refl, refl)

retry_loop-Paced_example : Paced live.settings ended.1
unfolding starts
retry_loop-Paced_example =
    retry_loop-Paced digest unique padding normalize live.settings turns waiting ended.0
      (first_retry live.settings) ended.1 folder ended.2 [] ended.3 refl refl
      (record { turns = 0; attempts = refl; waited = refl; next = λ h. refl }) refl
