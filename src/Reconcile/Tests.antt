-- ===== src/Reconcile/Tests.antt =====
-- A builder that rebuilds its set while the live stream goes on.
use opencti_middleware.Base.{
  String, ◌≡◌, ◌≢◌, refl, Bool, true, false, Option, none, some, List, [], ◌∷◌, map, elem, set_add,
  discard, union, difference,
}
use opencti_middleware.Base.Result.{Result, ok, os_error}
use opencti_middleware.Base.Text.{str_eq-false}
use opencti_middleware.Membership.{
  MembershipSet, init, contains, fingerprint, find_segment, close, adopt_overlay, add, remove,
}
use opencti_middleware.Membership.Packing.{limit_to}
use opencti_middleware.Membership.Overlay.{added, apply, apply_all, said}
use opencti_middleware.Membership.Tests.{digest, unique, unique-IsUnique, padding}
use opencti_middleware.Split.{new_split, swap_membership}
use opencti_middleware.Bootstrap.Packed.{Loads}
use opencti_middleware.Bootstrap.Tests.{normalize}
use opencti_middleware.Live.Tests.{backend}
use opencti_middleware.Shared.{SharedMembershipState, holds, next_generation, sound_disk}
use opencti_middleware.Shared.Tests.{folder}
use opencti_middleware.Loader.{Machine, max_entries_of, attach_to}
use opencti_middleware.Loader.Tests.{settings, machine, surroundings, set, published, program}
use opencti_middleware.Reconcile.{
  Reconciler, new_reconciler, requests, request, call, call_all, Round, kept_after, count_rebuild,
  adopt_build, finish_rebuild, end_round, settle_round, looping, wake, meanwhile, rebuild,
  run_round, run,
}
use opencti_middleware.Reconcile.Answers.{rebuild_answers, rebuild_attaches}
use opencti_middleware.Reconcile.Leftovers.{rebuild_segments}
use opencti_middleware.Reconcile.Rounds.{Accounted, run-Accounted}

abbrev pub reconciler : Reconciler
reconciler = new_reconciler 0 (new_split set backend) 80 1

-- generation 1 is published, and an old segment is left over
abbrev host : Machine
host = record machine {
  folder = record folder { state_file = holds published; lock_holder = some 7 };
  shm = ("octi_membership_1", 9 ∷ 0 ∷ 0 ∷ []) ∷ ("octi_membership_0", 5 ∷ []) ∷ [];
}

-- an addition arrives during the rebuild
abbrev pub round : Round
round = record {
  surroundings = surroundings;
  waiting = requests "overlay_full" ∷ [];
  timed_out = false;
  building = requests "overlay_full" ∷ [];
  updates = added "bb" ∷ [];
  started = 100;
  finished = 103;
}

-- the disk fails at the second rebuild
abbrev bad_round : Round
bad_round = record round {
  surroundings = record surroundings { disk = record sound_disk { replace = some os_error } };
}

abbrev after : Option (Result Bool) × Reconciler × Machine
after = rebuild digest unique padding normalize settings round "overlay_full" reconciler host

unfoldable pub rounds : Unit {0}
unfolding program call_all call request kept_after count_rebuild adopt_build finish_rebuild
    end_round settle_round wake meanwhile rebuild run_round run swap_membership close adopt_overlay
    apply_all apply add remove new_split union difference set_add discard
rounds = tt

rebuilt :
    (after.0 ≡ some (ok true))
    × (after.1.stats.rebuilds ≡ 1)
    × (after.1.stats.running ≡ false)
    × (after.1.backend.membership.added ≡ 2 ∷ [])
    × (map (λ s. s.0) after.2.shm ≡ "octi_membership_2" ∷ "octi_membership_1" ∷ [])
unfolding rounds
rebuilt = (refl, refl, refl, refl, refl)

-- A failed publication is counted, and the generation stays.
two_rounds :
    let (progress, r, m) =
      run digest unique padding normalize settings (round ∷ bad_round ∷ []) reconciler host in
    (progress ≡ some looping)
    × (r.stats.rebuilds ≡ 1)
    × (r.stats.failures ≡ 1)
    × (next_generation m.folder.state_file ≡ 3)
unfolding rounds
two_rounds = (refl, refl, refl, refl)

-- the segment of the failed publication stays, and the next build finds its name taken
stuck_for_good :
    let (progress, r, m) =
      run digest unique padding normalize settings
        (round ∷ bad_round ∷ round ∷ round ∷ [])
        reconciler
        host in
    (r.stats.rebuilds ≡ 1) × (r.stats.failures ≡ 3)
unfolding rounds
stuck_for_good = (refl, refl)

rebuild_answers_example :
    (after.1.backend.ready ≡ true)
    × (values : List String) × Loads digest unique padding normalize surroundings.upstream 3
        settings
        (some 10)
        values
    × ((v : String)
        → contains digest after.1.backend.membership v
          ≡ elim (said digest (apply_all digest (added "bb" ∷ []) set) v) as (λ _. Bool) [
            | some answer ↦ answer
            | none ↦
                elem (fingerprint digest v) (map (fingerprint digest) (limit_to (some 10) values))
          ])
unfolding max_entries_of init new_split
rebuild_answers_example =
    rebuild_answers digest unique padding normalize unique-IsUnique settings round "overlay_full"
      reconciler after.1 host after.2 true (unfold rounds in refl)

rebuild_attaches_example :
    (st : SharedMembershipState) × (after.2.folder.state_file ≡ holds st)
    × (st.generation ≡ next_generation (holds published))
    × (values : List String) × Loads digest unique padding normalize surroundings.upstream 3
        settings
        (some 10)
        values
    × (st.count ≢ 0
        → (t : MembershipSet) × (attach_to st settings after.2.shm ≡ some t)
          × ((v : String)
              → contains digest t v
                ≡ elem
                    (fingerprint digest v)
                    (map (fingerprint digest) (limit_to (some 10) values))))
unfolding max_entries_of init new_split
rebuild_attaches_example =
    rebuild_attaches digest unique padding normalize unique-IsUnique settings round "overlay_full"
      reconciler after.1 host after.2 true (unfold rounds in refl)

rebuild_segments_example : find_segment "octi_membership_0" after.2.shm ≡ none
unfolding rounds
rebuild_segments_example =
    rebuild_segments digest unique padding normalize settings round "overlay_full" reconciler
      after.1 host after.2 true "octi_membership_0" refl (str_eq-false _ _ refl)

run-Accounted_example :
    let (progress, r, m) =
      run digest unique padding normalize settings (round ∷ bad_round ∷ []) reconciler host in
    Accounted reconciler host 2 r m
unfolding new_split
run-Accounted_example =
    run-Accounted digest unique padding normalize settings (round ∷ bad_round ∷ []) reconciler
      (run digest unique padding normalize settings (round ∷ bad_round ∷ []) reconciler host).1 host
      (run digest unique padding normalize settings (round ∷ bad_round ∷ []) reconciler host).2
      (unfold rounds in refl)
