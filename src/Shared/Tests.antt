-- ===== src/Shared/Tests.antt =====
-- The coordination of the workers on small inputs.
use opencti_middleware.Base.{
  ◌*◌, ℕ, ◌+◌, ◌≡◌, ◌⊎◌, refl, true, false, Option, none, some, [], ◌∷◌, arith, ltb, if◌then◌else◌,
}
use opencti_middleware.Base.{pos}
use opencti_middleware.Base.Result.{Exception, ok, raise, os_error}
use opencti_middleware.Base.Text.{show_nat}
use opencti_middleware.Shared.{
  SharedMembershipState, missing, holds, Folder, new_state_dir, try_become_builder, release_builder,
  sound_disk, publish, read, clear, next_generation, segment_name, is_stale, sweep_stale_segments,
  Looks, wait_loop, wait_for,
}
use opencti_middleware.Shared.Publish.{Restored, publish_cases}
use opencti_middleware.Shared.Wait.{Waited, wait_for-Waited}

abbrev pub state : ℕ → SharedMembershipState
state generation = record {
  shm_name = "octi_membership_1";
  count = 4;
  generation = generation;
  built_at = 1000;
  corpus = pos 5;
}

abbrev pub folder : Folder
folder = record { state_file = missing; temp_files = 0; lock_holder = none; lock_pid = none }

program : Unit {0}
unfolding try_become_builder release_builder publish read clear next_generation segment_name
    show_nat is_stale sweep_stale_segments wait_loop wait_for
program = tt

-- a second worker is turned away until the first one gives the role up
elections :
    let (won, d, f) = try_become_builder (new_state_dir 7) folder in
    let (won', d', f') = try_become_builder (new_state_dir 8) f in
    let (d'', f'') = release_builder d f' in
    (won ≡ true) × (won' ≡ false) × (f''.lock_holder ≡ none)
unfolding program
elections = (refl, refl, refl)

-- a disk that fills up while the state is written leaves nothing behind
disk_full :
    publish (record sound_disk { dump = some os_error }) (state 1) folder ≡ (raise os_error, folder)
unfolding program
disk_full = refl

name_of_generation : segment_name (next_generation (holds (state 41))) ≡ "octi_membership_42"
unfolding program
name_of_generation = refl

swept :
    sweep_stale_segments true
      ("octi_membership_2" ∷ [])
      (λ n. false)
      (("octi_membership_1", 1 ∷ []) ∷ ("octi_membership_2", 2 ∷ []) ∷ ("psm_7", 3 ∷ []) ∷ [])
    ≡ ("octi_membership_1" ∷ [], ("octi_membership_2", 2 ∷ []) ∷ ("psm_7", 3 ∷ []) ∷ [])
unfolding program
swept = refl

-- the builder publishes between the second look and the third
abbrev looks : Looks
looks = record {
  clock = λ n. 10 + 250 * n;
  files = λ n. if ltb n 2 then missing else holds (state 1);
}

waited : wait_for looks 10 300 0 1201 ≡ some (some (state 1))
unfolding program
waited = refl

wait_for-Waited_example :
    (r : Option SharedMembershipState) × (wait_for looks 10 300 0 1201 ≡ some r)
    × Waited looks 300010 0 0 r
wait_for-Waited_example =
    wait_for-Waited looks 10 300 0 1201 (λ n. omega arith) (omega arith) (omega arith)

publish_cases_example :
    ((publish sound_disk (state 1) folder).0 ≡ ok true)
      × ((publish sound_disk (state 1) folder).1 ≡ record folder { state_file = holds (state 1) })
    ⊎ (e : Exception) × ((publish sound_disk (state 1) folder).0 ≡ raise e)
      × Restored folder (publish sound_disk (state 1) folder).1 sound_disk
publish_cases_example = publish_cases sound_disk (state 1) folder
