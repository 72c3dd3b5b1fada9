-- ===== src/Loader/Tests.antt =====
-- A builder and a reader on one machine, with an OpenCTI of two pages.
use opencti_middleware.Base.{
  ◌*◌, ℕ, ◌<◌, String, ◌≡◌, ◌≢◌, refl, true, false, Option, none, some, List, [], ◌∷◌,
}
use opencti_middleware.Base.{pos}
use opencti_middleware.Base.Text.{show_nat}
use opencti_middleware.Base.Result.{Result, ok, raise, file_exists}
use opencti_middleware.Settings.{Settings, defaults}
use opencti_middleware.Breaker.{state, allows, record_success, record_failure}
use opencti_middleware.Client.{
  detail, fail, error_message, graphql_errors, read_body, read_response, settle, attempt_loop,
  execute,
}
use opencti_middleware.Membership.{
  Segments, MembershipSet, init, find_segment, fingerprint, contains, in_view, bisect_left, pack,
  store, reached, concatenate, packed_array, allocate, build, attach, estimate_bytes,
}
use opencti_middleware.Membership.Tests.{digest, unique, insert_sorted, unique-IsUnique, padding}
use opencti_middleware.Bootstrap.{
  Report, ask, count, edge_texts, edge_values, reached_limit, stored, load_value, load_values,
  load_edges, next_cursor, load_block, load_page, load_pages, pack_values, load_and_pack,
  build_membership,
}
use opencti_middleware.Bootstrap.Tests.{upstream, client, normalize}
use opencti_middleware.Shared.{
  SharedMembershipState, StateFile, missing, holds, SharedStateDir, sound_disk, try_become_builder,
  release_builder, publish, read, next_generation, segment_name, is_stale, sweep_stale_segments,
  wait_loop, wait_for,
}
use opencti_middleware.Shared.Tests.{folder}
use opencti_middleware.Loader.{
  LoadedMembership, Machine, Surroundings, Plan, plan_of, kept, state_of, max_entries_of,
  publish_built, settle_build, attach_to, unattached, settle_wait, builder_loaded, affordable,
  load_as_reader, guard_build, build_and_publish, load_solo, load_shared, load,
}
use opencti_middleware.Loader.Published.{published_set_attaches}
use opencti_middleware.Loader.Locks.{LockAfter, load-LockAfter}
use opencti_middleware.Loader.Watch.{watch_once, watch_for_new_generation, Follows, watch-Follows}
use opencti_middleware.Loader.Workers.{Host, assign, initial, elect, begin_build, Step, Steps}
use opencti_middleware.Loader.Workers.Runs.{workers_agree}

abbrev pub settings : Settings
settings = defaults "https://opencti.example" "token" "key"

abbrev pub machine : Machine
machine = record { client = client; folder = folder; shm = [] }

abbrev pub surroundings : Surroundings
surroundings = record {
  upstream = upstream;
  page_fuel = 3;
  disk = sound_disk;
  now = 1000;
  is_dir = true;
  stuck = λ n. false;
  looks = record { clock = λ n. 250 * n; files = λ n. missing };
  look_fuel = 1202;
  wait_from = 0;
  shm_then = [];
}

-- all three values of the pages have one digest
abbrev pub published : SharedMembershipState
published = record {
  shm_name = "octi_membership_1";
  count = 1;
  generation = 1;
  built_at = 1000;
  corpus = pos 0;
}

unfoldable pub program : Unit {0}
unfolding state allows record_success record_failure detail fail error_message graphql_errors
    read_body read_response settle attempt_loop execute ask count edge_texts edge_values
    reached_limit stored load_value load_values load_edges next_cursor load_block load_page
    load_pages pack_values load_and_pack build_membership try_become_builder release_builder publish
    read next_generation segment_name show_nat is_stale sweep_stale_segments wait_loop wait_for
    plan_of kept state_of max_entries_of publish_built settle_build attach_to unattached settle_wait
    affordable load_as_reader guard_build build_and_publish load_solo load_shared load init
    find_segment fingerprint contains in_view bisect_left pack store reached concatenate
    packed_array allocate build attach estimate_bytes unique insert_sorted
program = tt

builder_publishes :
    (load digest unique padding normalize surroundings settings 7 8000 "psm_1"
      machine).1.folder.state_file
    ≡ holds published
unfolding program
builder_publishes = refl

abbrev pub builder : SharedStateDir
builder = record { pid = 7; lock_fd = true }

abbrev pub set : MembershipSet
set = init (some ("octi_membership_1", 9 ∷ 0 ∷ 0 ∷ [])) 1 true 50000

abbrev pub report : Report
report = record {
  indicators = pos 0;
  observables = pos 0;
  values_loaded = 3;
  unique_packed = 1;
  truncated = false;
}

abbrev loaded : LoadedMembership
loaded = builder_loaded builder (record { generation = 1; name = "octi_membership_1" }) set report

abbrev after_load : Option (Result LoadedMembership) × Machine
after_load =
    build_and_publish digest unique padding normalize surroundings settings builder none machine

published_set_attaches_example :
    (st : SharedMembershipState) × (s : MembershipSet) × (after_load.1.folder.state_file ≡ holds st)
    × (loaded.membership ≡ some s)
    × (st.generation ≡ next_generation missing)
    × (s.count ≢ 0
        → (r : MembershipSet) × (attach_to st settings after_load.1.shm ≡ some r)
          × ((v : String) → contains digest r v ≡ contains digest s v))
published_set_attaches_example =
    published_set_attaches digest unique padding normalize unique-IsUnique surroundings settings
      builder none machine after_load.1 loaded (unfold program in refl)

-- The builder of generation 1 died before it published.
abbrev after_crash : Machine
after_crash = record machine { shm = ("octi_membership_1", 9 ∷ []) ∷ [] }

-- a corpus that is not empty cannot be built any more
crash_blocks :
    (build_and_publish digest unique padding normalize surroundings settings builder none
      after_crash).0
    ≡ some (raise file_exists)
unfolding program
crash_blocks = refl

load-LockAfter_example : LockAfter none 7 (ok loaded) (some 7)
unfolding program
load-LockAfter_example =
    load-LockAfter digest unique padding normalize surroundings settings 7 80 "psm_1" machine
      (load digest unique padding normalize surroundings settings 7 80 "psm_1" machine).1
      (ok loaded) refl

abbrev looks : List (StateFile × Segments)
looks =
    (missing, [])
    ∷ (holds published, ("octi_membership_1", 9 ∷ 0 ∷ 0 ∷ []) ∷ [])
    ∷ (holds published, ("octi_membership_1", 9 ∷ 0 ∷ 0 ∷ []) ∷ [])
    ∷ []

adopted_once :
    watch_for_new_generation settings looks 0
    ≡ (1, init (some ("octi_membership_1", 9 ∷ 0 ∷ 0 ∷ [])) 1 false 50000) ∷ []
unfolding program watch_for_new_generation watch_once
adopted_once = refl

watch-Follows_example : Follows settings looks 0 (watch_for_new_generation settings looks 0)
watch-Follows_example = watch-Follows settings looks 0

abbrev elected : Host
elected = elect 7 initial

abbrev second_host : Host
second_host = begin_build 7 true (λ n. false) elected

steps : Steps initial second_host
unfolding program assign
steps = Steps.move _ elected _ (Step.elects 7 initial refl) (
    Steps.move _ second_host _ (Step.begins 7 true (λ n. false) elected refl)
      (Steps.stay second_host))

workers_agree_example :
    ((p q : ℕ) → (second_host.dirs p).lock_fd ≡ true → (second_host.dirs q).lock_fd ≡ true → p ≡ q)
    × ((p : ℕ) (plan : Plan)
        → second_host.builds p ≡ some plan
        → (second_host.dirs p).lock_fd ≡ true)
    × ((p : ℕ) → second_host.seen p < next_generation second_host.folder.state_file)
workers_agree_example = workers_agree second_host steps
