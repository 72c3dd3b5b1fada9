-- ===== src/Shared/Sweep.antt =====
-- What `sweep_stale_segments` of backends/shared_state.py leaves.
use opencti_middleware.Base.{
  String, ◌≡◌, refl, ◌∙◌, Bool, true, false, not, none, List, [], ◌∷◌, arith, filter, if◌then◌else◌,
  eq_iff,
}
use opencti_middleware.Membership.{Segments, find_segment}
use opencti_middleware.Shared.{is_stale, sweep_stale_segments}

find_segment-filter :
    (p : String → Bool) (name : String) (shm : Segments)
    → find_segment name (filter (λ s. not (p s.0)) shm)
      ≡ (if p name then none else find_segment name shm)
unfolding find_segment
find_segment-filter p name [] = ground arith
find_segment-filter p name ((n, words) ∷ shm) =
    ground (arith, find_segment-filter p name shm, eq_iff n name)

-- Where the mount exists, a name is found after the sweep exactly if it was found before and is no
-- stale one, that is, unless it has the prefix, is not kept, and can be removed; and then it is the
-- same segment.
pub find_segment-sweep_stale_segments :
    (keep : List String) (stuck : String → Bool) (name : String) (shm : Segments)
    → find_segment name (sweep_stale_segments true keep stuck shm).1
      ≡ (if is_stale keep stuck name then none else find_segment name shm)
unfolding sweep_stale_segments
find_segment-sweep_stale_segments keep stuck name shm =
    find_segment-filter (is_stale keep stuck) name shm

-- A kept segment is found after the sweep as before it.
pub find_segment-sweep_kept :
    (is_dir : Bool) (keep : List String) (stuck : String → Bool) (name : String) (shm : Segments)
    → is_stale keep stuck name ≡ false
    → find_segment name (sweep_stale_segments is_dir keep stuck shm).1 ≡ find_segment name shm
unfolding sweep_stale_segments
find_segment-sweep_kept true keep stuck name shm h =
    find_segment-filter (is_stale keep stuck) name shm ∙ rw h refl
find_segment-sweep_kept false keep stuck name shm h = refl
