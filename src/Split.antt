-- ===== src/Split.antt =====
-- The split backend (backends/split.py): the membership set answers the misses, and the live backend
-- everything else. The segments of shared memory that a swap closes are an explicit state.
pub mod Dismissal
pub mod Swap
mod Tests
use opencti_middleware.Base.{
  ℕ, String, Bool, false, not, ◌&&◌, ◌||◌, none, some, List, ltb, if◌then◌else◌,
}
use opencti_middleware.Base.Result.{Result, ok}
use opencti_middleware.Membership.{Segments, MembershipSet, contains, adopt_overlay, close}
use opencti_middleware.Cache.{set_degraded}
use opencti_middleware.Mapper.Payload.{miss}
use opencti_middleware.Indicators.{Normalized, lookupable}
use opencti_middleware.Live.{
  World, LookupResult, LiveBackend, fallback_host, live_lookup, live_ready,
}

pub record SplitBackend : Type 0 where
  pub membership : MembershipSet
  pub live : LiveBackend
  pub ready : Bool
  pub stale : Bool

unfoldable pub new_split : MembershipSet → LiveBackend → SplitBackend
new_split membership live = record {
  membership = membership;
  live = live;
  ready = false;
  stale = false;
}

unfoldable pub mark_ready : Bool → SplitBackend → SplitBackend
mark_ready ready s = record s { ready = ready }

unfoldable pub mark_stale : Bool → SplitBackend → SplitBackend
mark_stale stale s = record s {
  stale = stale;
  live = record s.live { payloads = set_degraded stale s.live.payloads };
}

-- `stream_health`, with the seconds since the last traffic
unfoldable pub stream_health : Bool → ℕ → ℕ → SplitBackend → SplitBackend
unfolding mark_stale
stream_health connected activity_lag_s stale_after_s s =
    mark_stale (not connected || ltb stale_after_s activity_lag_s) s

-- `swap_membership`, with a set that is not the one in place
unfoldable pub swap_membership :
    MembershipSet → Bool → SplitBackend → Segments → SplitBackend × Segments
swap_membership membership ready s shm =
    let adopted = adopt_overlay membership s.membership in
    let (previous, shm') = close (some false) s.membership shm in
    (record s { membership = adopted; ready = ready }, shm')

module _ (blake2b : String → List ℕ) where
  -- the hostname of a URL is a member, where lookups fall back to it
  unfoldable pub host_known : World → Normalized → SplitBackend → Bool
  host_known w n s = elim (fallback_host w s.live.settings n) [
    | none ↦ false
    | some host ↦ contains blake2b s.membership host
  ]

  unfoldable pub defer_live : World → Normalized → SplitBackend → Result LookupResult × SplitBackend
  defer_live w n s = let (r, live) = live_lookup w n s.live in (r, record s { live = live })

  -- `lookup`
  unfoldable pub split_lookup :
      World → Normalized → SplitBackend → Result LookupResult × SplitBackend
  split_lookup w n s =
      if not (lookupable n)
      then (ok (record { payload = miss; source = "skip" }), s)
      else if not s.ready || s.stale
      then defer_live w n s
      else if contains blake2b s.membership n.value
      then defer_live w n s
      else if host_known w n s
      then defer_live w n s
      else (ok (record { payload = miss; source = "membership" }), s)

unfoldable pub split_ready : ℕ → SplitBackend → Bool
split_ready now s = s.ready && live_ready now s.live
