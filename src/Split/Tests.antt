-- ===== src/Split/Tests.antt =====
-- The split backend with a small corpus.
use opencti_middleware.Base.{◌≡◌, ◌↔◌, refl, true, false, none, [], ◌∷◌}
use opencti_middleware.Base.Result.{ok}
use opencti_middleware.Membership.{
  init, in_view, empty, fingerprint, contains, adopt_overlay, close,
}
use opencti_middleware.Membership.Overlay.{added}
use opencti_middleware.Membership.Tests.{
  digest, unique, unique-IsUnique, padding, corpus, built, shm, build-corpus,
}
use opencti_middleware.Mapper.Payload.{miss}
use opencti_middleware.Cache.{set_degraded}
use opencti_middleware.Indicators.{Normalized, domain}
use opencti_middleware.Live.{fallback_host}
use opencti_middleware.Live.Tests.{world, backend, evil}
use opencti_middleware.Split.{
  SplitBackend, new_split, mark_ready, mark_stale, stream_health, swap_membership, host_known,
  split_lookup,
}
use opencti_middleware.Split.Dismissal.{by_membership, Dismissible, by_membership_iff}
use opencti_middleware.Split.Swap.{updated, corpus_not_dismissed}

program : Unit {0}
unfolding in_view fingerprint contains empty init new_split mark_ready mark_stale stream_health
    swap_membership host_known fallback_host split_lookup set_degraded adopt_overlay close
program = tt

abbrev waiting : SplitBackend
waiting = new_split empty backend

abbrev ready : SplitBackend
ready = mark_ready true waiting

-- nothing is in the empty set
dismissed :
    (split_lookup digest (world 7) evil ready).0
    ≡ ok (record { payload = miss; source = "membership" })
unfolding program
dismissed = refl

-- silence of the stream makes the set stale
silent : (stream_health true 121 120 ready).stale ≡ true
unfolding program
silent = refl

by_membership_iff_example :
    (by_membership (split_lookup digest (world 7) evil ready).0 ≡ true)
    ↔ Dismissible digest (world 7) evil ready
by_membership_iff_example = by_membership_iff digest (world 7) evil ready

abbrev known : Normalized
known = record { original = "ccc"; value = "ccc"; kind = domain; skip_reason = none }

corpus_not_dismissed_example :
    by_membership
      (split_lookup digest
        (world 7)
        known
        (updated digest (added "dddddd" ∷ []) (swap_membership built true waiting shm).0)).0
    ≡ false
unfolding program
corpus_not_dismissed_example =
    corpus_not_dismissed digest unique padding unique-IsUnique corpus "octi_membership_1" 2 [] built
      shm waiting (added "dddddd" ∷ []) (world 7) known build-corpus refl refl refl
