-- ===== src/Lifespan/Callbacks.antt =====
-- What `_activate` of main.py gives to the stream consumer, and its check of the stream's health. The
-- consumer writes to the split backend that serves.
use opencti_middleware.Base.{ℕ, String, Option, none, some, List, if◌then◌else◌, ℤ}
use opencti_middleware.Base.Json.{Json}
use opencti_middleware.Base.Python.{Python}
use opencti_middleware.Settings.{Settings}
use opencti_middleware.Membership.{add, remove, overlay_full}
use opencti_middleware.Indicators.{Normalized, lookupable}
use opencti_middleware.Split.{SplitBackend, stream_health}
use opencti_middleware.Stream.{Hooks, Consumer, new_stats, activity_lag}
use opencti_middleware.Reconcile.{Reconciler, request}

-- `_overlay_full`: only the builder, which has the reconciler, can rebuild.
unfoldable pub on_overlay_full : Option Reconciler → Option Reconciler
on_overlay_full none = none
on_overlay_full (some r) = some (request "overlay_full" r)

-- the consumer as it is made
abbrev pub new_consumer : ℕ → SplitBackend → Consumer SplitBackend
new_consumer now split = record {
  cursor = none;
  stats = new_stats now;
  sink = split;
  rebuild_requests = 0;
}

-- one round of `_watch_stream_health`
unfoldable pub watch_stream_health : ℕ → Settings → Consumer SplitBackend → Consumer SplitBackend
watch_stream_health now s c = record c {
  sink = stream_health c.stats.connected (activity_lag now c.stats) s.stream_stale_after_s c.sink;
}

module _ (blake2b : String → List ℕ) (normalize : String → Normalized) where
  unfoldable pub add_to_split : String → SplitBackend → SplitBackend
  add_to_split v s = record s { membership = add blake2b v s.membership }

  unfoldable pub remove_from_split : String → SplitBackend → SplitBackend
  remove_from_split v s = record s { membership = remove blake2b v s.membership }

  -- `_norm`
  unfoldable pub norm : String → Option String
  norm value = let parsed = normalize value in if lookupable parsed then some parsed.value else none

  abbrev pub hooks_of : Python → (String → Option Json) → (Json → Option ℤ) → Hooks SplitBackend
  hooks_of py loads float_of = record {
    py = py;
    loads = loads;
    float_of = float_of;
    normalize = norm;
    on_add = add_to_split;
    on_remove = remove_from_split;
    overlay_full = λ s. overlay_full s.membership;
  }
