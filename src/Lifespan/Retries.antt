-- ===== src/Lifespan/Retries.antt =====
-- `_retry_bootstrap` of main.py: how a load of the membership set that failed is tried again.
use opencti_middleware.Base.{
  ℕ, ◌+◌, ◌*◌, min, String, Bool, true, false, Option, none, some, List, [], ◌∷◌,
}
use opencti_middleware.Base.Result.{Result, ok, raise, cancelled}
use opencti_middleware.Settings.{Settings}
use opencti_middleware.Membership.{Segments}
use opencti_middleware.Indicators.{Normalized}
use opencti_middleware.Split.{SplitBackend}
use opencti_middleware.Shared.{Folder}
use opencti_middleware.Loader.{LoadedMembership, Machine, Surroundings, load}
use opencti_middleware.Api.{live_only, with_split}
use opencti_middleware.Lifespan.{Service, Process, activate, with_client, first_delay}

-- One turn of `_retry_bootstrap`: what the requests do to the backend, and other processes to the
-- folder and the segments, while it waits; the process, and what the load meets.
pub record Turn : Type 0 where
  pub meanwhile : SplitBackend → SplitBackend
  pub others : Folder × Segments → Folder × Segments
  pub process : Process
  pub surroundings : Surroundings

-- `_retry_bootstrap`: the loads so far, the pause before the next one, and the pauses made
pub record Retry : Type 0 where
  pub attempt : ℕ
  pub delay : ℕ
  pub waits : List ℕ
  pub finished : Bool

-- the start of `_retry_bootstrap`
abbrev pub first_retry : Settings → Retry
first_retry s = record { attempt = 1; delay = first_delay s; waits = []; finished = false }

module _ (blake2b : String → List ℕ) (unique : List ℕ → List ℕ) (padding : ℕ → List ℕ)
    (normalize : String → Normalized) where
  -- what a load of `_retry_bootstrap` leads to; a cancellation ends the task
  unfoldable pub settle_turn :
      Process
      → SplitBackend
      → Service
      → Retry
      → Result LoadedMembership × Machine
      → Service × Retry × Machine
  settle_turn p target v r (raise cancelled, m) =
      (record v { backend = with_split target }, record r { finished = true }, m)
  settle_turn p target v r (raise _, m) = (
    record v { backend = with_split target },
    record r { delay = min (r.delay * 2) v.settings.membership_bootstrap_retry_max_s },
    m,
  )
  settle_turn p target v r (ok l, m) =
      let (v', shm) = activate p.now p.budget_bytes target l v m.shm in
      (v', record r { finished = true }, record m { shm = shm })

  -- One round of the loop of `_retry_bootstrap`, where the backend that it is given serves.
  unfoldable pub retry_turn :
      Turn → SplitBackend → Service → Retry → Folder → Segments → Option (Service × Retry × Machine)
  retry_turn t target v r f shm =
      let p = t.process in
      let waiting = t.meanwhile target in
      let (f', shm') = t.others (f, shm) in
      let (out, m) =
        load blake2b unique padding normalize t.surroundings v.settings p.pid p.budget_bytes
          p.solo_name (record { client = waiting.live.client; folder = f'; shm = shm' }) in
      let r' = record r { attempt = r.attempt + 1; waits = r.delay ∷ r.waits } in
      elim out [
        | none ↦ none
        | some x ↦ some (settle_turn p (with_client m.client waiting) v r' (x, m))
      ]

  -- `_retry_bootstrap`, for the turns given
  unfoldable pub retry_loop :
      List Turn → Service → Retry → Folder → Segments → Option (Service × Retry × Folder × Segments)
  retry_loop [] v r f shm = some (v, r, f, shm)
  retry_loop (t ∷ ts) v r f shm = elim v.backend [
    | live_only _ ↦ some (v, r, f, shm)
    | with_split target ↦ elim (retry_turn t target v r f shm) [
      | none ↦ none
      | some (v', r', m) ↦ elim r'.finished [
        | true ↦ some (v', r', m.folder, m.shm)
        | false ↦ retry_loop ts v' r' m.folder m.shm
      ]
    ]
  ]
