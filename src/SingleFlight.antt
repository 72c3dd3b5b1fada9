-- ===== src/SingleFlight.antt =====
-- SingleFlight of cache/singleflight.py. The tasks of one event loop run between two awaits without
-- interruption; each function below is one such run of `do`, and `Step` lets them come in any order.
pub mod Invariant
pub mod Sharing
mod Tests
use opencti_middleware.Base.{
  ℕ, ◌+◌, String, ◌≡◌, Option, none, some, List, [], ◌∷◌, ◌==◌, if◌then◌else◌, find, without,
}
use opencti_middleware.Base.Result.{Result, raise, cancelled}

module _ {ℓ} {V : Type ℓ} where
  abbrev pub update : (ℕ → V) → ℕ → V → ℕ → V
  update f i v j = if i == j then v else f j

-- A task before its call of `do`, after `await fn()` has begun, at `await asyncio.shield(existing)`,
-- and after its call. A future is known by a number.
pub data Task (A : Type 0) : Type 0 where
  idle : Task A
  leading : String → ℕ → Task A
  waiting : ℕ → Task A
  finished : Result A → Task A

-- A future that is not done holds nothing. `fresh` is the next future.
pub record Flight (A : Type 0) : Type 0 where
  pub inflight : List (String × ℕ)
  pub futures : ℕ → Option (Result A)
  pub fresh : ℕ
  pub tasks : ℕ → Task A

module _ {A : Type 0} where
  abbrev pub start : Flight A
  start = record { inflight = []; futures = λ f. none; fresh = 0; tasks = λ i. idle }

  -- `do`, up to its first await
  unfoldable pub begin : ℕ → String → Flight A → Flight A
  begin i key s = elim (find key s.inflight) [
    | some existing ↦ record s { tasks = update s.tasks i (waiting existing) }
    | none ↦ record s {
      inflight = (key, s.fresh) ∷ s.inflight;
      fresh = s.fresh + 1;
      tasks = update s.tasks i (leading key s.fresh);
    }
  ]

  -- the `except`, `else` and `finally` of the task that leads, once `fn` returns or raises
  unfoldable pub complete : ℕ → Result A → Flight A → Flight A
  complete i outcome s = elim (s.tasks i) [
    | leading key future ↦ record s {
      futures = elim (s.futures future) [
        | none ↦ update s.futures future (some outcome)
        | some _ ↦ s.futures
      ];
      inflight = without key s.inflight;
      tasks = update s.tasks i (finished outcome);
    }
    | _ ↦ s
  ]

  -- a waiting task goes on once its future is done
  unfoldable pub resume : ℕ → Flight A → Flight A
  resume i s = elim (s.tasks i) [
    | waiting future ↦ elim (s.futures future) [
      | none ↦ s
      | some outcome ↦ record s { tasks = update s.tasks i (finished outcome) }
    ]
    | _ ↦ s
  ]

  -- a waiting task is cancelled; the shield keeps its future as it is
  unfoldable pub cancel_waiting : ℕ → Flight A → Flight A
  cancel_waiting i s = elim (s.tasks i) [
    | waiting future ↦ record s { tasks = update s.tasks i (finished (raise cancelled)) }
    | _ ↦ s
  ]

  pub data Step (s : Flight A) : Flight A → Type 0 where
    begins : (i : ℕ) (key : String) → s.tasks i ≡ idle → Step s (begin i key s)
    completes : (i : ℕ) (outcome : Result A) → Step s (complete i outcome s)
    resumes : (i : ℕ) → Step s (resume i s)
    cancels : (i : ℕ) → Step s (cancel_waiting i s)

  pub data Reach : Flight A → Type 0 where
    here : Reach start
    next : {s t : Flight A} → Reach s → Step s t → Reach t
