-- ===== src/SingleFlight/Sharing.antt =====
-- What the callers of cache/singleflight.py share: one upstream call for each key at a time, and its
-- outcome.
use opencti_middleware.Base.{
  ℕ, String, ◌≡◌, ◌⊎◌, none, some, arith, inl, inr, Option-cases, eq_refl, find, find-without,
}
use opencti_middleware.Base.Result.{Result}
use opencti_middleware.SingleFlight.{leading, waiting, finished, Flight, complete, resume, Reach}
use opencti_middleware.SingleFlight.Invariant.{Reach-Inv}

module _ {A : Type 0} {s : Flight A} (r : Reach s) where
  -- In every order of the steps two tasks never run the upstream call of one key at the same time.
  pub one_call :
      (i j : ℕ) (key : String) (f g : ℕ)
      → s.tasks i ≡ leading key f
      → s.tasks j ≡ leading key g
      → i ≡ j
  one_call = (Reach-Inv r).one

  -- A task never waits in vain: its future is done, or a task that has not returned yet leads it.
  pub no_orphan :
      (i f : ℕ)
      → s.tasks i ≡ waiting f
      → ((outcome : Result A) × (s.futures f ≡ some outcome))
        ⊎ ((key : String) × (j : ℕ) × (s.tasks j ≡ leading key f))
  no_orphan i f w = elim (Option-cases (s.futures f)) [
    | inr (outcome, e) ↦ inl (outcome, e)
    | inl e ↦
        let (key, found) = (Reach-Inv r).awaited i f w e in
        let (j, l) = (Reach-Inv r).led key f found in inr (key, j, l)
  ]

  -- When the leader of a key ends, with an answer or an exception, the key is out of flight, so that
  -- the next caller asks upstream again, and every task that waits for the leader's future goes on
  -- to return the same outcome.
  pub outcome_shared :
      (i j : ℕ) (key : String) (f : ℕ) (outcome : Result A)
      → s.tasks i ≡ leading key f
      → s.tasks j ≡ waiting f
      → (find key (complete i outcome s).inflight ≡ none)
        × ((complete i outcome s).tasks i ≡ finished outcome)
        × ((resume j (complete i outcome s)).tasks j ≡ finished outcome)
  unfolding complete resume
  outcome_shared i j key f outcome l w =
      let found = (Reach-Inv r).leads i key f l in
      let pending = (Reach-Inv r).pending key f found in
      ground (arith, find-without key key s.inflight, eq_refl key)
