-- ===== src/Reconcile/Rounds.antt =====
-- What the rounds of the reconciler's loop count (`run` of reconcile.py), and what becomes of requests.
use opencti_middleware.Base.{
  ℕ, suc, ◌+◌, String, ◌≡◌, ◌⊎◌, refl, ◌∙◌, sym, ap, Bool, true, false, false≢true, Option, none,
  some, List, [], ◌∷◌, ◌++◌, map, arith, inl, inr, length, Option-cases,
}
use opencti_middleware.Base.{if_cases}
use opencti_middleware.Base.Result.{
  Result, Exception, raise, cancelled, breaker_open, opencti_error, file_exists, file_not_found,
  os_error, value_error, type_error, attribute_error, key_error,
}
use opencti_middleware.Settings.{Settings}
use opencti_middleware.Membership.{Segments, MembershipSet}
use opencti_middleware.Indicators.{Normalized}
use opencti_middleware.Shared.{StateFile, next_generation, read}
use opencti_middleware.Loader.{Machine, plan_of, state_of}
use opencti_middleware.Reconcile.{
  Reconciler, requests, request, call, call_all, set_running, Round, count_rebuild, count_failure,
  adopt_build, meanwhile, Progress, looping, stopped, interrupted, settle_round, end_round, wake,
  cleared, run_round, run,
}
use opencti_middleware.Reconcile.Rebuild.{
  SameWork, call_all-SameWork, after_build, Rebuilt, rebuild-Rebuilt,
}

-- One round more: it has counted a rebuild, and the next generation is one higher, or it has counted
-- a failure, and the next generation is the same.
abbrev pub Counted : Reconciler → Machine → Reconciler → Machine → Type 0
Counted r m r' m' =
    ((r'.stats.rebuilds ≡ r.stats.rebuilds + 1)
      × (r'.stats.failures ≡ r.stats.failures)
      × (next_generation m'.folder.state_file ≡ next_generation m.folder.state_file + 1))
    ⊎ (r'.stats.rebuilds ≡ r.stats.rebuilds)
      × (r'.stats.failures ≡ r.stats.failures + 1)
      × (next_generation m'.folder.state_file ≡ next_generation m.folder.state_file)

-- a round after which the loop goes on has counted
abbrev CountsWell : Reconciler → Machine → Option Progress × Reconciler × Machine → Type 0
CountsWell r m (some looping, r', m') = Counted r m r' m'
CountsWell r m (some stopped, r', m') = Unit
CountsWell r m (some interrupted, r', m') = Unit
CountsWell r m (none, r', m') = Unit

adopt_build-counts :
    (o : Round) (reason : String) (file : StateFile) (set : MembershipSet) (shm : Segments)
    (r : Reconciler)
    → ((adopt_build o reason file set shm r).0.stats.rebuilds ≡ r.stats.rebuilds + 1)
      × ((adopt_build o reason file set shm r).0.stats.failures ≡ r.stats.failures)
unfolding adopt_build count_rebuild
adopt_build-counts o reason file set shm r = (refl, refl)

SameWork-trans : (r s t : Reconciler) → SameWork r s → SameWork s t → SameWork r t
SameWork-trans r s t (b, y, n, f) (b', y', n', f') = (b' ∙ b, y' ∙ y, n' ∙ n, f' ∙ f)

wake-SameWork : (timed_out : Bool) (r : Reconciler) → SameWork r (wake timed_out r).1
unfolding wake
wake-SameWork timed_out r =
    let same : SameWork r (cleared r) = (refl, refl, refl, refl) in
    if_cases (λ (p : Option String × Reconciler). SameWork r p.1) timed_out (λ _. same)
      λ _.
        if_cases (λ (p : Option String × Reconciler). SameWork r p.1) r.stop (λ _. same) (λ _. same)

-- what counts from one reconciler counts from another with the same counts
CountsWell-SameWork :
    (r s : Reconciler)
    → SameWork r s
    → (m : Machine) (out : Option Progress × Reconciler × Machine) → CountsWell s m out
    → CountsWell r m out
CountsWell-SameWork r s (b, y, n, f) m (some looping, r', m') (inl (n', f', g)) =
    inl (n' ∙ ap (λ k. k + 1) n, f' ∙ f, g)
CountsWell-SameWork r s (b, y, n, f) m (some looping, r', m') (inr (n', f', g)) =
    inr (n' ∙ n, f' ∙ ap (λ k. k + 1) f, g)
CountsWell-SameWork r s w m (some stopped, r', m') h = tt
CountsWell-SameWork r s w m (some interrupted, r', m') h = tt
CountsWell-SameWork r s w m (none, r', m') h = tt

-- After so many rounds the rebuilds and the failures counted have grown by their number, and the next
-- generation by the rebuilds counted.
abbrev pub Accounted : Reconciler → Machine → ℕ → Reconciler → Machine → Type 0
Accounted r m rounds r' m' =
    (r'.stats.rebuilds + r'.stats.failures ≡ r.stats.rebuilds + r.stats.failures + rounds)
    × (next_generation m'.folder.state_file + r.stats.rebuilds
        ≡ next_generation m.folder.state_file + r'.stats.rebuilds)

Accounted-Counted :
    (r s t : Reconciler) (m n o : Machine) (rounds : ℕ)
    → Counted r m s n
    → Accounted s n rounds t o
    → Accounted r m (suc rounds) t o
Accounted-Counted r s t m n o rounds (inl (a, b, c)) (d, e) = (omega arith, omega arith)
Accounted-Counted r s t m n o rounds (inr (a, b, c)) (d, e) = (omega arith, omega arith)

module _ (blake2b : String → List ℕ) (unique : List ℕ → List ℕ) (padding : ℕ → List ℕ)
    (normalize : String → Normalized) where
  after_build-counts :
      (o : Round) (r : Reconciler)
      → let after = after_build blake2b unique padding normalize o r in
        (after.stats.rebuilds ≡ r.stats.rebuilds) × (after.stats.failures ≡ r.stats.failures)
  unfolding meanwhile
  after_build-counts o r =
      let (_, _, n, f) = call_all-SameWork o.building (set_running true r) in (n, f)

  -- an exception that is no cancellation is counted
  end_round-raise :
      (x : Exception) (r r' : Reconciler) (m m' : Machine)
      → Counted r m (count_failure r') m'
      → CountsWell r m (end_round (some (raise x), r', m'))
  unfolding end_round settle_round
  end_round-raise cancelled r r' m m' h = tt
  end_round-raise (breaker_open _) r r' m m' h = h
  end_round-raise (opencti_error _) r r' m m' h = h
  end_round-raise file_exists r r' m m' h = h
  end_round-raise file_not_found r r' m m' h = h
  end_round-raise os_error r r' m m' h = h
  end_round-raise value_error r r' m m' h = h
  end_round-raise type_error r r' m m' h = h
  end_round-raise attribute_error r r' m m' h = h
  end_round-raise key_error r r' m m' h = h

  end_round-CountsWell :
      (s : Settings) (o : Round) (reason : String) (r : Reconciler) (m : Machine)
      (out : Option (Result Bool) × Reconciler × Machine)
      → Rebuilt blake2b unique padding normalize s o reason r m out
      → CountsWell r m (end_round out)
  unfolding end_round settle_round next_generation read plan_of state_of
  end_round-CountsWell s o reason r m _ (Rebuilt.exhausted r' m') = tt
  end_round-CountsWell s o reason r m _ (Rebuilt.failed x m' same) =
      let (n, f) = after_build-counts o r in
      end_round-raise x r _ m m' (inr (n, ap (λ k. k + 1) f, ap next_generation same))
  end_round-CountsWell s o reason r m _
        (Rebuilt.succeeded set report shm r' m' built written adopted) =
      let after = after_build blake2b unique padding normalize o r in
      let (n, f) = after_build-counts o r in
      let (n', f') = adopt_build-counts o reason m.folder.state_file set shm after in
      inl (
        ap (λ p. p.0.stats.rebuilds) adopted ∙ n' ∙ ap (λ k. k + 1) n,
        ap (λ p. p.0.stats.failures) adopted ∙ f' ∙ f,
        ap (λ k. next_generation k.state_file) written,
      )

  run_round-CountsWell :
      (s : Settings) (o : Round) (r : Reconciler) (m : Machine)
      → CountsWell r m (run_round blake2b unique padding normalize s o r m)
  unfolding run_round
  run_round-CountsWell s o r m =
      let waited = call_all o.waiting r in
      let woken = (wake o.timed_out waited).1 in
      let same =
        SameWork-trans r waited woken (call_all-SameWork o.waiting r)
          (wake-SameWork o.timed_out waited) in
      if_cases (CountsWell r m) r.stop (λ _. tt)
        λ _. elim (Option-cases (wake o.timed_out waited).0) [
          | inl e ↦ rw (e, run_round) tt
          | inr (text, e) ↦
              rw (e, run_round)
                (CountsWell-SameWork r woken same m _ (
                  end_round-CountsWell s o text _ m _
                    (rebuild-Rebuilt blake2b unique padding normalize s o text _ m)))
        ]

  -- While the reconciler's loop goes on, each round either counts a rebuild or counts a failure: their
  -- sum grows by the number of rounds. And the generation that the next build would take has grown
  -- by the rebuilds counted: a failed round has published nothing, and a successful one has
  -- published one generation.
  pub run-Accounted :
      (s : Settings) (os : List Round) (r r' : Reconciler) (m m' : Machine)
      → run blake2b unique padding normalize s os r m ≡ (some looping, r', m')
      → Accounted r m (length os) r' m'
  unfolding run
  run-Accounted s [] r r' m m' h = (omega (arith, built, not_built), omega (arith, built, files))
    where
      built : r.stats.rebuilds ≡ r'.stats.rebuilds
      built = ap (λ p. p.1.stats.rebuilds) h

      not_built : r.stats.failures ≡ r'.stats.failures
      not_built = ap (λ p. p.1.stats.failures) h

      files : next_generation m.folder.state_file ≡ next_generation m'.folder.state_file
      files = ap (λ p. next_generation p.2.folder.state_file) h
  run-Accounted s (o ∷ os) r r' m m' h =
      go (run_round blake2b unique padding normalize s o r m) (run_round-CountsWell s o r m) h
        (λ t n k. run-Accounted s os t r' n m' k)
    where
      -- the rounds after the first
      go :
          (first : Option Progress × Reconciler × Machine)
          → CountsWell r m first
          → (elim first.0 as (λ _. Option Progress × Reconciler × Machine) [
            | some looping ↦ run blake2b unique padding normalize s os first.1 first.2
            | some stopped ↦ (some stopped, first.1, first.2)
            | some interrupted ↦ (some interrupted, first.1, first.2)
            | none ↦ (none, first.1, first.2)
          ])
            ≡ (some looping, r', m')
          → ((t : Reconciler) (n : Machine)
              → run blake2b unique padding normalize s os t n ≡ (some looping, r', m')
              → Accounted t n (length os) r' m')
          → Accounted r m (suc (length os)) r' m'
      go (some looping, t, n) c k rest = Accounted-Counted r t r' m n m' (length os) c (rest t n k)
      go (some stopped, t, n) c k rest = absurd cc
      go (some interrupted, t, n) c k rest = absurd cc
      go (none, t, n) c k rest = absurd cc

-- Requests before a wait, none of them while a rebuild runs: the loop is woken, and the rebuild that
-- follows has the reason of the last of them.
pub requests_coalesce :
    (reasons : List String) (last : String) (r : Reconciler)
    → r.stats.running ≡ false
    → let after = call_all (map requests (reasons ++ last ∷ [])) r in
      (after.trigger ≡ true) × (after.stats.pending_reason ≡ some last)
unfolding call_all call request
requests_coalesce [] last r idle = rw (idle, request) (refl, refl)
requests_coalesce (reason ∷ reasons) last r idle =
    rw (idle, request) (requests_coalesce reasons last _ refl)

-- While a rebuild runs, requests change nothing.
pub requests_ignored :
    (reasons : List String) (r : Reconciler)
    → r.stats.running ≡ true
    → call_all (map requests reasons) r ≡ r
unfolding call_all call request
requests_ignored [] r busy = refl
requests_ignored (reason ∷ reasons) r busy =
    let same : request reason r ≡ r =
      if_cases (λ t. t ≡ r) r.stats.running (λ _. refl)
        (λ idle. absurd (false≢true (sym idle ∙ busy))) in
    ap (call_all (map requests reasons)) same ∙ requests_ignored reasons r busy
