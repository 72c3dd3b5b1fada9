-- ===== src/Stream/Backoff.antt =====
-- How long the consumer waits between its connections (`run`).
use opencti_middleware.Base.{
  ℕ, zero, suc, ◌*◌, ◌≤◌, min, String, ◌≡◌, refl, ◌∙◌, ap, false, List, [], ◌∷◌, arith, inl, inr,
  length, All, leb, ◌==◌, Bool-cases,
}
use opencti_middleware.Base.Result.{Exception, raise}
use opencti_middleware.Stream.{Hooks, Consumer}
use opencti_middleware.Stream.Run.{Connection, Running, consume_once, run_once, run}

-- `b`, doubled `n` times
abbrev pub doubled : ℕ → ℕ → ℕ
doubled zero b = b
doubled (suc n) b = doubled n (b * 2)

doubled-ge : (n b : ℕ) → b ≤ doubled n b
doubled-ge zero b = omega arith
doubled-ge (suc n) b = omega (arith, doubled-ge n (b * 2))

doubled-min : (n b : ℕ) → min (doubled n (min b 60)) 60 ≡ min (doubled n b) 60
doubled-min n b = elim (Bool-cases (leb b 60)) [
  | inl small ↦ let same : min b 60 ≡ b = ground arith in rw same refl
  | inr large ↦
      let same : min b 60 ≡ 60 = ground arith in
      rw same (ground (arith, doubled-ge n 60, doubled-ge n b))
]

abbrev pub IsWait : ℕ → Type 0
IsWait w = (1 ≤ w) × (w ≤ 60)

module _ {S : Type 0} (hooks : Hooks S) (describe : Exception → String) where
  -- A connection that fails, whatever state it meets.
  pub Fails : Connection → Type 0
  Fails k = (c : Consumer S) → (x : Exception) × ((consume_once hooks describe k c).0 ≡ raise x)

  run_once-IsWait :
      (k : Connection) (r : Running S)
      → IsWait r.backoff
      → All IsWait r.waits
      → IsWait (run_once hooks describe k r).backoff
        × All IsWait (run_once hooks describe k r).waits
  unfolding run_once
  run_once-IsWait k r b w = ground arith

  -- Where the backoff and the waits so far are at least one second and at most a minute, so is
  -- every wait, before its jitter, after any connections.
  pub run-IsWait :
      (ks : List Connection) (r : Running S)
      → IsWait r.backoff
      → All IsWait r.waits
      → All IsWait (run hooks describe ks r).waits
  unfolding run
  run-IsWait [] r b w = w
  run-IsWait (k ∷ ks) r b w = let (b', w') = run_once-IsWait k r b w in run-IsWait ks _ b' w'

  run_once-Fails :
      (k : Connection) (r : Running S)
      → Fails k
      → (run_once hooks describe k r).backoff ≡ min (r.backoff * 2) 60
  unfolding run_once Fails
  run_once-Fails k r f = let (x, e) = f r.consumer in rw (e, run_once) refl

  -- After any number of connections in a row that all fail, the backoff, at most a minute before
  -- them, has doubled with each of them, up to a minute.
  pub run-doubled :
      (ks : List Connection) (r : Running S)
      → r.backoff ≤ 60
      → All Fails ks
      → (run hooks describe ks r).backoff ≡ min (doubled (length ks) r.backoff) 60
  unfolding run
  run-doubled [] r b f = ground arith
  run-doubled (k ∷ ks) r b f =
      let once = run_once-Fails k r f.0 in
      let rest = run-doubled ks (run_once hooks describe k r) (ground arith) f.1 in
      rest
      ∙ (ap (λ n. min (doubled (length ks) n) 60) once ∙ doubled-min (length ks) (r.backoff * 2))

  pub refused-Fails : (k : Connection) → (k.status == 200) ≡ false → Fails k
  unfolding Fails consume_once
  refused-Fails k h c = rw (h, consume_once) (_, refl)
