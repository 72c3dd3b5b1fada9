-- ===== src/Shared/Wait.antt =====
-- `wait_for` of backends/shared_state.py ends, and what it returns.
use opencti_middleware.Base.{
  ◌*◌, ℕ, zero, suc, ◌+◌, ◌≤◌, ◌<◌, ◌≡◌, refl, Option, none, some, arith, inl, inr, ltb, Bool-cases,
  Option-cases,
}
use opencti_middleware.Shared.{
  SharedMembershipState, read, is_recent, Looks, poll_ms, wait_loop, wait_for,
}

-- A sleep takes its time at least: the clock moves on by as much between two looks.
abbrev pub Advances : Looks → Type 0
Advances l = (n : ℕ) → l.clock n + poll_ms ≤ l.clock (n + 1)

-- What the waiting returns: a state that a look before the deadline found recent enough, and no look
-- before it; or what the first look after the deadline found, where no look before was successful.
pub data Waited (l : Looks) (deadline min_generation : ℕ)
    : ℕ → Option SharedMembershipState → Type 0 where
  in_time :
      {n : ℕ} {s : SharedMembershipState}
      → l.clock n < deadline
      → is_recent min_generation (l.files n) ≡ some s
      → Waited l deadline min_generation n (some s)
  too_late : {n : ℕ} → deadline ≤ l.clock n → Waited l deadline min_generation n (read (l.files n))
  later :
      {n : ℕ} {r : Option SharedMembershipState}
      → l.clock n < deadline
      → is_recent min_generation (l.files n) ≡ none
      → Waited l deadline min_generation (n + 1) r
      → Waited l deadline min_generation n r

wait_loop-Waited :
    (l : Looks) (deadline min_generation fuel n : ℕ)
    → Advances l
    → 0 < fuel
    → deadline + poll_ms ≤ l.clock n + poll_ms * fuel
    → (r : Option SharedMembershipState) × (wait_loop l deadline min_generation fuel n ≡ some r)
      × Waited l deadline min_generation n r
unfolding wait_loop
wait_loop-Waited l deadline g zero n adv some_fuel h = absurd (omega arith)
wait_loop-Waited l deadline g (suc fuel) n adv some_fuel h =
    elim (Bool-cases (ltb (l.clock n) deadline)) [
      | inr late ↦ rw (late, wait_loop) (read (l.files n), refl, Waited.too_late (ground arith))
      | inl early ↦ elim (Option-cases (is_recent g (l.files n))) [
        | inr (s, e) ↦ rw (early, e, wait_loop) (some s, refl, Waited.in_time (ground arith) e)
        | inl e ↦
            let (r, k, w) =
              wait_loop-Waited l deadline g fuel (n + 1) adv (ground (arith, adv n))
                (ground (arith, adv n)) in
            rw (early, e, wait_loop) (r, k, Waited.later (ground arith) e w)
      ]
    ]

-- Where the sleep of a quarter of a second between two looks takes its time at least, `wait_for` with
-- fuel for more looks than there are quarters of a second in the timeout ends: with the first state that a look in time found recent enough, or else with
-- what the first look after the deadline finds.
pub wait_for-Waited :
    (l : Looks) (start timeout_s min_generation fuel : ℕ)
    → Advances l
    → start ≤ l.clock 0
    → 4 * timeout_s < fuel
    → (r : Option SharedMembershipState) × (wait_for l start timeout_s min_generation fuel ≡ some r)
      × Waited l (start + 1000 * timeout_s) min_generation 0 r
unfolding wait_for
wait_for-Waited l start timeout_s g fuel adv begun h =
    wait_loop-Waited l (start + 1000 * timeout_s) g fuel 0 adv (omega arith) (omega arith)
