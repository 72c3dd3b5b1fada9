-- ===== src/Lifespan/Pauses.antt =====
-- How long `_retry_bootstrap` of main.py pauses between its loads.
use opencti_middleware.Base.{
  ℕ, zero, suc, ◌+◌, ◌*◌, ◌^◌, min, String, ◌≡◌, refl, ◌∙◌, Bool, true, false, Option, none, some,
  List, [], ◌∷◌, arith, inl, inr, Option-cases,
}
use mathlib.Core.Option.{some-injective}
use opencti_middleware.Base.Result.{Result, ok, raise, cancelled}
use native.Mathlib.Nat.{pow-succ'}
use opencti_middleware.Settings.{Settings}
use opencti_middleware.Membership.{Segments, MembershipSet}
use opencti_middleware.Indicators.{Normalized}
use opencti_middleware.Split.{SplitBackend}
use opencti_middleware.Shared.{Folder, SharedStateDir}
use opencti_middleware.Loader.{LoadedMembership, Machine, load}
use opencti_middleware.Api.{Backend, live_only, with_split}
use mathlib.Core.Path.{subst}
use opencti_middleware.Lifespan.{with_client, Service, Process, wire, activate_with}
use opencti_middleware.Lifespan.Retries.{Retry, Turn, settle_turn, retry_turn, retry_loop}

-- the pause before the load after the n-th retry
abbrev pub pause : Settings → ℕ → ℕ
pause s n = min (s.membership_bootstrap_retry_s * 2 ^ n) s.membership_bootstrap_retry_max_s

-- the first n pauses, the latest first
abbrev pub pauses : Settings → ℕ → List ℕ
pauses s zero = []
pauses s (suc n) = pause s n ∷ pauses s n

-- A retry that has made some turns under these settings.
pub record Paced (s : Settings) (r : Retry) : Type 0 where
  pub turns : ℕ
  pub attempts : r.attempt ≡ suc turns
  pub waited : r.waits ≡ pauses s turns
  pub next : r.finished ≡ false → r.delay ≡ pause s turns

pause_doubles :
    (s : Settings) (n d : ℕ)
    → d ≡ pause s n
    → min (d * 2) s.membership_bootstrap_retry_max_s ≡ pause s (suc n)
pause_doubles s n d h =
    let power : 2 ^ suc n ≡ 2 * 2 ^ n = pow-succ' 2 n in
    let out : s.membership_bootstrap_retry_s * 2 ^ suc n
        ≡ s.membership_bootstrap_retry_s * 2 ^ n * 2 =
      rw power (omega arith) in
    ground arith

module _ (blake2b : String → List ℕ) (unique : List ℕ → List ℕ) (padding : ℕ → List ℕ)
    (normalize : String → Normalized) where
  -- a turn has paused, and finished the retry or doubled the next pause
  abbrev Turned : Settings → Retry → Service × Retry × Machine → Type 0
  Turned s r (v, r', m) =
      (v.settings ≡ s)
      × (r'.attempt ≡ r.attempt + 1)
      × (r'.waits ≡ r.delay ∷ r.waits)
      × (r'.finished ≡ false → r'.delay ≡ min (r.delay * 2) s.membership_bootstrap_retry_max_s)

  activate_with-settings :
      (now budget : ℕ) (target : SplitBackend) (l : LoadedMembership) (v : Service) (shm : Segments)
      (m : Option MembershipSet) (d : Option SharedStateDir)
      → (activate_with now budget target l v shm m d).0.settings ≡ v.settings
  unfolding activate_with wire
  activate_with-settings now budget target l v shm (some set) d = refl
  activate_with-settings now budget target l v shm none (some d) = refl
  activate_with-settings now budget target l v shm none none = refl

  settle_turn-Turned :
      (p : Process) (target : SplitBackend) (v : Service) (r : Retry) (x : Result LoadedMembership)
      (m : Machine)
      → Turned v.settings r (
          settle_turn blake2b unique padding normalize p target v
            (record r { attempt = r.attempt + 1; waits = r.delay ∷ r.waits })
            (x, m))
  unfolding settle_turn
  settle_turn-Turned p target v r (raise cancelled) m = (refl, refl, refl, λ h. ground arith)
  settle_turn-Turned p target v r (ok l) m = (
    activate_with-settings p.now p.budget_bytes target l v m.shm l.membership l.state_dir,
    refl,
    refl,
    λ h. ground arith,
  )
  settle_turn-Turned p target v r (raise _) m = (refl, refl, refl, λ h. refl)

  retry_turn-Turned :
      (t : Turn) (target : SplitBackend) (v : Service) (r : Retry) (f : Folder) (shm : Segments)
      (out : Service × Retry × Machine)
      → retry_turn blake2b unique padding normalize t target v r f shm ≡ some out
      → Turned v.settings r out
  unfolding retry_turn
  retry_turn-Turned t target v r f shm out h = elim (Option-cases loaded.0) [
    | inl e ↦ let bad : none ≡ some out = rw (e, retry_turn) at h in absurd cc
    | inr (x, e) ↦
        let same : some (settled x) ≡ some out = rw (e, retry_turn) at h in
        subst (Turned v.settings r) (some-injective _ _ same)
          (settle_turn-Turned t.process _ v r x loaded.1)
  ]
    where
      waiting : SplitBackend
      waiting = t.meanwhile target

      loaded : Option (Result LoadedMembership) × Machine
      loaded =
          load blake2b unique padding normalize t.surroundings v.settings t.process.pid
            t.process.budget_bytes t.process.solo_name
            (record {
              client = waiting.live.client;
              folder = (t.others (f, shm)).0;
              shm = (t.others (f, shm)).1;
            })

      settled : Result LoadedMembership → Service × Retry × Machine
      settled x =
          settle_turn blake2b unique padding normalize t.process
            (with_client loaded.1.client waiting) v
            (record r { attempt = r.attempt + 1; waits = r.delay ∷ r.waits }) (x, loaded.1)

  Turned-Paced :
      (s : Settings) (r : Retry) (out : Service × Retry × Machine)
      → r.finished ≡ false
      → Turned s r out
      → Paced s r
      → Paced s out.1
  Turned-Paced s r (v, r', m) going (_, attempt, waits, delay) paced =
      let now : r.delay ≡ pause s paced.turns = paced.next going in
      record {
        turns = suc paced.turns;
        attempts = omega (arith, attempt, paced.attempts);
        waited = waits ∙ rw (now, paced.waited) refl;
        next = λ h. delay h ∙ pause_doubles s paced.turns r.delay now;
      }

  -- Where a retry that goes on has made its pauses by the rule, it has after any more turns, however
  -- long OpenCTI fails: the pause before the n-th new load of the set is the first delay doubled n - 1
  -- times, but not above the greatest one, and the attempts are one more than the new loads.
  pub retry_loop-Paced :
      (s : Settings) (ts : List Turn) (v v' : Service) (r r' : Retry) (f f' : Folder)
      (shm shm' : Segments)
      → v.settings ≡ s
      → r.finished ≡ false
      → Paced s r
      → retry_loop blake2b unique padding normalize ts v r f shm ≡ some (v', r', f', shm')
      → Paced s r'
  unfolding retry_loop
  retry_loop-Paced s [] v v' r r' f f' shm shm' same going paced h =
      let end : r ≡ r' = cc in subst (Paced s) end paced
  retry_loop-Paced s (t ∷ ts) v v' r r' f f' shm shm' same going paced h =
      served (λ v₁ r₁ m a b c k. retry_loop-Paced s ts v₁ v' r₁ r' m.folder f' m.shm shm' a b c k)
        v.backend refl
    where
      End : Type 0
      End = Option (Service × Retry × Folder × Segments)

      ended : End
      ended = some (v', r', f', shm')

      Again : Type 0
      Again =
          (v₁ : Service) (r₁ : Retry) (m : Machine)
          → v₁.settings ≡ s
          → r₁.finished ≡ false
          → Paced s r₁
          → retry_loop blake2b unique padding normalize ts v₁ r₁ m.folder m.shm ≡ ended
          → Paced s r'

      after :
          Again
          → (out : Service × Retry × Machine) (b : Bool) → out.1.finished ≡ b
          → Turned s r out
          → (elim b as (λ _. End) [
            | true ↦ some (out.0, out.1, out.2.folder, out.2.shm)
            | false ↦
                retry_loop blake2b unique padding normalize ts out.0 out.1 out.2.folder out.2.shm
          ])
            ≡ ended
          → Paced s r'
      after again (v₁, r₁, m) true e turned k =
          let last : r₁ ≡ r' = cc in
          subst (Paced s) last (Turned-Paced s r (v₁, r₁, m) going turned paced)
      after again (v₁, r₁, m) false e turned k =
          again v₁ r₁ m turned.0 e (Turned-Paced s r (v₁, r₁, m) going turned paced) k

      served : Again → (b : Backend) → v.backend ≡ b → Paced s r'
      served again (live_only l) e =
          let stay : some (v, r, f, shm) ≡ ended = rw (e, retry_loop) at h in
          let end : r ≡ r' = cc in subst (Paced s) end paced
      served again (with_split target) e =
          elim (Option-cases (retry_turn blake2b unique padding normalize t target v r f shm)) [
            | inl k ↦ let bad : none ≡ ended = rw (e, k, retry_loop) at h in absurd cc
            | inr (out, k) ↦
                after again out out.1.finished refl
                  (subst (λ s. Turned s r out) same (retry_turn-Turned t target v r f shm out k))
                  (rw (e, k, retry_loop) at h)
          ]
