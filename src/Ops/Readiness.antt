-- ===== src/Ops/Readiness.antt =====
-- What `readyz` of api/ops.py reports.
use opencti_middleware.Base.{
  ℕ, String, ◌≡◌, ◌↔◌, refl, ◌∙◌, sym, ap, Bool, true, false, Option, none, some, [], ◌∷◌, arith,
  if◌then◌else◌, find,
}
use opencti_middleware.Base.Json.{Json, bool, str}
use opencti_middleware.Breaker.{allows}
use opencti_middleware.Live.{live_ready}
use opencti_middleware.Split.{SplitBackend, split_ready}
use opencti_middleware.Stream.{StreamStats}
use opencti_middleware.Reconcile.{Reconciler}
use opencti_middleware.Api.{Backend, live_only, with_split, backend_ready}
use opencti_middleware.Lifespan.{Service}
use opencti_middleware.Ops.{
  ReportFields, merge, live_describe, split_describe, backend_describe, stream_info, reconcile_info,
  readyz,
}

-- the field `ready` of a backend's report, where it has one
abbrev own_ready : ℕ → Backend → Bool
own_ready now (live_only b) = live_ready now b
own_ready now (with_split s) = s.ready

abbrev status_of : ℕ → Backend → ℕ
status_of now b = if backend_ready now b then 200 else 503

-- the set of a split backend is ready while its breaker refuses requests
abbrev HalfReady : ℕ → Backend → Type 0
HalfReady now b =
    (s : SplitBackend) × (b ≡ with_split s)
    × (s.ready ≡ true)
    × (allows now s.live.client.breaker ≡ false)

own_ready_iff :
    (now : ℕ) (b : Backend) → ((status_of now b ≡ 503) × (own_ready now b ≡ true)) ↔ HalfReady now b
unfolding backend_ready split_ready live_ready
own_ready_iff now (live_only b) = (
  λ (p : (status_of now (live_only b) ≡ 503) × (own_ready now (live_only b) ≡ true)).
      let (status, ready) = p in absurd (ground arith),
  λ (p : HalfReady now (live_only b)). let (s, e, _, _) = p in absurd cc,
)
own_ready_iff now (with_split s) = (
  λ (p : (status_of now (with_split s) ≡ 503) × (own_ready now (with_split s) ≡ true)).
      let (status, ready) = p in (s, refl, ready, ground arith),
  λ (p : HalfReady now (with_split s)).
      let (t, e, ready, shut) = p in
      let same : t ≡ s = cc in
      let r : s.ready ≡ true = ap (λ t. t.ready) (sym same) ∙ ready in
      let a : allows now s.live.client.breaker ≡ false =
        ap (λ t. allows now t.live.client.breaker) (sym same) ∙ shut in
      (ground arith, r),
)

module _ (hit_ratio : ℕ → ℕ → Json) where
  -- the body of `readyz`
  body : ℕ → ℕ → Backend → String → Option StreamStats → Option Reconciler → ReportFields
  body now inflight b role stream reconciler =
      merge
        (merge
          (merge (("ready", bool (backend_ready now b)) ∷ ("membership_role", str role) ∷ [])
            (backend_describe hit_ratio now inflight b))
          (stream_info now stream))
        (reconcile_info now reconciler)

  body-ready :
      (now inflight : ℕ) (b : Backend) (role : String) (stream : Option StreamStats)
      (reconciler : Option Reconciler)
      → find "ready" (body now inflight b role stream reconciler) ≡ some (bool (own_ready now b))
  unfolding body backend_describe live_describe split_describe stream_info reconcile_info
      backend_ready
  body-ready now inflight (live_only b) role none none = refl
  body-ready now inflight (live_only b) role none (some r) = refl
  body-ready now inflight (live_only b) role (some s) none = refl
  body-ready now inflight (live_only b) role (some s) (some r) = refl
  body-ready now inflight (with_split b) role none none = refl
  body-ready now inflight (with_split b) role none (some r) = refl
  body-ready now inflight (with_split b) role (some s) none = refl
  body-ready now inflight (with_split b) role (some s) (some r) = refl

  -- `readyz` answers 503 with a body that says that the service is ready exactly if the set is ready and
  -- the circuit breaker refuses requests: the report of the split backend writes its own flag over the
  -- answer.
  pub readyz_misleads_iff :
      (now inflight : ℕ) (stream : Option StreamStats) (v : Service)
      → (((readyz hit_ratio now inflight stream v).0 ≡ 503)
          × (find "ready" (readyz hit_ratio now inflight stream v).1 ≡ some (bool true)))
        ↔ ((s : SplitBackend) × (v.backend ≡ with_split s)
            × (s.ready ≡ true)
            × (allows now s.live.client.breaker ≡ false))
  unfolding readyz body
  readyz_misleads_iff now inflight stream v =
      let shown = body-ready now inflight v.backend v.membership_role stream v.reconciler in
      let both = own_ready_iff now v.backend in
      (
        λ p. both.0 (p.0, let said = p.1 in (let k = sym shown ∙ said in cc)),
        λ half.
            let (status, ready) = both.1 half in (status, shown ∙ ap (λ b. some (bool b)) ready),
      )
