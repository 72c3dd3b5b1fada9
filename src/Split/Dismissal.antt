-- ===== src/Split/Dismissal.antt =====
-- When the split backend answers a miss by itself (`lookup` of backends/split.py).
use opencti_middleware.Base.{
  ℕ, String, ◌≡◌, ◌↔◌, refl, sym, Bool, true, false, Option, none, some, List, arith, inl, inr,
  str_eq, Bool-cases,
}
use opencti_middleware.Base.Result.{Result, ok, raise, breaker_open, opencti_error}
use opencti_middleware.Client.{Client}
use opencti_middleware.Cache.{Payload, PayloadCache, cache_get}
use opencti_middleware.Membership.{contains}
use opencti_middleware.Indicators.{Normalized, lookupable}
use opencti_middleware.Live.{
  World, cache_read, LookupResult, LiveBackend, fallback_host, fetch, payload_key, settle_lookup,
  lookup_read, live_lookup,
}
use opencti_middleware.Split.{SplitBackend, host_known, defer_live, split_lookup}

-- a result that names the membership set as its source
abbrev pub by_membership : Result LookupResult → Bool
by_membership (ok r) = str_eq r.source "membership"
by_membership (raise e) = false

settle_lookup-source :
    (w : World) (n : Normalized) (b : LiveBackend) (r : Result Payload × Client)
    → by_membership (settle_lookup w n b r).0 ≡ false
unfolding settle_lookup
settle_lookup-source w n b (ok payload, c) = refl
settle_lookup-source w n b (raise (breaker_open m), c) = refl
settle_lookup-source w n b (raise (opencti_error m), c) = refl
settle_lookup-source w n b (raise _, c) = refl

lookup_read-source :
    (w : World) (n : Normalized) (b : LiveBackend) (r : Option Payload × PayloadCache)
    → by_membership (lookup_read w n b r).0 ≡ false
unfolding lookup_read
lookup_read-source w n b (some payload, payloads) = refl
lookup_read-source w n b (none, payloads) =
    settle_lookup-source w n (record b { payloads = payloads }) (fetch w b.settings n b.client)

live_lookup-source :
    (w : World) (n : Normalized) (b : LiveBackend) → by_membership (live_lookup w n b).0 ≡ false
unfolding live_lookup
live_lookup-source w n b = elim (Bool-cases (lookupable n)) [
  | inl e ↦
      rw (e, live_lookup)
        (lookup_read-source w n b (cache_get (w.clock cache_read) (payload_key b n) b.payloads))
  | inr e ↦ rw (e, live_lookup) refl
]

-- What lets a value be dismissed: it can be looked up, the set is complete and current, and neither
-- the value nor the hostname that a lookup would fall back to is in it.
pub record Dismissible (blake2b : String → List ℕ) (w : World) (n : Normalized) (s : SplitBackend)
    : Type 0 where
  pub lookupable : lookupable n ≡ true
  pub ready : s.ready ≡ true
  pub current : s.stale ≡ false
  pub absent : contains blake2b s.membership n.value ≡ false
  pub host_absent :
      (host : String)
      → fallback_host w s.live.settings n ≡ some host
      → contains blake2b s.membership host ≡ false

module _ (blake2b : String → List ℕ) (w : World) (n : Normalized) (s : SplitBackend) where
  defer_live-source : by_membership (defer_live blake2b w n s).0 ≡ false
  unfolding defer_live
  defer_live-source = live_lookup-source w n s.live

  host_known_iff : (host_known blake2b w n s ≡ false) ↔ (
      (host : String)
      → fallback_host w s.live.settings n ≡ some host
      → contains blake2b s.membership host ≡ false)
  unfolding host_known
  host_known_iff = go (fallback_host w s.live.settings n)
    where
      go :
          (o : Option String)
          → (elim o as (λ o. Bool) [ none ↦ false | some host ↦ contains blake2b s.membership host ]
              ≡ false)
            ↔ ((host : String) → o ≡ some host → contains blake2b s.membership host ≡ false)
      go none = (λ h host e. cc, λ h. refl)
      go (some known) =
          (λ h host e. let same : known ≡ host = cc in rw (sym same) h, λ h. h known refl)

  dismissed : Dismissible blake2b w n s → by_membership (split_lookup blake2b w n s).0 ≡ true
  unfolding split_lookup host_known
  dismissed d =
      let known = host_known_iff.1 d.host_absent in
      rw (d.lookupable, d.ready, d.current, d.absent, known, split_lookup) refl

  -- The membership set is named as the source of an answer exactly if the value is dismissible: no
  -- value of the set is ever dismissed, and none while the set is incomplete or stale.
  pub by_membership_iff :
      (by_membership (split_lookup blake2b w n s).0 ≡ true) ↔ Dismissible blake2b w n s
  unfolding split_lookup
  by_membership_iff = (dismissible, dismissed)
    where
      dismissible : by_membership (split_lookup blake2b w n s).0 ≡ true → Dismissible blake2b w n s
      dismissible h =
          let known : host_known blake2b w n s ≡ false = ground (arith, defer_live-source) in
          record {
            lookupable = ground (arith, defer_live-source);
            ready = ground (arith, defer_live-source);
            current = ground (arith, defer_live-source);
            absent = ground (arith, defer_live-source);
            host_absent = host_known_iff.0 known;
          }
