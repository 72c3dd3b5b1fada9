-- ===== src/Lifespan/Updates.antt =====
-- What the live stream does to the lookups (`_activate` of main.py with opencti/stream.py and
-- backends/split.py).
use opencti_middleware.Base.{
  ℕ, String, ◌≡◌, ◌↔◌, refl, ◌∙◌, sym, ap, Bool, true, false, Option, some, List, [], ◌∷◌, ℤ,
}
use opencti_middleware.Base.Json.{Json}
use opencti_middleware.Base.Python.{Python}
use opencti_middleware.Base.Result.{Exception}
use opencti_middleware.Membership.{contains}
use opencti_middleware.Membership.Overlay.{
  Update, added, removed, apply, apply_all, written_all, contains-apply_all,
}
use opencti_middleware.Indicators.{Normalized, lookupable}
use opencti_middleware.Live.{World, fallback_host}
use opencti_middleware.Split.{SplitBackend, split_lookup}
use opencti_middleware.Split.Dismissal.{by_membership, by_membership_iff}
use opencti_middleware.Split.Swap.{updated}
use opencti_middleware.Stream.{Consumer}
use opencti_middleware.Stream.Run.{Event, handle_all}
use opencti_middleware.Stream.Events.{put_all}
use opencti_middleware.Stream.Delivery.{handled, all_updates, handle_all-sink}
use opencti_middleware.Lifespan.Callbacks.{add_to_split, remove_from_split, hooks_of}

-- A backend may dismiss a value by a map of answers: the value can be looked up, the set is complete
-- and current, and the map has neither the value nor the hostname that a lookup would fall back to.
pub record MayDismiss (answers : String → Bool) (w : World) (n : Normalized) (s : SplitBackend)
    : Type 0 where
  pub known_kind : lookupable n ≡ true
  pub ready : s.ready ≡ true
  pub current : s.stale ≡ false
  pub absent : answers n.value ≡ false
  pub host_absent :
      (host : String) → fallback_host w s.live.settings n ≡ some host → answers host ≡ false

module _ (blake2b : String → List ℕ) (normalize : String → Normalized) (py : Python)
    (loads : String → Option Json) (float_of : Json → Option ℤ) where
  put_all-updated :
      (us : List Update) (s : SplitBackend)
      → put_all (hooks_of blake2b normalize py loads float_of) us s ≡ updated blake2b us s
  unfolding put_all apply_all apply add_to_split remove_from_split
  put_all-updated [] s = refl
  put_all-updated (added v ∷ us) s = put_all-updated us (add_to_split blake2b normalize v s)
  put_all-updated (removed v ∷ us) s = put_all-updated us (remove_from_split blake2b normalize v s)

  -- the updates that a connection's events stand for
  abbrev pub updates_in : List Event → List Update
  updates_in events =
      let hooks = hooks_of blake2b normalize py loads float_of in
      all_updates hooks (handled hooks events)

  -- the answers after these updates
  abbrev pub answers_after : List Event → SplitBackend → String → Bool
  answers_after events s = written_all blake2b (updates_in events) (contains blake2b s.membership)

  -- After the events of a connection, however it ends, the backend dismisses a value exactly if it was
  -- ready and not stale, and the last update of the value's fingerprint in the events that were handled
  -- is a removal, or there is none and the set did not have the value before; so too for the hostname
  -- that a lookup of a URL would fall back to.
  pub stream_dismissal_iff :
      (describe : Exception → String) (broken : Option Exception) (events : List Event)
      (c : Consumer SplitBackend) (w : World) (n : Normalized)
      → (by_membership
            (split_lookup blake2b w n
              (handle_all
                (hooks_of blake2b normalize py loads float_of)
                describe
                broken
                events
                c).1.sink).0
          ≡ true)
        ↔ MayDismiss (answers_after events c.sink) w n c.sink
  stream_dismissal_iff describe broken events c w n =
      let hooks = hooks_of blake2b normalize py loads float_of in
      let sink =
        handle_all-sink hooks describe broken events c
        ∙ put_all-updated (updates_in events) c.sink in
      rw sink (there, back)
    where
      after : SplitBackend
      after = updated blake2b (updates_in events) c.sink

      answers : contains blake2b after.membership ≡ answers_after events c.sink
      answers = contains-apply_all blake2b (updates_in events) c.sink.membership

      there :
          by_membership (split_lookup blake2b w n after).0 ≡ true
          → MayDismiss (answers_after events c.sink) w n c.sink
      there h =
          let d = (by_membership_iff blake2b w n after).0 h in
          record {
            known_kind = d.lookupable;
            ready = d.ready;
            current = d.current;
            absent = sym (ap (λ f. f n.value) answers) ∙ d.absent;
            host_absent = λ host e. sym (ap (λ f. f host) answers) ∙ d.host_absent host e;
          }

      back :
          MayDismiss (answers_after events c.sink) w n c.sink
          → by_membership (split_lookup blake2b w n after).0 ≡ true
      back m = (by_membership_iff blake2b w n after).1 (record {
        lookupable = m.known_kind;
        ready = m.ready;
        current = m.current;
        absent = ap (λ f. f n.value) answers ∙ m.absent;
        host_absent = λ host e. ap (λ f. f host) answers ∙ m.host_absent host e;
      })
