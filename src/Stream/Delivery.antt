-- ===== src/Stream/Delivery.antt =====
-- What a sequence of events does to what the consumer writes to (the loop of `_consume_once`).
use opencti_middleware.Base.{
  ℕ, String, ◌≡◌, refl, ◌∙◌, sym, ap, Option, none, some, List, [], ◌∷◌, ◌++◌, arith, inl, inr,
  Option-cases, if◌then◌else◌, eq_iff,
}
use opencti_middleware.Base.Json.{Json, obj}
use opencti_middleware.Base.Result.{Result, Exception, ok, raise}
use opencti_middleware.Membership.{MembershipSet, add, remove, contains}
use opencti_middleware.Membership.Overlay.{
  Update, added, removed, apply, apply_all, written_all, contains-apply_all,
}
use opencti_middleware.Stream.{
  Hooks, Consumer, extract_values, handle, dispatch, read_event, apply_event,
}
use opencti_middleware.Stream.Run.{Event, handle_all}
use opencti_middleware.Stream.Events.{
  is_change, event_updates, not_change, put, put_all, handle-sink,
}

module _ {S : Type 0} (hooks : Hooks S) where
  -- the exception that the handling of an event raises
  unfoldable pub payload_failure : Option Json → Option Exception
  payload_failure (some (obj payload)) = (extract_values hooks.py payload).raised
  payload_failure _ = none

  unfoldable pub event_failure : String → String → Option Exception
  event_failure kind text = if is_change kind then payload_failure (hooks.loads text) else none

  abbrev pub outcome_of : Option Exception → Result (Unit {0})
  outcome_of none = ok tt
  outcome_of (some x) = raise x

  read_event-outcome :
      (now : ℕ) (kind : String) (parsed : Option Json) (c : Consumer S)
      → (read_event hooks now kind parsed c).0 ≡ outcome_of (payload_failure parsed)
  unfolding read_event payload_failure apply_event
  read_event-outcome now kind none c = refl
  read_event-outcome now kind (some (obj payload)) c = ground arith
  read_event-outcome now kind (some _) c = refl

  dispatch-outcome :
      (now : ℕ) (kind text : String) (c : Consumer S)
      → (dispatch hooks now kind text c).0 ≡ outcome_of (event_failure kind text)
  unfolding dispatch event_failure
  dispatch-outcome now kind text c =
      let h = not_change kind "heartbeat" in
      let m = not_change kind "consumer_metrics" in
      let k = not_change kind "connected" in
      ground (
        arith,
        read_event-outcome now kind (hooks.loads text) c,
        h,
        m,
        k,
        eq_iff "connected" kind,
        eq_iff kind "connected",
      )

  handle-outcome :
      (e : Event) (c : Consumer S)
      → (handle hooks e.at e.kind e.event_id e.text c).0 ≡ outcome_of (event_failure e.kind e.text)
  unfolding handle
  handle-outcome e c = dispatch-outcome e.at e.kind e.text _

  -- the events that are handled before the connection ends: all, or those up to the first that raises
  unfoldable pub handled : List Event → List Event
  handled [] = []
  handled (e ∷ events) =
      let rest = handled events in
      elim (event_failure e.kind e.text) [ none ↦ e ∷ rest | some _ ↦ e ∷ [] ]

  unfoldable pub all_updates : List Event → List Update
  all_updates [] = []
  all_updates (e ∷ events) = event_updates hooks e.kind e.text ++ all_updates events

  put_all-append :
      (us vs : List Update) (s : S)
      → put_all hooks (us ++ vs) s ≡ put_all hooks vs (put_all hooks us s)
  unfolding put_all
  put_all-append [] vs s = refl
  put_all-append (u ∷ us) vs s = put_all-append us vs _

  -- However a connection ends, the updates of the events that were handled are written, in their
  -- order, and nothing else.
  pub handle_all-sink :
      (describe : Exception → String) (broken : Option Exception) (events : List Event)
      (c : Consumer S)
      → (handle_all hooks describe broken events c).1.sink
        ≡ put_all hooks (all_updates (handled events)) c.sink
  unfolding handle_all handled all_updates put_all
  handle_all-sink describe none [] c = refl
  handle_all-sink describe (some x) [] c = refl
  handle_all-sink describe broken (e ∷ events) c =
      let c' = (handle hooks e.at e.kind e.event_id e.text c).1 in
      let o = handle-outcome e c in
      let s = handle-sink hooks e c in
      let now = event_updates hooks e.kind e.text in
      elim (Option-cases (event_failure e.kind e.text)) [
        | inl fine ↦
            let rest = handle_all-sink describe broken events c' in
            rw (fine, handled)
              (rw (o ∙ ap outcome_of fine, handle_all)
                (rest
                  ∙ ap (put_all hooks (all_updates (handled events))) s
                  ∙ sym (put_all-append now (all_updates (handled events)) c.sink)))
        | inr (x, bad) ↦
            rw (bad, handled)
              (rw (o ∙ ap outcome_of bad, handle_all) (s ∙ sym (put_all-append now [] c.sink)))
      ]

-- The callbacks write to a membership set.
pub record WritesSet (blake2b : String → List ℕ) (hooks : Hooks MembershipSet) : Type 0 where
  pub adds : hooks.on_add ≡ add blake2b
  pub removes : hooks.on_remove ≡ remove blake2b

module _ (blake2b : String → List ℕ) (hooks : Hooks MembershipSet)
    (w : WritesSet blake2b hooks) where
  put-set : (u : Update) (s : MembershipSet) → put hooks u s ≡ apply blake2b u s
  unfolding apply
  put-set (added v) s = ap (λ f. f v s) w.adds
  put-set (removed v) s = ap (λ f. f v s) w.removes

  put_all-set : (us : List Update) (s : MembershipSet) → put_all hooks us s ≡ apply_all blake2b us s
  unfolding put_all apply_all
  put_all-set [] s = refl
  put_all-set (u ∷ us) s = put_all-set us _ ∙ ap (apply_all blake2b us) (put-set u s)

  -- However a connection ends, the set answers as it did before it, with the updates of the events that
  -- were handled written over: the last update of a fingerprint decides. Events after one whose handling
  -- raises are not read from this connection.
  pub contains-handle_all :
      (describe : Exception → String) (broken : Option Exception) (events : List Event)
      (c : Consumer MembershipSet)
      → contains blake2b (handle_all hooks describe broken events c).1.sink
        ≡ written_all blake2b (all_updates hooks (handled hooks events)) (contains blake2b c.sink)
  contains-handle_all describe broken events c =
      let us = all_updates hooks (handled hooks events) in
      ap (contains blake2b) (handle_all-sink hooks describe broken events c ∙ put_all-set us c.sink)
      ∙ contains-apply_all blake2b us c.sink
