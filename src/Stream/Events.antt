-- ===== src/Stream/Events.antt =====
-- What one event of the stream does to what the consumer writes to (`_handle`).
use opencti_middleware.Base.{
  ℕ, String, ◌≡◌, refl, ◌∙◌, ap, Bool, true, false, ◌||◌, Option, none, some, List, [], ◌∷◌, arith,
  inl, inr, str_eq, Option-cases, if◌then◌else◌, eq_iff,
}
use mathlib.Core.Path.{subst}
use opencti_middleware.Base.Text.{text_elem}
use opencti_middleware.Base.Json.{Json, Fields, obj}
use opencti_middleware.Membership.Overlay.{Update, added, removed}
use opencti_middleware.Stream.{
  Hooks, Consumer, add_events, remove_events, extract_values, handle, dispatch, read_event,
  apply_event, write_values, write_value, finish_event, skip_event, note_id, note_metrics,
}
use opencti_middleware.Stream.Run.{Event}

abbrev pub is_change : String → Bool
is_change kind = text_elem kind add_events || text_elem kind remove_events

-- an event of another kind changes nothing
pub not_change :
    (kind other : String)
    → str_eq other kind ≡ true
    → is_change other ≡ false
    → is_change kind ≡ false
not_change kind other e h = subst (λ k. is_change k ≡ false) ((eq_iff other kind).0 e) h

module _ {S : Type 0} (hooks : Hooks S) where
  -- the updates that an event stands for: each normalized value, added or removed by its kind
  unfoldable pub updates_of : String → List String → List Update
  updates_of kind [] = []
  updates_of kind (raw ∷ rest) =
      let more = updates_of kind rest in
      elim (hooks.normalize raw) [
        | none ↦ more
        | some value ↦ (if text_elem kind remove_events then removed value else added value) ∷ more
      ]

  unfoldable pub payload_updates : String → Option Json → List Update
  payload_updates kind (some (obj payload)) =
      updates_of kind (extract_values hooks.py payload).yielded
  payload_updates kind _ = []

  unfoldable pub event_updates : String → String → List Update
  event_updates kind text = if is_change kind then payload_updates kind (hooks.loads text) else []

  -- the updates, written one after the other
  abbrev pub put : Update → S → S
  put (added v) s = hooks.on_add v s
  put (removed v) s = hooks.on_remove v s

  unfoldable pub put_all : List Update → S → S
  put_all [] s = s
  put_all (u ∷ us) s = put_all us (put u s)

  write_value-sink :
      (kind value : String) (c : Consumer S)
      → (write_value hooks kind value c).sink
        ≡ put (if text_elem kind remove_events then removed value else added value) c.sink
  unfolding write_value
  write_value-sink kind value c = ground arith

  write_values-sink :
      (kind : String) (raws : List String) (c : Consumer S)
      → (write_values hooks kind raws c).1.sink ≡ put_all (updates_of kind raws) c.sink
  unfolding write_values put_all updates_of
  write_values-sink kind [] c = refl
  write_values-sink kind (raw ∷ rest) c = elim (Option-cases (hooks.normalize raw)) [
    | inl e ↦ rw (e, write_values, updates_of) (write_values-sink kind rest c)
    | inr (value, e) ↦
        rw (e, write_values, updates_of)
          (write_values-sink kind rest _
            ∙ ap (put_all (updates_of kind rest)) (write_value-sink kind value c))
  ]

  apply_event-sink :
      (now : ℕ) (kind : String) (payload : Fields) (c : Consumer S)
      → (apply_event hooks now kind payload c).1.sink
        ≡ put_all (updates_of kind (extract_values hooks.py payload).yielded) c.sink
  unfolding apply_event finish_event skip_event
  apply_event-sink now kind payload c =
      ground (arith, write_values-sink kind (extract_values hooks.py payload).yielded c)

  read_event-sink :
      (now : ℕ) (kind : String) (parsed : Option Json) (c : Consumer S)
      → (read_event hooks now kind parsed c).1.sink ≡ put_all (payload_updates kind parsed) c.sink
  unfolding read_event skip_event payload_updates put_all
  read_event-sink now kind none c = refl
  read_event-sink now kind (some (obj payload)) c = apply_event-sink now kind payload c
  read_event-sink now kind (some _) c = refl

  note_metrics-sink : (text : String) (c : Consumer S) → (note_metrics hooks text c).sink ≡ c.sink
  unfolding note_metrics
  note_metrics-sink text c = ground arith

  dispatch-sink :
      (now : ℕ) (kind text : String) (c : Consumer S)
      → (dispatch hooks now kind text c).1.sink ≡ put_all (event_updates kind text) c.sink
  unfolding dispatch skip_event event_updates put_all
  dispatch-sink now kind text c =
      let h = not_change kind "heartbeat" in
      let m = not_change kind "consumer_metrics" in
      let k = not_change kind "connected" in
      ground (
        arith,
        read_event-sink now kind (hooks.loads text) c,
        note_metrics-sink text c,
        h,
        m,
        k,
        eq_iff "connected" kind,
        eq_iff kind "connected",
      )

  note_id-sink : (id : Option String) (c : Consumer S) → (note_id hooks id c).sink ≡ c.sink
  unfolding note_id
  note_id-sink id c = ground arith

  -- One event writes the updates that it stands for, whatever else it does, and also if its handling
  -- ends in an exception.
  pub handle-sink :
      (e : Event) (c : Consumer S)
      → (handle hooks e.at e.kind e.event_id e.text c).1.sink
        ≡ put_all (event_updates e.kind e.text) c.sink
  unfolding handle
  handle-sink e c =
      dispatch-sink e.at e.kind e.text _
      ∙ ap (put_all (event_updates e.kind e.text)) (note_id-sink e.event_id c)
