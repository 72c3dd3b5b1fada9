-- ===== src/Stream/Accounts.antt =====
-- The statistics that `_handle` keeps, for any set that its callbacks change.
use opencti_middleware.Base.{
  ℕ, ◌+◌, String, ◌≡◌, refl, ◌∙◌, ap, Bool, true, not, ◌||◌, Option, none, some, List, [], ◌∷◌,
  arith, inl, inr, str_eq, Option-cases, if◌then◌else◌, eq_iff,
}
use opencti_middleware.Base.Text.{text_elem}
use opencti_middleware.Base.Json.{Json, Fields, obj}
use opencti_middleware.Base.Result.{ok}
use mathlib.Core.Path.{subst}
use opencti_middleware.Stream.{
  Hooks, Consumer, heartbeat_events, StreamStats, metrics_events, extract_values, handle, dispatch,
  read_event, apply_event, write_values, write_value, finish_event, skip_event, note_id,
  note_metrics,
}

-- the events that one of the three counters counts
abbrev pub counted : StreamStats → ℕ
counted s = s.heartbeats + s.events_applied + s.events_skipped

abbrev pub is_counted : String → Bool
is_counted kind = not (text_elem kind metrics_events || str_eq kind "connected")

abbrev pub written : StreamStats → ℕ
written s = s.adds + s.removes

module _ {S : Type 0} (hooks : Hooks S) where
  write_value-stats :
      (kind value : String) (c : Consumer S)
      → (counted (write_value hooks kind value c).stats ≡ counted c.stats)
        × (written (write_value hooks kind value c).stats ≡ written c.stats + 1)
  unfolding write_value
  write_value-stats kind value c = ground arith

  write_values-stats :
      (kind : String) (raws : List String) (c : Consumer S)
      → (counted (write_values hooks kind raws c).1.stats ≡ counted c.stats)
        × (written (write_values hooks kind raws c).1.stats
            ≡ written c.stats + (write_values hooks kind raws c).0)
  unfolding write_values
  write_values-stats kind [] c = (refl, omega arith)
  write_values-stats kind (raw ∷ rest) c = elim (Option-cases (hooks.normalize raw)) [
    | inl e ↦ rw (e, write_values) (write_values-stats kind rest c)
    | inr (value, e) ↦
        let once = write_value-stats kind value c in
        let more = write_values-stats kind rest (write_value hooks kind value c) in
        rw (e, write_values) (ground arith)
  ]

  apply_event-counted :
      (now : ℕ) (kind : String) (payload : Fields) (c : Consumer S)
      → (apply_event hooks now kind payload c).0 ≡ ok tt
      → counted (apply_event hooks now kind payload c).1.stats ≡ counted c.stats + 1
  unfolding apply_event finish_event skip_event
  apply_event-counted now kind payload c h =
      ground (arith, write_values-stats kind (extract_values hooks.py payload).yielded c)

  read_event-counted :
      (now : ℕ) (kind : String) (parsed : Option Json) (c : Consumer S)
      → (read_event hooks now kind parsed c).0 ≡ ok tt
      → counted (read_event hooks now kind parsed c).1.stats ≡ counted c.stats + 1
  unfolding read_event skip_event
  read_event-counted now kind none c h = omega arith
  read_event-counted now kind (some (obj payload)) c h = apply_event-counted now kind payload c h
  read_event-counted now kind (some _) c h = omega arith

  note_metrics-counted :
      (text : String) (c : Consumer S) → counted (note_metrics hooks text c).stats ≡ counted c.stats
  unfolding note_metrics
  note_metrics-counted text c = ground arith

  dispatch-counted :
      (now : ℕ) (kind text : String) (c : Consumer S)
      → (dispatch hooks now kind text c).0 ≡ ok tt
      → counted (dispatch hooks now kind text c).1.stats
        ≡ counted c.stats + (if is_counted kind then 1 else 0)
  unfolding dispatch skip_event
  dispatch-counted now kind text c h = ground (
    arith,
    read_event-counted now kind (hooks.loads text) c,
    note_metrics-counted text c,
    not_metrics kind,
  )
    where
      not_metrics :
          (kind : String) → text_elem kind heartbeat_events ≡ true → is_counted kind ≡ true
      not_metrics kind e =
          subst (λ k. is_counted k ≡ true) ((eq_iff "heartbeat" kind).0 (ground arith)) refl

  note_id-counted :
      (id : Option String) (c : Consumer S) → counted (note_id hooks id c).stats ≡ counted c.stats
  unfolding note_id
  note_id-counted id c = ground arith

  -- An event whose handling does not raise adds one to the sum of the counters of heartbeats, of
  -- events applied and of events skipped; a consumer_metrics or connected event leaves the sum as
  -- it is.
  pub handle-counted :
      (now : ℕ) (kind : String) (id : Option String) (text : String) (c : Consumer S)
      → (handle hooks now kind id text c).0 ≡ ok tt
      → counted (handle hooks now kind id text c).1.stats
        ≡ counted c.stats + (if is_counted kind then 1 else 0)
  unfolding handle
  handle-counted now kind id text c h =
      dispatch-counted now kind text _ h
      ∙ ap (λ n. n + (if is_counted kind then 1 else 0)) (note_id-counted id c)
