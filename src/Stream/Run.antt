-- ===== src/Stream/Run.antt =====
-- The connections of the stream consumer (`_consume_once` and `run`), one after the other. The
-- backoff is in whole seconds, before the jitter that each wait is multiplied by.
use opencti_middleware.Base.{
  ℕ, ◌+◌, ◌*◌, min, String, true, false, Option, none, some, List, [], ◌∷◌, ◌==◌, if◌then◌else◌,
}
use opencti_middleware.Base.Text.{text_take, concat, show_nat}
use opencti_middleware.Base.Result.{Result, Exception, ok, raise, opencti_error}
use opencti_middleware.Stream.{Hooks, Consumer, handle}

-- A server-sent event, with the time it is handled at.
pub record Event : Type 0 where
  pub at : ℕ
  pub kind : String
  pub event_id : Option String
  pub text : String

-- A connection: the status that answers it, the events that arrive, and the error of the transport
-- that ends it if the server does not close it.
pub record Connection : Type 0 where
  pub status : ℕ
  pub reason : String
  pub events : List Event
  pub broken : Option Exception

-- The consumer, the backoff, and the waits so far, the last one first.
pub record Running (S : Type 0) : Type 0 where
  pub consumer : Consumer S
  pub backoff : ℕ
  pub waits : List ℕ

module _ {S : Type 0} (hooks : Hooks S) (describe : Exception → String) where
  -- `async for event in source.aiter_sse()`: an exception of `_handle` ends it.
  unfoldable pub handle_all :
      Option Exception → List Event → Consumer S → Result (Unit {0}) × Consumer S
  handle_all broken [] c = elim broken [ none ↦ (ok tt, c) | some e ↦ (raise e, c) ]
  handle_all broken (e ∷ events) c =
      let (r, c') = handle hooks e.at e.kind e.event_id e.text c in
      let rest = handle_all broken events c' in elim r [ raise x ↦ (raise x, c') | ok _ ↦ rest ]

  -- `_consume_once`
  unfoldable pub consume_once : Connection → Consumer S → Result (Unit {0}) × Consumer S
  consume_once k c =
      if k.status == 200
      then handle_all k.broken k.events
          (record c { stats = record c.stats { connected = true; last_error = none } })
      else (
        raise (opencti_error (concat ("refused: HTTP " ∷ show_nat k.status ∷ " " ∷ k.reason ∷ []))),
        c,
      )

  -- what `run` does when a connection fails
  unfoldable pub note_failure : Exception → Consumer S → Consumer S
  note_failure e c = record c {
    stats = record c.stats {
      connected = false;
      last_error = some (text_take 200 (describe e));
      reconnects = c.stats.reconnects + 1;
    };
  }

  -- one round of `run`
  unfoldable pub run_once : Connection → Running S → Running S
  run_once k r =
      let (outcome, c) = consume_once k r.consumer in
      elim outcome [
        | ok _ ↦ record { consumer = c; backoff = 1; waits = r.waits }
        | raise e ↦ record {
          consumer = note_failure e c;
          backoff = min (r.backoff * 2) 60;
          waits = min r.backoff 60 ∷ r.waits;
        }
      ]

  -- `run`, through the connections it makes before it is stopped
  unfoldable pub run : List Connection → Running S → Running S
  run [] r = r
  run (k ∷ ks) r = run ks (run_once k r)
