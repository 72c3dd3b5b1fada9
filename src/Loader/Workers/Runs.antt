-- ===== src/Loader/Workers/Runs.antt =====
-- What holds of the workers after any sequence of their steps.
use opencti_middleware.Base.{ℕ, ◌<◌, ◌≡◌, ◌⊎◌, refl, ◌∙◌, ap, true, some, arith, inl, inr}
use opencti_middleware.Shared.{
  Folder, SharedStateDir, StateFile, read, next_generation, release_builder,
}
use opencti_middleware.Shared.Publish.{publish_cases}
use opencti_middleware.Base.{if_cases}
use opencti_middleware.Loader.{Plan, plan_of, state_of}
use opencti_middleware.Loader.Locks.{try_become_builder_cases}
use opencti_middleware.Loader.Workers.{Host, initial, Step, Steps, InOrder}
use opencti_middleware.Loader.Workers.Order.{
  initial-InOrder, one_builder, watch-InOrder, fail-InOrder, begin-InOrder, leave-InOrder,
  elect-InOrder, end-InOrder,
}

Step-InOrder : (g h : Host) → Step g h → InOrder g → InOrder h
Step-InOrder g _ (Step.elects p _ down) o = elect-InOrder g o p down
Step-InOrder g _ (Step.begins p is_dir stuck _ up) o = begin-InOrder g o p is_dir stuck up
Step-InOrder g _ (Step.makes p plan words _ at) o = record {
  pids = o.pids;
  owner = o.owner;
  planned = o.planned;
  behind = o.behind;
}
Step-InOrder g _ (Step.fails p _) o = fail-InOrder g o p
Step-InOrder g _ (Step.ends p disk now plan set report _ at) o =
    end-InOrder g o p disk now plan set report at
Step-InOrder g _ (Step.leaves p _) o = leave-InOrder g o p
Step-InOrder g _ (Step.watches p s _) o = watch-InOrder g o p s

-- Workers that are in order stay in order over any sequence of elections, builds that begin, make
-- their segment, fail or are published, departures and looks of watchers.
pub Steps-InOrder : (g h : Host) → Steps g h → InOrder g → InOrder h
Steps-InOrder g _ (Steps.stay _) o = o
Steps-InOrder g h (Steps.move _ k _ s t) o = Steps-InOrder k h t (Step-InOrder g k s o)

-- From a machine without a state file and without workers, whatever steps its workers take: two
-- workers that have the builder's role are the same worker, only a worker that has the role is at a
-- build, and no watcher is at a generation that has not been published.
pub workers_agree :
    (h : Host)
    → Steps initial h
    → ((p q : ℕ) → (h.dirs p).lock_fd ≡ true → (h.dirs q).lock_fd ≡ true → p ≡ q)
      × ((p : ℕ) (plan : Plan) → h.builds p ≡ some plan → (h.dirs p).lock_fd ≡ true)
      × ((p : ℕ) → h.seen p < next_generation h.folder.state_file)
workers_agree h t =
    let o = Steps-InOrder initial h t initial-InOrder in
    (one_builder h o, λ p plan at. (o.planned p plan at).0, o.behind)

-- the published state is the same, or of a higher generation
abbrev pub Later : StateFile → StateFile → Type 0
Later file file' = (file' ≡ file) ⊎ (next_generation file < next_generation file')

Later-trans : (f g h : StateFile) → Later f g → Later g h → Later f h
Later-trans f g h (inl a) (inl b) = inl (b ∙ a)
Later-trans f g h (inl a) (inr b) = inr (omega (arith, ap next_generation a, b))
Later-trans f g h (inr a) (inl b) = inr (omega (arith, ap next_generation b, a))
Later-trans f g h (inr a) (inr b) = inr (omega arith)

Step-Later : (g h : Host) → Step g h → InOrder g → Later g.folder.state_file h.folder.state_file
unfolding release_builder next_generation read state_of plan_of
Step-Later g _ (Step.elects p _ down) o = elim (try_become_builder_cases (g.dirs p) g.folder) [
  | inl (free, t) ↦ rw t (inl refl)
  | inr (holder, held, t) ↦ rw t (inl refl)
]
Step-Later g _ (Step.begins p is_dir stuck _ up) o = inl refl
Step-Later g _ (Step.makes p plan words _ at) o = inl refl
Step-Later g _ (Step.fails p _) o = inl refl
Step-Later g _ (Step.ends p disk now plan set report _ at) o =
    elim (publish_cases disk (state_of now plan set report) g.folder) [
      | inr (x, raised, (same, _, _)) ↦ inl same
      | inl (returned, written) ↦
          let next = ap (λ k. k.generation) (o.planned p plan at).1 in
          rw written (inr (omega (arith, next)))
    ]
Step-Later g _ (Step.leaves p _) o =
    if_cases (λ (r : SharedStateDir × Folder). Later g.folder.state_file r.1.state_file)
      (g.dirs p).lock_fd (λ _. inl refl) (λ _. inl refl)
Step-Later g _ (Step.watches p s _) o = inl refl

-- Among workers that are in order the state file only ever changes to one of a higher generation:
-- over any sequence of steps it is as before, or the next generation has grown.
pub Steps-Later :
    (g h : Host) → Steps g h → InOrder g → Later g.folder.state_file h.folder.state_file
Steps-Later g _ (Steps.stay _) o = inl refl
Steps-Later g h (Steps.move _ k _ s t) o =
    Later-trans _ k.folder.state_file _ (Step-Later g k s o)
      (Steps-Later k h t (Step-InOrder g k s o))
