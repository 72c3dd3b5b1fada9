-- ===== src/Loader/Workers/Order.antt =====
-- Every step of the workers keeps them in order: the invariant of `Step`.
use opencti_middleware.Base.{
  ℕ, ◌+◌, ◌<◌, String, ◌≡◌, ◌≢◌, refl, ◌∙◌, sym, ap, Bool, true, false, false≢true, Option, none,
  some, arith, inl, inr, leb, ◌==◌, ==_iff, Option-cases,
}
use mathlib.Core.Path.{subst}
use mathlib.Core.Option.{some-injective}
use opencti_middleware.Base.{if_cases}
use opencti_middleware.Settings.{Settings}
use opencti_middleware.Membership.{Segments, MembershipSet}
use opencti_middleware.Bootstrap.{Report}
use opencti_middleware.Shared.{
  Folder, SharedStateDir, StateFile, missing, unreadable, not_json, unexpected, holds,
  release_builder, Disk, read, next_generation,
}
use opencti_middleware.Shared.Publish.{publish_cases}
use opencti_middleware.Loader.{Plan, plan_of, state_of, attach_to}
use opencti_middleware.Loader.Locks.{try_become_builder_cases}
use opencti_middleware.Loader.Watch.{watch_once}
use opencti_middleware.Loader.Workers.{
  Host, assign, initial, elect, begin_build, end_build, leave, InOrder,
}

-- what holds of the new value for its worker, and of the old ones, holds of all
assign_cases {ℓ κ} :
    {V : Type ℓ} (P : V → Type κ) (p : ℕ) (v : V) (f : ℕ → V) (q : ℕ)
    → (p ≡ q → P v)
    → (p ≢ q → P (f q))
    → P (assign p v f q)
unfolding assign
assign_cases P p v f q new old =
    if_cases P (p == q) (λ e. new ((==_iff p q).0 e))
      (λ e. old (λ same. absurd (ground (arith, ==_iff p q))))

assign_other {ℓ} : {V : Type ℓ} (p : ℕ) (v : V) (f : ℕ → V) (q : ℕ) → p ≢ q → assign p v f q ≡ f q
assign_other p v f q ne = assign_cases (λ x. x ≡ f q) p v f q (λ same. absurd (ne same)) (λ _. refl)

-- a build that is there after one has ended is another worker's
assigned_none :
    (p : ℕ) (f : ℕ → Option Plan) (q : ℕ) (plan : Plan)
    → assign p none f q ≡ some plan
    → (f q ≡ some plan) × (p ≢ q)
unfolding assign
assigned_none p f q plan =
    if_cases (λ b. b ≡ some plan → (f q ≡ some plan) × (p ≢ q)) (p == q) (λ _ bad. absurd cc)
      (λ e h. (h, λ same. ground (arith, ==_iff p q)))

pub initial-InOrder : InOrder initial
unfolding next_generation read
initial-InOrder = record {
  pids = λ p. refl;
  owner = λ p h. cc;
  planned = λ p plan h. cc;
  behind = λ p. omega arith;
}

watch_once-lt :
    (s : Settings) (file : StateFile) (shm : Segments) (generation : ℕ)
    → generation < next_generation file
    → (watch_once s (file, shm) generation).0 < next_generation file
unfolding watch_once next_generation read
watch_once-lt s missing shm g h = h
watch_once-lt s unreadable shm g h = h
watch_once-lt s not_json shm g h = h
watch_once-lt s unexpected shm g h = h
watch_once-lt s (holds st) shm g h =
    if_cases (λ (r : ℕ × Option MembershipSet). r.0 < st.generation + 1) (leb st.generation g)
      (λ _. h)
      λ _. elim (Option-cases (attach_to st s shm)) [
        | inl e ↦ rw (e, watch_once) h
        | inr (m, e) ↦ rw (e, watch_once) (omega arith)
      ]

module _ (h : Host) (o : InOrder h) where
  -- two workers that think that they hold the lock are one
  pub one_builder : (p q : ℕ) → (h.dirs p).lock_fd ≡ true → (h.dirs q).lock_fd ≡ true → p ≡ q
  one_builder p q a b = some-injective p q (sym (o.owner p a) ∙ o.owner q b)

  pub watch-InOrder :
      (p : ℕ) (s : Settings)
      → InOrder (record h {
        seen = assign p (watch_once s (h.folder.state_file, h.shm) (h.seen p)).0 h.seen;
      })
  watch-InOrder p s = record {
    pids = o.pids;
    owner = o.owner;
    planned = o.planned;
    behind = λ q.
        assign_cases (λ n. n < next_generation h.folder.state_file) p _ h.seen q
          (λ _. watch_once-lt s h.folder.state_file h.shm (h.seen p) (o.behind p))
          (λ _. o.behind q);
  }

  pub fail-InOrder : (p : ℕ) → InOrder (record h { builds = assign p none h.builds })
  fail-InOrder p = record {
    pids = o.pids;
    owner = o.owner;
    planned = λ q plan.
        assign_cases
          (λ b. b ≡ some plan → ((h.dirs q).lock_fd ≡ true) × (plan ≡ plan_of h.folder.state_file))
          p none h.builds q (λ _ bad. cc) (λ _. o.planned q plan);
    behind = o.behind;
  }

  pub begin-InOrder :
      (p : ℕ) (is_dir : Bool) (stuck : String → Bool)
      → (h.dirs p).lock_fd ≡ true
      → InOrder (begin_build p is_dir stuck h)
  begin-InOrder p is_dir stuck fd = record {
    pids = o.pids;
    owner = o.owner;
    planned = λ q plan.
        assign_cases
          (λ b. b ≡ some plan → ((h.dirs q).lock_fd ≡ true) × (plan ≡ plan_of h.folder.state_file))
          p (some (plan_of h.folder.state_file)) h.builds q
          (λ same e. (subst (λ k. (h.dirs k).lock_fd ≡ true) same fd, sym (some-injective _ _ e)))
          (λ _. o.planned q plan);
    behind = o.behind;
  }

  pub leave-InOrder : (p : ℕ) → InOrder (leave p h)
  unfolding release_builder
  leave-InOrder p =
      if_cases
        (λ (r : SharedStateDir × Folder).
          InOrder (record h {
            dirs = assign p r.0 h.dirs;
            folder = r.1;
            builds = assign p none h.builds;
          }))
        (h.dirs p).lock_fd held not_held
    where
      held :
          (h.dirs p).lock_fd ≡ true
          → InOrder (record h {
            dirs = assign p (record (h.dirs p) { lock_fd = false }) h.dirs;
            folder = record h.folder { lock_holder = none };
            builds = assign p none h.builds;
          })
      held fd = record {
        pids = λ q.
            assign_cases (λ d. d.pid ≡ q) p _ h.dirs q (λ same. o.pids p ∙ same) (λ _. o.pids q);
        owner = λ q.
            assign_cases (λ d. d.lock_fd ≡ true → none ≡ some q) p _ h.dirs q
              (λ same bad. absurd (false≢true bad)) (λ ne up. absurd (ne (one_builder p q fd up)));
        planned = λ q plan k.
            let (there, ne) = assigned_none p h.builds q plan k in
            let (up, current) = o.planned q plan there in absurd (ne (one_builder p q fd up));
        behind = o.behind;
      }

      not_held :
          (h.dirs p).lock_fd ≡ false
          → InOrder (record h {
            dirs = assign p (h.dirs p) h.dirs;
            folder = h.folder;
            builds = assign p none h.builds;
          })
      not_held fd = record {
        pids = λ q.
            assign_cases (λ d. d.pid ≡ q) p (h.dirs p) h.dirs q (λ same. o.pids p ∙ same)
              (λ _. o.pids q);
        owner = λ q.
            assign_cases (λ d. d.lock_fd ≡ true → h.folder.lock_holder ≡ some q) p (h.dirs p) h.dirs
              q (λ same up. absurd (false≢true (sym fd ∙ up))) (λ _. o.owner q);
        planned = λ q plan k.
            let (there, ne) = assigned_none p h.builds q plan k in
            let (up, current) = o.planned q plan there in
            (ap (λ d. d.lock_fd) (assign_other p (h.dirs p) h.dirs q ne) ∙ up, current);
        behind = o.behind;
      }

  pub elect-InOrder : (p : ℕ) → (h.dirs p).lock_fd ≡ false → InOrder (elect p h)
  elect-InOrder p down = elim (try_become_builder_cases (h.dirs p) h.folder) [
    | inl (free, t) ↦ rw t (won free)
    | inr (holder, held, t) ↦ rw t lost
  ]
    where
      won :
          h.folder.lock_holder ≡ none
          → InOrder (record h {
            dirs = assign p (record (h.dirs p) { lock_fd = true }) h.dirs;
            folder = record h.folder {
              lock_holder = some (h.dirs p).pid;
              lock_pid = some (h.dirs p).pid;
            };
          })
      won free = record {
        pids = λ q.
            assign_cases (λ d. d.pid ≡ q) p _ h.dirs q (λ same. o.pids p ∙ same) (λ _. o.pids q);
        owner = λ q.
            assign_cases (λ d. d.lock_fd ≡ true → some (h.dirs p).pid ≡ some q) p _ h.dirs q
              (λ same _. ap some (o.pids p ∙ same)) (λ ne up. let held = o.owner q up in cc);
        planned =
            λ q plan k. let (up, current) = o.planned q plan k in let held = o.owner q up in cc;
        behind = o.behind;
      }

      lost : InOrder (record h { dirs = assign p (h.dirs p) h.dirs })
      lost = record {
        pids = λ q.
            assign_cases (λ d. d.pid ≡ q) p _ h.dirs q (λ same. o.pids p ∙ same) (λ _. o.pids q);
        owner = λ q.
            assign_cases (λ d. d.lock_fd ≡ true → h.folder.lock_holder ≡ some q) p _ h.dirs q
              (λ same up. absurd (false≢true (sym down ∙ up))) (λ _. o.owner q);
        planned = λ q plan k.
            let (up, current) = o.planned q plan k in
            (
              assign_cases (λ d. d.lock_fd ≡ true) p (h.dirs p) h.dirs q (λ same. rw same up)
                  (λ _. up),
              current,
            );
        behind = o.behind;
      }

  pub end-InOrder :
      (p : ℕ) (disk : Disk) (now : ℕ) (plan : Plan) (set : MembershipSet) (report : Report)
      → h.builds p ≡ some plan
      → InOrder (end_build p disk now plan set report h)
  unfolding next_generation read state_of plan_of
  end-InOrder p disk now plan set report at =
      elim (publish_cases disk (state_of now plan set report) h.folder) [
        | inr (x, raised, (same, lock, _)) ↦ record {
          pids = o.pids;
          owner = λ q up. lock ∙ o.owner q up;
          planned = λ q plan' k.
              let (up, current) = o.planned q plan' (assigned_none p h.builds q plan' k).0 in
              (up, current ∙ ap plan_of (sym same));
          behind = λ q. subst (λ f. h.seen q < next_generation f) (sym same) (o.behind q);
        }
        | inl (returned, written) ↦ rw written (published (o.planned p plan at))
      ]
    where
      published :
          ((h.dirs p).lock_fd ≡ true) × (plan ≡ plan_of h.folder.state_file)
          → InOrder (record h {
            builds = assign p none h.builds;
            folder = record h.folder { state_file = holds (state_of now plan set report) };
          })
      published (fd, current) = record {
        pids = o.pids;
        owner = o.owner;
        planned = λ q plan' k.
            let (there, ne) = assigned_none p h.builds q plan' k in
            absurd (ne (one_builder p q fd (o.planned q plan' there).0));
        behind = λ q. let next = ap (λ k. k.generation) current in omega (arith, next, o.behind q);
      }
