-- ===== src/SingleFlight/Invariant.antt =====
-- What holds of the calls of cache/singleflight.py in every order of their steps.
use opencti_middleware.Base.{
  ℕ, ◌+◌, ◌≤◌, ◌<◌, String, ◌≡◌, refl, Option, none, some, ◌∷◌, arith, inl, inr, ◌==◌, str_eq,
  Bool-cases, Option-cases, eq_iff, find, without, find-without,
}
use opencti_middleware.Base.Result.{Result, raise, cancelled}
use opencti_middleware.SingleFlight.{
  update, Task, idle, leading, waiting, finished, Flight, start, begin, complete, resume,
  cancel_waiting, Step, begins, completes, resumes, cancels, Reach, here, next,
}

module _ {A : Type 0} where
  -- Each key in flight has one running leader whose future is not done, futures are not shared
  -- between keys, and who waits for a future that is not done waits for one in flight.
  pub record Inv (s : Flight A) : Type 0 where
    pub led :
        (key : String) (f : ℕ)
        → find key s.inflight ≡ some f
        → (i : ℕ) × (s.tasks i ≡ leading key f)
    pub leads :
        (i : ℕ) (key : String) (f : ℕ) → s.tasks i ≡ leading key f → find key s.inflight ≡ some f
    pub pending : (key : String) (f : ℕ) → find key s.inflight ≡ some f → s.futures f ≡ none
    pub one :
        (i j : ℕ) (key : String) (f g : ℕ)
        → s.tasks i ≡ leading key f
        → s.tasks j ≡ leading key g
        → i ≡ j
    pub apart :
        (key other : String) (f : ℕ)
        → find key s.inflight ≡ some f
        → find other s.inflight ≡ some f
        → key ≡ other
    pub awaited :
        (i f : ℕ)
        → s.tasks i ≡ waiting f
        → s.futures f ≡ none
        → (key : String) × (find key s.inflight ≡ some f)
    pub numbered : (key : String) (f : ℕ) → find key s.inflight ≡ some f → f < s.fresh
    pub unused : (f : ℕ) → s.fresh ≤ f → s.futures f ≡ none
    pub known : (i f : ℕ) → s.tasks i ≡ waiting f → f < s.fresh

  Inv-start : Inv start
  Inv-start = record {
    led = λ key f e. cc;
    leads = λ i key f e. cc;
    pending = λ key f e. refl;
    one = λ i j key f g e. cc;
    apart = λ key other f e. cc;
    awaited = λ i f e. cc;
    numbered = λ key f e. cc;
    unused = λ f h. refl;
    known = λ i f e. cc;
  }

  -- a task joins the flight of its key
  join-Inv :
      (i : ℕ) (key : String) (f : ℕ) (s : Flight A)
      → s.tasks i ≡ idle
      → find key s.inflight ≡ some f
      → Inv s
      → Inv (record s { tasks = update s.tasks i (waiting f) })
  join-Inv i key f s free found v = record {
    led = λ k g e. let (j, l) = v.led k g e in (j, ground (arith));
    leads = λ j k g e. v.leads j k g (ground arith);
    pending = v.pending;
    one = λ j k key' g h p q. v.one j k key' g h (ground arith) (ground arith);
    apart = v.apart;
    awaited = λ j g p q. elim (Bool-cases (i == j)) [
      | inl e ↦ (key, ground arith)
      | inr e ↦ v.awaited j g (ground arith) q
    ];
    numbered = v.numbered;
    unused = v.unused;
    known = λ j g p. ground (arith, v.numbered key f, v.known j g);
  }

  -- a task opens the flight of its key
  lead-Inv :
      (i : ℕ) (key : String) (s : Flight A)
      → s.tasks i ≡ idle
      → find key s.inflight ≡ none
      → Inv s
      → Inv (record s {
        inflight = (key, s.fresh) ∷ s.inflight;
        fresh = s.fresh + 1;
        tasks = update s.tasks i (leading key s.fresh);
      })
  lead-Inv i key s free absent v = record {
    led = λ k g e. elim (Bool-cases (str_eq key k)) [
      | inl same ↦ (i, ground (arith, eq_iff key k))
      | inr other ↦ let (j, l) = v.led k g (ground arith) in (j, ground arith)
    ];
    leads = λ j k g e. ground (arith, v.leads j k g, eq_iff key k);
    pending = λ k g e. ground (arith, v.pending k g, v.unused g);
    one =
        λ j k key' g h p q. ground (arith, v.one j k key' g h, v.leads j key' g, v.leads k key' h);
    apart = λ k other g p q. ground (
      arith,
      v.apart k other g,
      eq_iff key k,
      eq_iff key other,
      v.numbered k g,
      v.numbered other g,
    );
    awaited =
        λ j g p q. let (k, e) = v.awaited j g (ground arith) q in (k, ground (arith, eq_iff key k));
    numbered = λ k g e. ground (arith, v.numbered k g);
    unused = λ g h. v.unused g (omega arith);
    known = λ j g p. ground (arith, v.known j g);
  }

  -- the leader of a key is done
  land-Inv :
      (i : ℕ) (key : String) (f : ℕ) (outcome : Result A) (s : Flight A)
      → s.tasks i ≡ leading key f
      → Inv s
      → Inv (record s {
        futures = update s.futures f (some outcome);
        inflight = without key s.inflight;
        tasks = update s.tasks i (finished outcome);
      })
  land-Inv i key f outcome s l v = record {
    led = λ k g e.
        let (j, m) = v.led k g (ground (arith, find-without key k s.inflight)) in
        (j, ground (arith, find-without key k s.inflight, eq_iff key k));
    leads = λ j k g e.
        ground
          (arith, v.leads j k g, find-without key k s.inflight, eq_iff key k, v.one i j key f g);
    pending = λ k g e. ground (
      arith,
      v.pending k g,
      find-without key k s.inflight,
      v.apart key k f,
      v.leads i key f,
      eq_iff key k,
    );
    one = λ j k key' g h p q. ground (arith, v.one j k key' g h);
    apart = λ k other g p q. ground (
      arith,
      v.apart k other g,
      find-without key k s.inflight,
      find-without key other s.inflight,
    );
    awaited = λ j g p q.
        let (k, e) = v.awaited j g (ground arith) (ground arith) in
        (k, ground (arith, find-without key k s.inflight, eq_iff key k, v.leads i key f));
    numbered = λ k g e. ground (arith, v.numbered k g, find-without key k s.inflight);
    unused = λ g h. ground (arith, v.unused g, v.leads i key f, v.numbered key f);
    known = λ j g p. ground (arith, v.known j g);
  }

  -- a waiting task ends
  leave-Inv :
      (i f : ℕ) (outcome : Result A) (s : Flight A)
      → s.tasks i ≡ waiting f
      → Inv s
      → Inv (record s { tasks = update s.tasks i (finished outcome) })
  leave-Inv i f outcome s w v = record {
    led = λ k g e. let (j, l) = v.led k g e in (j, ground arith);
    leads = λ j k g e. v.leads j k g (ground arith);
    pending = v.pending;
    one = λ j k key' g h p q. v.one j k key' g h (ground arith) (ground arith);
    apart = v.apart;
    awaited = λ j g p q. v.awaited j g (ground arith) q;
    numbered = v.numbered;
    unused = v.unused;
    known = λ j g p. v.known j g (ground arith);
  }

  begin-Inv : (i : ℕ) (key : String) (s : Flight A) → s.tasks i ≡ idle → Inv s → Inv (begin i key s)
  unfolding begin
  begin-Inv i key s free v = elim (Option-cases (find key s.inflight)) [
    | inl e ↦ rw (e, begin) (lead-Inv i key s free e v)
    | inr (f, e) ↦ rw (e, begin) (join-Inv i key f s free e v)
  ]

  complete-Inv : (i : ℕ) (outcome : Result A) (s : Flight A) → Inv s → Inv (complete i outcome s)
  unfolding complete
  complete-Inv i outcome s v = go (s.tasks i) refl
    where
      go : (t : Task A) → s.tasks i ≡ t → Inv (complete i outcome s)
      go (leading key f) e =
          rw (e, complete, v.pending key f (v.leads i key f e)) (land-Inv i key f outcome s e v)
      go idle e = rw (e, complete) v
      go (waiting f) e = rw (e, complete) v
      go (finished r) e = rw (e, complete) v

  -- a waiting task goes on, or is cancelled
  waiting-Inv : (i : ℕ) (s : Flight A) → Inv s → Inv (resume i s) × Inv (cancel_waiting i s)
  unfolding resume cancel_waiting
  waiting-Inv i s v = go (s.tasks i) refl
    where
      wake :
          (f : ℕ) (r : Option (Result A))
          → s.futures f ≡ r
          → s.tasks i ≡ waiting f
          → Inv (resume i s)
      wake f none d e = rw (e, resume, d) v
      wake f (some r) d e = rw (e, resume, d) (leave-Inv i f r s e v)

      go : (t : Task A) → s.tasks i ≡ t → Inv (resume i s) × Inv (cancel_waiting i s)
      go (waiting f) e = (
        wake f (s.futures f) refl e,
        rw (e, cancel_waiting) (leave-Inv i f (raise cancelled) s e v),
      )
      go idle e = (rw (e, resume) v, rw (e, cancel_waiting) v)
      go (leading key f) e = (rw (e, resume) v, rw (e, cancel_waiting) v)
      go (finished r) e = (rw (e, resume) v, rw (e, cancel_waiting) v)

  pub Step-Inv : {s t : Flight A} → Step s t → Inv s → Inv t
  Step-Inv {s} (begins i key free) v = begin-Inv i key s free v
  Step-Inv {s} (completes i outcome) v = complete-Inv i outcome s v
  Step-Inv {s} (resumes i) v = (waiting-Inv i s v).0
  Step-Inv {s} (cancels i) v = (waiting-Inv i s v).1

  pub Reach-Inv : {s : Flight A} → Reach s → Inv s
  Reach-Inv here = Inv-start
  Reach-Inv (next r step) = Step-Inv step (Reach-Inv r)
