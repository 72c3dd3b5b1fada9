-- ===== src/Reconcile/Leftovers.antt =====
-- Which segments a rebuild leaves (`_rebuild` of reconcile.py).
use opencti_middleware.Base.{
  ℕ, String, ◌≡◌, ◌≢◌, refl, ◌∙◌, sym, ap, Bool, true, false, not, ◌&&◌, ◌||◌, Option, none, some,
  List, [], ◌∷◌, ◌++◌, arith, inl, inr, str_eq, Option-cases, if◌then◌else◌, eq_iff,
}
use opencti_middleware.Base.Result.{Result, ok, raise, file_exists}
use opencti_middleware.Settings.{Settings}
use opencti_middleware.Membership.{
  Segments, find_segment, MembershipSet, allocate, build, add, remove,
}
use opencti_middleware.Membership.Overlay.{Update, added, removed, apply, apply_all}
use opencti_middleware.Indicators.{Normalized}
use opencti_middleware.Base.Text.{text_elem, has_prefix}
use opencti_middleware.Shared.{
  StateFile, missing, unreadable, not_json, unexpected, holds, read, segment_prefix, is_stale,
  sweep_stale_segments,
}
use opencti_middleware.Shared.Sweep.{find_segment-sweep_stale_segments}
use opencti_middleware.Loader.{Machine, plan_of, kept}
use opencti_middleware.Reconcile.{Reconciler, Round, kept_after, rebuild}
use opencti_middleware.Reconcile.Rebuild.{after_build}
use opencti_middleware.Reconcile.Answers.{success, after_build-backend, adopt_build-shm}

-- an allocation leaves the other segments alone
find_segment-allocate :
    (a pad : List ℕ) (name other : String) (overlay_max : ℕ) (shm : Segments) (s : MembershipSet)
    (shm' : Segments)
    → allocate a pad name overlay_max shm ≡ ok (s, shm')
    → other ≢ name
    → find_segment other shm' ≡ find_segment other shm
unfolding allocate find_segment
find_segment-allocate [] pad name other om shm s shm' h ne =
    let same : shm ≡ shm' = cc in ap (find_segment other) (sym same)
find_segment-allocate (x ∷ a) pad name other om shm s shm' h ne =
    elim (Option-cases (find_segment name shm)) [
      | inr (w, e) ↦
          let made : Result (MembershipSet × Segments) = ok (s, shm') in
          let bad : raise file_exists ≡ made = rw (e, allocate) at h in absurd cc
      | inl e ↦
          let same : (name, (x ∷ a) ++ pad) ∷ shm ≡ shm' = ground arith in
          ap (find_segment other) (sym same)
          ∙ ground (arith, eq_iff name other, λ (k : name ≡ other). ne (sym k))
    ]

-- updates leave the mapped segment
apply_all-shm :
    (blake2b : String → List ℕ) (us : List Update) (s : MembershipSet)
    → (apply_all blake2b us s).shm ≡ s.shm
unfolding apply_all apply add remove
apply_all-shm blake2b [] s = refl
apply_all-shm blake2b (added v ∷ us) s = apply_all-shm blake2b us _
apply_all-shm blake2b (removed v ∷ us) s = apply_all-shm blake2b us _

find_segment-sweep :
    (is_dir : Bool) (keep : List String) (stuck : String → Bool) (name : String) (shm : Segments)
    → find_segment name (sweep_stale_segments is_dir keep stuck shm).1
      ≡ (if is_dir && is_stale keep stuck name then none else find_segment name shm)
unfolding sweep_stale_segments
find_segment-sweep true keep stuck name shm = find_segment-sweep_stale_segments keep stuck name shm
find_segment-sweep false keep stuck name shm = refl

-- the name of the segment that a state file publishes
abbrev pub published_name : StateFile → Option String
published_name file = elim (read file) [ none ↦ none | some s ↦ some s.shm_name ]

-- the name is there, and is this one
abbrev pub is_named : Option String → String → Bool
is_named none name = false
is_named (some known) name = str_eq known name

-- a name of a segment that is neither published nor mapped, and that can be removed
abbrev pub is_superseded : StateFile → Option String → (String → Bool) → String → Bool
is_superseded file mapped stuck name =
    has_prefix segment_prefix name
    && not (is_named (published_name file) name)
    && not (is_named mapped name)
    && not (stuck name)

text_elem-append :
    (name : String) (names : List String) (last : String)
    → text_elem name (names ++ last ∷ []) ≡ (text_elem name names || str_eq last name)
text_elem-append name [] last = ground arith
text_elem-append name (x ∷ names) last = ground (arith, text_elem-append name names last)

-- the published name as the list that is kept
abbrev published_names : StateFile → List String
published_names file = elim (read file) [ none ↦ [] | some s ↦ s.shm_name ∷ [] ]

kept_named :
    (file : StateFile) (name : String)
    → text_elem name (published_names file) ≡ is_named (published_name file) name
unfolding read
kept_named missing name = refl
kept_named unreadable name = refl
kept_named not_json name = refl
kept_named unexpected name = refl
kept_named (holds st) name = ground arith

is_stale-kept_after :
    (file : StateFile) (mapped : Option String) (stuck : String → Bool) (name : String)
    → name ≢ (plan_of file).name
    → is_stale (kept_after file mapped) stuck name ≡ is_superseded file mapped stuck name
unfolding is_stale kept_after kept
is_stale-kept_after file mapped stuck name ne = go mapped
  where
    new : String
    new = (plan_of file).name

    other : str_eq new name ≡ false
    other = ground (arith, eq_iff new name, λ (k : new ≡ name). ne (sym k))

    go :
        (mapped : Option String)
        → is_stale (kept_after file mapped) stuck name ≡ is_superseded file mapped stuck name
    go none = ground (arith, other, kept_named file name)
    go (some old) =
        ground
          (arith, other, kept_named file name, text_elem-append name (published_names file) old)

module _ (blake2b : String → List ℕ) (unique : List ℕ → List ℕ) (padding : ℕ → List ℕ)
    (normalize : String → Normalized) where
  -- A rebuild that succeeds changes no segment but the new one: each other name is found as before,
  -- unless the mount exists, the name has the prefix of the segments, is not that of the segment
  -- that was published before nor that of the one this process has mapped, and the system lets it be
  -- removed. Those are removed.
  pub rebuild_segments :
      (s : Settings) (o : Round) (reason : String) (r r' : Reconciler) (m m' : Machine) (b : Bool)
      (name : String)
      → rebuild blake2b unique padding normalize s o reason r m ≡ (some (ok b), r', m')
      → name ≢ (plan_of m.folder.state_file).name
      → find_segment name m'.shm ≡ (
          if o.surroundings.is_dir
            && is_superseded m.folder.state_file r.backend.membership.shm o.surroundings.stuck name
          then none
          else find_segment name m.shm)
  unfolding build
  rebuild_segments s o reason r r' m m' b name h ne =
      let e = o.surroundings in
      let file = m.folder.state_file in
      let (set, report, shm, (values, loads, k), written, adopted) =
        success blake2b unique padding normalize s o reason r r' m m' b h in
      let after = after_build blake2b unique padding normalize o r in
      let mapped : after.backend.membership.shm ≡ r.backend.membership.shm =
        ap (λ b. b.membership.shm) (after_build-backend blake2b unique padding normalize o r)
        ∙ apply_all-shm blake2b o.updates r.backend.membership in
      ap (λ p. find_segment name p.1) adopted
      ∙ ap (find_segment name) (adopt_build-shm o reason file set shm after)
      ∙ find_segment-sweep e.is_dir (kept_after file after.backend.membership.shm) e.stuck name shm
      ∙ ap
          (λ k.
            if e.is_dir && is_stale (kept_after file k) e.stuck name
            then none
            else find_segment name shm)
          mapped
      ∙ ap (λ k. if e.is_dir && k then none else find_segment name shm)
          (is_stale-kept_after file r.backend.membership.shm e.stuck name ne)
      ∙ ap
          (λ f.
            if e.is_dir && is_superseded file r.backend.membership.shm e.stuck name
            then none
            else f)
          (find_segment-allocate _ _ _ name _ m.shm set shm k ne)
