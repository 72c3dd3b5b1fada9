-- ===== src/Membership/Overlay.antt =====
-- The overlay of backends/membership.py: live-stream updates between two builds, and its carry to a
-- newly built set.
use opencti_middleware.Base.{
  ℕ, String, ◌≡◌, refl, ap, ◌∙◌, Bool, true, false, ◌&&◌, Option, none, some, List, [], ◌∷◌, arith,
  ◌==◌, if◌then◌else◌, elem, union, difference, elem-set_add, elem-discard, elem-union,
  elem-difference, Distinct, set_add-Distinct, discard-Distinct, union-nil, difference-disjoint,
}
use mathlib.Core.Path.{fun_ext}
use opencti_middleware.Membership.{
  MembershipSet, fingerprint, contains, add, remove, adopt_overlay, overlay_full,
}

-- The two sets of an overlay are sets, and no fingerprint is both added and removed.
pub record IsOverlay (s : MembershipSet) : Type 0 where
  pub disjoint : (x : ℕ) → elem x s.added && elem x s.tombstones ≡ false
  pub added_distinct : Distinct s.added
  pub tombstones_distinct : Distinct s.tombstones

-- The live stream's calls on a set: `on_add` and `on_remove`.
pub data Update : Type 0 where
  added : String → Update
  removed : String → Update

module _ (blake2b : String → List ℕ) where
  -- After an addition exactly the values with that fingerprint have become members.
  pub contains-add :
      (s : MembershipSet) (v w : String)
      → contains blake2b (add blake2b v s) w
        ≡ (if fingerprint blake2b v == fingerprint blake2b w then true else contains blake2b s w)
  unfolding contains add
  contains-add s v w =
      let x = fingerprint blake2b v in
      let y = fingerprint blake2b w in
      ground (arith, elem-set_add y x s.added, elem-discard y x s.tombstones)

  -- After a removal exactly the values with that fingerprint are members no more.
  pub contains-remove :
      (s : MembershipSet) (v w : String)
      → contains blake2b (remove blake2b v s) w
        ≡ (if fingerprint blake2b v == fingerprint blake2b w then false else contains blake2b s w)
  unfolding contains remove
  contains-remove s v w =
      let x = fingerprint blake2b v in
      let y = fingerprint blake2b w in
      ground (arith, elem-discard y x s.added, elem-set_add y x s.tombstones)

  pub add-IsOverlay : (s : MembershipSet) (v : String) → IsOverlay s → IsOverlay (add blake2b v s)
  unfolding add
  add-IsOverlay s v o =
      let y = fingerprint blake2b v in
      record {
        disjoint = λ x.
            ground (arith, elem-set_add x y s.added, elem-discard x y s.tombstones, o.disjoint x);
        added_distinct = set_add-Distinct y s.added o.added_distinct;
        tombstones_distinct = discard-Distinct y s.tombstones o.tombstones_distinct;
      }

  pub remove-IsOverlay :
      (s : MembershipSet) (v : String) → IsOverlay s → IsOverlay (remove blake2b v s)
  unfolding remove
  remove-IsOverlay s v o =
      let y = fingerprint blake2b v in
      record {
        disjoint = λ x.
            ground (arith, elem-discard x y s.added, elem-set_add x y s.tombstones, o.disjoint x);
        added_distinct = discard-Distinct y s.added o.added_distinct;
        tombstones_distinct = set_add-Distinct y s.tombstones o.tombstones_distinct;
      }

  -- What the overlay of `old` says of a value, where it says anything.
  abbrev pub said : MembershipSet → String → Option Bool
  said old v =
      let fp = fingerprint blake2b v in
      if elem fp old.tombstones then some false else if elem fp old.added then some true else none

  -- A set without tombstones takes over an old overlay: what the old overlay says of a value
  -- decides, and where it says nothing the set itself.
  pub contains-adopt_overlay :
      (s old : MembershipSet)
      → s.tombstones ≡ []
      → (v : String)
      → contains blake2b (adopt_overlay s old) v
        ≡ elim (said old v) [ none ↦ contains blake2b s v | some b ↦ b ]
  unfolding contains adopt_overlay
  contains-adopt_overlay s old fresh v =
      let x = fingerprint blake2b v in
      ground (
        arith,
        elem-difference x (union s.added old.added) old.tombstones,
        elem-union x s.added old.added,
        elem-union x s.tombstones old.tombstones,
        ap (elem x) fresh,
      )

  unfoldable pub apply : Update → MembershipSet → MembershipSet
  apply (added v) s = add blake2b v s
  apply (removed v) s = remove blake2b v s

  unfoldable pub apply_all : List Update → MembershipSet → MembershipSet
  apply_all [] s = s
  apply_all (u ∷ us) s = apply_all us (apply u s)

  -- The answer of a map from fingerprints that is written at every update.
  abbrev pub written : Update → (String → Bool) → String → Bool
  written (added v) before w =
      if fingerprint blake2b v == fingerprint blake2b w then true else before w
  written (removed v) before w =
      if fingerprint blake2b v == fingerprint blake2b w then false else before w

  abbrev pub written_all : List Update → (String → Bool) → String → Bool
  written_all [] before = before
  written_all (u ∷ us) before = written_all us (written u before)

  contains-apply :
      (u : Update) (s : MembershipSet) (w : String)
      → contains blake2b (apply u s) w ≡ written u (contains blake2b s) w
  unfolding apply
  contains-apply (added v) s w = contains-add s v w
  contains-apply (removed v) s w = contains-remove s v w

  -- After any sequence of updates a set answers as a map does that every update writes: the last
  -- update of a fingerprint decides, and where there is none the set's first answer stays.
  pub contains-apply_all :
      (us : List Update) (s : MembershipSet)
      → contains blake2b (apply_all us s) ≡ written_all us (contains blake2b s)
  unfolding apply_all
  contains-apply_all [] s = refl
  contains-apply_all (u ∷ us) s =
      contains-apply_all us (apply u s) ∙ ap (written_all us) (fun_ext (contains-apply u s))

  -- From a proper overlay every sequence of updates leads to a proper overlay.
  pub apply_all-IsOverlay :
      (us : List Update) (s : MembershipSet) → IsOverlay s → IsOverlay (apply_all us s)
  unfolding apply_all apply
  apply_all-IsOverlay [] s o = o
  apply_all-IsOverlay (added v ∷ us) s o = apply_all-IsOverlay us _ (add-IsOverlay s v o)
  apply_all-IsOverlay (removed v ∷ us) s o = apply_all-IsOverlay us _ (remove-IsOverlay s v o)

-- A rebuild never makes room: the set that is swapped in takes over the old overlay whole, so with
-- the same cap it is full exactly if the old one was.
pub overlay_full-adopt_overlay :
    (s old : MembershipSet)
    → IsOverlay old
    → s.added ≡ []
    → s.tombstones ≡ []
    → s.overlay_max ≡ old.overlay_max
    → ((adopt_overlay s old).added ≡ old.added)
      × ((adopt_overlay s old).tombstones ≡ old.tombstones)
      × (overlay_full (adopt_overlay s old) ≡ overlay_full old)
unfolding overlay_full adopt_overlay
overlay_full-adopt_overlay s old o noadd nodel cap = (adds, dels, rw (adds, dels, cap))
  where
    adds : difference (union s.added old.added) old.tombstones ≡ old.added
    adds =
        rw (noadd, union-nil old.added o.added_distinct)
          (difference-disjoint old.added old.tombstones o.disjoint)

    dels : union s.tombstones old.tombstones ≡ old.tombstones
    dels = rw nodel (union-nil old.tombstones o.tombstones_distinct)
