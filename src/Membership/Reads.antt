-- ===== src/Membership/Reads.antt =====
-- `__contains__` of backends/membership.py: what a set answers after `build` and `attach`.
use opencti_middleware.Base.{
  ℕ, suc, ◌+◌, ◌^◌, ◌*◌, ◌<◌, String, ◌≡◌, ◌≢◌, refl, ap, sym, ◌∙◌, Bool, true, false, not, ◌&&◌,
  ◌||◌, Option, none, some, List, [], ◌∷◌, ◌++◌, map, arith, inl, inr, length, take,
  take-append_left, take_of_length-le, All, ◌==◌, eq_refl, elem, Option-cases,
}
use native.Mathlib.Nat.{pow-suc}
use mathlib.Core.Path.{subst}
use mathlib.Core.Option.{some-injective}
use opencti_middleware.Base.Result.{ok}
use opencti_middleware.Membership.{
  Segments, find_segment, MembershipSet, init, from_bytes, fingerprint, contains, in_view,
  packed_array, allocate, build, attach, iter_packed,
}
use opencti_middleware.Membership.Bisect.{Ascending, in_view-eq-elem}
use opencti_middleware.Membership.Packing.{limit_to, packed_array-eq}

-- What numpy documents of `np.unique`: the distinct elements, in ascending order.
pub record IsUnique (unique : List ℕ → List ℕ) : Type 0 where
  pub ascending : (xs : List ℕ) → Ascending (unique xs)
  pub same : (x : ℕ) (xs : List ℕ) → elem x (unique xs) ≡ elem x xs

-- What hashlib documents of an eight byte digest.
pub record IsDigest (blake2b : String → List ℕ) : Type 0 where
  pub eight : (v : String) → length (blake2b v) ≡ 8
  pub bytes : (v : String) → All (λ b. b < 256) (blake2b v)

-- The view holds `count` ascending words.
pub record IsPacked (s : MembershipSet) : Type 0 where
  pub ascending : (a : List ℕ) → s.view ≡ some a → Ascending a
  pub counted : (a : List ℕ) → s.view ≡ some a → length a ≡ s.count

-- The words that a search of the view can find.
in_view-eq-iter_packed :
    (s : MembershipSet) (fp : ℕ) → IsPacked s → in_view s.view s.count fp ≡ elem fp (iter_packed s)
unfolding iter_packed
in_view-eq-iter_packed s fp p = elim (Option-cases s.view) [
  | inl e ↦ rw e (unfold in_view in refl)
  | inr (a, e) ↦
      subst (λ c. in_view s.view c fp ≡ elem fp (elim s.view [ none ↦ [] | some view ↦ view ]))
        (p.counted a e) (rw e (in_view-eq-elem a fp (p.ascending a e)))
]

take-append_length : (a pad : List ℕ) → take (length a) (a ++ pad) ≡ a
take-append_length a pad =
    take-append_left (length a) a pad (omega arith) ∙ take_of_length-le (length a) a (omega arith)

IsPacked-of_view :
    (s : MembershipSet) (a : List ℕ)
    → s.view ≡ some a
    → Ascending a
    → length a ≡ s.count
    → IsPacked s × (iter_packed s ≡ a)
unfolding iter_packed
IsPacked-of_view s a e h n = (
  record {
    ascending = λ b f. subst Ascending (some-injective a b (sym e ∙ f)) h;
    counted = λ b f. subst (λ l. length l ≡ s.count) (some-injective a b (sym e ∙ f)) n;
  },
  rw e,
)

IsPacked-of_none : (s : MembershipSet) → s.view ≡ none → IsPacked s × (iter_packed s ≡ [])
unfolding iter_packed
IsPacked-of_none s e = (record { ascending = λ b f. cc; counted = λ b f. cc }, rw e)

-- What is mapped when a segment begins with the ascending words `a`.
init-IsPacked :
    (name : String) (a pad : List ℕ) (owner : Bool) (overlay_max : ℕ)
    → Ascending a
    → let s = init (some (name, a ++ pad)) (length a) owner overlay_max in
      IsPacked s × (iter_packed s ≡ a)
unfolding init
init-IsPacked name [] pad owner overlay_max h = IsPacked-of_none _ refl
init-IsPacked name (x ∷ a) pad owner overlay_max h =
    IsPacked-of_view _ (x ∷ a)
      (let e : (suc (length a) == 0) ≡ false = ground arith in
        rw e (ap some (take-append_length (x ∷ a) pad)))
      h refl

-- A set with an empty overlay, whose packed words are `a`.
abbrev pub Fresh : MembershipSet → List ℕ → Type 0
Fresh s a = IsPacked s × (iter_packed s ≡ a) × (s.added ≡ []) × (s.tombstones ≡ [])

init-Fresh :
    (name : String) (a pad : List ℕ) (owner : Bool) (overlay_max : ℕ)
    → Ascending a
    → Fresh (init (some (name, a ++ pad)) (length a) owner overlay_max) a
init-Fresh name a pad owner overlay_max h =
    let (p, i) = init-IsPacked name a pad owner overlay_max h in
    (p, i, unfold init in refl, unfold init in refl)

allocate-Fresh :
    (a pad : List ℕ) (name : String) (overlay_max : ℕ) (shm : Segments) {s : MembershipSet}
    {shm' : Segments}
    → Ascending a
    → allocate a pad name overlay_max shm ≡ ok (s, shm')
    → Fresh s a
unfolding allocate
allocate-Fresh [] pad name overlay_max shm {s} h e =
    let (p, i) = IsPacked-of_none (init none 0 true overlay_max) (unfold init in refl) in
    let same : init none 0 true overlay_max ≡ s = cc in
    subst (λ t. Fresh t []) same (p, i, unfold init in refl, unfold init in refl)
allocate-Fresh (x ∷ a) pad name overlay_max shm {s} h e =
    let same : init (some (name, (x ∷ a) ++ pad)) (length (x ∷ a)) true overlay_max ≡ s =
      ground arith in
    subst (λ t. Fresh t (x ∷ a)) same (init-Fresh name (x ∷ a) pad true overlay_max h)

-- A process that attaches to the segment just made maps the same words.
attach-allocate :
    (a pad : List ℕ) (name : String) (overlay_max : ℕ) (shm : Segments) {s : MembershipSet}
    {shm' : Segments}
    → Ascending a
    → a ≢ []
    → allocate a pad name overlay_max shm ≡ ok (s, shm')
    → (m : ℕ) → (r : MembershipSet) × (attach name s.count m shm' ≡ ok r) × Fresh r a
unfolding allocate attach find_segment init
attach-allocate [] pad name overlay_max shm h ne e m = absurd (ne refl)
attach-allocate (x ∷ a) pad name overlay_max shm {s} {shm'} h ne e m =
    let r = init (some (name, (x ∷ a) ++ pad)) (length (x ∷ a)) false m in
    (r, ground (arith, eq_refl name), init-Fresh name (x ∷ a) pad false m h)

from_bytes-lt :
    (acc k : ℕ) (bs : List ℕ)
    → All (λ b. b < 256) bs
    → acc < k
    → from_bytes acc bs < k * 256 ^ length bs
unfolding from_bytes
from_bytes-lt acc k [] h lt = omega arith
from_bytes-lt acc k (b ∷ bs) h lt =
    rw (pow-suc 256 (length bs))
      (omega (arith, from_bytes-lt (acc * 256 + b) (k * 256) bs h.1 (omega arith)))

module _ (blake2b : String → List ℕ) where
  -- Where the digest is eight bytes, a fingerprint is a 64-bit word.
  pub fingerprint-lt : (v : String) → IsDigest blake2b → fingerprint blake2b v < 2 ^ 64
  unfolding fingerprint
  fingerprint-lt v d =
      let h = from_bytes-lt 0 1 (blake2b v) (d.bytes v) (omega arith) in rw (d.eight v) at h

  -- A set answers by its overlay first, and by its packed words where the overlay is silent.
  pub contains-eq :
      (s : MembershipSet) (v : String)
      → IsPacked s
      → contains blake2b s v ≡ (
          not (elem (fingerprint blake2b v) s.tombstones)
          && (elem (fingerprint blake2b v) s.added || elem (fingerprint blake2b v) (iter_packed s)))
  unfolding contains
  contains-eq s v p = ground (arith, in_view-eq-iter_packed s (fingerprint blake2b v) p)

  contains-Fresh :
      (s : MembershipSet) {a : List ℕ} (v : String)
      → Fresh s a
      → contains blake2b s v ≡ elem (fingerprint blake2b v) a
  contains-Fresh s v (p, i, noadd, nodel) = contains-eq s v p ∙ rw (i, noadd, nodel)

  module _ (unique : List ℕ → List ℕ) (padding : ℕ → List ℕ) (u : IsUnique unique) where
    pub build_lem :
        (values : List String) (name : String) (overlay_max : ℕ) (limit : Option ℕ) (shm : Segments)
        {s : MembershipSet} {shm' : Segments}
        → build blake2b unique padding values name overlay_max limit shm ≡ ok (s, shm')
        → Fresh s (packed_array blake2b unique padding limit values)
    unfolding build
    build_lem values name overlay_max limit shm e =
        allocate-Fresh _ _ name overlay_max shm
          (rw (packed_array-eq blake2b unique padding limit values) (u.ascending _)) e

    -- A set that `build` returns holds exactly the values whose fingerprint is that of one of the
    -- values up to the ceiling, where `unique` sorts and drops repetitions.
    pub contains-build :
        (values : List String) (name : String) (overlay_max : ℕ) (limit : Option ℕ) (shm : Segments)
        {s : MembershipSet} {shm' : Segments}
        → build blake2b unique padding values name overlay_max limit shm ≡ ok (s, shm')
        → (v : String)
        → contains blake2b s v
          ≡ elem (fingerprint blake2b v) (map (fingerprint blake2b) (limit_to limit values))
    contains-build values name overlay_max limit shm {s} e v =
        contains-Fresh s v (build_lem values name overlay_max limit shm e)
        ∙ rw (packed_array-eq blake2b unique padding limit values) (u.same _ _)

    -- A reader that attaches to the segment which the builder has just made, and which is not
    -- empty, answers every value as the builder does, whatever padding the system added to the
    -- segment.
    pub contains-attach :
        (values : List String) (name : String) (overlay_max : ℕ) (limit : Option ℕ) (shm : Segments)
        {s : MembershipSet} {shm' : Segments}
        → build blake2b unique padding values name overlay_max limit shm ≡ ok (s, shm')
        → packed_array blake2b unique padding limit values ≢ []
        → (m : ℕ)
        → (r : MembershipSet) × (attach name s.count m shm' ≡ ok r)
          × ((v : String) → contains blake2b r v ≡ contains blake2b s v)
    unfolding build
    contains-attach values name overlay_max limit shm {s} e ne m =
        let built = build_lem values name overlay_max limit shm e in
        let (r, found, fresh) =
          attach-allocate _ _ name overlay_max shm
            (rw (packed_array-eq blake2b unique padding limit values) (u.ascending _)) ne e m in
        (r, found, λ v. contains-Fresh r v fresh ∙ sym (contains-Fresh s v built))
