-- ===== src/Membership/Tests.antt =====
-- The membership set on a small corpus, with a digest and a `np.unique` that can be run.
use Prim.Native.String.{len}
use opencti_middleware.Base.{
  ℕ, ◌%◌, ◌<◌, String, ◌≡◌, refl, true, false, ◌||◌, none, some, List, [], ◌∷◌, map, arith, All,
  ltb, ◌==◌, if◌then◌else◌, elem, set_add, discard, union, difference,
}
use opencti_middleware.Base.Result.{ok}
use opencti_middleware.Membership.{
  Segments, find_segment, MembershipSet, init, fingerprint, contains, in_view, bisect_left,
  packed_array, pack, store, reached, concatenate, allocate, build, attach, add, remove,
  adopt_overlay, overlay_full,
}
use opencti_middleware.Membership.Bisect.{Ascending}
use opencti_middleware.Membership.Reads.{IsUnique, IsDigest, contains-build}
use opencti_middleware.Membership.Overlay.{IsOverlay, Update}

-- A digest that tells texts of different lengths apart.
abbrev pub digest : String → List ℕ
digest v = 0 ∷ 0 ∷ 0 ∷ 0 ∷ 0 ∷ 0 ∷ 0 ∷ len v % 256 ∷ []

digest-IsDigest : IsDigest digest
digest-IsDigest = record { eight = λ v. refl; bytes = λ v. omega arith }

-- Insertion into an ascending list without repetition.
unfoldable pub insert_sorted : ℕ → List ℕ → List ℕ
insert_sorted x [] = x ∷ []
insert_sorted x (y ∷ ys) =
    if ltb x y then x ∷ y ∷ ys else if x == y then y ∷ ys else y ∷ insert_sorted x ys

unfoldable pub unique : List ℕ → List ℕ
unique [] = []
unique (x ∷ xs) = insert_sorted x (unique xs)

elem-insert_sorted : (z x : ℕ) (xs : List ℕ) → elem z (insert_sorted x xs) ≡ (x == z || elem z xs)
unfolding insert_sorted
elem-insert_sorted z x [] = refl
elem-insert_sorted z x (y ∷ ys) = ground (arith, elem-insert_sorted z x ys)

All-lt_trans : (x y : ℕ) (xs : List ℕ) → x < y → All (λ z. y < z) xs → All (λ z. x < z) xs
All-lt_trans x y [] h a = tt
All-lt_trans x y (z ∷ zs) h a = (omega (arith, a.0), All-lt_trans x y zs h a.1)

All-insert_sorted :
    (b x : ℕ) (xs : List ℕ) → b < x → All (λ z. b < z) xs → All (λ z. b < z) (insert_sorted x xs)
unfolding insert_sorted
All-insert_sorted b x [] h a = (h, tt)
All-insert_sorted b x (y ∷ ys) h a = ground (arith, All-insert_sorted b x ys h a.1)

insert_sorted-Ascending : (x : ℕ) (xs : List ℕ) → Ascending xs → Ascending (insert_sorted x xs)
unfolding insert_sorted
insert_sorted-Ascending x [] a = (tt, tt)
insert_sorted-Ascending x (y ∷ ys) a =
    ground (arith, All-lt_trans x y ys, All-insert_sorted y x ys, insert_sorted-Ascending x ys)

unique-Ascending : (xs : List ℕ) → Ascending (unique xs)
unfolding unique
unique-Ascending [] = tt
unique-Ascending (x ∷ xs) = insert_sorted-Ascending x (unique xs) (unique-Ascending xs)

elem-unique : (z : ℕ) (xs : List ℕ) → elem z (unique xs) ≡ elem z xs
unfolding unique
elem-unique z [] = refl
elem-unique z (x ∷ xs) = ground (arith, elem-insert_sorted z x (unique xs), elem-unique z xs)

pub unique-IsUnique : IsUnique unique
unique-IsUnique = record { ascending = unique-Ascending; same = elem-unique }

-- The system fills a segment up with zeros.
abbrev pub padding : ℕ → List ℕ
padding n = 0 ∷ 0 ∷ []

abbrev pub corpus : List String
corpus = "dddd" ∷ "a" ∷ "ccc" ∷ "bb" ∷ "a" ∷ []

abbrev pub built : MembershipSet
built = init (some ("octi_membership_1", 1 ∷ 2 ∷ 3 ∷ 4 ∷ 0 ∷ 0 ∷ [])) 4 true 2

abbrev pub shm : Segments
shm = ("octi_membership_1", 1 ∷ 2 ∷ 3 ∷ 4 ∷ 0 ∷ 0 ∷ []) ∷ []

program : Unit {0}
unfolding fingerprint contains in_view bisect_left packed_array pack store reached concatenate
    allocate build find_segment attach init insert_sorted unique add remove set_add discard union
    difference adopt_overlay overlay_full
program = tt

pub build-corpus :
    build digest unique padding corpus "octi_membership_1" 2 none [] ≡ ok (built, shm)
unfolding program
build-corpus = refl

build_limited :
    build digest unique padding corpus "octi_membership_2" 2 (some 2) []
    ≡ ok (
      init (some ("octi_membership_2", 1 ∷ 4 ∷ 0 ∷ 0 ∷ [])) 2 true 2,
      ("octi_membership_2", 1 ∷ 4 ∷ 0 ∷ 0 ∷ []) ∷ [],
    )
unfolding program
build_limited = refl

-- the zero padding of the segment is never searched
padding_unseen : contains digest built "" ≡ false
unfolding program
padding_unseen = refl

contains-build_example :
    contains digest built "ccc" ≡ elem (fingerprint digest "ccc") (map (fingerprint digest) corpus)
contains-build_example =
    contains-build digest unique padding unique-IsUnique corpus "octi_membership_1" 2 none []
      {s = built} {shm' = shm} build-corpus "ccc"

-- two updates fill the overlay of `built`
abbrev updates : List Update
updates = Update.removed "a" ∷ Update.added "eeeee" ∷ []

built-IsOverlay : IsOverlay built
unfolding init
built-IsOverlay = record { disjoint = λ x. refl; added_distinct = tt; tombstones_distinct = tt }
