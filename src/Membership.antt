-- ===== src/Membership.antt =====
-- backends/membership.py: the packed set of fingerprints and the overlay of live-stream updates.
pub mod Bisect
pub mod Packing
pub mod Reads
pub mod Overlay
pub mod Tests
use opencti_middleware.Base.{
  ℕ, zero, suc, ◌+◌, ◌*◌, ◌/◌, ◌^◌, String, Bool, true, false, not, ◌&&◌, Option, none, some, List,
  [], ◌∷◌, ◌++◌, map, length, get_or, flatten, take, filter, ltb, leb, ◌==◌, str_eq, if◌then◌else◌,
  elem, set_add, discard, union, difference, ℤ, sub_ℕ,
}
use opencti_middleware.Base.Result.{Result, ok, raise, file_exists, file_not_found, ◌>>=◌}

-- `_ITEMSIZE` and `_BUILD_CHUNK`
abbrev pub itemsize : ℕ
itemsize = 8

abbrev pub build_chunk : ℕ
build_chunk = 2 ^ 16

-- `int.from_bytes(digest, "big")`
pub from_bytes : ℕ → List ℕ → ℕ
from_bytes acc [] = acc
from_bytes acc (b ∷ bs) = from_bytes (acc * 256 + b) bs

-- The POSIX shared memory of the machine: the 64-bit words of each named segment.
abbrev pub Segments : Type 0
Segments = List (String × List ℕ)

unfoldable pub find_segment : String → Segments → Option (List ℕ)
find_segment name [] = none
find_segment name ((n, words) ∷ shm) = if str_eq n name then some words else find_segment name shm

unfoldable pub unlink_segment : String → Segments → Segments
unlink_segment name shm = filter (λ s. not (str_eq s.0 name)) shm

pub record MembershipStats : Type 0 where
  pub packed : ℕ
  pub added : ℕ
  pub tombstoned : ℕ
  pub bytes_shared : ℕ

pub effective : MembershipStats → ℤ
effective s = sub_ℕ (s.packed + s.added) s.tombstoned

-- `_shm` is known by its name; `_lock` has no counterpart, since a step here is atomic.
pub record MembershipSet : Type 0 where
  pub shm : Option String
  pub view : Option (List ℕ)
  pub count : ℕ
  pub added : List ℕ
  pub tombstones : List ℕ
  pub owner : Bool
  pub overlay_max : ℕ

-- `__init__`: the view is cut to `count` words, since the segment may be longer than the data.
unfoldable pub init : Option (String × List ℕ) → ℕ → Bool → ℕ → MembershipSet
init none count owner overlay_max = record {
  shm = none;
  view = none;
  count = count;
  added = [];
  tombstones = [];
  owner = owner;
  overlay_max = overlay_max;
}
init (some (name, words)) count owner overlay_max = record {
  shm = some name;
  view = if count == 0 then none else some (take count words);
  count = count;
  added = [];
  tombstones = [];
  owner = owner;
  overlay_max = overlay_max;
}

unfoldable pub empty : MembershipSet
unfolding init
empty = init none 0 true 50000

-- The blocks that `build` has filled, and the block that it is filling.
pub record Packed : Type 0 where
  pub blocks : List (List ℕ)
  pub buffer : List ℕ

unfoldable pub store : ℕ → Packed → Packed
store fp p =
    let buffer = p.buffer ++ fp ∷ [] in
    if length buffer == build_chunk
    then record { blocks = p.blocks ++ buffer ∷ []; buffer = [] }
    else record p { buffer = buffer }

-- `np.concatenate` of the blocks, with the rest of the buffer if it holds anything
unfoldable pub concatenate : Packed → List ℕ
concatenate p = flatten (if length p.buffer == 0 then p.blocks else p.blocks ++ p.buffer ∷ [])

unfoldable pub reached : Option ℕ → ℕ → Bool
reached none seen = false
reached (some limit) seen = leb limit seen

-- `_view`, searched by `bisect.bisect_left`, one round to each unit of fuel
bisect_loop : ℕ → List ℕ → ℕ → ℕ → ℕ → ℕ
bisect_loop zero a x lo hi = lo
bisect_loop (suc fuel) a x lo hi = elim (ltb lo hi) [
  | false ↦ lo
  | true ↦
      let mid = (lo + hi) / 2 in
      elim (ltb (get_or a mid 0) x) [
        | true ↦ bisect_loop fuel a x (mid + 1) hi
        | false ↦ bisect_loop fuel a x lo mid
      ]
]

unfoldable pub bisect_left : List ℕ → ℕ → ℕ
unfolding bisect_loop
bisect_left a x = bisect_loop (length a) a x 0 (length a)

unfoldable pub in_view : Option (List ℕ) → ℕ → ℕ → Bool
in_view none count fp = false
in_view (some view) count fp =
    let idx = bisect_left view fp in ltb idx count && get_or view idx 0 == fp

-- The end of `build`: an empty array takes no segment, and the name must be new.
unfoldable pub allocate :
    List ℕ → List ℕ → String → ℕ → Segments → Result (MembershipSet × Segments)
allocate [] padding name overlay_max shm = ok (init none 0 true overlay_max, shm)
allocate (x ∷ arr) padding name overlay_max shm =
    let words = (x ∷ arr) ++ padding in
    elim (find_segment name shm) [
      | some _ ↦ raise file_exists
      | none ↦
          ok (init (some (name, words)) (length (x ∷ arr)) true overlay_max, (name, words) ∷ shm)
    ]

-- What hashlib and numpy supply: the eight bytes of `blake2b(value, digest_size=8)`, and `np.unique`.
-- `padding` is how many words the system adds to a segment to fill its last page.
module _ (blake2b : String → List ℕ) where
  unfoldable pub fingerprint : String → ℕ
  unfolding from_bytes
  fingerprint value = from_bytes 0 (blake2b value)

  pub fingerprint_many : List String → List ℕ
  fingerprint_many = map fingerprint

  unfoldable pub pack : Option ℕ → ℕ → List String → Packed → Packed
  pack limit seen [] p = p
  pack limit seen (value ∷ values) p =
      if reached limit seen then p else pack limit (seen + 1) values (store (fingerprint value) p)

  -- `__contains__`
  unfoldable pub contains : MembershipSet → String → Bool
  contains s value =
      let fp = fingerprint value in
      if elem fp s.tombstones
      then false
      else if elem fp s.added
      then true
      else in_view s.view s.count fp

  unfoldable pub add : String → MembershipSet → MembershipSet
  add value s =
      let fp = fingerprint value in
      record s { tombstones = discard fp s.tombstones; added = set_add fp s.added }

  unfoldable pub remove : String → MembershipSet → MembershipSet
  remove value s =
      let fp = fingerprint value in
      record s { added = discard fp s.added; tombstones = set_add fp s.tombstones }

  module _ (unique : List ℕ → List ℕ) (padding : ℕ → List ℕ) where
    -- The sorted fingerprints of the values, at most `max_entries` of them.
    unfoldable pub packed_array : Option ℕ → List String → List ℕ
    packed_array max_entries values =
        unique (concatenate (pack max_entries 0 values (record { blocks = []; buffer = [] })))

    -- `build`
    unfoldable pub build :
        List String → String → ℕ → Option ℕ → Segments → Result (MembershipSet × Segments)
    build values name overlay_max max_entries shm =
        let arr = packed_array max_entries values in
        allocate arr (padding (length arr)) name overlay_max shm

-- `attach`: maps a segment that another process has made.
unfoldable pub attach : String → ℕ → ℕ → Segments → Result MembershipSet
attach name count overlay_max shm = elim (find_segment name shm) [
  | none ↦ raise file_not_found
  | some words ↦ ok (init (some (name, words)) count false overlay_max)
]

unfoldable pub adopt_overlay : MembershipSet → MembershipSet → MembershipSet
adopt_overlay s other = record s {
  added = difference (union s.added other.added) other.tombstones;
  tombstones = union s.tombstones other.tombstones;
}

unfoldable pub overlay_full : MembershipSet → Bool
overlay_full s = leb s.overlay_max (length s.added + length s.tombstones)

-- `__len__`, before the conversion that refuses a negative number
pub size : MembershipSet → ℤ
size s = sub_ℕ (s.count + length s.added) (length s.tombstones)

unfoldable pub stats : MembershipSet → MembershipStats
stats s = record {
  packed = s.count;
  added = length s.added;
  tombstoned = length s.tombstones;
  bytes_shared = s.count * itemsize;
}

unfoldable pub iter_packed : MembershipSet → List ℕ
iter_packed s = elim s.view [ none ↦ [] | some view ↦ view ]

-- `close`: a second call does nothing, and a segment that is already gone is no error.
unfoldable pub close : Option Bool → MembershipSet → Segments → MembershipSet × Segments
close unlink s shm = elim s.shm [
  | none ↦ (s, shm)
  | some name ↦
      let should_unlink : Bool = elim unlink [ none ↦ s.owner | some u ↦ u ] in
      (record s { shm = none; view = none }, if should_unlink then unlink_segment name shm else shm)
]

unfoldable pub estimate_bytes : ℕ → ℕ
estimate_bytes count = count * itemsize
