-- ===== src/Base/Assoc.antt =====
-- Dictionaries keyed by texts as association lists in insertion order.
use Prim.Native.Nat.{◌+◌, ◌≤◌}
use Prim.Native.String.{String}
use mathlib.Core.Path.{◌≡◌, refl}
use mathlib.Core.List.{List, [], ◌∷◌, ◌++◌}
use mathlib.Core.Option.{Option, none, some}
use native.Mathlib.Omega.{arith}
use text.Mathlib.TextEquality.{eq_iff}
use opencti_middleware.Base.Tests.{str_eq, if◌then◌else◌}
use opencti_middleware.Base.Lists.{length}

module _ {ℓ} {V : Type ℓ} where
  abbrev pub find : String → List (String × V) → Option V
  find k [] = none
  find k ((j, v) ∷ m) = if str_eq j k then some v else find k m

  -- `del d[k]`, where the key may be missing
  abbrev pub without : String → List (String × V) → List (String × V)
  without k [] = []
  without k ((j, v) ∷ m) = let rest = without k m in if str_eq j k then rest else (j, v) ∷ rest

  -- `d[k] = v`: a key that is there keeps its place
  abbrev pub insert : String → V → List (String × V) → List (String × V)
  insert k v [] = (k, v) ∷ []
  insert k v ((j, w) ∷ m) = if str_eq j k then (j, v) ∷ m else (j, w) ∷ insert k v m

  -- `d.setdefault(k, v)`
  abbrev pub set_default : String → V → List (String × V) → List (String × V)
  set_default k v [] = (k, v) ∷ []
  set_default k v ((j, w) ∷ m) = if str_eq j k then (j, w) ∷ m else (j, w) ∷ set_default k v m

  abbrev pub DistinctKeys : List (String × V) → Type ℓ
  DistinctKeys [] = Unit
  DistinctKeys ((k, v) ∷ m) = (find k m ≡ none) × DistinctKeys m

  pub find-without :
      (k j : String) (m : List (String × V))
      → find j (without k m) ≡ (if str_eq k j then none else find j m)
  find-without k j [] = ground arith
  find-without k j ((i, v) ∷ m) =
      ground (arith, find-without k j m, eq_iff i k, eq_iff i j, eq_iff k j)

  pub find-insert :
      (k j : String) (v : V) (m : List (String × V))
      → find j (insert k v m) ≡ (if str_eq k j then some v else find j m)
  find-insert k j v [] = refl
  find-insert k j v ((i, w) ∷ m) =
      ground (arith, eq_iff k j, eq_iff i k, eq_iff i j, find-insert k j v m)

  pub find-append :
      (j : String) (l m : List (String × V))
      → find j (l ++ m) ≡ elim (find j l) [ none ↦ find j m | some v ↦ some v ]
  find-append j [] m = refl
  find-append j ((i, w) ∷ l) m = ground (arith, find-append j l m)

  pub without_absent : (k : String) (m : List (String × V)) → find k m ≡ none → without k m ≡ m
  without_absent k [] h = refl
  without_absent k ((i, w) ∷ m) h = ground (arith, without_absent k m)

  pub length-without-le : (k : String) (m : List (String × V)) → length (without k m) ≤ length m
  length-without-le k [] = omega arith
  length-without-le k ((i, w) ∷ m) = ground (arith, length-without-le k m)

  pub length-without_found :
      (k : String) (m : List (String × V)) (v : V)
      → find k m ≡ some v
      → length (without k m) + 1 ≤ length m
  length-without_found k [] v h = cc
  length-without_found k ((i, w) ∷ m) v h =
      ground (arith, length-without_found k m v, length-without-le k m)

  pub without-DistinctKeys :
      (k : String) (m : List (String × V)) → DistinctKeys m → DistinctKeys (without k m)
  without-DistinctKeys k [] d = tt
  without-DistinctKeys k ((i, w) ∷ m) d =
      ground (arith, without-DistinctKeys k m d.1, find-without k i m)

  pub append-DistinctKeys :
      (k : String) (v : V) (m : List (String × V))
      → find k m ≡ none
      → DistinctKeys m
      → DistinctKeys (m ++ (k, v) ∷ [])
  append-DistinctKeys k v [] h d = (refl, tt)
  append-DistinctKeys k v ((i, w) ∷ m) h d =
      ground
        (arith, append-DistinctKeys k v m, find-append i m ((k, v) ∷ []), eq_iff i k, eq_iff k i)
