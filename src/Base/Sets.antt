-- ===== src/Base/Sets.antt =====
-- Sets of numbers (a Python `set[int]`) as lists without repetitions, seen through `elem`.
use Prim.Native.Nat.{ℕ, ◌≤◌}
use mathlib.Core.Path.{◌≡◌, refl}
use mathlib.Core.Logic.{inl, inr}
use mathlib.Core.Bool.{Bool, false, not, ◌&&◌, ◌||◌}
use mathlib.Core.List.{List, [], ◌∷◌}
use native.Mathlib.Omega.{arith}
use opencti_middleware.Base.Tests.{◌==◌, if◌then◌else◌, Bool-cases, ==_iff}
use opencti_middleware.Base.Lists.{length, filter}

abbrev pub elem : ℕ → List ℕ → Bool
elem x [] = false
elem x (y ∷ ys) = y == x || elem x ys

-- `s.add(x)`
unfoldable pub set_add : ℕ → List ℕ → List ℕ
set_add x s = if elem x s then s else x ∷ s

-- `s.discard(x)`
unfoldable pub discard : ℕ → List ℕ → List ℕ
discard x s = filter (λ y. not (y == x)) s

-- `s |= t`
unfoldable pub union : List ℕ → List ℕ → List ℕ
union s [] = s
union s (y ∷ ys) = set_add y (union s ys)

-- `s -= t`
unfoldable pub difference : List ℕ → List ℕ → List ℕ
difference s t = filter (λ y. not (elem y t)) s

pub elem-set_add : (x y : ℕ) (s : List ℕ) → elem x (set_add y s) ≡ (y == x || elem x s)
unfolding set_add
elem-set_add x y s = elim (Bool-cases (elem y s)) [
  | inl h ↦
      rw h (elim (Bool-cases (y == x)) [ inl e ↦ rw e (rw ((==_iff y x).0 e) at h) | inr e ↦ rw e ])
  | inr h ↦ rw h
]

pub elem-discard : (x y : ℕ) (s : List ℕ) → elem x (discard y s) ≡ (not (y == x) && elem x s)
unfolding discard
elem-discard x y [] = ground arith
elem-discard x y (z ∷ s) = ground (arith, elem-discard x y s)

pub elem-union : (x : ℕ) (s t : List ℕ) → elem x (union s t) ≡ (elem x t || elem x s)
unfolding union
elem-union x s [] = refl
elem-union x s (y ∷ t) = ground (arith, elem-set_add x y (union s t), elem-union x s t)

pub elem-difference :
    (x : ℕ) (s t : List ℕ) → elem x (difference s t) ≡ (not (elem x t) && elem x s)
unfolding difference
elem-difference x [] t = ground arith
elem-difference x (y ∷ s) t = elim (Bool-cases (y == x)) [
  | inl e ↦ rw ((==_iff y x).0 e) (ground (arith, elem-difference x s t))
  | inr e ↦ ground (arith, elem-difference x s t)
]

pub length-union-ge : (s t : List ℕ) → length s ≤ length (union s t)
unfolding union set_add
length-union-ge s [] = omega arith
length-union-ge s (y ∷ t) = ground (arith, length-union-ge s t)

pub ruleset set_laws = (elem-set_add, elem-discard, elem-union, elem-difference)

-- Every element stands in the list once.
abbrev pub Distinct : List ℕ → Type 0
Distinct [] = Unit
Distinct (x ∷ xs) = (elem x xs ≡ false) × Distinct xs

pub set_add-Distinct : (x : ℕ) (s : List ℕ) → Distinct s → Distinct (set_add x s)
unfolding set_add
set_add-Distinct x s d = elim (Bool-cases (elem x s)) [ inl h ↦ rw h d | inr h ↦ rw h (h, d) ]

pub discard-Distinct : (x : ℕ) (s : List ℕ) → Distinct s → Distinct (discard x s)
unfolding discard
discard-Distinct x [] d = tt
discard-Distinct x (y ∷ s) d = elim (Bool-cases (y == x)) [
  | inl e ↦ rw e (discard-Distinct x s d.1)
  | inr e ↦
      rw e ((unfold discard in ground (arith, elem-discard y x s, d.0)), discard-Distinct x s d.1)
]

-- A union with the empty set and a difference with a disjoint set change nothing.
pub union-nil : (t : List ℕ) → Distinct t → union [] t ≡ t
unfolding union set_add
union-nil [] d = refl
union-nil (x ∷ t) d = rw (union-nil t d.1, d.0)

pub difference-disjoint :
    (s t : List ℕ) → ((x : ℕ) → elem x s && elem x t ≡ false) → difference s t ≡ s
unfolding difference
difference-disjoint [] t d = refl
difference-disjoint (x ∷ s) t d =
    let out : elem x t ≡ false = ground (arith, d x) in
    rw (out, difference-disjoint s t (λ y. ground (arith, d y)))
