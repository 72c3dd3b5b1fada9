-- ===== src/Membership/Bisect.antt =====
-- `bisect_left` over a sorted view finds a fingerprint exactly if it is there.
use opencti_middleware.Base.{
  ℕ, zero, suc, ◌+◌, ◌/◌, ◌≤◌, ◌<◌, ◌≡◌, true, some, List, [], ◌∷◌, arith, inl, inr, length, get_or,
  All, ltb, ltb→lt, ◌==◌, ==_iff, elem, Bool-cases, eq_of_iff,
}
use opencti_middleware.Membership.{bisect_loop, bisect_left, in_view}

-- strictly ascending
abbrev pub Ascending : List ℕ → Type 0
Ascending [] = Unit
Ascending (x ∷ xs) = All (λ y. x < y) xs × Ascending xs

All-get_or : (x : ℕ) (xs : List ℕ) (i : ℕ) → All (λ y. x < y) xs → i < length xs → x < get_or xs i 0
All-get_or x [] i h lt = absurd (omega arith)
All-get_or x (y ∷ ys) zero h lt = h.0
All-get_or x (y ∷ ys) (suc i) h lt = All-get_or x ys i h.1 (omega arith)

Ascending-get_or :
    (xs : List ℕ) (i j : ℕ) → Ascending xs → i < j → j < length xs → get_or xs i 0 < get_or xs j 0
Ascending-get_or [] i j h ij lt = absurd (omega arith)
Ascending-get_or (x ∷ xs) i zero h ij lt = absurd (omega arith)
Ascending-get_or (x ∷ xs) zero (suc j) h ij lt = All-get_or x xs j h.0 (omega arith)
Ascending-get_or (x ∷ xs) (suc i) (suc j) h ij lt =
    Ascending-get_or xs i j h.1 (omega arith) (omega arith)

-- `r` splits the view into words below `x` and words not below it
pub record Splits (a : List ℕ) (x r : ℕ) : Type 0 where
  pub inside : r ≤ length a
  pub below : (i : ℕ) → i < r → get_or a i 0 < x
  pub above : (i : ℕ) → r ≤ i → i < length a → x ≤ get_or a i 0

module _ (a : List ℕ) (x : ℕ) (sorted : Ascending a) where
  up : (mid : ℕ) → mid < length a → get_or a mid 0 < x → (i : ℕ) → i < mid + 1 → get_or a i 0 < x
  up mid inside lt i h = elim (Bool-cases (i == mid)) [
    | inl e ↦ ground (arith)
    | inr e ↦ ground (arith, Ascending-get_or a i mid sorted)
  ]

  down : (mid : ℕ) → x ≤ get_or a mid 0 → (i : ℕ) → mid ≤ i → i < length a → x ≤ get_or a i 0
  down mid le i h inside = elim (Bool-cases (i == mid)) [
    | inl e ↦ ground (arith)
    | inr e ↦ ground (arith, Ascending-get_or a mid i sorted)
  ]

  bisect_loop-Splits :
      (fuel lo hi : ℕ)
      → hi ≤ lo + fuel
      → lo ≤ hi
      → hi ≤ length a
      → ((i : ℕ) → i < lo → get_or a i 0 < x)
      → ((i : ℕ) → hi ≤ i → i < length a → x ≤ get_or a i 0)
      → Splits a x (bisect_loop fuel a x lo hi)
  unfolding bisect_loop
  bisect_loop-Splits zero lo hi f le n b c = record {
    inside = omega arith;
    below = b;
    above = λ i h. c i (omega arith);
  }
  bisect_loop-Splits (suc fuel) lo hi f le n b c =
      let mid = (lo + hi) / 2 in
      elim (Bool-cases (ltb lo hi)) [
        | inr done ↦
            rw (done, bisect_loop)
              (record { inside = omega arith; below = b; above = λ i h. c i (ground arith) })
        | inl more ↦
            rw (more, bisect_loop)
              (elim (Bool-cases (ltb (get_or a mid 0) x)) [
                | inl small ↦
                    rw (small, bisect_loop)
                      (bisect_loop-Splits fuel (mid + 1) hi (ground arith) (ground arith) n
                        (up mid (ground arith) (ltb→lt _ _ small)) c)
                | inr big ↦
                    rw (big, bisect_loop)
                      (bisect_loop-Splits fuel lo mid (ground arith) (ground arith) (ground arith) b
                        (down mid (ground arith)))
              ])
      ]

  -- On an ascending view `bisect_left` splits the words below `x` from the others.
  pub bisect_left-Splits : Splits a x (bisect_left a x)
  unfolding bisect_left
  bisect_left-Splits =
      bisect_loop-Splits (length a) 0 (length a) (omega arith) (omega arith) (omega arith)
        (λ i h. absurd (omega arith)) (λ i h k. absurd (omega arith))

elem_of_get_or : (a : List ℕ) (x i : ℕ) → i < length a → get_or a i 0 ≡ x → elem x a ≡ true
elem_of_get_or [] x i h e = absurd (omega arith)
elem_of_get_or (y ∷ a) x zero h e = ground arith
elem_of_get_or (y ∷ a) x (suc i) h e = ground (arith, elem_of_get_or a x i (omega arith) e)

get_or_of_elem :
    (a : List ℕ) (x : ℕ) → elem x a ≡ true → (i : ℕ) × (i < length a) × (get_or a i 0 ≡ x)
get_or_of_elem [] x h = cc
get_or_of_elem (y ∷ a) x h = elim (Bool-cases (y == x)) [
  | inl e ↦ (0, omega arith, (==_iff y x).0 e)
  | inr e ↦ let (i, inside, same) = get_or_of_elem a x (ground arith) in (suc i, omega arith, same)
]

-- The search of `__contains__` finds exactly the words of an ascending view.
pub in_view-eq-elem : (a : List ℕ) (x : ℕ) → Ascending a → in_view (some a) (length a) x ≡ elem x a
unfolding in_view
in_view-eq-elem a x sorted = eq_of_iff _ _ found present
  where
    open (bisect_left-Splits a x sorted) use {inside, below, above}

    found : in_view (some a) (length a) x ≡ true → elem x a ≡ true
    found h = elem_of_get_or a x (bisect_left a x) (ground arith) (ground arith)

    present : elem x a ≡ true → in_view (some a) (length a) x ≡ true
    present h =
        let (i, lt, e) = get_or_of_elem a x h in
        ground (
          arith,
          below i,
          above i,
          above (bisect_left a x),
          Ascending-get_or a (bisect_left a x) i sorted,
        )
