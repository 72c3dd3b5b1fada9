-- ===== src/Membership/Packing.antt =====
-- `build` of backends/membership.py: filling fixed blocks loses and reorders nothing, and the entry
-- ceiling cuts the values off where it should.
use mathlib.Core.List.{append_assoc, append-nil}
use opencti_middleware.Base.{
  ℕ, zero, suc, ◌+◌, ◌-◌, String, ◌≡◌, refl, ap, ◌∙◌, sym, Option, none, some, List, [], ◌∷◌, ◌++◌,
  map, arith, inl, inr, length, flatten, take, leb, leb→le, ◌==◌, Bool-cases,
}
use opencti_middleware.Membership.{
  build_chunk, fingerprint, Packed, store, concatenate, reached, pack, packed_array,
}

-- `values`, or the first `max_entries` of them
abbrev pub limit_to {ℓ} : {A : Type ℓ} → Option ℕ → List A → List A
limit_to none xs = xs
limit_to (some n) xs = take n xs

flatten-append : (xss : List (List ℕ)) (ys : List ℕ) → flatten (xss ++ ys ∷ []) ≡ flatten xss ++ ys
flatten-append [] ys = append-nil ys
flatten-append (xs ∷ xss) ys = rw (flatten-append xss ys) (sym (append_assoc xs (flatten xss) ys))

-- what the blocks and the buffer hold, in order
abbrev contents : Packed → List ℕ
contents p = flatten p.blocks ++ p.buffer

contents-store : (x : ℕ) (p : Packed) → contents (store x p) ≡ contents p ++ x ∷ []
unfolding store
contents-store x p = elim (Bool-cases (length (p.buffer ++ x ∷ []) == build_chunk)) [
  | inl full ↦ rw full (
      append-nil _
      ∙ flatten-append p.blocks (p.buffer ++ x ∷ [])
      ∙ sym (append_assoc (flatten p.blocks) p.buffer (x ∷ [])))
  | inr room ↦ rw room (sym (append_assoc (flatten p.blocks) p.buffer (x ∷ [])))
]

concatenate-eq-contents : (p : Packed) → concatenate p ≡ contents p
unfolding concatenate
concatenate-eq-contents p = go p.buffer
  where
    go : (b : List ℕ) → concatenate (record p { buffer = b }) ≡ flatten p.blocks ++ b
    go [] = sym (append-nil _)
    go (x ∷ b) = ground (arith, flatten-append p.blocks (x ∷ b))

-- the part of the ceiling that is left after `seen` values
abbrev rest : Option ℕ → ℕ → Option ℕ
rest none seen = none
rest (some n) seen = some (n - seen)

rest-zero : (limit : Option ℕ) → rest limit 0 ≡ limit
rest-zero none = refl
rest-zero (some n) = ap some (omega arith)

take-nil {ℓ} : {A : Type ℓ} (n : ℕ) → take {A = A} n [] ≡ []
take-nil zero = refl
take-nil (suc n) = refl

module _ (blake2b : String → List ℕ) where
  pack-contents :
      (limit : Option ℕ) (seen : ℕ) (values : List String) (p : Packed)
      → contents (pack blake2b limit seen values p)
        ≡ contents p ++ map (fingerprint blake2b) (limit_to (rest limit seen) values)
  unfolding pack reached
  pack-contents none seen [] p = sym (append-nil _)
  pack-contents (some n) seen [] p = rw take-nil (sym (append-nil _))
  pack-contents none seen (v ∷ vs) p =
      pack-contents none (seen + 1) vs (store (fingerprint blake2b v) p)
      ∙ ap (λ l. l ++ map (fingerprint blake2b) vs) (contents-store (fingerprint blake2b v) p)
      ∙ append_assoc (contents p) (fingerprint blake2b v ∷ []) _
  pack-contents (some n) seen (v ∷ vs) p = elim (Bool-cases (leb n seen)) [
    | inl stop ↦
        let e : n - seen ≡ 0 = omega (arith, leb→le _ _ stop) in rw (stop, e) (sym (append-nil _))
    | inr more ↦
        let e : n - seen ≡ suc (n - (seen + 1)) = ground arith in
        rw (more, e)
          (pack-contents (some n) (seen + 1) vs (store (fingerprint blake2b v) p)
            ∙ ap (λ l. l ++ map (fingerprint blake2b) (take (n - (seen + 1)) vs))
                (contents-store (fingerprint blake2b v) p)
            ∙ append_assoc (contents p) (fingerprint blake2b v ∷ []) _)
  ]

  -- The array that `build` shares is `np.unique` of the fingerprints of the values up to the
  -- ceiling, whatever the block size.
  pub packed_array-eq :
      (unique : List ℕ → List ℕ) (padding : ℕ → List ℕ) (limit : Option ℕ) (values : List String)
      → packed_array blake2b unique padding limit values
        ≡ unique (map (fingerprint blake2b) (limit_to limit values))
  unfolding packed_array
  packed_array-eq unique padding limit values = ap unique (
      concatenate-eq-contents _
      ∙ pack-contents limit 0 values _
      ∙ ap (λ l. map (fingerprint blake2b) (limit_to l values)) (rest-zero limit))
