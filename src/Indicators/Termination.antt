-- ===== src/Indicators/Termination.antt =====
-- The loops of `_defang` of indicators.py end for texts that lower-casing changes character by character.
use Prim.Native.Char.{Char, code}
use Prim.Native.String
use opencti_middleware.Base.{
  ℕ, zero, suc, ◌+◌, ◌*◌, ◌≤◌, ◌<◌, String, ◌≡◌, ◌⊎◌, refl, ◌∙◌, sym, ap, Bool, true, not, ◌&&◌,
  false≢true, none, some, List, [], ◌∷◌, arith, inl, inr, All, ltb, leb, ◌==◌, str_eq, ==_iff,
  Bool-cases, Option-cases, if◌then◌else◌,
}
use mathlib.Core.Option.{some-injective}
use opencti_middleware.Base.{if_cases}
use text.Mathlib.TextLemmas.{nil-append, cons-append}
use opencti_middleware.Base.Text.{
  text_length, text_take, has_prefix, all_chars, is_space, drop_while, drop_while_end, strip,
}
use opencti_middleware.Indicators.Defang.{
  text_drop, find_text, defang_markers, is_strip_char, strip_chars, splice, replace_marker,
  is_marked, replace_marked, replace_markers, defang,
}
use opencti_middleware.Indicators.Regular.{
  LowersChars, is_regular, Regular, strip-Regular, lower-splice, splice-Regular,
}

-- each character counts one, and each x twice
unfoldable pub weight : String → ℕ
weight String.[] = 0
weight (String.◌∷◌ c s) = (if code c == 120 then 2 else 1) + weight s

weight-append : (s t : String) → weight (String.◌++◌ s t) ≡ weight s + weight t
unfolding weight
weight-append String.[] t = ground (arith, nil-append t)
weight-append (String.◌∷◌ c s) t = ground (arith, cons-append c s t, weight-append s t)

weight-prefix :
    (m s : String)
    → has_prefix m s ≡ true
    → weight s ≡ weight m + weight (text_drop (text_length m) s)
unfolding weight
weight-prefix String.[] s h = omega arith
weight-prefix (String.◌∷◌ c m) String.[] h = absurd (false≢true h)
weight-prefix (String.◌∷◌ c m) (String.◌∷◌ d s) h =
    ground (arith, ==_iff (code c) (code d), weight-prefix m s)

text_drop-eq : (m n : ℕ) (s : String) → m ≡ n → text_drop m s ≡ text_drop n s
text_drop-eq m n s e = ap (λ k. text_drop k s) e

weight-splice_parts :
    (i : ℕ) (m r s : String)
    → weight (splice i m r s)
      ≡ weight (text_take i s) + (weight r + weight (text_drop (i + text_length m) s))
weight-splice_parts i m r s =
    let tail = text_drop (i + text_length m) s in
    weight-append (text_take i s) (String.◌++◌ r tail)
    ∙ ap (λ n. weight (text_take i s) + n) (weight-append r tail)

-- a marker is found at the start, or in the rest
find_text_cases :
    (m : String) (c : Char) (s : String) (i : ℕ)
    → find_text m (String.◌∷◌ c s) ≡ some i
    → ((has_prefix m (String.◌∷◌ c s) ≡ true) × (i ≡ 0))
      ⊎ (j : ℕ) × (find_text m s ≡ some j) × (i ≡ suc j)
unfolding find_text
find_text_cases m c s i h = elim (Bool-cases (has_prefix m (String.◌∷◌ c s))) [
  | inl e ↦
      let at : some 0 ≡ some i = rw (e, find_text) at h in inl (e, sym (some-injective 0 i at))
  | inr e ↦ elim (Option-cases (find_text m s)) [
    | inl k ↦ let bad : none ≡ some i = rw (e, k, find_text) at h in absurd cc
    | inr (j, k) ↦
        let at : some (suc j) ≡ some i = rw (e, k, find_text) at h in
        inr (j, k, sym (some-injective (suc j) i at))
  ]
]

-- a replacement trades the weight of the marker for that of its replacement
weight-splice :
    (m r s : String) (i : ℕ)
    → find_text m s ≡ some i
    → weight (splice i m r s) + weight m ≡ weight s + weight r
unfolding weight find_text
weight-splice m r String.[] i h = cc
weight-splice m r (String.◌∷◌ c s) i h = elim (find_text_cases m c s i h) [
  | inl (e, at) ↦
      let drop : text_drop (0 + text_length m) (String.◌∷◌ c s)
          ≡ text_drop (text_length m) (String.◌∷◌ c s) =
        text_drop-eq (0 + text_length m) (text_length m) (String.◌∷◌ c s) (omega arith) in
      rw at (
        omega (
          arith,
          weight-splice_parts 0 m r (String.◌∷◌ c s),
          weight-prefix m (String.◌∷◌ c s) e,
          ap weight drop,
        ))
  | inr (j, k, at) ↦
      let drop : text_drop (suc j + text_length m) (String.◌∷◌ c s)
          ≡ text_drop (j + text_length m) s =
        text_drop-eq (suc j + text_length m) (suc (j + text_length m)) (String.◌∷◌ c s)
          (omega arith) in
      rw at (
        omega (
          arith,
          weight-splice_parts (suc j) m r (String.◌∷◌ c s),
          weight-splice_parts j m r s,
          weight-splice m r s j k,
          ap weight drop,
        ))
]

-- the marker outweighs its replacement, which is regular and which lower-casing leaves as it is
abbrev Lighter : (String → String) → String × String → Type 0
Lighter lower (marker, repl) = (weight repl < weight marker) × (lower repl ≡ repl) × Regular repl

module _ (lower : String → String) (l : LowersChars lower) where
  -- one marker is replaced within as many rounds as the text weighs
  replace_marker-ends :
      (fuel : ℕ) (marker repl out : String)
      → Lighter lower (marker, repl)
      → Regular out
      → weight (lower out) ≤ fuel
      → (r : String) × (replace_marker lower fuel marker repl out ≡ some r)
        × (weight (lower r) ≤ weight (lower out))
        × Regular r
  unfolding replace_marker
  replace_marker-ends zero marker repl out light reg h =
      elim (Option-cases (find_text marker (lower out))) [
        | inl e ↦ rw (e, replace_marker) (out, refl, omega arith, reg)
        | inr (i, e) ↦
            absurd (let w = weight-splice marker repl (lower out) i e in omega (arith, light.0))
      ]
  replace_marker-ends (suc fuel) marker repl out light reg h =
      elim (Option-cases (find_text marker (lower out))) [
        | inl e ↦ rw (e, replace_marker) (out, refl, omega arith, reg)
        | inr (i, e) ↦
            let w = weight-splice marker repl (lower out) i e in
            let lowered = ap weight (lower-splice lower l i marker repl out light.1 light.2 reg) in
            let (r, k, less, reg') =
              replace_marker-ends fuel marker repl (splice i marker repl out) light
                (splice-Regular i marker repl out light.2 reg) (omega (arith, light.0)) in
            rw (e, replace_marker) (r, k, omega (arith, light.0), reg')
      ]

  replace_markers-ends :
      (fuel : ℕ) (markers : List (String × String)) (out : String)
      → All (Lighter lower) markers
      → Regular out
      → weight (lower out) ≤ fuel
      → (r : String) × (replace_markers lower fuel markers out ≡ some r)
  unfolding replace_markers
  replace_markers-ends fuel [] out light reg h = (out, refl)
  replace_markers-ends fuel ((marker, repl) ∷ rest) out (here, light) reg h =
      let (s, e, less, reg') = replace_marker-ends fuel marker repl out here reg h in
      let (r, k) = replace_markers-ends fuel rest s light reg' (omega arith) in
      rw (e, replace_markers) (r, k)

  lower-plain :
      (s : String)
      → all_chars (λ c. ltb (code c) 128 && not (leb 65 (code c) && leb (code c) 90)) s ≡ true
      → (lower s ≡ s) × Regular s
  lower-plain String.[] h = (l.lower_nil, refl)
  lower-plain (String.◌∷◌ c s) h =
      let (same, rest) = lower-plain s (ground arith) in
      let first : is_regular c ≡ true = ground arith in
      (
        l.lower_cons c s first rest
            ∙ ap (λ d. String.◌∷◌ d (lower s)) (l.lower_fixed c (ground arith) (ground arith))
            ∙ ap (String.◌∷◌ c) same,
        ground arith,
      )

  lighter :
      (marker repl : String)
      → weight repl < weight marker
      → all_chars (λ c. ltb (code c) 128 && not (leb 65 (code c) && leb (code c) 90)) repl ≡ true
      → Lighter lower (marker, repl)
  lighter marker repl less plain = let (same, reg) = lower-plain repl plain in (less, same, reg)

  defang_markers-Lighter : All (Lighter lower) defang_markers
  unfolding weight
  defang_markers-Lighter = (
    lighter "[.]" "." (omega arith) refl,
    (
      lighter "(.)" "." (omega arith) refl,
      (
        lighter "{.}" "." (omega arith) refl,
        (
          lighter " dot " "." (omega arith) refl,
          (
            lighter "[:]" ":" (omega arith) refl,
            (
              lighter "[/]" "/" (omega arith) refl,
              (
                lighter "[@]" "@" (omega arith) refl,
                (
                  lighter "[at]" "@" (omega arith) refl,
                  (
                    lighter "hxxps" "https" (omega arith) refl,
                    (
                      lighter "hxxp" "http" (omega arith) refl,
                      (lighter "fxp" "ftp" (omega arith) refl, tt),
                    ),
                  ),
                ),
              ),
            ),
          ),
        ),
      ),
    ),
  )

  weight-le : (s : String) → Regular s → weight (lower s) ≤ 2 * text_length s
  unfolding weight
  weight-le String.[] h = let e = ap weight l.lower_nil in omega (arith, e)
  weight-le (String.◌∷◌ c s) h =
      let first : is_regular c ≡ true = ground arith in
      let rest : Regular s = ground arith in
      ground (arith, ap weight (l.lower_cons c s first rest), weight-le s rest)

text_length-drop_while-le :
    (p : Char → Bool) (s : String) → text_length (drop_while p s) ≤ text_length s
text_length-drop_while-le p String.[] = omega arith
text_length-drop_while-le p (String.◌∷◌ c s) = ground (arith, text_length-drop_while-le p s)

text_length-drop_while_end-le :
    (p : Char → Bool) (s : String) → text_length (drop_while_end p s) ≤ text_length s
text_length-drop_while_end-le p String.[] = omega arith
text_length-drop_while_end-le p (String.◌∷◌ c s) =
    let shorter = text_length-drop_while_end-le p s in
    if_cases (λ t. text_length t ≤ suc (text_length s)) (p c && str_eq (drop_while_end p s) "")
      (λ _. omega arith) (λ _. omega (arith, shorter))

text_length-strip-le : (raw : String) → text_length (strip_chars (strip raw)) ≤ text_length raw
unfolding strip
text_length-strip-le raw = omega (
  arith,
  text_length-drop_while_end-le is_strip_char (drop_while is_strip_char (strip raw)),
  text_length-drop_while-le is_strip_char (strip raw),
  text_length-drop_while_end-le is_space (drop_while is_space raw),
  text_length-drop_while-le is_space raw,
)

-- The loops of `_defang` end for a regular text, each within twice as many rounds as it has characters.
pub defang-ends :
    (lower : String → String)
    → LowersChars lower
    → (fuel : ℕ) (raw : String) → all_chars is_regular raw ≡ true
    → 2 * text_length raw ≤ fuel
    → (s : String) × (defang lower fuel raw ≡ some s)
unfolding defang replace_marked
defang-ends lower l fuel raw reg h =
    let out = strip_chars (strip raw) in
    let (r, e) =
      replace_markers-ends lower l fuel defang_markers out (defang_markers-Lighter lower l)
        (strip-Regular raw reg)
        (omega (arith, weight-le lower l out (strip-Regular raw reg), text_length-strip-le raw)) in
    elim (Bool-cases (is_marked (lower out))) [
      | inl marked ↦ rw (marked, e, defang, replace_marked) (strip_chars r, refl)
      | inr plain ↦ rw (plain, defang, replace_marked) (strip_chars out, refl)
    ]
