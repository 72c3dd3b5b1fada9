-- ===== src/Indicators/Regular.antt =====
-- Which texts lower-casing changes character by character.
use Prim.Native.Char.{Char, code}
use Prim.Native.String
use opencti_middleware.Base.{
  ℕ, zero, suc, ◌+◌, String, ◌≡◌, refl, ◌∙◌, sym, ap, Bool, true, false, not, ◌&&◌, arith, ltb, leb,
  ◌==◌, str_eq,
}
use opencti_middleware.Base.{if_cases}
use text.Mathlib.TextLemmas.{nil-append, cons-append}
use opencti_middleware.Base.Text.{
  text_length, text_take, all_chars, is_space, drop_while, drop_while_end, strip,
}
use opencti_middleware.Indicators.Defang.{text_drop, is_strip_char, strip_chars, splice}

-- A character whose lower case is one character, whatever stands around it. The two others are the
-- capital I with a dot, whose lower case is two characters, and the capital sigma, whose lower case
-- depends on whether a word ends with it.
abbrev pub is_regular : Char → Bool
is_regular c = not (code c == 304) && not (code c == 931)

-- What `str.lower` does: a regular character before a regular text becomes a character, and the
-- lower-case letters, the digits and the punctuation of ASCII stay.
pub record LowersChars (lower : String → String) : Type 0 where
  pub lower_char : Char → Char
  pub lower_nil : lower "" ≡ ""
  pub lower_cons :
      (c : Char) (s : String)
      → is_regular c ≡ true
      → all_chars is_regular s ≡ true
      → lower (String.◌∷◌ c s) ≡ String.◌∷◌ (lower_char c) (lower s)
  pub lower_fixed :
      (c : Char)
      → ltb (code c) 128 ≡ true
      → (leb 65 (code c) && leb (code c) 90) ≡ false
      → lower_char c ≡ c

abbrev pub Regular : String → Type 0
Regular s = all_chars is_regular s ≡ true

append-Regular : (s t : String) → Regular s → Regular t → Regular (String.◌++◌ s t)
append-Regular String.[] t h k = rw (nil-append t) k
append-Regular (String.◌∷◌ c s) t h k = rw (cons-append c s t) (ground (arith, append-Regular s t))

text_take-Regular : (n : ℕ) (s : String) → Regular s → Regular (text_take n s)
text_take-Regular zero s h = refl
text_take-Regular (suc n) String.[] h = refl
text_take-Regular (suc n) (String.◌∷◌ c s) h = ground (arith, text_take-Regular n s)

text_drop-Regular : (n : ℕ) (s : String) → Regular s → Regular (text_drop n s)
text_drop-Regular zero s h = h
text_drop-Regular (suc n) String.[] h = refl
text_drop-Regular (suc n) (String.◌∷◌ c s) h = text_drop-Regular n s (ground arith)

drop_while-Regular : (p : Char → Bool) (s : String) → Regular s → Regular (drop_while p s)
drop_while-Regular p String.[] h = refl
drop_while-Regular p (String.◌∷◌ c s) h = ground (arith, drop_while-Regular p s)

drop_while_end-Regular : (p : Char → Bool) (s : String) → Regular s → Regular (drop_while_end p s)
drop_while_end-Regular p String.[] h = refl
drop_while_end-Regular p (String.◌∷◌ c s) h =
    let kept = drop_while_end-Regular p s (ground arith) in
    if_cases Regular (p c && str_eq (drop_while_end p s) "") (λ _. refl) (λ _. ground arith)

pub strip-Regular : (raw : String) → Regular raw → Regular (strip_chars (strip raw))
unfolding strip
strip-Regular raw h = drop_while_end-Regular is_strip_char (drop_while is_strip_char (strip raw)) (
    drop_while-Regular is_strip_char (strip raw) (
      drop_while_end-Regular is_space (drop_while is_space raw)
        (drop_while-Regular is_space raw h)))

module _ (lower : String → String) (l : LowersChars lower) where
  lower-append :
      (s t : String)
      → Regular s
      → Regular t
      → lower (String.◌++◌ s t) ≡ String.◌++◌ (lower s) (lower t)
  lower-append String.[] t h k =
      ap lower (nil-append t)
      ∙ sym (nil-append (lower t))
      ∙ ap (λ x. String.◌++◌ x (lower t)) (sym l.lower_nil)
  lower-append (String.◌∷◌ c s) t h k =
      let first : is_regular c ≡ true = ground arith in
      let rest : Regular s = ground arith in
      ap lower (cons-append c s t)
      ∙ l.lower_cons c (String.◌++◌ s t) first (append-Regular s t rest k)
      ∙ ap (String.◌∷◌ (l.lower_char c)) (lower-append s t rest k)
      ∙ sym (cons-append (l.lower_char c) (lower s) (lower t))
      ∙ ap (λ x. String.◌++◌ x (lower t)) (sym (l.lower_cons c s first rest))

  lower-text_take : (n : ℕ) (s : String) → Regular s → lower (text_take n s) ≡ text_take n (lower s)
  lower-text_take zero s h = l.lower_nil
  lower-text_take (suc n) String.[] h = l.lower_nil ∙ ap (text_take (suc n)) (sym l.lower_nil)
  lower-text_take (suc n) (String.◌∷◌ c s) h =
      let first : is_regular c ≡ true = ground arith in
      let rest : Regular s = ground arith in
      l.lower_cons c (text_take n s) first (text_take-Regular n s rest)
      ∙ ap (String.◌∷◌ (l.lower_char c)) (lower-text_take n s rest)
      ∙ ap (text_take (suc n)) (sym (l.lower_cons c s first rest))

  lower-text_drop : (n : ℕ) (s : String) → Regular s → lower (text_drop n s) ≡ text_drop n (lower s)
  lower-text_drop zero s h = refl
  lower-text_drop (suc n) String.[] h = l.lower_nil ∙ ap (text_drop (suc n)) (sym l.lower_nil)
  lower-text_drop (suc n) (String.◌∷◌ c s) h =
      let first : is_regular c ≡ true = ground arith in
      let rest : Regular s = ground arith in
      lower-text_drop n s rest ∙ ap (text_drop (suc n)) (sym (l.lower_cons c s first rest))

  pub lower-splice :
      (i : ℕ) (m r s : String)
      → lower r ≡ r
      → Regular r
      → Regular s
      → lower (splice i m r s) ≡ splice i m r (lower s)
  lower-splice i m r s fixed reg h =
      let k = i + text_length m in
      let tail = text_drop-Regular k s h in
      lower-append (text_take i s) (String.◌++◌ r (text_drop k s)) (text_take-Regular i s h)
        (append-Regular r (text_drop k s) reg tail)
      ∙ ap (λ x. String.◌++◌ x (lower (String.◌++◌ r (text_drop k s)))) (lower-text_take i s h)
      ∙ ap (String.◌++◌ (text_take i (lower s))) (
          lower-append r (text_drop k s) reg tail
          ∙ ap (λ x. String.◌++◌ x (lower (text_drop k s))) fixed
          ∙ ap (String.◌++◌ r) (lower-text_drop k s h))

pub splice-Regular : (i : ℕ) (m r s : String) → Regular r → Regular s → Regular (splice i m r s)
splice-Regular i m r s reg h =
    let k = i + text_length m in
    append-Regular (text_take i s) (String.◌++◌ r (text_drop k s)) (text_take-Regular i s h)
      (append-Regular r (text_drop k s) reg (text_drop-Regular k s h))
