-- ===== src/Base/Text.antt =====
-- Python's `str`, by its characters: the slices, tests and conversions that the program uses.
use Prim.Native.Char.{Char, code}
use Prim.Native.String
use Prim.Native.String.{String, slice}
use opencti_middleware.Base.Tests.{str_eq, ltb, leb, ◌==◌, if◌then◌else◌}
use Prim.Native.Nat.{ℕ, zero, suc, ◌+◌, ◌/◌, ◌%◌, ◌≤◌}
use mathlib.Core.Path.{◌≡◌, refl, sym, ◌∙◌}
use mathlib.Core.Logic.{◌≢◌}
use text.Mathlib.TextEquality.{eq_iff}
use text.Mathlib.TextLemmas.{nil-append, cons-append}
use mathlib.Core.Bool.{Bool, true, false, false≢true, ◌||◌, ◌&&◌}
use mathlib.Core.List.{List, [], ◌∷◌}
use native.Mathlib.Omega.{arith}

-- `len(s)`
abbrev pub text_length : String → ℕ
text_length String.[] = 0
text_length (String.◌∷◌ c s) = suc (text_length s)

-- `s[:n]`
abbrev pub text_take : ℕ → String → String
text_take zero s = ""
text_take (suc n) String.[] = ""
text_take (suc n) (String.◌∷◌ c s) = String.◌∷◌ c (text_take n s)

-- an f-string, by its parts
abbrev pub concat : List String → String
concat [] = ""
concat (s ∷ ss) = String.◌++◌ s (concat ss)

-- `sep.join(parts)`
abbrev pub join : String → List String → String
join sep [] = ""
join sep (p ∷ []) = p
join sep (p ∷ q ∷ ps) = String.◌++◌ p (String.◌++◌ sep (join sep (q ∷ ps)))

-- `s.startswith(prefix)`
abbrev pub has_prefix : String → String → Bool
has_prefix String.[] s = true
has_prefix (String.◌∷◌ c p) String.[] = false
has_prefix (String.◌∷◌ c p) (String.◌∷◌ d s) = (code c == code d) && has_prefix p s

abbrev pub text_elem : String → List String → Bool
text_elem s [] = false
text_elem s (t ∷ ts) = str_eq t s || text_elem s ts

abbrev pub between : ℕ → ℕ → ℕ → Bool
between low high n = leb low n && leb n high

-- the white space that `str.strip` takes off
abbrev pub is_space : Char → Bool
is_space c =
    let n = code c in
    n == 32
    || between 9 13 n
    || between 28 31 n
    || n == 133
    || n == 160
    || n == 5760
    || between 8192 8202 n
    || between 8232 8233 n
    || n == 8239
    || n == 8287
    || n == 12288

abbrev pub drop_while : (Char → Bool) → String → String
drop_while p String.[] = ""
drop_while p (String.◌∷◌ c s) = if p c then drop_while p s else String.◌∷◌ c s

-- the characters up to the last one that is not `p`
abbrev pub drop_while_end : (Char → Bool) → String → String
drop_while_end p String.[] = ""
drop_while_end p (String.◌∷◌ c s) =
    let rest = drop_while_end p s in if p c && str_eq rest "" then "" else String.◌∷◌ c rest

-- `s.strip()`
unfoldable pub strip : String → String
strip s = drop_while_end is_space (drop_while is_space s)

-- `s <= t`, by code points
abbrev pub text_le : String → String → Bool
text_le String.[] t = true
text_le (String.◌∷◌ c s) String.[] = false
text_le (String.◌∷◌ c s) (String.◌∷◌ d t) =
    if code c == code d then text_le s t else ltb (code c) (code d)

-- `s.replace(c, by)` for a single character `c`, by its code
abbrev pub replace_char : ℕ → String → String → String
replace_char n by String.[] = ""
replace_char n by (String.◌∷◌ c s) =
    if code c == n then String.◌++◌ by (replace_char n by s) else String.◌∷◌ c (replace_char n by s)

-- what a character before the first separator is put in front of
abbrev pub cons_first : Char → List String → List String
cons_first c [] = String.◌∷◌ c "" ∷ []
cons_first c (p ∷ ps) = String.◌∷◌ c p ∷ ps

-- `s.split(c)`, by the code of `c`
abbrev pub split : ℕ → String → List String
split n String.[] = "" ∷ []
split n (String.◌∷◌ c s) =
    let rest = split n s in if code c == n then "" ∷ rest else cons_first c rest

abbrev pub all_chars : (Char → Bool) → String → Bool
all_chars p String.[] = true
all_chars p (String.◌∷◌ c s) = p c && all_chars p s

unfoldable pub digits_of : ℕ → ℕ → String → String
digits_of zero n acc = acc
digits_of (suc fuel) n acc =
    let digit = slice "0123456789" (n % 10) (n % 10 + 1) in
    let rest = digits_of fuel (n / 10) (String.◌++◌ digit acc) in
    if ltb n 10 then String.◌++◌ digit acc else rest

-- `str(n)`
unfoldable pub show_nat : ℕ → String
unfolding digits_of
show_nat n = digits_of (n + 1) n ""

pub text_length-take-le : (n : ℕ) (s : String) → text_length (text_take n s) ≤ n
text_length-take-le zero s = omega arith
text_length-take-le (suc n) String.[] = omega arith
text_length-take-le (suc n) (String.◌∷◌ c s) = omega (arith, text_length-take-le n s)

show_nat_example : show_nat 50307 ≡ "50307"
unfolding show_nat
show_nat_example = refl

strip_example : strip "  a b  " ≡ "a b"
unfolding strip
strip_example = refl

pub text_le_trans : (s t u : String) → text_le s t ≡ true → text_le t u ≡ true → text_le s u ≡ true
text_le_trans String.[] t u h k = refl
text_le_trans (String.◌∷◌ c s) (String.◌∷◌ d t) (String.◌∷◌ e u) h k =
    ground (arith, text_le_trans s t u)
text_le_trans (String.◌∷◌ c s) (String.◌∷◌ d t) String.[] h k = absurd (false≢true k)
text_le_trans (String.◌∷◌ c s) String.[] u h k = absurd (false≢true h)

pub text_le_total : (s t : String) → text_le s t ≡ false → text_le t s ≡ true
text_le_total String.[] t h = ground arith
text_le_total (String.◌∷◌ c s) String.[] h = refl
text_le_total (String.◌∷◌ c s) (String.◌∷◌ d t) h = ground (arith, text_le_total s t)

pub text_length-append :
    (s t : String) → text_length (String.◌++◌ s t) ≡ text_length s + text_length t
text_length-append String.[] t = ground (arith, nil-append t)
text_length-append (String.◌∷◌ c s) t = ground (arith, cons-append c s t, text_length-append s t)

pub str_eq-false : (s t : String) → str_eq s t ≡ false → s ≢ t
str_eq-false s t h e = absurd (false≢true (sym h ∙ (eq_iff s t).1 e))
