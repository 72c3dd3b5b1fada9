-- ===== src/Indicators/Defang.antt =====
-- `_defang` of indicators.py. The lower-casing of a text is an argument. The loop over a marker has
-- fuel for its rounds: with a lower-casing that moves the indices it can go on for ever.
use Prim.Native.Char.{Char, code}
use Prim.Native.String
use opencti_middleware.Base.{
  ℕ, zero, suc, ◌+◌, String, Bool, true, false, ◌||◌, Option, none, some, List, [], ◌∷◌, any, ◌==◌,
  if◌then◌else◌,
}
use opencti_middleware.Base.Text.{
  text_length, text_take, between, has_prefix, drop_while, drop_while_end, strip,
}

-- `s[n:]`
abbrev pub text_drop : ℕ → String → String
text_drop zero s = s
text_drop (suc n) String.[] = ""
text_drop (suc n) (String.◌∷◌ c s) = text_drop n s

-- `s.find(marker)`, for a marker that is not empty
unfoldable pub find_text : String → String → Option ℕ
find_text marker String.[] = none
find_text marker (String.◌∷◌ c s) =
    let later = find_text marker s in
    if has_prefix marker (String.◌∷◌ c s)
    then some 0
    else elim later [ none ↦ none | some i ↦ some (suc i) ]

-- `marker in s`
abbrev pub has_text : String → String → Bool
has_text marker s = elim (find_text marker s) [ none ↦ false | some _ ↦ true ]

-- `_DEFANG`
abbrev pub defang_markers : List (String × String)
defang_markers =
    ("[.]", ".")
    ∷ ("(.)", ".")
    ∷ ("{.}", ".")
    ∷ (" dot ", ".")
    ∷ ("[:]", ":")
    ∷ ("[/]", "/")
    ∷ ("[@]", "@")
    ∷ ("[at]", "@")
    ∷ ("hxxps", "https")
    ∷ ("hxxp", "http")
    ∷ ("fxp", "ftp")
    ∷ []

-- a character of `_STRIP_CHARS`
abbrev pub is_strip_char : Char → Bool
is_strip_char c =
    let n = code c in
    n == 32
    || between 9 10 n
    || n == 13
    || n == 34
    || between 39 41 n
    || n == 60
    || n == 62
    || n == 91
    || n == 93

abbrev pub strip_chars : String → String
strip_chars s = drop_while_end is_strip_char (drop_while is_strip_char s)

-- `out[:idx] + repl + out[idx + len(marker):]`
abbrev pub splice : ℕ → String → String → String → String
splice idx marker repl out =
    String.◌++◌ (text_take idx out) (String.◌++◌ repl (text_drop (idx + text_length marker) out))

unfoldable pub is_marked : String → Bool
is_marked lowered = any (λ m. has_text m.0 lowered) defang_markers

module _ (lower : String → String) where
  -- the `while` over one marker
  unfoldable pub replace_marker : ℕ → String → String → String → Option String
  replace_marker zero marker repl out = elim (find_text marker (lower out)) [
    | none ↦ some out
    | some _ ↦ none
  ]
  replace_marker (suc fuel) marker repl out = elim (find_text marker (lower out)) [
    | none ↦ some out
    | some idx ↦ replace_marker fuel marker repl (splice idx marker repl out)
  ]

  unfoldable pub replace_markers : ℕ → List (String × String) → String → Option String
  replace_markers fuel [] out = some out
  replace_markers fuel ((marker, repl) ∷ rest) out = elim (replace_marker fuel marker repl out) [
    | none ↦ none
    | some out' ↦ replace_markers fuel rest out'
  ]

  -- the replacements, where a marker is in the text
  unfoldable pub replace_marked : ℕ → String → Option String
  replace_marked fuel out =
      let replaced = replace_markers fuel defang_markers out in
      if is_marked (lower out) then replaced else some out

  -- `_defang`
  unfoldable pub defang : ℕ → String → Option String
  defang fuel raw = elim (replace_marked fuel (strip_chars (strip raw))) [
    | none ↦ none
    | some s ↦ some (strip_chars s)
  ]
