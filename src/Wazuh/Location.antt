-- ===== src/Wazuh/Location.antt =====
-- What the event of an agent tells of it (`send_event` of wazuh/custom-opencti.py).
use opencti_middleware.Base.{
  String, ◌≡◌, refl, ◌∙◌, sym, ap, Bool, true, false, not, ◌&&◌, List, [], ◌∷◌, arith, inl, inr,
  ◌==◌, ==_iff, Bool-cases, if◌then◌else◌,
}
use Prim.Native.Char.{Char, code}
use Prim.Native.String
use text.Mathlib.TextLemmas.{nil-append, cons-append, append_cancel_left, append_cancel_right}
use text.Mathlib.TextEquality.{Char-path}
use opencti_middleware.Base.Result.{Result, ok}
use opencti_middleware.Base.Text.{concat, all_chars}
use opencti_middleware.Base.Json.{Json, Fields, obj, get, truthy}
use opencti_middleware.Wazuh.Event.{
  integration_name, escape_location, is_text, agent_location, event_payload,
}

-- The inverse of the escaping: a bar stands for the character after it, and the first colon that no bar
-- stands before ends the text. The argument says whether a bar stands before.
abbrev read_from : Bool → String → String
read_from escaped String.[] = ""
read_from true (String.◌∷◌ c s) = String.◌∷◌ c (read_from false s)
read_from false (String.◌∷◌ c s) =
    if code c == 124
    then read_from true s
    else if code c == 58
    then ""
    else String.◌∷◌ c (read_from false s)

abbrev read_location : String → String
read_location s = read_from false s

abbrev bar : Char
bar = "|"

abbrev colon : Char
colon = ":"

two_bars : (r : String) → String.◌++◌ "||" r ≡ String.◌∷◌ bar (String.◌∷◌ bar r)
two_bars r =
    cons-append bar "|" r
    ∙ ap (String.◌∷◌ bar) (cons-append bar "" r ∙ ap (String.◌∷◌ bar) (nil-append r))

bar-colon : (r : String) → String.◌++◌ "|:" r ≡ String.◌∷◌ bar (String.◌∷◌ colon r)
bar-colon r =
    cons-append bar ":" r
    ∙ ap (String.◌∷◌ bar) (cons-append colon "" r ∙ ap (String.◌∷◌ colon) (nil-append r))

read_from-escape_location :
    (s w : String)
    → read_from false (String.◌++◌ (escape_location s) w) ≡ String.◌++◌ s (read_from false w)
unfolding escape_location
read_from-escape_location String.[] w = simp (nil-append)
read_from-escape_location (String.◌∷◌ c s) w =
    let rest = read_from-escape_location s w in
    elim (Bool-cases (code c == 124)) [
      | inl is ↦
          let same : c ≡ bar = Char-path c bar ((==_iff (code c) 124).0 is) in
          simp (same, two_bars, cons-append, rest)
      | inr plain ↦ elim (Bool-cases (code c == 58)) [
        | inl is ↦
            let same : c ≡ colon = Char-path c colon ((==_iff (code c) 58).0 is) in
            simp (same, bar-colon, cons-append, rest)
        | inr other ↦ simp (plain, other, cons-append, rest)
      ]
    ]

abbrev is_plain : Char → Bool
is_plain c = not (code c == 124) && not (code c == 58)

read_from-plain :
    (s w : String)
    → all_chars is_plain s ≡ true
    → read_from false (String.◌++◌ s w) ≡ String.◌++◌ s (read_from false w)
read_from-plain String.[] w h = simp (nil-append)
read_from-plain (String.◌∷◌ c s) w h =
    let bar_free : (code c == 124) ≡ false = ground arith in
    let colon_free : (code c == 58) ≡ false = ground arith in
    let rest = read_from-plain s w (ground arith) in simp (bar_free, colon_free, cons-append, rest)

read_from-end : (w : String) → read_from false (String.◌++◌ ":" w) ≡ ""
read_from-end w = ap (read_from false) (cons-append colon "" w)

module _ (py_str : Json → String) (dumps : List (String × Json) → String) where
  event_payload-read_location :
      (message : List (String × Json)) (agent : Fields)
      → truthy (obj agent) ≡ true
      → is_text "000" (get "id" agent) ≡ false
      → (rest : String) × (event_payload py_str dumps message (obj agent)
          ≡ ok (String.◌++◌ "1:" rest))
        × (read_location rest ≡ String.◌++◌ (agent_location py_str dumps agent) "->opencti")
  unfolding event_payload
  event_payload-read_location message agent there other =
      let last = concat (":" ∷ dumps message ∷ []) in
      let name = concat (integration_name ∷ ":" ∷ dumps message ∷ []) in
      let tail = concat ("->" ∷ integration_name ∷ ":" ∷ dumps message ∷ []) in
      let location = agent_location py_str dumps agent in
      (
        String.◌++◌ (escape_location location) tail,
        rw (there, other, event_payload) refl,
        read_from-escape_location location tail
            ∙ ap (String.◌++◌ location) (
                read_from-plain "->" name refl
                ∙ ap (String.◌++◌ "->") (
                    read_from-plain "opencti" last refl
                    ∙ ap (String.◌++◌ "opencti") (read_from-end (concat (dumps message ∷ []))))),
      )

  -- Where two agents of other ids than 000 have the same event, their locations are the same, whatever
  -- the messages are: an agent cannot take a name with colons or bars in it by which its events pass for
  -- those of another one.
  pub event_payload-injective :
      (message message' : List (String × Json)) (agent agent' : Fields)
      → truthy (obj agent) ≡ true
      → is_text "000" (get "id" agent) ≡ false
      → truthy (obj agent') ≡ true
      → is_text "000" (get "id" agent') ≡ false
      → event_payload py_str dumps message (obj agent)
        ≡ event_payload py_str dumps message' (obj agent')
      → agent_location py_str dumps agent ≡ agent_location py_str dumps agent'
  event_payload-injective message message' agent agent' there other there' other' same =
      let (rest, sent, reads) = event_payload-read_location message agent there other in
      let (rest', sent', reads') = event_payload-read_location message' agent' there' other' in
      let texts : String.◌++◌ "1:" rest ≡ String.◌++◌ "1:" rest' =
        ok-injective (sym sent ∙ same ∙ sent') in
      append_cancel_right (agent_location py_str dumps agent) (agent_location py_str dumps agent')
        "->opencti"
        (sym reads ∙ ap read_location (append_cancel_left "1:" rest rest' texts) ∙ reads')
    where
      ok-injective : {s t : String} → Result.ok s ≡ ok t → s ≡ t
      ok-injective h = cc
