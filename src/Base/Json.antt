-- ===== src/Base/Json.antt =====
-- Decoded JSON as Python sees it. Numbers with a fraction are left out: the fields that the program
-- computes with are integers.
use opencti_middleware.Base.Int.{ℤ, pos, negsuc}
use opencti_middleware.Base.Tests.{str_eq, ◌==◌, if◌then◌else◌}
use Prim.Native.String.{String}
use mathlib.Core.Bool.{Bool, true, false, not}
use mathlib.Core.Option.{Option, none, some}
use mathlib.Core.List.{List, [], ◌∷◌}

mutual
  pub data Json : Type 0 where
    null : Json
    bool : Bool → Json
    int : ℤ → Json
    str : String → Json
    arr : Items → Json
    obj : Fields → Json

  pub data Items : Type 0 where
    nil : Items
    cons : Json → Items → Items

  pub data Fields : Type 0 where
    end : Fields
    field : String → Json → Fields → Fields

abbrev pub items : Items → List Json
items nil = []
items (cons v vs) = v ∷ items vs

-- `d.values()`
abbrev pub values : Fields → List Json
values end = []
values (field k v fs) = v ∷ values fs

-- the keys of a dictionary, as `for key in d` yields them
abbrev pub keys : Fields → List Json
keys end = []
keys (field k v fs) = str k ∷ keys fs

-- the characters of a text, as `for c in s` yields them
abbrev pub characters : String → List Json
characters String.[] = []
characters (String.◌∷◌ c s) = str (String.◌∷◌ c "") ∷ characters s

-- `d.get(key)`, with `None` for a key that is missing
abbrev pub get : String → Fields → Json
get key end = null
get key (field k v fs) = if str_eq k key then v else get key fs

-- the value of a key that is there
abbrev pub get? : String → Fields → Option Json
get? key end = none
get? key (field k v fs) = if str_eq k key then some v else get? key fs

-- `bool(v)`
abbrev pub truthy : Json → Bool
truthy null = false
truthy (bool b) = b
truthy (int (pos n)) = not (n == 0)
truthy (int (negsuc n)) = true
truthy (str s) = not (str_eq s "")
truthy (arr nil) = false
truthy (arr (cons v vs)) = true
truthy (obj end) = false
truthy (obj (field k v fs)) = true

-- `v or {}` for a value that is read as a dictionary, `none` where it is something else that is true
abbrev pub dict_or_empty : Json → Option Fields
dict_or_empty (obj fs) = some fs
dict_or_empty v = if truthy v then none else some end

-- `v or []` for a value that is iterated over as a list
abbrev pub list_or_empty : Json → Option (List Json)
list_or_empty (arr vs) = some (items vs)
list_or_empty v = if truthy v then none else some []
