-- ===== src/Base/Python.antt =====
-- Conversions of Python's own that the program applies to values from outside, as a record of
-- functions: a model that depends on one takes the record as an argument.
use Prim.Native.Nat.{ℕ}
use Prim.Native.String.{String}
use mathlib.Core.Bool.{true}
use mathlib.Core.Option.{Option, none, some}
use opencti_middleware.Base.Int.{ℤ, pos}
use opencti_middleware.Base.Json.{
  Json, Fields, bool, int, str, arr, obj, end, items, keys, characters, truthy,
}
use mathlib.Core.List.{List, []}
use opencti_middleware.Base.Result.{Result, ok, raise, value_error, type_error, attribute_error}
use opencti_middleware.Base.Tests.{if◌then◌else◌}

-- A datetime without an offset cannot be compared with one that has it.
pub data Datetime : Type 0 where
  naive aware : ℕ → Datetime

-- `str` of any value, `int` of a text, and `datetime.fromisoformat`; `none` is a ValueError.
pub record Python : Type 0 where
  pub str_of : Json → String
  pub int_of : String → Option ℤ
  pub fromisoformat : String → Option Datetime

-- `int(v or 0)`
abbrev pub int_or_zero : Python → Json → Result ℤ
int_or_zero py (int n) = ok n
int_or_zero py (bool true) = ok (pos 1)
int_or_zero py (str s) =
    if truthy (str s)
    then elim (py.int_of s) [ none ↦ raise value_error | some n ↦ ok n ]
    else ok (pos 0)
int_or_zero py v = if truthy v then raise type_error else ok (pos 0)

-- the dictionary that a method of one is called on
abbrev pub as_dict : Json → Result Fields
as_dict (obj fs) = ok fs
as_dict v = raise attribute_error

-- `v or {}`
abbrev pub or_dict : Json → Json
or_dict v = if truthy v then v else obj end

-- `iter(v)`: a text yields its characters, a dictionary its keys
abbrev pub iterate : Json → Result (List Json)
iterate (arr vs) = ok (items vs)
iterate (str s) = ok (characters s)
iterate (obj fs) = ok (keys fs)
iterate v = raise type_error

-- `v or []`, iterated over
abbrev pub iterate_or_empty : Json → Result (List Json)
iterate_or_empty v = if truthy v then iterate v else ok []
