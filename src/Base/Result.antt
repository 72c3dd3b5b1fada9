-- ===== src/Base/Result.antt =====
-- Python exceptions as values. The constructors are the exception classes that the program raises
-- or catches; a message is kept where the program builds one.
use Prim.Native.String.{String}
use mathlib.Core.Path.{◌≡◌, refl}
use mathlib.Core.Logic.{◌⊎◌, inl, inr}

pub data Exception : Type 0 where
  breaker_open opencti_error : String → Exception
  file_exists file_not_found os_error : Exception
  value_error type_error attribute_error key_error cancelled : Exception

-- What a call returns, or what it raises.
pub data Result {ℓ} (V : Type ℓ) : Type ℓ where
  raise : Exception → Result V
  ok : V → Result V

infixl 5 ◌>>=◌
abbrev pub ◌>>=◌ {ℓ} : {V W : Type ℓ} (m : Result V) (rest : V → Result W) → Result W
raise e >>= rest = raise e
ok v >>= rest = rest v

-- A chain that returns has returned at each link.
pub ok_of_bind {ℓ} :
    {V W : Type ℓ} (m : Result V) {rest : V → Result W} {w : W} (h : (m >>= rest) ≡ ok w)
    → (v : V) × (m ≡ ok v) × (rest v ≡ ok w)
ok_of_bind (raise e) h = cc
ok_of_bind (ok v) h = (v, refl, h)

pub Result-cases {ℓ} :
    {V : Type ℓ} (m : Result V) → ((e : Exception) × (m ≡ raise e)) ⊎ ((v : V) × (m ≡ ok v))
Result-cases (raise e) = inl (e, refl)
Result-cases (ok v) = inr (v, refl)
