-- ===== src/Shared/Names.antt =====
-- The names of the segments (`segment_name` of backends/shared_state.py).
use Prim.Native.Char.{Char, code}
use Prim.Native.String
use Prim.Native.String.{slice}
use opencti_middleware.Base.{
  ℕ, zero, suc, ◌+◌, ◌-◌, ◌*◌, ◌/◌, ◌%◌, ◌<◌, String, ◌≡◌, refl, ◌∙◌, sym, ap, true, arith, inl,
  inr, ltb, Bool-cases,
}
use text.Mathlib.TextLemmas.{nil-append, cons-append, append_cancel_left}
use opencti_middleware.Base.Text.{show_nat, digits_of, has_prefix}
use opencti_middleware.Shared.{segment_prefix, segment_name}

-- the number that decimal digits stand for, after those that stand for `acc`
number : ℕ → String → ℕ
number acc String.[] = acc
number acc (String.◌∷◌ c s) = number (acc * 10 + (code c - 48)) s

abbrev digit : ℕ → String
digit d = slice "0123456789" d (d + 1)

-- a digit is one character, of its value
one_digit : (d : ℕ) → d < 10 → (c : Char) × (digit d ≡ String.◌∷◌ c "") × (code c - 48 ≡ d)
one_digit zero h = (_, refl, refl)
one_digit (suc zero) h = (_, refl, refl)
one_digit (suc (suc zero)) h = (_, refl, refl)
one_digit (suc (suc (suc zero))) h = (_, refl, refl)
one_digit (suc (suc (suc (suc zero)))) h = (_, refl, refl)
one_digit (suc (suc (suc (suc (suc zero))))) h = (_, refl, refl)
one_digit (suc (suc (suc (suc (suc (suc zero)))))) h = (_, refl, refl)
one_digit (suc (suc (suc (suc (suc (suc (suc zero))))))) h = (_, refl, refl)
one_digit (suc (suc (suc (suc (suc (suc (suc (suc zero)))))))) h = (_, refl, refl)
one_digit (suc (suc (suc (suc (suc (suc (suc (suc (suc zero))))))))) h = (_, refl, refl)
one_digit (suc (suc (suc (suc (suc (suc (suc (suc (suc (suc d)))))))))) h = absurd (omega arith)

number-digit :
    (d acc : ℕ) (s : String)
    → d < 10
    → number acc (String.◌++◌ (digit d) s) ≡ number (acc * 10 + d) s
unfolding number
number-digit d acc s h =
    let (c, e, k) = one_digit d h in
    rw (e, cons-append c "" s, nil-append s) (ap (λ v. number (acc * 10 + v) s) k)

number-digits_of : (fuel n : ℕ) (s : String) → n < fuel → number 0 (digits_of fuel n s) ≡ number n s
unfolding digits_of number
number-digits_of zero n s h = absurd (omega arith)
number-digits_of (suc fuel) n s h = elim (Bool-cases (ltb n 10)) [
  | inl small ↦
      let last : 0 * 10 + n % 10 ≡ n = ground arith in
      rw small (number-digit (n % 10) 0 s (omega arith) ∙ ap (λ v. number v s) last)
  | inr large ↦
      let again = number-digits_of fuel (n / 10) (String.◌++◌ (digit (n % 10)) s) (ground arith) in
      let same : n / 10 * 10 + n % 10 ≡ n = omega arith in
      rw large (again ∙ number-digit (n % 10) (n / 10) s (omega arith) ∙ ap (λ v. number v s) same)
]

number-show_nat : (n : ℕ) → number 0 (show_nat n) ≡ n
unfolding show_nat number
number-show_nat n = number-digits_of (n + 1) n "" (omega arith)

-- Two generations with the same segment name are the same generation.
pub segment_name-injective : (m n : ℕ) → segment_name m ≡ segment_name n → m ≡ n
unfolding segment_name
segment_name-injective m n e =
    let same : show_nat m ≡ show_nat n = append_cancel_left segment_prefix _ _ e in
    sym (number-show_nat m) ∙ ap (number 0) same ∙ number-show_nat n

has_prefix-append : (p s : String) → has_prefix p (String.◌++◌ p s) ≡ true
has_prefix-append String.[] s = refl
has_prefix-append (String.◌∷◌ c p) s = ground (arith, cons-append c p s, has_prefix-append p s)

pub has_prefix-segment_name : (n : ℕ) → has_prefix segment_prefix (segment_name n) ≡ true
unfolding segment_name
has_prefix-segment_name n = has_prefix-append segment_prefix (show_nat n)
