-- ===== src/Indicators/Totality.antt =====
-- `normalize` of indicators.py returns.
use opencti_middleware.Base.{ℕ, ◌*◌, ◌≤◌, String, ◌≡◌, refl, true, ◌||◌, Option, some}
use opencti_middleware.Base.{if_cases}
use opencti_middleware.Base.Text.{text_length, all_chars, strip}
use opencti_middleware.Indicators.{Normalized, unknown}
use opencti_middleware.Indicators.Regular.{LowersChars, is_regular}
use opencti_middleware.Indicators.Termination.{defang-ends}
use opencti_middleware.Indicators.Normalize.{Texts, Rules, is_empty_text}
use opencti_middleware.Indicators.Classify.{skipped, classify, normalize}

abbrev pub Returns : Option Normalized → Type 0
Returns r = (n : Normalized) × (r ≡ some n)

-- Where lower-casing changes the regular characters one by one and leaves those of ASCII that are no
-- capital letters alone, `normalize` returns for every text of regular characters, which are all but the capital I with a dot
-- and the capital sigma, with fuel for twice as many rounds of the defanging as the text has
-- characters.
pub normalize-Returns :
    (t : Texts) (rules : Rules)
    → LowersChars t.lower
    → (fuel : ℕ) (raw : String) → all_chars is_regular raw ≡ true
    → 2 * text_length raw ≤ fuel
    → Returns (normalize t rules fuel raw)
unfolding normalize
normalize-Returns t rules l fuel raw reg h =
    if_cases Returns (is_empty_text raw || is_empty_text (strip raw))
      (λ _. (skipped raw "" unknown "empty", refl))
      λ _.
        let (cleaned, e) = defang-ends t.lower l fuel raw reg h in
        rw (e, normalize)
          (if_cases Returns (is_empty_text cleaned)
            (λ _. (skipped raw "" unknown "empty_after_defang", refl))
            (λ _. (classify t rules raw cleaned, refl)))
