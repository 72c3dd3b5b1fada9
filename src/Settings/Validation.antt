-- ===== src/Settings/Validation.antt =====
-- What a setting that passes its validator looks like.
use opencti_middleware.Base.{String, ◌≡◌, true, false, some, arith, str_eq}
use opencti_middleware.Base.Text.{all_chars}
use opencti_middleware.Base.Json.{Json}
use opencti_middleware.Base.Result.{ok}
use opencti_middleware.Settings.{is_id_char, stream_id}

-- A stream ID that the validator lets through is not empty and holds only letters, digits and dashes.
pub stream_id-all_chars :
    (py_str : Json → String) (v : Json) (id : String)
    → stream_id py_str v ≡ ok (some id)
    → (str_eq id "" ≡ false) × (all_chars is_id_char id ≡ true)
unfolding stream_id
stream_id-all_chars py_str v id e = ground arith
