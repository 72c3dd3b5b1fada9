-- ===== src/Indicators.antt =====
-- The classified values of indicators.py that a lookup works on, and the filters of
-- opencti/queries.py that ask OpenCTI for one.
pub mod Defang
pub mod Regular
pub mod Termination
pub mod Normalize
pub mod Classify
pub mod WellFormed
pub mod Totality
mod Tests
use opencti_middleware.Base.{String, Bool, true, false, not, Option, none, some, [], ◌∷◌}
use opencti_middleware.Base.Text.{concat}
use opencti_middleware.Base.Json.{Json, obj, arr, str, cons, nil, field, end}

pub data IndicatorType : Type 0 where
  ipv4 ipv6 domain url hash_md5 hash_sha1 hash_sha256 unknown : IndicatorType

-- `kind.value`
abbrev pub type_text : IndicatorType → String
type_text ipv4 = "IPv4-Addr"
type_text ipv6 = "IPv6-Addr"
type_text domain = "Domain-Name"
type_text url = "Url"
type_text hash_md5 = "StixFile:MD5"
type_text hash_sha1 = "StixFile:SHA-1"
type_text hash_sha256 = "StixFile:SHA-256"
type_text unknown = "Unknown"

abbrev pub hash_algorithm : IndicatorType → Option String
hash_algorithm hash_md5 = some "MD5"
hash_algorithm hash_sha1 = some "SHA-1"
hash_algorithm hash_sha256 = some "SHA-256"
hash_algorithm _ = none

abbrev pub is_hash : IndicatorType → Bool
is_hash kind = elim (hash_algorithm kind) [ none ↦ false | some _ ↦ true ]

abbrev pub is_url : IndicatorType → Bool
is_url url = true
is_url _ = false

abbrev pub is_unknown : IndicatorType → Bool
is_unknown unknown = true
is_unknown _ = false

pub record Normalized : Type 0 where
  pub original : String
  pub value : String
  pub kind : IndicatorType
  pub skip_reason : Option String

abbrev pub lookupable : Normalized → Bool
lookupable n = elim n.skip_reason [ none ↦ not (is_unknown n.kind) | some _ ↦ false ]

abbrev pub cache_key : Normalized → String
cache_key n = concat (type_text n.kind ∷ ":" ∷ n.value ∷ [])

-- `_eq`
abbrev pub eq_filter : String → String → Json
eq_filter key value = obj (
    field "mode" (str "and") (
      field "filterGroups" (arr nil) (
        field "filters"
          (arr (
            cons
              (obj (
                field "key" (str key) (
                  field "operator" (str "eq")
                    (field "values" (arr (cons (str value) nil)) (field "mode" (str "or") end)))))
              nil))
          end)))

abbrev pub value_filter : String → Json
value_filter value = eq_filter "value" value

abbrev pub hash_filter : String → String → Json
hash_filter algorithm digest = eq_filter (concat ("hashes." ∷ algorithm ∷ [])) digest
