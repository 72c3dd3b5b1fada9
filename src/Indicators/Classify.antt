-- ===== src/Indicators/Classify.antt =====
-- `normalize` of indicators.py: the classification of a value.
use Prim.Native.Char.{Char, code}
use opencti_middleware.Base.{
  ℕ, String, Bool, false, ◌&&◌, ◌||◌, Option, none, some, List, [], ◌∷◌, map, ltb, ◌==◌,
  if◌then◌else◌,
}
use opencti_middleware.Base.{pos}
use opencti_middleware.Base.Text.{
  text_length, between, text_elem, all_chars, concat, join, split, strip, drop_while,
  drop_while_end, show_nat, has_prefix,
}
use opencti_middleware.Indicators.{IndicatorType, ipv4, ipv6, domain, url, unknown, Normalized}
use opencti_middleware.Indicators.Defang.{defang, has_text, text_drop}
use opencti_middleware.Indicators.Normalize.{
  IpAddress, UrlParts, Texts, Rules, hash_by_length, is_hex_text, without_newline, is_domain,
  last_label, file_extensions, default_port, is_skippable_ip, is_port_text, is_empty_text,
}

-- `cleaned.strip("[]")`
abbrev pub bare_of : String → String
bare_of s =
    let is_bracket : Char → Bool = λ c. code c == 91 || code c == 93 in
    drop_while_end is_bracket (drop_while is_bracket s)

-- a value that is not looked up, or one that is
abbrev pub skipped : String → String → IndicatorType → String → Normalized
skipped raw value kind reason = record {
  original = raw;
  value = value;
  kind = kind;
  skip_reason = some reason;
}

abbrev pub accepted : String → String → IndicatorType → Normalized
accepted raw value kind = record { original = raw; value = value; kind = kind; skip_reason = none }

abbrev pub hash_kind : String → Option IndicatorType
hash_kind cleaned = elim (hash_by_length (text_length cleaned)) [
  | none ↦ none
  | some kind ↦ if is_hex_text cleaned then some kind else none
]

module _ (t : Texts) where
  -- `\d{1,3}`, and `0\d{1,2}`
  abbrev pub is_octet : String → Bool
  is_octet s = between 1 3 (text_length s) && all_chars t.is_digit s

  abbrev pub is_padded_octet : String → Bool
  is_padded_octet s =
      has_prefix "0" s && between 2 3 (text_length s) && all_chars t.is_digit (text_drop 1 s)

  -- `_DOTTED_QUAD_RE`, on the parts of the text
  abbrev pub is_dotted_quad : List String → Bool
  is_dotted_quad (a ∷ b ∷ c ∷ d ∷ []) = is_octet a && is_octet b && is_octet c && is_octet d
  is_dotted_quad _ = false

  -- `_ZERO_PADDED_IPV4_RE`, on the parts of the text
  abbrev pub is_zero_padded : List String → Bool
  is_zero_padded (a ∷ b ∷ c ∷ d ∷ []) =
      (is_padded_octet a && is_octet b && is_octet c && is_octet d)
      || (is_octet a
          && (is_padded_octet b || is_octet b)
          && (is_padded_octet c || is_octet c)
          && (is_padded_octet d || is_octet d))
  is_zero_padded _ = false

  -- `str(int(octet))`
  abbrev pub plain_octet : String → String
  plain_octet octet = elim (t.int_of octet) [ some (pos n) ↦ show_nat n | _ ↦ octet ]

  -- the decimal reading of a zero-padded address
  unfoldable pub unpadded : String → String
  unpadded bare =
      let parts = split 46 (without_newline bare) in
      if is_dotted_quad parts && is_zero_padded parts
      then join "." (map plain_octet (split 46 bare))
      else bare

  -- `_to_punycode`
  unfoldable pub to_punycode : String → String
  to_punycode host =
      if all_chars (λ c. ltb (code c) 128) host
      then t.lower host
      else elim (t.idna host) [ none ↦ t.lower host | some ascii ↦ t.lower ascii ]

  abbrev pub netloc_of : String → String → Option ℕ → String
  netloc_of scheme host none = host
  netloc_of scheme host (some port) =
      if is_port_text (default_port scheme) (show_nat port)
      then host
      else concat (host ∷ ":" ∷ show_nat port ∷ [])

  -- the URL and the hostname, of the parts
  unfoldable pub rebuild_url : UrlParts → String → Option (String × String)
  rebuild_url parts name = elim parts.port [
    | none ↦ none
    | some port ↦
        let host = to_punycode name in
        let scheme = t.lower parts.scheme in
        some (t.urlunsplit scheme (netloc_of scheme host port) parts.path parts.query, host)
  ]

  -- `_normalize_url`
  unfoldable pub normalize_url : String → Option (String × String)
  normalize_url raw =
      let candidate = if has_text "://" raw then raw else concat ("http://" ∷ raw ∷ []) in
      elim (t.urlsplit candidate) [
        | none ↦ none
        | some parts ↦ elim parts.hostname [
          | none ↦ none
          | some name ↦ if is_empty_text name then none else rebuild_url parts name
        ]
      ]

  -- `url_hostname`
  abbrev pub url_hostname : String → Option String
  url_hostname normalized_url = elim (t.urlsplit normalized_url) [
    | none ↦ none
    | some parts ↦ parts.hostname
  ]

  module _ (rules : Rules) where
    -- an address
    unfoldable pub classify_ip : String → IpAddress → Normalized
    classify_ip raw ip = record {
      original = raw;
      value = ip.compressed;
      kind = if ip.version_4 then ipv4 else ipv6;
      skip_reason = if rules.skip_private then is_skippable_ip ip else none;
    }

    -- a URL with its hostname
    unfoldable pub classify_url : String → String × String → Normalized
    classify_url raw (text, host) =
        if text_elem (last_label host) rules.skip_tlds
        then skipped raw text url "skipped_tld"
        else accepted raw text url

    -- a domain, or what is none of all
    unfoldable pub classify_domain : String → String → Normalized
    classify_domain raw cleaned =
        let host = to_punycode (drop_while_end (λ c. code c == 46) cleaned) in
        if is_domain host
        then (if text_elem (last_label host) rules.skip_tlds
            then skipped raw host domain "skipped_tld"
            else if text_elem (last_label host) file_extensions
            then skipped raw host unknown "looks_like_filename"
            else accepted raw host domain)
        else skipped raw cleaned unknown "unclassified"

    -- `normalize` from the test for a URL on
    unfoldable pub classify_name : String → String → Normalized
    classify_name raw cleaned =
        if has_text "://" cleaned || has_text "/" cleaned || has_text "?" cleaned
        then (elim (normalize_url cleaned) [
          | none ↦ skipped raw cleaned unknown "unparseable_url"
          | some parsed ↦ classify_url raw parsed
        ])
        else classify_domain raw cleaned

    -- `normalize` from the test for an address on
    unfoldable pub classify : String → String → Normalized
    classify raw cleaned = elim (t.ip_address (unpadded (bare_of cleaned))) [
      | some ip ↦ classify_ip raw ip
      | none ↦ elim (hash_kind cleaned) [
        | some kind ↦ accepted raw (t.lower cleaned) kind
        | none ↦ classify_name raw cleaned
      ]
    ]

    -- `normalize`; no result where the fuel of the defanging is used up
    unfoldable pub normalize : ℕ → String → Option Normalized
    normalize fuel raw =
        if is_empty_text raw || is_empty_text (strip raw)
        then some (skipped raw "" unknown "empty")
        else elim (defang t.lower fuel raw) [
          | none ↦ none
          | some cleaned ↦
              if is_empty_text cleaned
              then some (skipped raw "" unknown "empty_after_defang")
              else some (classify raw cleaned)
        ]
