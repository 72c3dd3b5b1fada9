-- ===== src/Indicators/WellFormed.antt =====
-- What a value is that `normalize` of indicators.py lets through to a lookup.
use Prim.Native.Char.{code}
use opencti_middleware.Base.{
  ℕ, String, ◌≡◌, ◌⊎◌, refl, sym, Bool, true, false, ◌||◌, false≢true, Option, none, some, arith,
  inl, inr, ◌==◌, Bool-cases, Option-cases, if◌then◌else◌,
}
use mathlib.Core.Path.{subst}
use mathlib.Core.Option.{some-injective}
use opencti_middleware.Base.{if_cases, then_branch}
use opencti_middleware.Base.Text.{text_length, text_elem, strip, drop_while_end}
use opencti_middleware.Indicators.{
  IndicatorType, ipv4, ipv6, domain, url, hash_md5, hash_sha1, hash_sha256, unknown, Normalized,
  lookupable,
}
use opencti_middleware.Indicators.Defang.{defang, has_text}
use opencti_middleware.Indicators.Normalize.{
  IpAddress, Texts, Rules, hash_by_length, is_hex_text, is_domain, last_label, file_extensions,
  is_skippable_ip, is_empty_text,
}
use opencti_middleware.Indicators.Classify.{
  bare_of, accepted, hash_kind, unpadded, to_punycode, normalize_url, classify_ip, classify_url,
  classify_domain, classify_name, classify, normalize,
}

-- none of the ranges that are not worth a lookup
abbrev pub IsPublic : IpAddress → Type 0
IsPublic ip =
    (ip.is_loopback ≡ false)
    × (ip.is_link_local ≡ false)
    × (ip.is_multicast ≡ false)
    × (ip.is_unspecified ≡ false)
    × (ip.is_reserved ≡ false)
    × (ip.is_private ≡ false)

-- the address that a text is read as, in its compressed form, and a public one where private ones are
-- skipped
pub record IsAddress (t : Texts) (rules : Rules) (cleaned : String) (version_4 : Bool)
    (value : String) : Type 0 where
  pub ip : IpAddress
  pub parsed : t.ip_address (unpadded t (bare_of cleaned)) ≡ some ip
  pub compressed : value ≡ ip.compressed
  pub version : ip.version_4 ≡ version_4
  pub shown : rules.skip_private ≡ true → IsPublic ip

-- the lower case of a text of so many hexadecimal digits
abbrev pub IsHash : (String → String) → ℕ → String → String → Type 0
IsHash lower n cleaned value =
    (value ≡ lower cleaned) × (is_hex_text cleaned ≡ true) × (text_length cleaned ≡ n)

-- the normalized URL of a text, whose hostname is not in a skipped top-level domain
abbrev pub IsUrl : Texts → Rules → String → String → Type 0
IsUrl t rules cleaned value =
    (host : String) × (normalize_url t cleaned ≡ some (value, host))
    × (text_elem (last_label host) rules.skip_tlds ≡ false)

-- a text without its dots at the end, in its ASCII form: a domain name, whose last label is neither a
-- skipped one nor the extension of a file
abbrev pub IsDomain : Texts → Rules → String → String → Type 0
IsDomain t rules cleaned value =
    (value ≡ to_punycode t (drop_while_end (λ c. code c == 46) cleaned))
    × (is_domain value ≡ true)
    × (text_elem (last_label value) rules.skip_tlds ≡ false)
    × (text_elem (last_label value) file_extensions ≡ false)

-- what a value of each kind is of the text that was cleaned
abbrev pub IsOfKind : Texts → Rules → String → IndicatorType → String → Type 0
IsOfKind t rules cleaned ipv4 value = IsAddress t rules cleaned true value
IsOfKind t rules cleaned ipv6 value = IsAddress t rules cleaned false value
IsOfKind t rules cleaned domain value = IsDomain t rules cleaned value
IsOfKind t rules cleaned url value = IsUrl t rules cleaned value
IsOfKind t rules cleaned hash_md5 value = IsHash t.lower 32 cleaned value
IsOfKind t rules cleaned hash_sha1 value = IsHash t.lower 40 cleaned value
IsOfKind t rules cleaned hash_sha256 value = IsHash t.lower 64 cleaned value
IsOfKind t rules cleaned unknown value = ⊥

-- a value that is looked up is of its kind
abbrev WellFormed : Texts → Rules → String → Normalized → Type 0
WellFormed t rules cleaned n = lookupable n ≡ true → IsOfKind t rules cleaned n.kind n.value

is_skippable_ip-IsPublic : (ip : IpAddress) → is_skippable_ip ip ≡ none → IsPublic ip
unfolding is_skippable_ip
is_skippable_ip-IsPublic ip h = ground arith

hash_by_length_cases :
    (n : ℕ) (kind : IndicatorType)
    → hash_by_length n ≡ some kind
    → ((kind ≡ hash_md5) × (n ≡ 32))
      ⊎ ((kind ≡ hash_sha1) × (n ≡ 40))
      ⊎ ((kind ≡ hash_sha256) × (n ≡ 64))
hash_by_length_cases n kind h = ground (arith, sym (some-injective hash_md5 kind _))

guarded_some :
    (o : Option IndicatorType) (b : Bool) (kind : IndicatorType)
    → (elim o as (λ _. Option IndicatorType) [ none ↦ none | some k ↦ if b then some k else none ])
      ≡ some kind
    → (o ≡ some kind) × (b ≡ true)
guarded_some none b kind h = absurd cc
guarded_some (some k) true kind h = (h, refl)
guarded_some (some k) false kind h = absurd cc

hash_kind_cases :
    (cleaned : String) (kind : IndicatorType)
    → hash_kind cleaned ≡ some kind
    → (hash_by_length (text_length cleaned) ≡ some kind) × (is_hex_text cleaned ≡ true)
hash_kind_cases cleaned kind h =
    guarded_some (hash_by_length (text_length cleaned)) (is_hex_text cleaned) kind h

lookupable_reason : (n : Normalized) → lookupable n ≡ true → n.skip_reason ≡ none
lookupable_reason n h = elim (Option-cases n.skip_reason) [
  | inl e ↦ e
  | inr (reason, e) ↦ absurd (let bad : false ≡ true = rw e at h in false≢true bad)
]

module _ (t : Texts) (rules : Rules) where
  classify_ip-WellFormed :
      (raw cleaned : String) (ip : IpAddress)
      → t.ip_address (unpadded t (bare_of cleaned)) ≡ some ip
      → WellFormed t rules cleaned (classify_ip t rules raw ip)
  unfolding classify_ip
  classify_ip-WellFormed raw cleaned ip parsed h =
      if_cases (λ kind. IsOfKind t rules cleaned kind ip.compressed) ip.version_4
        (λ e. record { ip = ip; parsed = parsed; compressed = refl; version = e; shown = shown })
        (λ e. record { ip = ip; parsed = parsed; compressed = refl; version = e; shown = shown })
    where
      shown : rules.skip_private ≡ true → IsPublic ip
      shown skip = is_skippable_ip-IsPublic ip (
          then_branch rules.skip_private (is_skippable_ip ip) none skip
            (lookupable_reason (classify_ip t rules raw ip) h))

  hash-WellFormed :
      (raw cleaned : String) (kind : IndicatorType)
      → hash_kind cleaned ≡ some kind
      → WellFormed t rules cleaned (accepted raw (t.lower cleaned) kind)
  hash-WellFormed raw cleaned kind e h =
      let (by_length, hex) = hash_kind_cases cleaned kind e in
      elim (hash_by_length_cases (text_length cleaned) kind by_length) [
        | inl (md5, n) ↦ rw md5 (refl, hex, n)
        | inr (inl (sha1, n)) ↦ rw sha1 (refl, hex, n)
        | inr (inr (sha256, n)) ↦ rw sha256 (refl, hex, n)
      ]

  classify_url-WellFormed :
      (raw cleaned : String) (parsed : String × String)
      → normalize_url t cleaned ≡ some parsed
      → WellFormed t rules cleaned (classify_url t rules raw parsed)
  unfolding classify_url
  classify_url-WellFormed raw cleaned (text, host) e =
      elim (Bool-cases (text_elem (last_label host) rules.skip_tlds)) [
        | inl skip ↦ rw skip (λ h. absurd (false≢true h))
        | inr fine ↦ rw fine (λ h. (host, e, fine))
      ]

  classify_domain-WellFormed :
      (raw cleaned : String) → WellFormed t rules cleaned (classify_domain t rules raw cleaned)
  unfolding classify_domain
  classify_domain-WellFormed raw cleaned = elim (Bool-cases (is_domain host)) [
    | inr not_one ↦ rw not_one (λ h. absurd (false≢true h))
    | inl is_one ↦ elim (Bool-cases (text_elem (last_label host) rules.skip_tlds)) [
      | inl skip ↦ rw (is_one, skip) (λ h. absurd (false≢true h))
      | inr fine ↦ elim (Bool-cases (text_elem (last_label host) file_extensions)) [
        | inl file ↦ rw (is_one, fine, file) (λ h. absurd (false≢true h))
        | inr plain ↦ rw (is_one, fine, plain) (λ h. (refl, is_one, fine, plain))
      ]
    ]
  ]
    where
      host : String
      host = to_punycode t (drop_while_end (λ c. code c == 46) cleaned)

  classify_name-WellFormed :
      (raw cleaned : String) → WellFormed t rules cleaned (classify_name t rules raw cleaned)
  unfolding classify_name
  classify_name-WellFormed raw cleaned =
      if_cases (WellFormed t rules cleaned)
        (has_text "://" cleaned || has_text "/" cleaned || has_text "?" cleaned)
        (λ _. elim (Option-cases (normalize_url t cleaned)) [
          | inl e ↦ rw (e, classify_name) (λ h. absurd (false≢true h))
          | inr (parsed, e) ↦ rw (e, classify_name) (classify_url-WellFormed raw cleaned parsed e)
        ])
        (λ _. classify_domain-WellFormed raw cleaned)

  classify-WellFormed :
      (raw cleaned : String) → WellFormed t rules cleaned (classify t rules raw cleaned)
  unfolding classify
  classify-WellFormed raw cleaned =
      elim (Option-cases (t.ip_address (unpadded t (bare_of cleaned)))) [
        | inr (ip, e) ↦ rw (e, classify) (classify_ip-WellFormed raw cleaned ip e)
        | inl e ↦ elim (Option-cases (hash_kind cleaned)) [
          | inr (kind, k) ↦ rw (e, k, classify) (hash-WellFormed raw cleaned kind k)
          | inl k ↦ rw (e, k, classify) (classify_name-WellFormed raw cleaned)
        ]
      ]

  -- a value that is looked up is of its kind, for the text that the cleaning leaves
  Normalizes : Option String → Option Normalized → Type 0
  Normalizes c none = Unit
  Normalizes c (some n) =
      lookupable n ≡ true
      → (cleaned : String) × (c ≡ some cleaned) × IsOfKind t rules cleaned n.kind n.value

  normalize-Normalizes :
      (fuel : ℕ) (raw : String) → Normalizes (defang t.lower fuel raw) (normalize t rules fuel raw)
  unfolding normalize Normalizes
  normalize-Normalizes fuel raw =
      if_cases (Normalizes (defang t.lower fuel raw))
        (is_empty_text raw || is_empty_text (strip raw)) (λ _ h. absurd (false≢true h))
        (λ _. elim (Option-cases (defang t.lower fuel raw)) [
          | inl e ↦ rw (e, normalize) tt
          | inr (cleaned, e) ↦
              rw (e, normalize)
                (if_cases (Normalizes (some cleaned)) (is_empty_text cleaned)
                  (λ _ h. absurd (false≢true h))
                  (λ _ h. (cleaned, refl, classify-WellFormed raw cleaned h)))
        ])

  -- A value that `normalize` returns and that can be looked up is of its kind, by the text that the
  -- defanging leaves: the compressed form of the address that this text is read as, which is none of
  -- the loopback, link-local, multicast, unspecified, reserved or private ones where those are
  -- skipped; the lower case of the text, of as many hexadecimal digits as the algorithm has; its
  -- normalized URL, whose hostname is in no skipped top-level domain; or its ASCII form without the
  -- dots at the end, a domain name whose last label is neither a skipped one nor the extension of a
  -- file.
  pub normalize-IsOfKind :
      (fuel : ℕ) (raw : String) (n : Normalized)
      → normalize t rules fuel raw ≡ some n
      → lookupable n ≡ true
      → (cleaned : String) × (defang t.lower fuel raw ≡ some cleaned)
        × IsOfKind t rules cleaned n.kind n.value
  unfolding Normalizes
  normalize-IsOfKind fuel raw n e h =
      subst (Normalizes (defang t.lower fuel raw)) e (normalize-Normalizes fuel raw) h
