-- ===== src/Indicators/Normalize.antt =====
-- `normalize` of indicators.py: a value of Graylog is classified and brought into one form. What the
-- standard library makes of a text (lower case, IDNA, addresses, URLs, digits) is an argument.
use Prim.Native.Char.{Char, code}
use opencti_middleware.Base.{
  ℕ, String, Bool, false, not, ◌&&◌, ◌||◌, Option, none, some, List, [], ◌∷◌, ◌==◌, str_eq,
  if◌then◌else◌, ℤ,
}
use opencti_middleware.Base.Text.{text_length, between, all_chars, split, has_prefix}
use opencti_middleware.Indicators.{IndicatorType, hash_md5, hash_sha1, hash_sha256}

-- An address of the module ipaddress.
pub record IpAddress : Type 0 where
  pub version_4 : Bool
  pub compressed : String
  pub is_loopback : Bool
  pub is_link_local : Bool
  pub is_multicast : Bool
  pub is_unspecified : Bool
  pub is_reserved : Bool
  pub is_private : Bool

-- What `urlsplit` returns: `port` is `none` where reading it raises ValueError.
pub record UrlParts : Type 0 where
  pub scheme : String
  pub hostname : Option String
  pub port : Option (Option ℕ)
  pub path : String
  pub query : String

-- The standard library: `none` stands for a ValueError or, of `idna`, a UnicodeError.
pub record Texts : Type 0 where
  pub lower : String → String
  pub idna : String → Option String
  pub is_digit : Char → Bool
  pub int_of : String → Option ℤ
  pub ip_address : String → Option IpAddress
  pub urlsplit : String → Option UrlParts
  pub urlunsplit : (scheme netloc path query : String) → String

-- `settings.skip_private_ips` and `settings.skip_tlds`
pub record Rules : Type 0 where
  pub skip_private : Bool
  pub skip_tlds : List String

-- `_HASH_BY_LENGTH`
abbrev pub hash_by_length : ℕ → Option IndicatorType
hash_by_length n =
    if n == 32
    then some hash_md5
    else if n == 40
    then some hash_sha1
    else if n == 64
    then some hash_sha256
    else none

-- a character of `_HEX_RE`
abbrev pub is_hex : Char → Bool
is_hex c = let n = code c in between 97 102 n || between 65 70 n || between 48 57 n

-- `$` of a regular expression also stands before a newline at the end.
abbrev pub without_newline : String → String
without_newline String.[] = ""
without_newline (String.◌∷◌ c s) =
    let rest = without_newline s in if code c == 10 && str_eq s "" then "" else String.◌∷◌ c rest

abbrev pub is_empty_text : String → Bool
is_empty_text s = str_eq s ""

-- `_HEX_RE`
abbrev pub is_hex_text : String → Bool
is_hex_text s = let body = without_newline s in not (is_empty_text body) && all_chars is_hex body

-- a character of a domain name in lower case
abbrev pub is_label_char : Char → Bool
is_label_char c = let n = code c in between 97 122 n || between 48 57 n || n == 45

abbrev pub is_letter : Char → Bool
is_letter c = between 97 122 (code c)

abbrev pub any_char : (Char → Bool) → String → Bool
any_char p String.[] = false
any_char p (String.◌∷◌ c s) = p c || any_char p s

abbrev pub ends_in_hyphen : String → Bool
ends_in_hyphen String.[] = false
ends_in_hyphen (String.◌∷◌ c s) = if str_eq s "" then code c == 45 else ends_in_hyphen s

-- a label: `(?!-)[a-z0-9-]{1,63}(?<!-)`
abbrev pub is_label : String → Bool
is_label s =
    between 1 63 (text_length s)
    && all_chars is_label_char s
    && not (has_prefix "-" s)
    && not (ends_in_hyphen s)

-- the last label: `(?!-)[a-z0-9-]*[a-z][a-z0-9-]*(?<!-)`
abbrev pub is_last_label : String → Bool
is_last_label s =
    all_chars is_label_char s
    && any_char is_letter s
    && not (has_prefix "-" s)
    && not (ends_in_hyphen s)

-- one label or more, and a last one
abbrev pub are_labels : List String → Bool
are_labels [] = false
are_labels (label ∷ []) = false
are_labels (label ∷ last ∷ []) = is_label label && is_last_label last
are_labels (label ∷ next ∷ after ∷ rest) = is_label label && are_labels (next ∷ after ∷ rest)

-- `_DOMAIN_RE`
unfoldable pub is_domain : String → Bool
is_domain host =
    let name = without_newline host in
    between 1 253 (text_length name) && are_labels (split 46 name)

-- `host.rsplit(".", 1)[-1]`
abbrev pub last_of : List String → String
last_of [] = ""
last_of (s ∷ []) = s
last_of (s ∷ t ∷ rest) = last_of (t ∷ rest)

unfoldable pub last_label : String → String
last_label host = last_of (split 46 host)

-- `FILE_EXTENSIONS`
abbrev pub file_extensions : List String
file_extensions =
    "exe" ∷ "dll" ∷ "sys" ∷ "bat" ∷ "cmd" ∷ "ps1" ∷ "vbs" ∷ "js" ∷ "jar" ∷ "msi" ∷ "scr" ∷ "bin"
    ∷ "dat" ∷ "tmp" ∷ "log" ∷ "txt" ∷ "doc" ∷ "docx" ∷ "xls" ∷ "xlsx" ∷ "ppt" ∷ "pptx" ∷ "pdf"
    ∷ "rtf" ∷ "rar" ∷ "7z" ∷ "gz" ∷ "tar" ∷ "iso" ∷ "img" ∷ "png" ∷ "jpg" ∷ "jpeg" ∷ "gif" ∷ "bmp"
    ∷ "svg" ∷ "mp3" ∷ "mp4" ∷ "avi" ∷ "lnk" ∷ "url" ∷ "hta" ∷ "chm" ∷ "reg" ∷ "conf" ∷ "ini" ∷ "xml"
    ∷ "json" ∷ "csv" ∷ "sql" ∷ "bak" ∷ "php" ∷ "asp" ∷ "aspx" ∷ "jsp" ∷ []

-- `_DEFAULT_PORTS`
abbrev pub default_port : String → Option String
default_port scheme =
    if str_eq scheme "http"
    then some "80"
    else if str_eq scheme "https"
    then some "443"
    else if str_eq scheme "ftp"
    then some "21"
    else none

-- `_is_skippable_ip`
unfoldable pub is_skippable_ip : IpAddress → Option String
is_skippable_ip ip =
    if ip.is_loopback
    then some "loopback_ip"
    else if ip.is_link_local
    then some "link_local_ip"
    else if ip.is_multicast
    then some "multicast_ip"
    else if ip.is_unspecified
    then some "unspecified_ip"
    else if ip.is_reserved
    then some "reserved_ip"
    else if ip.is_private
    then some "private_ip"
    else none

-- the text is the one looked for, where there is one
abbrev pub is_port_text : Option String → String → Bool
is_port_text none text = false
is_port_text (some known) text = str_eq known text
