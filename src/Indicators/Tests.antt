-- ===== src/Indicators/Tests.antt =====
-- Values of Graylog, with an ASCII lower-casing and a small table of addresses and URLs.
use Prim.Native.Char.{Char, code}
use Prim.Native.String.{slice}
use opencti_middleware.Base.{
  ◌-◌, String, ◌≡◌, refl, true, false, ◌&&◌, none, some, [], ◌∷◌, arith, leb, ◌==◌, str_eq,
  if◌then◌else◌,
}
use opencti_middleware.Base.{pos}
use opencti_middleware.Base.Text.{between, strip, show_nat, digits_of, concat}
use opencti_middleware.Indicators.{ipv4, domain, url, hash_md5, unknown}
use opencti_middleware.Indicators.Defang.{
  find_text, is_marked, replace_marker, replace_markers, replace_marked, defang,
}
use opencti_middleware.Indicators.Regular.{LowersChars}
use opencti_middleware.Indicators.Normalize.{
  IpAddress, UrlParts, Texts, Rules, is_domain, last_label, is_skippable_ip,
}
use opencti_middleware.Indicators.Classify.{
  skipped, accepted, unpadded, to_punycode, rebuild_url, normalize_url, classify_ip, classify_url,
  classify_domain, classify_name, classify, normalize,
}
use opencti_middleware.Indicators.WellFormed.{IsDomain, normalize-IsOfKind}
use opencti_middleware.Indicators.Totality.{Returns, normalize-Returns}

first_of : String → Char → Char
first_of String.[] d = d
first_of (String.◌∷◌ c s) d = c

lower_char : Char → Char
lower_char c =
    let n = code c in
    if leb 65 n && leb n 90
    then first_of (slice "abcdefghijklmnopqrstuvwxyz" (n - 65) (n - 64)) c
    else c

lower : String → String
lower String.[] = ""
lower (String.◌∷◌ c s) = String.◌∷◌ (lower_char c) (lower s)

lower-LowersChars : LowersChars lower
unfolding lower lower_char
lower-LowersChars = record {
  lower_char = lower_char;
  lower_nil = refl;
  lower_cons = λ c s h k. refl;
  lower_fixed = λ c small fixed. rw (fixed, lower_char) refl;
}

-- the capital I with a dot becomes two characters
odd_lower : String → String
odd_lower String.[] = ""
odd_lower (String.◌∷◌ c s) =
    let rest = odd_lower s in
    if code c == 304 then String.◌∷◌ "i" (String.◌∷◌ "." rest) else String.◌∷◌ c rest

abbrev private_address : IpAddress
private_address = record {
  version_4 = true;
  compressed = "10.0.0.1";
  is_loopback = false;
  is_link_local = false;
  is_multicast = false;
  is_unspecified = false;
  is_reserved = false;
  is_private = true;
}

abbrev parts : UrlParts
parts = record {
  scheme = "http";
  hostname = some "evil.example";
  port = some (some 80);
  path = "/A";
  query = "";
}

abbrev texts : Texts
texts = record {
  lower = lower;
  idna = λ s. none;
  is_digit = λ c. between 48 57 (code c);
  int_of = λ s.
      if str_eq s "010" then some (pos 10) else if str_eq s "1" then some (pos 1) else some (pos 0);
  ip_address = λ s. if str_eq s "10.0.0.1" then some private_address else none;
  urlsplit = λ s. if str_eq s "http://evil.example:80/A" then some parts else none;
  urlunsplit = λ scheme netloc path query. concat (scheme ∷ "://" ∷ netloc ∷ path ∷ []);
}

abbrev rules : Rules
rules = record { skip_private = true; skip_tlds = "local" ∷ "corp" ∷ [] }

program : Unit {0}
unfolding lower lower_char first_of odd_lower find_text is_marked replace_marker replace_markers
    replace_marked defang is_domain last_label is_skippable_ip unpadded to_punycode rebuild_url
    normalize_url classify_ip classify_url classify_domain classify_name classify normalize strip
    show_nat digits_of
program = tt

defanged : defang lower 40 " HXXP://evil[.]example:80/A\n" ≡ some "http://evil.example:80/A"
unfolding program
defanged = refl

-- the loop does not end: each round gives the text that it began with
endless : defang odd_lower 40 "İİİ[.]a" ≡ none
unfolding program
endless = refl

padded_address :
    normalize texts rules 40 "010.0.0.1" ≡ some (skipped "010.0.0.1" "10.0.0.1" ipv4 "private_ip")
unfolding program
padded_address = refl

url_with_port :
    normalize texts rules 60 "hxxp://evil[.]example:80/A"
    ≡ some (accepted "hxxp://evil[.]example:80/A" "http://evil.example/A" url)
unfolding program
url_with_port = refl

file_name :
    normalize texts rules 40 "WMIC.exe"
    ≡ some (skipped "WMIC.exe" "wmic.exe" unknown "looks_like_filename")
unfolding program
file_name = refl

md5 :
    normalize texts rules 70 "D41D8CD98F00B204E9800998ECF8427E"
    ≡ some (accepted "D41D8CD98F00B204E9800998ECF8427E" "d41d8cd98f00b204e9800998ecf8427e" hash_md5)
unfolding program
md5 = refl

normalize-IsOfKind_example :
    (cleaned : String) × (defang lower 40 "Evil.EXAMPLE." ≡ some cleaned)
    × IsDomain texts rules cleaned "evil.example"
normalize-IsOfKind_example =
    normalize-IsOfKind texts rules 40 "Evil.EXAMPLE."
      (accepted "Evil.EXAMPLE." "evil.example" domain) (unfold program in refl) refl

normalize-Returns_example : Returns (normalize texts rules 26 "Evil.EXAMPLE.")
normalize-Returns_example =
    normalize-Returns texts rules lower-LowersChars 26 "Evil.EXAMPLE." refl (omega arith)
