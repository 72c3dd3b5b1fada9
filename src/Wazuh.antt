-- ===== src/Wazuh.antt =====
-- The indicators that the Wazuh integration reads from an alert, and the event that it writes
-- (wazuh/custom-opencti.py). The ipaddress module, the regular expression for digests and lower-casing
-- are arguments.
mod Extraction
mod Tests
mod Event
mod Location
mod Report
mod Safety
use opencti_middleware.Base.{
  ℕ, String, Bool, false, ◌||◌, Option, none, some, List, [], ◌∷◌, take, str_eq, if◌then◌else◌,
}
use opencti_middleware.Base.Text.{split, strip, text_elem}
use opencti_middleware.Base.Json.{Json, Fields, obj, str, null, get?}
use opencti_middleware.Mapper.Labels.{add_label}

abbrev pub value_paths : List String
value_paths =
    "data.eventdata.DestinationIp" ∷ "data.win.eventdata.DestinationIp"
    ∷ "data.win.eventdata.destinationIp" ∷ "data.destination.ip" ∷ "data.dstip"
    ∷ "data.dns.question.name" ∷ "data.win.eventdata.queryName" ∷ "data.dns_question_name"
    ∷ "data.url" ∷ "data.http.url" ∷ "data.win.eventdata.DestinationHostname"
    ∷ "syscheck.sha256_after" ∷ "syscheck.md5_after" ∷ "syscheck.sha1_after" ∷ "data.sha256"
    ∷ "data.virustotal.source.sha1" ∷ []

abbrev pub hashes_paths : List String
hashes_paths =
    "data.win.eventdata.hashes" ∷ "data.win.eventdata.Hashes" ∷ "data.eventdata.Hashes" ∷ []

abbrev pub skip_paths : List String
skip_paths = "data.srcip" ∷ "data.src_ip" ∷ []

abbrev pub max_indicators_per_alert : ℕ
max_indicators_per_alert = 16

-- `dig`, along the parts of a dotted path; a value that is missing reads as None
unfoldable pub dig_parts : List String → Json → Json
dig_parts [] node = node
dig_parts (part ∷ parts) (obj fs) = elim (get? part fs) [ none ↦ null | some v ↦ dig_parts parts v ]
dig_parts (part ∷ parts) _ = null

-- 46 is the code of the dot
unfoldable pub dig : Fields → String → Json
unfolding dig_parts
dig alert dotted = dig_parts (split 46 dotted) (obj alert)

-- What ipaddress says of an address.
pub record Address : Type 0 where
  pub is_private : Bool
  pub is_loopback : Bool
  pub is_link_local : Bool
  pub is_multicast : Bool
  pub is_reserved : Bool
  pub is_unspecified : Bool

module _ (ip_address : String → Option Address) (digests_in : String → List String)
    (lower : String → String) where
  unfoldable pub looks_private : String → Bool
  looks_private value = elim (ip_address value) [
    | none ↦ false
    | some ip ↦
        ip.is_private || ip.is_loopback || ip.is_link_local || ip.is_multicast || ip.is_reserved
        || ip.is_unspecified
  ]

  -- `found.setdefault(candidate, None)` for a text that is not blank and not private
  unfoldable pub note_value : Json → List String → List String
  note_value (str value) found =
      let candidate = strip value in
      if str_eq candidate ""
      then found
      else if looks_private candidate
      then found
      else add_label candidate found
  note_value _ found = found

  unfoldable pub note_values : Fields → List String → List String → List String
  note_values alert [] found = found
  note_values alert (path ∷ paths) found =
      note_values alert paths
        (if text_elem path skip_paths then found else note_value (dig alert path) found)

  unfoldable pub note_digests : List String → List String → List String
  note_digests [] found = found
  note_digests (digest ∷ digests) found = note_digests digests (add_label (lower digest) found)

  unfoldable pub note_blob : Json → List String → List String
  note_blob (str blob) found = note_digests (digests_in blob) found
  note_blob _ found = found

  unfoldable pub note_blobs : Fields → List String → List String → List String
  note_blobs alert [] found = found
  note_blobs alert (path ∷ paths) found = note_blobs alert paths (note_blob (dig alert path) found)

  unfoldable pub extract_indicators : Fields → List String
  extract_indicators alert =
      take max_indicators_per_alert
        (note_blobs alert hashes_paths (note_values alert value_paths []))
