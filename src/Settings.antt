-- ===== src/Settings.antt =====
-- The settings of config.py: the fields with their defaults, the validators and the derived values.
-- The fraction of the memory and the redis settings and the log format are left out; the two retry
-- delays are whole seconds.
mod Tests
mod Validation
use opencti_middleware.Base.{
  ℕ, ◌-◌, ◌/◌, String, Bool, true, not, ◌||◌, Option, none, some, List, [], ◌∷◌, map, filter, leb,
  ◌==◌, str_eq, if◌then◌else◌, ℤ,
}
use opencti_middleware.Base.{pos}
use opencti_middleware.Base.Json.{Json, null}
use opencti_middleware.Base.Result.{Result, ok, raise, value_error}
use opencti_middleware.Base.Text.{
  concat, has_prefix, strip, drop_while_end, split, all_chars, between,
}
use Prim.Native.Char.{Char, code}

pub data HitPolicy : Type 0 where
  live_only expiry_aware all_indicators : HitPolicy

pub data MembershipMode : Type 0 where
  auto always off : MembershipMode

pub data MembershipSource : Type 0 where
  observables indicators : MembershipSource

-- a number of megabytes, or "auto"
pub data Budget : Type 0 where
  automatic : Budget
  megabytes : ℕ → Budget

pub record Settings : Type 0 where
  pub app_host : String
  pub app_port : ℕ
  pub workers : ℕ
  pub log_level : String
  pub api_key : String
  pub api_key_header : String
  pub opencti_url : String
  pub opencti_token : String
  pub opencti_verify_tls : Bool
  pub opencti_timeout_connect_ms : ℕ
  pub opencti_timeout_read_ms : ℕ
  pub opencti_max_connections : ℕ
  pub opencti_max_concurrency : ℕ
  pub opencti_stream_id : Option String
  pub membership_mode : MembershipMode
  pub membership_source : MembershipSource
  pub membership_bootstrap_page_size : ℕ
  pub membership_snapshot_interval_s : ℕ
  pub membership_stale_after_s : ℕ
  pub membership_reconcile_interval_s : ℕ
  pub membership_overlay_max : ℕ
  pub membership_shared : Bool
  pub stream_enabled : Bool
  pub stream_stale_after_s : ℕ
  pub membership_state_dir : String
  pub membership_attach_timeout_s : ℕ
  pub membership_attach_retry_s : ℕ
  pub membership_bootstrap_retry_s : ℕ
  pub membership_bootstrap_retry_max_s : ℕ
  pub mirror_max_memory_mb : Budget
  pub payload_cache_max_mb : Budget
  pub memory_reserve_mb : ℕ
  pub payload_max_entry_bytes : ℕ
  pub payload_ttl_s : ℕ
  pub payload_ttl_degraded_s : ℕ
  pub hit_policy : HitPolicy
  pub min_score : ℤ
  pub url_hostname_fallback : Bool
  pub domain_match_types : List String
  pub request_budget_ms : ℕ
  pub breaker_fail_threshold : ℕ
  pub breaker_reset_s : ℕ
  pub cache_key_version : String
  pub skip_private_ips : Bool
  pub skip_tlds : List String

-- the defaults, at the three values that have none
abbrev pub defaults : String → String → String → Settings
defaults url token key = record {
  app_host = "0.0.0.0";
  app_port = 8000;
  workers = 4;
  log_level = "INFO";
  api_key = key;
  api_key_header = "X-API-Key";
  opencti_url = url;
  opencti_token = token;
  opencti_verify_tls = true;
  opencti_timeout_connect_ms = 1000;
  opencti_timeout_read_ms = 1500;
  opencti_max_connections = 50;
  opencti_max_concurrency = 20;
  opencti_stream_id = none;
  membership_mode = auto;
  membership_source = observables;
  membership_bootstrap_page_size = 2000;
  membership_snapshot_interval_s = 300;
  membership_stale_after_s = 900;
  membership_reconcile_interval_s = 86400;
  membership_overlay_max = 50000;
  membership_shared = true;
  stream_enabled = true;
  stream_stale_after_s = 120;
  membership_state_dir = "";
  membership_attach_timeout_s = 300;
  membership_attach_retry_s = 30;
  membership_bootstrap_retry_s = 5;
  membership_bootstrap_retry_max_s = 300;
  mirror_max_memory_mb = automatic;
  payload_cache_max_mb = automatic;
  memory_reserve_mb = 512;
  payload_max_entry_bytes = 1024;
  payload_ttl_s = 86400;
  payload_ttl_degraded_s = 900;
  hit_policy = expiry_aware;
  min_score = pos 0;
  url_hostname_fallback = true;
  domain_match_types = "Domain-Name" ∷ "Hostname" ∷ [];
  request_budget_ms = 2000;
  breaker_fail_threshold = 5;
  breaker_reset_s = 30;
  cache_key_version = "v1";
  skip_private_ips = true;
  skip_tlds = "local" ∷ "internal" ∷ "lan" ∷ "corp" ∷ "home" ∷ "arpa" ∷ [];
}

-- `_clean_url`; 47 is the code of the slash
unfoldable pub clean_url : String → Result String
clean_url v =
    let url = drop_while_end (λ c. code c == 47) v in
    if has_prefix "http://" url || has_prefix "https://" url then ok url else raise value_error

-- `[A-Za-z0-9-]`
abbrev pub is_id_char : Char → Bool
is_id_char c = let n = code c in between 65 90 n || between 97 122 n || between 48 57 n || n == 45

-- `_stream_id`: nothing for a blank one, and otherwise what a URL path segment can hold
unfoldable pub stream_id : (Json → String) → Json → Result (Option String)
stream_id py_str null = ok none
stream_id py_str v =
    let id = strip (py_str v) in
    if str_eq id ""
    then ok none
    else if all_chars is_id_char id
    then ok (some id)
    else raise value_error

-- `_split_csv_preserving_case`; 44 is the code of the comma
unfoldable pub split_csv : String → List String
split_csv v = filter (λ part. not (str_eq part "")) (map strip (split 44 v))

-- `_split_csv_lower`, where `lower` is Python's
unfoldable pub split_csv_lower : (String → String) → String → List String
unfolding split_csv
split_csv_lower lower v = map lower (split_csv v)

-- `_budget_sanity`
unfoldable pub budget_sanity : Settings → Result Settings
budget_sanity s =
    if leb s.request_budget_ms s.opencti_timeout_read_ms then raise value_error else ok s

-- `graphql_url`
unfoldable pub graphql_url : Settings → String
graphql_url s = concat (s.opencti_url ∷ "/graphql" ∷ [])

-- `stream_url`: the named stream where an ID is set that is not empty
unfoldable pub stream_url : Settings → String
stream_url s = elim s.opencti_stream_id [
  | none ↦ concat (s.opencti_url ∷ "/stream" ∷ [])
  | some id ↦
      if str_eq id ""
      then concat (s.opencti_url ∷ "/stream" ∷ [])
      else concat (s.opencti_url ∷ "/stream/" ∷ id ∷ [])
]

-- `query_types_for`
unfoldable pub query_types_for : Settings → String → List String
query_types_for s indicator_type =
    if str_eq indicator_type "Domain-Name"
    then s.domain_match_types
    else if has_prefix "StixFile" indicator_type
    then "StixFile" ∷ []
    else indicator_type ∷ []
