-- ===== src/Settings/Tests.antt =====
-- The validators and the derived settings at the defaults of config.py.
use opencti_middleware.Base.{◌≡◌, refl, none, some, [], ◌∷◌}
use opencti_middleware.Base.Json.{str}
use opencti_middleware.Base.Text.{strip}
use opencti_middleware.Base.Result.{ok, raise, value_error}
use opencti_middleware.Settings.{
  Settings, defaults, clean_url, stream_id, split_csv, split_csv_lower, budget_sanity, graphql_url,
  stream_url, query_types_for,
}

program : Unit {0}
unfolding strip clean_url stream_id split_csv split_csv_lower budget_sanity graphql_url stream_url
    query_types_for
program = tt

abbrev settings : Settings
settings = record (defaults "https://opencti.example" "token" "key") {
  opencti_stream_id = some "live-1";
}

trailing_slashes : clean_url "https://opencti.example//" ≡ ok "https://opencti.example"
unfolding program
trailing_slashes = refl

no_scheme : clean_url "opencti.example" ≡ raise value_error
unfolding program
no_scheme = refl

pasted_url : stream_id (λ j. "https://opencti.example/stream/1") (str "") ≡ raise value_error
unfolding program
pasted_url = refl

blank_id : stream_id (λ j. "  ") (str "") ≡ ok none
unfolding program
blank_id = refl

parts : split_csv " Domain-Name,, Hostname " ≡ "Domain-Name" ∷ "Hostname" ∷ []
unfolding program
parts = refl

defaults_sane : budget_sanity settings ≡ ok settings
unfolding program
defaults_sane = refl

named_stream : stream_url settings ≡ "https://opencti.example/stream/live-1"
unfolding program
named_stream = refl

endpoint : graphql_url settings ≡ "https://opencti.example/graphql"
unfolding program
endpoint = refl

hash_types : query_types_for settings "StixFile:MD5" ≡ "StixFile" ∷ []
unfolding program
hash_types = refl
