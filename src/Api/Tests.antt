-- ===== src/Api/Tests.antt =====
-- Requests with and without the key, to a service whose membership set is empty.
use opencti_middleware.Base.{
  ◌≤◌, String, ◌≡◌, refl, true, false, Option, none, some, List, [], ◌∷◌, length, take, str_eq,
  if◌then◌else◌, find, insert, DistinctKeys,
}
use opencti_middleware.Base.Result.{type_error}
use opencti_middleware.Base.Text.{text_elem, strip, show_nat, digits_of}
use opencti_middleware.Settings.{defaults}
use opencti_middleware.Cache.{Payload}
use opencti_middleware.Mapper.Payload.{miss}
use opencti_middleware.Membership.{empty, init, contains, fingerprint, in_view}
use opencti_middleware.Membership.Tests.{digest}
use opencti_middleware.Indicators.Defang.{
  find_text, is_marked, replace_marker, replace_markers, replace_marked, defang,
}
use opencti_middleware.Indicators.Normalize.{Texts, is_domain, last_label}
use opencti_middleware.Indicators.Classify.{
  unpadded, to_punycode, classify_domain, classify_name, classify, normalize,
}
use opencti_middleware.Live.{fallback_host}
use opencti_middleware.Live.Tests.{world, backend}
use opencti_middleware.Split.{new_split, mark_ready, host_known, split_lookup}
use opencti_middleware.Api.{
  App, Request, status, crash, refused, answered, with_split, compare_digest, verify_api_key,
  BulkBody, backend_lookup, answer, lookup, bulk_loop, lookup_bulk,
}
use opencti_middleware.Api.Access.{Guarded, requests-Guarded}
use opencti_middleware.Base.{List}
use opencti_middleware.Api.{body_of}
use opencti_middleware.Api.OneByOne.{put_under, one_by_one, lookup_bulk-one_by_one}
use opencti_middleware.Api.Bulk.{is_there, lookup_bulk_results}

abbrev texts : Texts
texts = record {
  lower = λ s. if str_eq s "X-API-Key" then "x-api-key" else s;
  idna = λ s. none;
  is_digit = λ c. false;
  int_of = λ s. none;
  ip_address = λ s. none;
  urlsplit = λ s. none;
  urlunsplit = λ scheme netloc path query. "";
}

abbrev app : App
app = record {
  settings = defaults "https://opencti.example" "token" "secret";
  backend = with_split (mark_ready true (new_split empty backend));
}

abbrev request_with : Option String → Request
request_with key = record { x_api_key = key; headers = λ h. none; x_customer_code = some "acme" }

program : Unit {0}
unfolding strip empty init contains fingerprint in_view find_text is_marked replace_marker
    replace_markers replace_marked defang is_domain last_label unpadded to_punycode classify_domain
    classify_name classify normalize fallback_host new_split mark_ready host_known split_lookup
    compare_digest verify_api_key backend_lookup answer lookup bulk_loop lookup_bulk show_nat
    digits_of
program = tt

no_key :
    lookup digest texts (world 7) (request_with none) "a.example" app
    ≡ some (refused (status 401), app)
unfolding program
no_key = refl

wrong_key :
    lookup digest texts (world 7) (request_with (some "guess")) "a.example" app
    ≡ some (refused (status 403), app)
unfolding program
wrong_key = refl

-- a key that is not ASCII is an error of the service
odd_key :
    lookup digest texts (world 7) (request_with (some "clé")) "a.example" app
    ≡ some (refused (crash type_error), app)
unfolding program
odd_key = refl

tenant :
    lookup digest texts (world 7) (request_with (some "secret")) "a.example" app
    ≡ some (answered (insert "customer_code" "acme" miss), app)
unfolding program
tenant = refl

requests-Guarded_example :
    Guarded {B = Payload} texts.lower (request_with none) app (refused (status 401), app)
requests-Guarded_example =
    (requests-Guarded digest texts (request_with none) app).0 (world 7) "a.example"
      (refused (status 401), app) (unfold program in refl)

abbrev body : BulkBody
body = record {
  count = "2";
  truncated = "false";
  results = ("a.example", miss) ∷ ("b.example", miss) ∷ [];
}

abbrev batch : List String
batch = "a.example" ∷ "b.example" ∷ "a.example" ∷ []

lookup_bulk_results_example :
    ((raw : String) → is_there (find raw body.results) ≡ text_elem raw (take 500 batch))
    × DistinctKeys body.results
    × (body.count ≡ show_nat (length body.results))
    × (length body.results ≤ 500)
lookup_bulk_results_example =
    lookup_bulk_results digest texts (λ n. world 7) (request_with (some "secret")) batch app app
      body (unfold program in refl)

abbrev no_tenant : Request
no_tenant = record (request_with (some "secret")) { x_customer_code = none }

-- the payload of each of the three lookups
abbrev misses : List Payload
misses = miss ∷ miss ∷ miss ∷ []

lookup_bulk-one_by_one_example :
    lookup_bulk digest texts (λ n. world 7) no_tenant batch app
    ≡ some (answered (body_of batch (put_under (take 500 batch) misses [])), app)
lookup_bulk-one_by_one_example =
    lookup_bulk-one_by_one digest texts (λ n. world 7) no_tenant batch app app misses
      (unfold program in refl) refl (unfold program one_by_one in refl)
