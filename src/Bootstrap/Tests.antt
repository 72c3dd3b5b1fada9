-- ===== src/Bootstrap/Tests.antt =====
-- A bootstrap from an OpenCTI with two pages.
use opencti_middleware.Base.{String, ◌≡◌, refl, true, false, none, some, [], ◌∷◌, arith}
use opencti_middleware.Base.Json.{
  Json, Fields, obj, arr, str, bool, null, cons, nil, field, end, get,
}
use opencti_middleware.Base.Result.{ok}
use opencti_middleware.Breaker.{new, state, allows, record_success, record_failure}
use opencti_middleware.Client.{
  Client, response, detail, fail, error_message, graphql_errors, read_body, read_response, settle,
  attempt_loop, execute,
}
use opencti_middleware.Indicators.{Normalized, domain}
use opencti_middleware.Bootstrap.{
  Upstream, ask, count, edge_texts, edge_values, reached_limit, stored, load_value, load_values,
  load_edges, next_cursor, load_block, load_page, load_pages,
}
use opencti_middleware.Bootstrap.Complete.{value_texts, edge_list_texts, Chain, load_pages-Chain}

abbrev pub edge : String → Json
edge value = obj (field "node" (obj (field "observable_value" (str value) end)) end)

abbrev pub first_page : Fields
first_page = field "edges" (arr (cons (edge "a.example") (cons (edge "b.example") nil))) (
    field "pageInfo" (obj (field "hasNextPage" (bool true) (field "endCursor" (str "p2") end))) end)

abbrev pub second_page : Fields
second_page =
    field "edges" (arr (cons (edge "c.example") nil))
      (field "pageInfo" (obj (field "hasNextPage" (bool false) end)) end)

abbrev pub reply : Json → Fields
reply null = first_page
reply _ = second_page

abbrev pub cursor_of : Json → Json
cursor_of (obj fs) = get "after" fs
cursor_of _ = null

abbrev pub upstream : Upstream
upstream = record {
  opencti = λ d v k. response 200 (
      some (
        obj
          (field "data" (obj (field "stixCyberObservables" (obj (reply (cursor_of v))) end)) end)));
  clock = λ k. k;
  py = record { str_of = λ j. ""; int_of = λ s. none; fromisoformat = λ s. none };
}

abbrev pub client : Client
client = record { breaker = new 5 30; last_error = none; sent = 0 }

abbrev pub normalize : String → Normalized
normalize raw = record { original = raw; value = raw; kind = domain; skip_reason = none }

program : Unit {0}
unfolding state allows record_success record_failure detail fail error_message graphql_errors
    read_body read_response settle attempt_loop execute ask count edge_texts edge_values
    reached_limit stored load_value load_values load_edges next_cursor load_block load_page
    load_pages value_texts edge_list_texts
program = tt

all_values :
    (load_pages normalize none upstream false 2000 3 null [] client).0
    ≡ some (ok ("a.example" ∷ "b.example" ∷ "c.example" ∷ [], false))
unfolding program
all_values = refl

load_pages-Chain_example :
    (load_pages normalize none upstream false 2000 2 null [] client).0
    ≡ some (ok ("a.example" ∷ "b.example" ∷ "c.example" ∷ [], false))
unfolding program
load_pages-Chain_example =
    load_pages-Chain normalize upstream false 2000 reply 2 2 null []
      ("a.example" ∷ "b.example" ∷ "c.example" ∷ []) client (λ cursor k. refl) refl
      (Chain.more refl refl refl (Chain.last refl refl refl)) (omega arith)
