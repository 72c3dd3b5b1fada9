-- ===== src/Api/Bulk.antt =====
-- What a bulk lookup answers (`lookup_bulk` of api/lookup.py).
use opencti_middleware.Base.{
  ℕ, ◌+◌, ◌≤◌, String, ◌≡◌, refl, ◌∙◌, Bool, true, false, ◌||◌, Option, none, some, List, [], ◌∷◌,
  arith, inl, inr, length, take, length-take, Option-cases, eq_iff, find, insert, DistinctKeys,
  find-insert,
}
use mathlib.Core.Path.{subst}
use opencti_middleware.Base.Result.{Result, ok, raise}
use opencti_middleware.Base.Text.{text_elem, show_nat}
use opencti_middleware.Cache.{Payload}
use opencti_middleware.Indicators.Normalize.{Texts}
use opencti_middleware.Live.{World, LookupResult}
use opencti_middleware.Api.{
  App, Request, crash, Response, refused, answered, verify_api_key, max_bulk, BulkBody, classified,
  backend_lookup, bulk_loop, body_of, bulk_body, lookup_bulk,
}

-- there is an entry
abbrev pub is_there {ℓ} : {V : Type ℓ} → Option V → Bool
is_there none = false
is_there (some _) = true

or_right_false : (b : Bool) → (b || false) ≡ b
or_right_false true = refl
or_right_false false = refl

insert-DistinctKeys {ℓ} :
    {V : Type ℓ} (k : String) (v : V) (m : List (String × V))
    → DistinctKeys m
    → DistinctKeys (insert k v m)
insert-DistinctKeys k v [] d = (refl, tt)
insert-DistinctKeys k v ((j, w) ∷ m) d =
    ground (arith, insert-DistinctKeys k v m d.1, find-insert k j v m, eq_iff j k, eq_iff k j)

length-insert-le {ℓ} :
    {V : Type ℓ} (k : String) (v : V) (m : List (String × V)) → length (insert k v m) ≤ length m + 1
length-insert-le k v [] = omega arith
length-insert-le k v ((j, w) ∷ m) = ground (arith, length-insert-le k v m)

-- The results of a batch, after those that were there before: an entry for each value and no other,
-- under distinct keys.
abbrev HasKeys : List String → List (String × Payload) → List (String × Payload) → Type 0
HasKeys values before out =
    ((raw : String)
      → is_there (find raw out) ≡ (text_elem raw values || is_there (find raw before)))
    × (DistinctKeys before → DistinctKeys out)
    × (length out ≤ length before + length values)

HasKeys-insert :
    (v : String) (values : List String) (p : Payload) (before out : List (String × Payload))
    → HasKeys values (insert v p before) out
    → HasKeys (v ∷ values) before out
HasKeys-insert v values p before out (keys, distinct, few) = (
  λ raw. keys raw ∙ ground (arith, find-insert v raw p before),
  λ d. distinct (insert-DistinctKeys v p before d),
  omega (arith, length-insert-le v p before),
)

module _ (blake2b : String → List ℕ) (texts : Texts) where
  bulk_loop-HasKeys :
      (worlds : ℕ → World) (n : ℕ) (values : List String) (results : List (String × Payload))
      (app : App) (out : List (String × Payload)) (app' : App)
      → bulk_loop blake2b texts worlds n values results app ≡ some (ok out, app')
      → HasKeys values results out
  unfolding bulk_loop
  bulk_loop-HasKeys worlds n [] results app out app' h =
      let same : results ≡ out = cc in
      subst (HasKeys [] results) same (λ raw. refl, λ d. d, omega arith)
  bulk_loop-HasKeys worlds n (v ∷ values) results app out app' h =
      elim (Option-cases (classified texts app.settings v)) [
        | inl e ↦
            let end : Option (Result (List (String × Payload)) × App) = some (ok out, app') in
            let bad : none ≡ end = rw (e, bulk_loop) at h in absurd cc
        | inr (parsed, e) ↦
            let (r, backend) = backend_lookup blake2b (worlds n) parsed app.backend in
            go r (record app { backend = backend }) (rw (e, bulk_loop) at h)
              (λ m a k. bulk_loop-HasKeys worlds (n + 1) values m a out app' k)
      ]
    where
      -- after the first lookup
      go :
          (r : Result LookupResult) (a : App)
          → (elim r as (λ _. Option (Result (List (String × Payload)) × App)) [
            | raise x ↦ some (raise x, a)
            | ok result ↦
                bulk_loop blake2b texts worlds (n + 1) values (insert v result.payload results) a
          ])
            ≡ some (ok out, app')
          → ((m : List (String × Payload)) (b : App)
              → bulk_loop blake2b texts worlds (n + 1) values m b ≡ some (ok out, app')
              → HasKeys values m out)
          → HasKeys (v ∷ values) results out
      go (raise x) a h again = absurd cc
      go (ok result) a h again = HasKeys-insert v values result.payload results out (again _ a h)

  -- Where a bulk lookup answers, its results have an entry for each of the first 500 values and for
  -- no other, each value once, and the count is their number, which is not above 500.
  pub lookup_bulk_results :
      (worlds : ℕ → World) (q : Request) (values : List String) (app app' : App) (body : BulkBody)
      → lookup_bulk blake2b texts worlds q values app ≡ some (answered body, app')
      → ((raw : String) → is_there (find raw body.results) ≡ text_elem raw (take 500 values))
        × DistinctKeys body.results
        × (body.count ≡ show_nat (length body.results))
        × (length body.results ≤ 500)
  unfolding lookup_bulk
  lookup_bulk_results worlds q values app app' body h =
      let out : Option (Response BulkBody × App) = some (answered body, app') in
      let batch = bulk_loop blake2b texts worlds 0 (take max_bulk values) [] app in
      elim (Option-cases (verify_api_key texts.lower app.settings q)) [
        | inr (x, e) ↦ let bad : some (refused x, app) ≡ out = rw (e, lookup_bulk) at h in absurd cc
        | inl e ↦ elim (Option-cases batch) [
          | inl k ↦ let bad : none ≡ out = rw (e, k, lookup_bulk) at h in absurd cc
          | inr ((raise x, a), k) ↦
              let bad : some (refused (crash x), a) ≡ out = rw (e, k, lookup_bulk) at h in absurd cc
          | inr ((ok results, a), k) ↦
              let keys = bulk_loop-HasKeys worlds 0 (take max_bulk values) [] app results a k in
              let end : some (bulk_body values (ok results, a)) ≡ out =
                rw (e, k, lookup_bulk) at h in
              let same : body_of values results ≡ body = cc in
              subst Collected same (collected results keys)
        ]
      ]
    where
      Collected : BulkBody → Type 0
      Collected b =
          ((raw : String) → is_there (find raw b.results) ≡ text_elem raw (take 500 values))
          × DistinctKeys b.results
          × (b.count ≡ show_nat (length b.results))
          × (length b.results ≤ 500)

      collected :
          (results : List (String × Payload))
          → HasKeys (take max_bulk values) [] results
          → Collected (body_of values results)
      collected results (keys, distinct, few) = (
        λ raw. keys raw ∙ or_right_false (text_elem raw (take max_bulk values)),
        distinct tt,
        refl,
        omega (arith, few, length-take max_bulk values),
      )
