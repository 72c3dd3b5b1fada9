-- ===== src/Api/OneByOne.antt =====
-- A bulk lookup and the lookups of its values (api/lookup.py).
use opencti_middleware.Base.{
  ℕ, ◌+◌, String, ◌≡◌, refl, ◌∙◌, sym, ap, not, Option, none, some, List, [], ◌∷◌, inl, inr, take,
  Bool-cases, Option-cases, insert,
}
use mathlib.Core.Option.{some-injective}
use opencti_middleware.Base.Result.{ok, Result-cases}
use opencti_middleware.Base.Text.{text_length, between}
use opencti_middleware.Cache.{Payload}
use opencti_middleware.Indicators.{Normalized}
use opencti_middleware.Indicators.Normalize.{Texts}
use opencti_middleware.Live.{World, LookupResult}
use opencti_middleware.Api.{
  App, Request, status, crash, Response, refused, answered, verify_api_key, customer_code,
  classified, backend_lookup, answer, lookup, bulk_loop, body_of, lookup_bulk,
}

-- the payloads, each put under its value
abbrev pub put_under :
    List String → List Payload → List (String × Payload) → List (String × Payload)
put_under (v ∷ values) (p ∷ payloads) results = put_under values payloads (insert v p results)
put_under _ _ results = results

module _ (blake2b : String → List ℕ) (texts : Texts) where
  -- the payloads of the lookups of the values, one after the other, where each is answered
  unfoldable pub one_by_one :
      (ℕ → World) → ℕ → Request → List String → App → Option (List Payload × App)
  one_by_one worlds n q [] app = some ([], app)
  one_by_one worlds n q (v ∷ values) app = elim (lookup blake2b texts (worlds n) q v app) [
    | none ↦ none
    | some (refused _, _) ↦ none
    | some (answered payload, app') ↦ elim (one_by_one worlds (n + 1) q values app') [
      | none ↦ none
      | some (payloads, last) ↦ some (payload ∷ payloads, last)
    ]
  ]

  -- a lookup that is answered, without a tenant
  abbrev Answered : World → Request → String → App → Payload × App → Type 0
  Answered w q v app (payload, app') =
      (n : Normalized) × (classified texts app.settings v ≡ some n)
      × (r : LookupResult) × ((backend_lookup blake2b w n app.backend).0 ≡ ok r)
      × (payload ≡ r.payload)
      × (app' ≡ record app { backend = (backend_lookup blake2b w n app.backend).1 })

  answer-Answered :
      (w : World) (q : Request) (v : String) (app app' : App) (payload : Payload) (n : Normalized)
      → classified texts app.settings v ≡ some n
      → answer blake2b w none n app ≡ (answered payload, app')
      → Answered w q v app (payload, app')
  unfolding answer
  answer-Answered w q v app app' payload n e h =
      elim (Result-cases (backend_lookup blake2b w n app.backend).0) [
        | inl (x, k) ↦
            let out : Response Payload × App = (answered payload, app') in
            let bad : (
              refused (crash x),
              record app { backend = (backend_lookup blake2b w n app.backend).1 },
            )
                ≡ out =
              rw (k, answer) at h in
            absurd cc
        | inr (r, k) ↦
            let out : Response Payload × App = (answered payload, app') in
            let same : (
              answered r.payload,
              record app { backend = (backend_lookup blake2b w n app.backend).1 },
            )
                ≡ out =
              rw (k, answer) at h in
            (n, e, r, k, cc, sym (ap (λ p. p.1) same))
      ]

  lookup-Answered :
      (w : World) (q : Request) (v : String) (app app' : App) (payload : Payload)
      → customer_code q ≡ none
      → lookup blake2b texts w q v app ≡ some (answered payload, app')
      → Answered w q v app (payload, app')
  unfolding lookup
  lookup-Answered w q v app app' payload alone h =
      let out : Option (Response Payload × App) = some (answered payload, app') in
      elim (Option-cases (verify_api_key texts.lower app.settings q)) [
        | inr (x, e) ↦ let bad : some (refused x, app) ≡ out = rw (e, lookup) at h in absurd cc
        | inl e ↦ elim (Bool-cases (not (between 1 2048 (text_length v)))) [
          | inl long ↦
              let bad : some (refused (status 422), app) ≡ out = rw (e, long, lookup) at h in
              absurd cc
          | inr fits ↦ elim (Option-cases (classified texts app.settings v)) [
            | inl k ↦ let bad : none ≡ out = rw (e, fits, k, lookup) at h in absurd cc
            | inr (n, k) ↦
                let same : some (answer blake2b w none n app) ≡ out =
                  rw (e, fits, k, alone, lookup) at h in
                answer-Answered w q v app app' payload n k (some-injective _ _ same)
          ]
        ]
      ]

  -- one step of the loop of a batch, at a value that a lookup answers
  bulk_step :
      (worlds : ℕ → World) (n : ℕ) (q : Request) (v : String) (values : List String)
      (results : List (String × Payload)) (app app' : App) (payload : Payload)
      → Answered (worlds n) q v app (payload, app')
      → bulk_loop blake2b texts worlds n (v ∷ values) results app
        ≡ bulk_loop blake2b texts worlds (n + 1) values (insert v payload results) app'
  unfolding bulk_loop
  bulk_step worlds n q v values results app app' payload (parsed, e, r, k, same, last) =
      rw (e, k, bulk_loop) (rw (same, last) refl)

  bulk_loop-one_by_one :
      (worlds : ℕ → World) (n : ℕ) (q : Request) (values : List String)
      (results : List (String × Payload)) (app last : App) (payloads : List Payload)
      → customer_code q ≡ none
      → one_by_one worlds n q values app ≡ some (payloads, last)
      → bulk_loop blake2b texts worlds n values results app
        ≡ some (ok (put_under values payloads results), last)
  unfolding one_by_one bulk_loop
  bulk_loop-one_by_one worlds n q [] results app last payloads alone h =
      let stay : last ≡ app = cc in rw stay refl
  bulk_loop-one_by_one worlds n q (v ∷ values) results app last payloads alone h =
      first (lookup blake2b texts (worlds n) q v app) refl λ payload app' ps.
        bulk_loop-one_by_one worlds (n + 1) q values (insert v payload results) app' last ps alone
    where
      End : Type 0
      End =
          bulk_loop blake2b texts worlds n (v ∷ values) results app
          ≡ some (ok (put_under (v ∷ values) payloads results), last)

      out : Option (List Payload × App)
      out = some (payloads, last)

      Again : Type 0
      Again =
          (payload : Payload) (app' : App) (ps : List Payload)
          → one_by_one worlds (n + 1) q values app' ≡ some (ps, last)
          → bulk_loop blake2b texts worlds (n + 1) values (insert v payload results) app'
            ≡ some (ok (put_under values ps (insert v payload results)), last)

      rest :
          (payload : Payload) (app' : App)
          → lookup blake2b texts (worlds n) q v app ≡ some (answered payload, app')
          → Again
          → End
      rest payload app' e again = elim (Option-cases (one_by_one worlds (n + 1) q values app')) [
        | inl k ↦ let bad : none ≡ out = rw (e, k, one_by_one) at h in absurd cc
        | inr ((ps, a), k) ↦
            let same : some (payload ∷ ps, a) ≡ out = rw (e, k, one_by_one) at h in
            let end : a ≡ last = cc in
            let all : payload ∷ ps ≡ payloads = cc in
            bulk_step worlds n q v values results app app' payload
              (lookup-Answered (worlds n) q v app app' payload alone e)
            ∙ again payload app' ps (k ∙ ap (λ a. some (ps, a)) end)
            ∙ ap (λ ps. some (ok (put_under (v ∷ values) ps results), last)) all
      ]

      first :
          (o : Option (Response Payload × App))
          → lookup blake2b texts (worlds n) q v app ≡ o
          → Again
          → End
      first none e again = let bad : none ≡ out = rw (e, one_by_one) at h in absurd cc
      first (some (refused x, a)) e again =
          let bad : none ≡ out = rw (e, one_by_one) at h in absurd cc
      first (some (answered payload, app')) e again = rest payload app' e again

  -- Where the request passes the key check and names no tenant, and each of the first 500 values of a
  -- batch is answered when it is looked up on its own, one after the other, then the batch is answered,
  -- with these payloads under their values, and it leaves the service as the lookups do.
  pub lookup_bulk-one_by_one :
      (worlds : ℕ → World) (q : Request) (values : List String) (app last : App)
      (payloads : List Payload)
      → verify_api_key texts.lower app.settings q ≡ none
      → customer_code q ≡ none
      → one_by_one worlds 0 q (take 500 values) app ≡ some (payloads, last)
      → lookup_bulk blake2b texts worlds q values app
        ≡ some (answered (body_of values (put_under (take 500 values) payloads [])), last)
  unfolding lookup_bulk
  lookup_bulk-one_by_one worlds q values app last payloads passes alone h =
      rw
        (
          passes,
          bulk_loop-one_by_one worlds 0 q (take 500 values) [] app last payloads alone h,
          lookup_bulk,
        )
        refl
