-- ===== src/Api/Access.antt =====
-- Who gets an answer (`verify_api_key` of api/deps.py, before both lookups of api/lookup.py).
use Prim.Native.Char.{code}
use opencti_middleware.Base.{
  ℕ, String, ◌≡◌, ◌⊎◌, refl, ap, true, false, ◌&&◌, none, some, List, inl, inr, ltb, str_eq,
  Bool-cases, Option-cases, eq_iff,
}
use mathlib.Core.Path.{subst}
use mathlib.Core.Option.{some-injective}
use opencti_middleware.Base.{then_branch, else_branch}
use opencti_middleware.Base.Result.{ok, raise, type_error, Result-cases}
use opencti_middleware.Base.Text.{all_chars}
use opencti_middleware.Settings.{Settings}
use opencti_middleware.Cache.{Payload}
use opencti_middleware.Indicators.Normalize.{Texts}
use opencti_middleware.Live.{World}
use opencti_middleware.Api.{
  App, Request, Refusal, status, crash, Response, refused, compare_digest, supplied_key,
  verify_api_key, BulkBody, lookup, lookup_bulk,
}

-- a request with the key of the settings
abbrev pub IsAuthorised : (String → String) → Settings → Request → Type 0
IsAuthorised lower s q = supplied_key lower s q ≡ some s.api_key

compare_digest-true : (a b : String) → compare_digest a b ≡ ok true → a ≡ b
unfolding compare_digest
compare_digest-true a b h =
    elim (Bool-cases (all_chars (λ c. ltb (code c) 128) a && all_chars (λ c. ltb (code c) 128) b)) [
      | inl plain ↦
          let same : ok (str_eq a b) ≡ ok true = then_branch _ _ _ plain h in (eq_iff a b).0 cc
      | inr odd ↦ let bad : raise type_error ≡ ok true = else_branch _ _ _ odd h in absurd cc
    ]

-- What the key check comes to: it lets the request pass, which then has the key of the settings, or
-- it refuses the request.
verify_api_key_cases :
    (lower : String → String) (s : Settings) (q : Request)
    → ((verify_api_key lower s q ≡ none) × IsAuthorised lower s q)
      ⊎ (r : Refusal) × (verify_api_key lower s q ≡ some r)
unfolding verify_api_key
verify_api_key_cases lower s q = elim (Option-cases (supplied_key lower s q)) [
  | inl missing ↦ rw (missing, verify_api_key) (inr (status 401, refl))
  | inr (key, there) ↦ elim (Result-cases (compare_digest key s.api_key)) [
    | inl (x, e) ↦ rw (there, e, verify_api_key) (inr (crash x, refl))
    | inr (false, e) ↦ rw (there, e, verify_api_key) (inr (status 403, refl))
    | inr (true, e) ↦
        rw (there, e, verify_api_key) (inl (refl, ap some (compare_digest-true key s.api_key e)))
  ]
]

-- the request had the key, or it was refused and has changed nothing
abbrev pub Guarded {ℓ} :
    {B : Type ℓ} → (String → String) → Request → App → Response B × App → Type ℓ
Guarded lower q app (r, app') =
    IsAuthorised lower app.settings q ⊎ (x : Refusal) × (r ≡ refused x) × (app' ≡ app)

module _ (blake2b : String → List ℕ) (texts : Texts) where
  -- A request to either endpoint that does not carry the key of the settings in the header of the
  -- settings is refused, and the backend and all that it keeps are left as they were.
  pub requests-Guarded :
      (q : Request) (app : App)
      → ((w : World) (value : String) (r : Response Payload × App)
          → lookup blake2b texts w q value app ≡ some r
          → Guarded texts.lower q app r)
        × ((worlds : ℕ → World) (values : List String) (r : Response BulkBody × App)
            → lookup_bulk blake2b texts worlds q values app ≡ some r
            → Guarded texts.lower q app r)
  unfolding lookup lookup_bulk
  requests-Guarded q app = elim (verify_api_key_cases texts.lower app.settings q) [
    | inl (passes, key) ↦ (λ w value r h. inl key, λ worlds values r h. inl key)
    | inr (x, stops) ↦ (
      λ w value r h.
          let same : some (refused x, app) ≡ some r = rw (stops, lookup) at h in
          subst (Guarded texts.lower q app) (some-injective _ _ same) (inr (x, refl, refl)),
      λ worlds values r h.
          let same : some (refused x, app) ≡ some r = rw (stops, lookup_bulk) at h in
          subst (Guarded texts.lower q app) (some-injective _ _ same) (inr (x, refl, refl)),
    )
  ]
