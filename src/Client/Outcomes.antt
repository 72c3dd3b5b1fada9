-- ===== src/Client/Outcomes.antt =====
-- What `execute` of opencti/client.py does to the breaker, for every outcome of its requests.
use opencti_middleware.Base.{
  ℕ, ◌+◌, String, ◌≡◌, refl, Bool, true, false, ◌&&◌, Option, none, some, arith, inl, inr, List, [],
  ◌∷◌, ◌==◌, Bool-cases, if◌then◌else◌,
}
use opencti_middleware.Base.Json.{Json, arr, obj, cons, get, truthy}
use opencti_middleware.Base.Result.{
  Result, ok, raise, breaker_open, opencti_error, type_error, attribute_error, key_error,
}
use opencti_middleware.Breaker.{allows, record_success, record_failure}
use opencti_middleware.Client.{
  Outcome, connect_error, response, Client, graphql_errors, read_body, read_response, settle, send,
  attempt_loop, execute,
}

-- A result is on the breaker's account: an answer is recorded as a success and an OpenCTIError as
-- one failure, while an AttributeError, TypeError or KeyError, which a body of an unexpected shape
-- causes, is not recorded at all. No other exception comes out.
abbrev pub Accounted : ℕ → Client → Result Json → Client → Type 0
Accounted later c (ok d) c' = (c'.breaker ≡ record_success c.breaker) × (c'.last_error ≡ none)
Accounted later c (raise (opencti_error m)) c' = c'.breaker ≡ record_failure later c.breaker
Accounted later c (raise attribute_error) c' =
    (c'.breaker ≡ c.breaker) × (c'.last_error ≡ c.last_error)
Accounted later c (raise type_error) c' = (c'.breaker ≡ c.breaker) × (c'.last_error ≡ c.last_error)
Accounted later c (raise key_error) c' = (c'.breaker ≡ c.breaker) × (c'.last_error ≡ c.last_error)
Accounted later c _ c' = ⊥

abbrev pub could_not_connect : Outcome → Bool
could_not_connect (connect_error m k) = true
could_not_connect _ = false

module _ (py_str : Json → String) (later : ℕ) where
  abbrev On : Client → Result Json × Client → Type 0
  On c result = Accounted later c result.0 result.1

  graphql_errors-Accounted :
      (errors : Json) (c : Client) → On c (graphql_errors py_str later errors c)
  unfolding graphql_errors
  graphql_errors-Accounted (arr (cons (obj fs) es)) c = refl
  graphql_errors-Accounted _ c = (refl, refl)

  read_body-Accounted : (body : Json) (c : Client) → On c (read_body py_str later body c)
  unfolding read_body
  read_body-Accounted (obj body) c = elim (Bool-cases (truthy (get "errors" body))) [
    | inl e ↦ rw e (graphql_errors-Accounted (get "errors" body) c)
    | inr e ↦ rw e (refl, refl)
  ]
  read_body-Accounted _ c = (refl, refl)

  read_response-Accounted :
      (status : ℕ) (content : Option Json) (c : Client)
      → On c (read_response py_str later status content c)
  unfolding read_response
  read_response-Accounted status none c = elim (Bool-cases (status == 200)) [
    | inl e ↦ rw e refl
    | inr e ↦ rw e refl
  ]
  read_response-Accounted status (some body) c = elim (Bool-cases (status == 200)) [
    | inl e ↦ rw e (read_body-Accounted body c)
    | inr e ↦ rw e refl
  ]

  settle-Accounted : (o : Outcome) (c : Client) → On c (settle py_str later o c)
  unfolding settle
  settle-Accounted (response status content) c = read_response-Accounted status content c
  settle-Accounted _ c = refl

  graphql_errors-sent :
      (errors : Json) (c : Client) → (graphql_errors py_str later errors c).1.sent ≡ c.sent
  unfolding graphql_errors
  graphql_errors-sent (arr (cons (obj fs) es)) c = refl
  graphql_errors-sent _ c = refl

  read_body-sent : (body : Json) (c : Client) → (read_body py_str later body c).1.sent ≡ c.sent
  unfolding read_body
  read_body-sent (obj body) c = ground (arith, graphql_errors-sent (get "errors" body) c)
  read_body-sent _ c = refl

  settle-sent : (o : Outcome) (c : Client) → (settle py_str later o c).1.sent ≡ c.sent
  unfolding settle
  settle-sent (response status none) c = ground arith
  settle-sent (response status (some body)) c = ground (arith, read_body-sent body c)
  settle-sent _ c = refl

  -- the last attempt that is left is never retried
  last_lem :
      (o : Outcome) (os : List Outcome) (c : Client)
      → attempt_loop py_str later 1 (o ∷ os) c ≡ settle py_str later o (send c)
  unfolding attempt_loop
  last_lem (connect_error m k) os c = refl
  last_lem _ os c = refl

  retry_lem :
      (o second : Outcome) (c : Client)
      → could_not_connect o ≡ true
      → attempt_loop py_str later 2 (o ∷ second ∷ []) c ≡ settle py_str later second (send (send c))
  unfolding attempt_loop
  retry_lem (connect_error m k) second c e = last_lem second [] (send c)
  retry_lem _ second c e = cc

  first_lem :
      (o second : Outcome) (c : Client)
      → could_not_connect o ≡ false
      → attempt_loop py_str later 2 (o ∷ second ∷ []) c ≡ settle py_str later o (send c)
  unfolding attempt_loop
  first_lem (connect_error m k) second c e = cc
  first_lem _ second c e = refl

  settled :
      (o : Outcome) (c : Client)
      → On c (settle py_str later o (send c))
        × ((settle py_str later o (send c)).1.sent ≡ c.sent + 1)
  settled o c = (settle-Accounted o (send c), settle-sent o (send c))

  loop_lem :
      (retry : Bool) (first second : Outcome) (c : Client)
      → let result = attempt_loop py_str later (if retry then 2 else 1) (first ∷ second ∷ []) c in
        On c result
        × (result.1.sent ≡ (if retry && could_not_connect first then c.sent + 2 else c.sent + 1))
  loop_lem false first second c = rw last_lem (settled first c)
  loop_lem true first second c = elim (Bool-cases (could_not_connect first)) [
    | inl e ↦
        let (a, n) = settled second (send c) in rw (e, retry_lem first second c e) (a, omega arith)
    | inr e ↦ rw (e, first_lem first second c e) (settled first c)
  ]

  -- An open breaker sends nothing and changes nothing. Otherwise one request is sent, or two where
  -- the first one could not connect and may be retried. An answer is recorded as a success, and an
  -- OpenCTIError as one failure; an AttributeError, TypeError or KeyError leaves the breaker and the
  -- last error as they were, and nothing else comes out.
  pub execute-Accounted :
      (now : ℕ) (retry : Bool) (first second : Outcome) (c : Client)
      → let result = execute py_str now later retry first second c in
        (allows now c.breaker ≡ false
          → (result.0 ≡ raise (breaker_open "circuit breaker open")) × (result.1 ≡ c))
        × (allows now c.breaker ≡ true
            → Accounted later c result.0 result.1
              × (result.1.sent
                  ≡ (if retry && could_not_connect first then c.sent + 2 else c.sent + 1)))
  unfolding execute
  execute-Accounted now retry first second c =
      (λ refuse. rw refuse (refl, refl), λ pass. rw pass (loop_lem retry first second c))
