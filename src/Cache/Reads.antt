-- ===== src/Cache/Reads.antt =====
-- What a read of cache/payload.py returns after a write, and what a write pushes out.
use opencti_middleware.Base.{
  ℕ, ◌+◌, ◌≤◌, ◌<◌, String, ◌≡◌, ◌≢◌, refl, ◌∙◌, Bool, false, ◌&&◌, Option, none, some, List, [],
  ◌∷◌, ◌++◌, arith, inl, inr, length, length-append, ltb, leb, ◌==◌, str_eq, ==_iff, Bool-cases,
  Option-cases, if◌then◌else◌, eq_iff, eq_refl, find, without, DistinctKeys, find-without,
  find-append, length-without-le, length-without_found, without_absent,
}
use opencti_middleware.Cache.{
  Payload, Entry, PayloadCache, set_degraded, active_ttl, cache_get, evict, cache_set,
}
use opencti_middleware.Cache.Bounds.{IsValid}

-- With room for one more than `n` entries, the oldest leaves exactly if there are `n + 1`.
evict_one : (n : ℕ) (l : List (String × Entry)) → length l ≤ n → evict n l ≡ l
unfolding evict
evict_one n [] h = refl
evict_one n (e ∷ l) h = ground arith

evict-tail :
    (n : ℕ) (e : String × Entry) (l : List (String × Entry))
    → length (e ∷ l) ≡ n + 1
    → evict n (e ∷ l) ≡ l
unfolding evict
evict-tail n e l h = ground (arith, evict_one n l)

abbrev pub is_oldest : String → List (String × Entry) → Bool
is_oldest q [] = false
is_oldest q ((k, e) ∷ l) = str_eq k q

-- A write of `key` pushes out the entry of `q`: `key` is new, the cache is full, and `q` is the key
-- that was used least recently.
abbrev pub pushes_out : String → String → PayloadCache → Bool
pushes_out key q c = elim (find key c.entries) [
  | some _ ↦ false
  | none ↦ length c.entries == c.max_entries && is_oldest q c.entries
]

find-written :
    (key q : String) (e : Entry) (l : List (String × Entry))
    → find q (without key l ++ (key, e) ∷ []) ≡ (if str_eq key q then some e else find q l)
find-written key q e l =
    ground
      (arith, find-append q (without key l) ((key, e) ∷ []), find-without key q l, eq_iff key q)

-- a write to a full cache that does not hold the key
find-full :
    (n : ℕ) (key q : String) (e : Entry) (l : List (String × Entry))
    → find key l ≡ none
    → DistinctKeys l
    → length l ≡ n
    → 0 < n
    → find q (evict n (without key l ++ (key, e) ∷ []))
      ≡ (if str_eq key q then some e else if is_oldest q l then none else find q l)
find-full n key q e [] h d full some_room = absurd (omega arith)
find-full n key q e ((k, x) ∷ l) h d full some_room =
    rw
      (
        without_absent key ((k, x) ∷ l) h,
        evict-tail n (k, x) (l ++ (key, e) ∷ []) (omega (arith, length-append l ((key, e) ∷ []))),
      )
      (ground (arith, find-append q l ((key, e) ∷ []), eq_iff k q, eq_iff k key, eq_iff key q, d.0))

-- After a write to a valid cache, a key holds the new payload if it was written, nothing if the
-- write pushed it out, and else what it held before.
pub find-cache_set :
    (now : ℕ) (key q : String) (p : Payload) (c : PayloadCache)
    → IsValid c
    → find q (cache_set now key p c).entries ≡ (
        if str_eq key q
        then some (record { payload = p; expires_at = now + active_ttl c })
        else if pushes_out key q c
        then none
        else find q c.entries)
unfolding cache_set
find-cache_set now key q p c v =
    let e : Entry = record { payload = p; expires_at = now + active_ttl c } in
    let w = without key c.entries ++ (key, e) ∷ [] in
    let size = length-append (without key c.entries) ((key, e) ∷ []) in
    elim (Option-cases (find key c.entries)) [
      | inr (x, found) ↦
          let fits : length w ≤ c.max_entries =
            omega (arith, size, length-without_found key c.entries x found, v.bounded) in
          ground (arith, evict_one c.max_entries w fits, find-written key q e c.entries)
      | inl fresh ↦ elim (Bool-cases (length c.entries == c.max_entries)) [
        | inl full ↦
            let found =
              find-full c.max_entries key q e c.entries fresh v.distinct ((==_iff _ _).0 full)
                v.positive in
            ground arith
        | inr roomy ↦
            let fits : length w ≤ c.max_entries =
              ground (arith, size, length-without-le key c.entries, v.bounded) in
            ground (arith, evict_one c.max_entries w fits, find-written key q e c.entries)
      ]
    ]

-- A read answers from the entry of its key while that has not expired.
abbrev pub fresh_payload : ℕ → Option Entry → Option Payload
fresh_payload now none = none
fresh_payload now (some e) = if leb e.expires_at now then none else some e.payload

cache_get_lem :
    (now : ℕ) (key : String) (c : PayloadCache)
    → (cache_get now key c).0 ≡ fresh_payload now (find key c.entries)
unfolding cache_get
cache_get_lem now key c = ground arith

-- A payload that was written to a valid cache is returned until its time to live is over, at which
-- it expires; the time to live is the degraded one exactly if the cache was degraded at the write.
-- A change of that flag afterwards changes nothing for it.
pub cache_get-cache_set_self :
    (now later : ℕ) (key : String) (p : Payload) (b : Bool) (c : PayloadCache)
    → IsValid c
    → (cache_get later key (set_degraded b (cache_set now key p c))).0
      ≡ (if ltb later (now + (if c.degraded then c.degraded_ttl else c.ttl)) then some p else none)
unfolding set_degraded
cache_get-cache_set_self now later key p b c v =
    cache_get_lem later key (set_degraded b (cache_set now key p c))
    ∙ rw (find-cache_set now key key p c v, eq_refl key) (ground arith)

-- Another key is read after a write to a valid cache as before it, unless the write pushed its
-- entry out.
pub cache_get-cache_set_ne :
    (now later : ℕ) (key q : String) (p : Payload) (c : PayloadCache)
    → IsValid c
    → key ≢ q
    → (cache_get later q (cache_set now key p c)).0
      ≡ (if pushes_out key q c then none else (cache_get later q c).0)
cache_get-cache_set_ne now later key q p c v ne =
    cache_get_lem later q (cache_set now key p c)
    ∙ ground (arith, find-cache_set now key q p c v, eq_iff key q, cache_get_lem later q c)

-- A read changes no other key, and its own only by dropping an entry that has expired.
pub find-cache_get :
    (now : ℕ) (key q : String) (c : PayloadCache)
    → fresh_payload now (find q (cache_get now key c).1.entries)
      ≡ fresh_payload now (find q c.entries)
unfolding cache_get
find-cache_get now key q c = elim (Option-cases (find key c.entries)) [
  | inl e ↦ rw (e, cache_get)
  | inr (entry, e) ↦ ground (
    arith,
    find-without key q c.entries,
    find-append q (without key c.entries) ((key, entry) ∷ []),
    eq_iff key q,
  )
]
