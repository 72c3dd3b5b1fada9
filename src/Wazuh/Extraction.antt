-- ===== src/Wazuh/Extraction.antt =====
-- What `extract_indicators` of wazuh/custom-opencti.py returns.
use opencti_middleware.Base.{
  ℕ, zero, suc, ◌≤◌, String, ◌≡◌, refl, false, Option, List, [], ◌∷◌, arith, inl, inr, length, take,
  length-take, str_eq, Bool-cases,
}
use opencti_middleware.Base.Text.{strip, text_elem}
use opencti_middleware.Base.Json.{Json, Fields, str}
use opencti_middleware.Mapper.Labels.{add_label}
use opencti_middleware.Mapper.Bounds.{NoRepeats, append-NoRepeats}
use opencti_middleware.Wazuh.{
  Address, dig, looks_private, note_value, note_values, note_digests, note_blob, note_blobs,
  extract_indicators, skip_paths, value_paths, hashes_paths,
}

add_label-NoRepeats : (t : String) (ts : List String) → NoRepeats ts → NoRepeats (add_label t ts)
add_label-NoRepeats t ts n = elim (Bool-cases (text_elem t ts)) [
  | inl e ↦ rw e n
  | inr e ↦ rw e (append-NoRepeats t ts n e)
]

text_elem-take :
    (t : String) (n : ℕ) (ts : List String)
    → text_elem t ts ≡ false
    → text_elem t (take n ts) ≡ false
text_elem-take t zero ts h = refl
text_elem-take t (suc n) [] h = refl
text_elem-take t (suc n) (u ∷ ts) h = ground (arith, text_elem-take t n ts)

take-NoRepeats : (n : ℕ) (ts : List String) → NoRepeats ts → NoRepeats (take n ts)
unfolding NoRepeats
take-NoRepeats zero ts r = tt
take-NoRepeats (suc n) [] r = tt
take-NoRepeats (suc n) (t ∷ ts) r = (text_elem-take t n ts r.0, take-NoRepeats n ts r.1)

module _ (ip_address : String → Option Address) (digests_in : String → List String)
    (lower : String → String) where
  note_value-NoRepeats :
      (v : Json) (found : List String)
      → NoRepeats found
      → NoRepeats (note_value ip_address digests_in lower v found)
  unfolding note_value
  note_value-NoRepeats (str value) found r = elim (Bool-cases (str_eq (strip value) "")) [
    | inl blank ↦ rw (blank, note_value) r
    | inr there ↦ elim (Bool-cases (looks_private ip_address digests_in lower (strip value))) [
      | inl private ↦ rw (there, private, note_value) r
      | inr public ↦ rw (there, public, note_value) (add_label-NoRepeats (strip value) found r)
    ]
  ]
  note_value-NoRepeats _ found r = r

  note_values-NoRepeats :
      (alert : Fields) (paths found : List String)
      → NoRepeats found
      → NoRepeats (note_values ip_address digests_in lower alert paths found)
  unfolding note_values
  note_values-NoRepeats alert [] found r = r
  note_values-NoRepeats alert (path ∷ paths) found r =
      elim (Bool-cases (text_elem path skip_paths)) [
        | inl skipped ↦ rw (skipped, note_values) (note_values-NoRepeats alert paths found r)
        | inr kept ↦
            rw (kept, note_values)
              (note_values-NoRepeats alert paths _ (note_value-NoRepeats (dig alert path) found r))
      ]

  note_digests-NoRepeats :
      (digests found : List String)
      → NoRepeats found
      → NoRepeats (note_digests ip_address digests_in lower digests found)
  unfolding note_digests
  note_digests-NoRepeats [] found r = r
  note_digests-NoRepeats (d ∷ ds) found r =
      note_digests-NoRepeats ds _ (add_label-NoRepeats (lower d) found r)

  note_blob-NoRepeats :
      (v : Json) (found : List String)
      → NoRepeats found
      → NoRepeats (note_blob ip_address digests_in lower v found)
  unfolding note_blob
  note_blob-NoRepeats (str blob) found r = note_digests-NoRepeats (digests_in blob) found r
  note_blob-NoRepeats _ found r = r

  note_blobs-NoRepeats :
      (alert : Fields) (paths found : List String)
      → NoRepeats found
      → NoRepeats (note_blobs ip_address digests_in lower alert paths found)
  unfolding note_blobs
  note_blobs-NoRepeats alert [] found r = r
  note_blobs-NoRepeats alert (path ∷ paths) found r =
      note_blobs-NoRepeats alert paths _ (note_blob-NoRepeats (dig alert path) found r)

  -- An alert yields at most 16 indicators, and none of them twice.
  pub extract_indicators-NoRepeats :
      (alert : Fields)
      → NoRepeats (extract_indicators ip_address digests_in lower alert)
        × (length (extract_indicators ip_address digests_in lower alert) ≤ 16)
  unfolding extract_indicators
  extract_indicators-NoRepeats alert =
      let values = note_values ip_address digests_in lower alert value_paths [] in
      let found = note_blobs ip_address digests_in lower alert hashes_paths values in
      (
        take-NoRepeats 16 found (
            note_blobs-NoRepeats alert hashes_paths values
              (note_values-NoRepeats alert value_paths [] (unfold NoRepeats in tt))),
        omega (arith, length-take 16 found),
      )
