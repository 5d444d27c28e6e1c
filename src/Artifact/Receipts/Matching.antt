-- ===== src/Artifact/Receipts/Matching.antt =====
-- The receipts of internal/artifact/artifact.go and the content that they match.
use egressfox.Base.Bytes.{eq_bytes_refl, eq_bytes_sound}
use egressfox.Artifact.Receipts.{
  Encoding, ArtifactError, Validated, validate, generation_of, matches_protected_receipt,
  ReceiptData, new_candidate, data_invalid, protected_receipt, Bytes, marshalled, safe_validator_id,
  Profile, data_of, Candidate, generation_input, profile_of, checked, matching, invalid_evidence,
  eq_bytes, is_blank, invalid_artifact, HasText,
}
use egressfox.Base.{
  ◌≡◌, refl, sym, ap, subst, ◌∙◌, inl, inr, true, false, not, ◌||◌, Option, none, some, arith,
  Bool-cases, Option-cases, ok, Result-cases, >>-eq-ok,
}

module _ (encoding : Encoding) where
  open encoding use {marshal, unmarshal, unmarshal-marshal, length-sha256}

  marshalled-ok :
      (e : ArtifactError) (d : ReceiptData) (encoded : Bytes)
      → marshalled encoding e d ≡ ok encoded
      → marshal d ≡ some encoded
  marshalled-ok e d encoded h = elim (Option-cases (marshal d)) [
    | inl n ↦ absurd (ground arith)
    | inr (b, m) ↦ ground arith
  ]

  -- What validation leaves.
  pub record Sealed (v : Validated) : Type 0 where
    pub accepted : new_candidate v.candidate.profile v.candidate.content ≡ ok v.candidate
    pub digest : v.generation ≡ generation_of encoding v.candidate
    pub safe : safe_validator_id v.validator_id ≡ true

  candidate_fields :
      (profile : Profile) (content : Bytes) (c : Candidate)
      → new_candidate profile content ≡ ok c
      → c ≡ record { profile = profile; content = content }
  unfolding new_candidate
  candidate_fields profile content c h = ground arith

  checked-Sealed :
      (profile : Profile) (content : Bytes) (c : Candidate) (evidence : Option Bytes)
      (v : Validated)
      → new_candidate profile content ≡ ok c
      → checked encoding c evidence ≡ ok v
      → Sealed v × (v.candidate ≡ c)
  checked-Sealed profile content c none v made h = cc
  checked-Sealed profile content c (some validator_id) v made h =
      let (safe, last) = >>-eq-ok (not (safe_validator_id validator_id)) invalid_evidence _ h in
      let built : record {
        candidate = c;
        generation = generation_of encoding c;
        validator_id = validator_id;
      }
          ≡ v =
        ground arith in
      let fields = candidate_fields profile content c made in
      let again : new_candidate c.profile c.content ≡ ok c =
        subst (λ x. new_candidate x.profile x.content ≡ ok c) (sym fields) made in
      let accepted : safe_validator_id validator_id ≡ true = ground (arith, safe) in
      subst (λ x. Sealed x × (x.candidate ≡ c)) built
        (record { accepted = again; digest = refl; safe = accepted }, refl)

  validate-Sealed :
      (profile : Profile) (content : Bytes) (c : Candidate)
      (checker : Option (Candidate → Option Bytes)) (v : Validated)
      → new_candidate profile content ≡ ok c
      → validate encoding c checker ≡ ok v
      → Sealed v × (v.candidate ≡ c)
  unfolding validate
  validate-Sealed profile content c none v made h = cc
  validate-Sealed profile content c (some checker) v made h =
      checked-Sealed profile content c (checker c) v made h

  Sealed-valid : (v : Validated) → Sealed v → data_invalid encoding (data_of encoding v) ≡ false
  unfolding generation_of
  Sealed-valid v s = ground (arith, s.digest, s.safe, length-sha256 (generation_input v.candidate))

  valid_matching :
      (d : ReceiptData) (content : Bytes) (c : Candidate)
      → data_invalid encoding d ≡ false
      → new_candidate (profile_of d) content ≡ ok c
      → d.generation ≡ generation_of encoding c
      → matching encoding content (some d) ≡ some (profile_of d)
  valid_matching d content c valid made digest =
      let equal : eq_bytes (generation_of encoding c) d.generation ≡ true =
        subst (λ g. eq_bytes (generation_of encoding c) g ≡ true) (sym digest)
          (eq_bytes_refl (generation_of encoding c)) in
      rw (valid, made, equal) refl

  matching_sound :
      (d : ReceiptData) (content : Bytes) (profile : Profile)
      → matching encoding content (some d) ≡ some profile
      → (profile ≡ profile_of d)
        × (d.generation
            ≡ generation_of encoding (record { profile = profile_of d; content = content }))
        × (safe_validator_id d.validator_id ≡ true)
  matching_sound d content profile h = elim (Bool-cases (data_invalid encoding d)) [
    | inl bad ↦ absurd (ground arith)
    | inr valid ↦ elim (Result-cases (new_candidate (profile_of d) content)) [
      | inr (e, failed) ↦ absurd (ground arith)
      | inl (c, made) ↦ elim (Bool-cases (eq_bytes (generation_of encoding c) d.generation)) [
        | inr other ↦ absurd (ground arith)
        | inl equal ↦
            let fields = candidate_fields (profile_of d) content c made in
            (
              ground arith,
              sym (eq_bytes_sound (generation_of encoding c) d.generation equal)
                  ∙ ap (generation_of encoding) fields,
              ground (arith, valid),
            )
      ]
    ]
  ]

  -- The protected receipt of a validated artifact matches its content and gives its profile back, where
  -- the strings of the profile are ASCII.
  pub matches_protected_receipt-protected_receipt :
      (profile : Profile) (content : Bytes) (c : Candidate)
      (checker : Option (Candidate → Option Bytes)) (v : Validated) (encoded : Bytes)
      → HasText profile
      → new_candidate profile content ≡ ok c
      → validate encoding c checker ≡ ok v
      → protected_receipt encoding v ≡ ok encoded
      → matches_protected_receipt encoding content encoded ≡ some profile
  unfolding matches_protected_receipt protected_receipt
  matches_protected_receipt-protected_receipt profile content c checker v encoded text made
        validated h =
      let (is_sealed, of_candidate) = validate-Sealed profile content c checker v made validated in
      let (_, last) =
        >>-eq-ok (is_blank v.candidate.content || not (safe_validator_id v.validator_id))
          invalid_artifact _ h in
      let fields = candidate_fields profile content c made in
      let own_profile : v.candidate.profile ≡ profile =
        ap (λ x. x.profile) (of_candidate ∙ fields) in
      let decoded =
        unmarshal-marshal (data_of encoding v) encoded (subst HasText (sym own_profile) text)
          is_sealed.safe (marshalled-ok invalid_artifact (data_of encoding v) encoded last) in
      let again : new_candidate v.candidate.profile content ≡ ok c =
        subst (λ p. new_candidate p content ≡ ok c) (sym own_profile) made in
      let digest : v.generation ≡ generation_of encoding c =
        is_sealed.digest ∙ ap (generation_of encoding) of_candidate in
      rw decoded (
        valid_matching (data_of encoding v) content c (Sealed-valid v is_sealed) again digest
        ∙ ap some own_profile)

  -- Whatever bytes are given as a receipt: if they match a content, they decode to data with the digest
  -- of exactly this content under the profile that is returned, and with a safe validator id.
  pub matches_protected_receipt_sound :
      (content encoded : Bytes) (profile : Profile)
      → matches_protected_receipt encoding content encoded ≡ some profile
      → (d : ReceiptData) × (unmarshal encoded ≡ some d)
        × (profile ≡ profile_of d)
        × (d.generation ≡ generation_of encoding (record { profile = profile; content = content }))
        × (safe_validator_id d.validator_id ≡ true)
  unfolding matches_protected_receipt
  matches_protected_receipt_sound content encoded profile h =
      elim (Option-cases (unmarshal encoded)) [
        | inl e ↦ absurd (no_profile (subst (λ o. matching encoding content o ≡ some profile) e h))
        | inr (d, e) ↦
            let (is_profile, digest, safe) =
              matching_sound d content profile
                (subst (λ o. matching encoding content o ≡ some profile) e h) in
            (
              d,
              e,
              is_profile,
              digest
                  ∙ ap (λ p. generation_of encoding (record { profile = p; content = content }))
                      (sym is_profile),
              safe,
            )
      ]
    where
      no_profile : ¬ (matching encoding content none ≡ some profile)
      no_profile k = cc
