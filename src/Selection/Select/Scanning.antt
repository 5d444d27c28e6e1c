-- ===== src/Selection/Select/Scanning.antt =====
-- The loop of Select in internal/selection/selection.go over the ordered candidates.
use egressfox.Base.{
  ℕ, ◌≡◌, refl, sym, subst, true, false, Option, none, some, List, [], ◌∷◌, arith, All, Result, ok,
  err, >>=-eq-ok, is_none, Bool-cases, inl, inr, if◌then◌else◌, if_rule, map,
}
use egressfox.Base.Bytes.{Bytes, eq_bytes_refl}
use egressfox.Endpoint.{Identity, Revision, identity_of, revision_equal}
use egressfox.Observation.Keys.{ConnectionRef, ModelError, new_connection_ref, connection_equal}
use egressfox.Selection.{
  Policy, Context, Candidate, Member, Cooldown, Explanation, Reason, eligible, Ranked, ref_key,
}
use egressfox.Observation.Summary.{Summary}
use egressfox.Selection.Confidence.{Platform}
use egressfox.Selection.Evaluate.{
  find_member, evaluate, evaluate_evidence, evaluate_summary, evaluate_confidence,
}
use egressfox.Selection.Select.{Scan, no_scan, add_scan, is_eligible, reference, scan_candidates}

is_eligible_sound : (r : Reason) → is_eligible r ≡ true → r ≡ eligible
is_eligible_sound r h = ground arith

revision_equal_refl : (r : Revision) → is_none r ≡ false → revision_equal r r ≡ true
unfolding revision_equal
revision_equal_refl none h = cc
revision_equal_refl (some d) h = eq_bytes_refl d

ineligible : (r : Reason) → r ≡ eligible → ¬ (is_eligible r ≡ false)
ineligible r e = ground arith

reference-eq-ok {ℓ} : {A : Type ℓ} (r : Result ModelError A) (a : A) → reference r ≡ ok a → r ≡ ok a
reference-eq-ok (ok b) a h = ground arith
reference-eq-ok (err e) a h = cc

-- A connection reference has a revision.
pub new_connection_ref_equal :
    (identity : Identity) (ref : ConnectionRef)
    → new_connection_ref identity ≡ ok ref
    → connection_equal ref ref ≡ true
unfolding new_connection_ref connection_equal
new_connection_ref_equal identity ref h =
    let same_bytes = eq_bytes_refl ref.id in
    ground (arith, same_bytes, revision_equal_refl ref.revision)

-- The entry of the map of reasons that an explanation gives.
abbrev pub entry_of : Explanation → Bytes × Reason
entry_of x = (ref_key x.connection, x.reason)

-- The explanation of a ranked value: Q holds of it, it is about its connection and it is eligible.
abbrev pub Explains {κ} : (Explanation → Type κ) → Ranked → Type κ
Explains Q r =
    Q r.explanation × (r.explanation.connection ≡ r.ref) × (r.explanation.reason ≡ eligible)

-- A property of the connections of the eligible explanations.
abbrev pub IfEligible {κ} : (ConnectionRef → Type κ) → Explanation → Type κ
IfEligible Q x = x.reason ≡ eligible → Q x.connection

module _ (platform : Platform) where
  module _ (context : Context) (policy : Policy) (now : ℕ) (members : List Member)
      (cooldowns : List Cooldown) where
    abbrev evaluated : Candidate → ConnectionRef → Explanation
    evaluated c ref =
        let (incumbent, selected_at) = find_member members ref in
        evaluate platform c ref context policy cooldowns incumbent selected_at now

    -- A ranked value is an eligible candidate with its reference and its explanation.
    pub record IsRanked {κ} (P : Candidate → Type κ) (r : Ranked) : Type κ where
      pub from_candidate : P r.candidate
      pub referenced : new_connection_ref (identity_of r.candidate.endpoint) ≡ ok r.ref
      pub explained : r.explanation ≡ evaluated r.candidate r.ref
      pub is_eligible : (evaluated r.candidate r.ref).reason ≡ eligible

    scan_step :
        (c : Candidate) (cs : List Candidate) (scan : Scan)
        → scan_candidates platform context policy now members cooldowns (c ∷ cs) ≡ ok scan
        → (ref : ConnectionRef) × (rest : Scan) × (new_connection_ref (identity_of c.endpoint)
            ≡ ok ref)
          × (scan_candidates platform context policy now members cooldowns cs ≡ ok rest)
          × (add_scan c ref (evaluated c ref) rest ≡ scan)
    unfolding scan_candidates
    scan_step c cs scan e =
        let (ref, made, more) =
          >>=-eq-ok (reference (new_connection_ref (identity_of c.endpoint))) _ e in
        let (rest, scanned, last) =
          >>=-eq-ok (scan_candidates platform context policy now members cooldowns cs) _ more in
        (ref, rest, reference-eq-ok _ ref made, scanned, ground arith)

    scan_nil :
        (scan : Scan)
        → scan_candidates platform context policy now members cooldowns [] ≡ ok scan
        → no_scan ≡ scan
    unfolding scan_candidates
    scan_nil scan e = ground arith

    pub scan-IsRanked {κ} :
        (P : Candidate → Type κ) (cs : List Candidate) (scan : Scan)
        → All P cs
        → scan_candidates platform context policy now members cooldowns cs ≡ ok scan
        → All (IsRanked P) scan.ranked
    scan-IsRanked P [] scan h e = subst (λ s. All (IsRanked P) s.ranked) (scan_nil scan e) tt
    scan-IsRanked P (c ∷ cs) scan h e =
        let (ref, rest, made, scanned, added) = scan_step c cs scan e in
        subst (λ s. All (IsRanked P) s.ranked) added
          (if_rule {A = List Ranked} (All (IsRanked P)) (is_eligible (evaluated c ref).reason) _ _
            (λ passes. (
              record {
                from_candidate = h.0;
                referenced = made;
                explained = refl;
                is_eligible = is_eligible_sound _ passes;
              },
              scan-IsRanked P cs rest h.1 scanned,
            ))
            (λ _. scan-IsRanked P cs rest h.1 scanned))

    evidence-connection :
        (o : Option Summary) (ref : ConnectionRef) (value : Explanation)
        → (evaluate_evidence platform o ref context policy cooldowns now value).connection
          ≡ value.connection
    unfolding evaluate_evidence evaluate_summary evaluate_confidence
    evidence-connection none ref value = refl
    evidence-connection (some summary) ref value = ground arith

    evaluated-connection :
        (c : Candidate) (ref : ConnectionRef) → (evaluated c ref).connection ≡ ref
    unfolding evaluate
    evaluated-connection c ref = evidence-connection c.evidence ref _

    eligible_head {κ} :
        (Q : ConnectionRef → Type κ) (c : Candidate) (ref : ConnectionRef) (rest : Scan)
        → All (λ r. Q r.ref) (add_scan c ref (evaluated c ref) rest).ranked
        → IfEligible Q (evaluated c ref) × All (λ r. Q r.ref) rest.ranked
    eligible_head Q c ref rest h = elim (Bool-cases (is_eligible (evaluated c ref).reason)) [
      | inl passes ↦
          let both =
            subst
              (λ b.
                All (λ r. Q r.ref)
                  (if b
                    then record { candidate = c; ref = ref; explanation = evaluated c ref }
                      ∷ rest.ranked
                    else rest.ranked))
              passes h in
          (λ _. subst Q (sym (evaluated-connection c ref)) both.0, both.1)
      | inr fails ↦ (
        λ e. absurd (ineligible _ e fails),
        subst
            (λ b.
              All (λ r. Q r.ref)
                (if b
                  then record { candidate = c; ref = ref; explanation = evaluated c ref }
                    ∷ rest.ranked
                  else rest.ranked))
            fails h,
      )
    ]

    pub scan-explanations {κ} :
        (Q : ConnectionRef → Type κ) (cs : List Candidate) (scan : Scan)
        → scan_candidates platform context policy now members cooldowns cs ≡ ok scan
        → All (λ r. Q r.ref) scan.ranked
        → All (IfEligible Q) scan.explanations
    scan-explanations Q [] scan e h =
        subst (λ s. All (IfEligible Q) s.explanations) (scan_nil scan e) tt
    scan-explanations Q (c ∷ cs) scan e h =
        let (ref, rest, made, scanned, added) = scan_step c cs scan e in
        let both =
          eligible_head Q c ref rest (subst (λ s. All (λ r. Q r.ref) s.ranked) (sym added) h) in
        subst (λ s. All (IfEligible Q) s.explanations) added
          (both.0, scan-explanations Q cs rest scanned both.1)

    pub scan-reasons :
        (cs : List Candidate) (scan : Scan)
        → scan_candidates platform context policy now members cooldowns cs ≡ ok scan
        → scan.reasons ≡ map entry_of scan.explanations
    scan-reasons [] scan e =
        subst (λ s. s.reasons ≡ map entry_of s.explanations) (scan_nil scan e) refl
    scan-reasons (c ∷ cs) scan e =
        let (ref, rest, made, scanned, added) = scan_step c cs scan e in
        subst (λ s. s.reasons ≡ map entry_of s.explanations) added
          (rw (evaluated-connection c ref, scan-reasons cs rest scanned) refl)

    pub scan-ranked {κ} :
        (Q : Explanation → Type κ) (cs : List Candidate) (scan : Scan)
        → scan_candidates platform context policy now members cooldowns cs ≡ ok scan
        → All Q scan.explanations
        → All (Explains Q) scan.ranked
    scan-ranked Q [] scan e h = subst (λ s. All (Explains Q) s.ranked) (scan_nil scan e) tt
    scan-ranked Q (c ∷ cs) scan e h =
        let (ref, rest, made, scanned, added) = scan_step c cs scan e in
        let both = subst (λ s. All Q s.explanations) (sym added) h in
        let others = scan-ranked Q cs rest scanned both.1 in
        subst (λ s. All (Explains Q) s.ranked) added
          (if_rule {A = List Ranked} (All (Explains Q)) (is_eligible (evaluated c ref).reason) _ _
            (λ passes. ((both.0, evaluated-connection c ref, is_eligible_sound _ passes), others))
            (λ _. others))
