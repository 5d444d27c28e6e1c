-- ===== src/Selection/Select/Decisions.antt =====
-- The decisions that Select of internal/selection/selection.go returns.
use egressfox.Base.{
  ℕ, ◌≤◌, ◌<◌, ◌≡◌, refl, sym, ap, subst, ◌∙◌, true, not, ◌||◌, Option, none, some, List, [], ◌∷◌,
  map, arith, pos, pos_part, ltb_ℤ, All, length, length-map, ok, >>=-eq-ok, >>-eq-ok, Bool-cases,
  inl, inr,
}
use egressfox.Base.Bytes.{Bytes}
use egressfox.Base.Sort.{sort, All-sort, All-sort-inv}
use egressfox.Base.Pairs.{AllPairs, All-map, All-imp, AllPairs-map}
use egressfox.Endpoint.{Record, identity_of}
use egressfox.Observation.{zero_time}
use egressfox.Observation.Keys.{ConnectionRef, new_connection_ref, connection_equal}
use egressfox.Observation.Summary.{Summary}
use egressfox.Selection.{
  Policy, Context, Candidate, State, Decision, Ranked, unsafe_scope_or_time, duplicate_candidates,
  validate, safe_scope,
}
use egressfox.Selection.Confidence.{Platform}
use egressfox.Selection.Evaluate.{find_member}
use egressfox.Selection.Evaluate.Eligibility.{Sufficient, evaluate-eligible_iff}
use egressfox.Selection.Rank.{sort_ranked, ranked_less, contains_ranked, find_ranked}
use egressfox.Selection.Select.{
  Start, Scan, choose, candidate_less, has_duplicate, start_from, scan_candidates,
  policy_fingerprint, decide, select, next_member, usable_previous,
}
use egressfox.Selection.Select.Filling.{HasRevision, Contains}
use egressfox.Selection.Select.Members.{OtherMember}
use egressfox.Selection.Select.Choice.{choose-All, choose-Distinct, length-choose, choose_complete}
use egressfox.Selection.Select.Scanning.{
  IsRanked, IfEligible, scan-IsRanked, scan-explanations, new_connection_ref_equal,
}

-- The members of a state are different connections.
abbrev pub MembersApart : Option State → Type 0
MembersApart none = Unit {0}
MembersApart (some s) = AllPairs OtherMember s.members

start-apart :
    (scope : Bytes) (context : Context) (fingerprint : Bytes) (now : ℕ) (start : Start)
    (previous : Option State)
    → MembersApart previous
    → start_from scope context fingerprint now previous ≡ ok start
    → AllPairs OtherMember start.members
unfolding start_from
start-apart scope context fingerprint now start none h e =
    let empty : [] ≡ start.members = ground arith in subst (AllPairs OtherMember) empty tt
start-apart scope context fingerprint now start (some s) h e =
    elim (Bool-cases (usable_previous scope context fingerprint s)) [
      | inl usable ↦
          let kept : s.members ≡ start.members = ground arith in subst (AllPairs OtherMember) kept h
      | inr unusable ↦
          let empty : [] ≡ start.members = ground arith in subst (AllPairs OtherMember) empty tt
    ]

module _ (platform : Platform) (scope : Bytes) (context : Context) (policy : Policy)
    (candidates : List Candidate) (previous : Option State) (now : ℕ) where
  -- The start, the scan and the parts of the decision behind a result.
  pub record Run (d : Decision) : Type 0 where
    pub start : Start
    pub scan : Scan
    pub started :
        start_from scope context (policy_fingerprint platform policy) now previous ≡ ok start
    pub scanned :
        scan_candidates platform context policy now start.members start.cooldowns
          (sort candidate_less candidates)
        ≡ ok scan
    pub decided : decide platform scope context policy now start scan ≡ d

  pub select-ok :
      (d : Decision) → select platform scope context policy candidates previous now ≡ ok d → Run d
  unfolding select
  select-ok d e =
      let (_, after_scope) =
        >>-eq-ok (not (safe_scope scope) || zero_time now) unsafe_scope_or_time _ e in
      let (_, _, after_policy) = >>=-eq-ok (validate policy) _ after_scope in
      let (start, started, after_start) =
        >>=-eq-ok (start_from scope context (policy_fingerprint platform policy) now previous) _
          after_policy in
      let (_, after_duplicates) =
        >>-eq-ok (has_duplicate (sort candidate_less candidates)) duplicate_candidates _
          after_start in
      let (scan, scanned, last) =
        >>=-eq-ok
          (scan_candidates platform context policy now start.members start.cooldowns
            (sort candidate_less candidates))
          _ after_duplicates in
      record {
        start = start;
        scan = scan;
        started = started;
        scanned = scanned;
        decided = ground arith;
      }

  module _ (d : Decision) (run : Run d) where
    abbrev pub ranked : List Ranked
    ranked = sort_ranked policy.strategy run.scan.ranked

    abbrev pub chosen : List Ranked
    chosen = (choose policy now run.start run.scan ranked).selected

    abbrev RankedOf {κ} : (Candidate → Type κ) → Ranked → Type κ
    RankedOf = IsRanked platform context policy now run.start.members run.start.cooldowns

    selected_eq : map (λ r. r.candidate.endpoint) chosen ≡ d.selected
    unfolding decide
    selected_eq = ap (λ x. x.selected) run.decided

    pub members_eq : map (next_member run.start.members now) chosen ≡ d.next.members
    unfolding decide
    members_eq = ap (λ x. x.next.members) run.decided

    explanations_eq : run.scan.explanations ≡ d.explanations
    unfolding decide
    explanations_eq = ap (λ x. x.explanations) run.decided

    degraded_eq : ltb_ℤ (pos (length chosen)) policy.top_n ≡ d.degraded
    unfolding decide
    degraded_eq = ap (λ x. x.degraded) run.decided

    chosen-RankedOf {κ} : (P : Candidate → Type κ) → All P candidates → All (RankedOf P) chosen
    unfolding sort_ranked
    chosen-RankedOf P h = choose-All policy now run.start run.scan ranked (RankedOf P) (
        All-sort (ranked_less policy.strategy) (RankedOf P) run.scan.ranked (
          scan-IsRanked platform context policy now run.start.members run.start.cooldowns P
            (sort candidate_less candidates) run.scan (All-sort candidate_less P candidates h)
            run.scanned))

    -- The connection of a contained value is a member of the next state.
    contained_is_member :
        (rs : List Ranked) (ref : ConnectionRef)
        → contains_ranked rs ref ≡ true
        → (find_member (map (next_member run.start.members now) rs) ref).0 ≡ true
    unfolding contains_ranked find_ranked find_member
    contained_is_member [] ref h = cc
    contained_is_member (r ∷ rs) ref h = elim (Bool-cases (connection_equal r.ref ref)) [
      | inl e ↦ rw e refl
      | inr e ↦ rw e (contained_is_member rs ref (ground arith))
    ]

    short : d.degraded ≡ true → length chosen < pos_part policy.top_n
    short e = ground (arith, degraded_eq)

    chosen-Contains : d.degraded ≡ true → All (Contains chosen) run.scan.ranked
    unfolding sort_ranked
    chosen-Contains e =
        All-sort-inv (ranked_less policy.strategy) (Contains chosen) run.scan.ranked (
          choose_complete policy now run.start run.scan ranked
            (All-sort (ranked_less policy.strategy) HasRevision run.scan.ranked (
              All-imp (RankedOf (λ _. Unit {0})) HasRevision run.scan.ranked
                (λ r h.
                  new_connection_ref_equal (identity_of r.candidate.endpoint) r.ref h.referenced)
                (scan-IsRanked platform context policy now run.start.members run.start.cooldowns
                  (λ _. Unit {0}) (sort candidate_less candidates) run.scan
                  (units (sort candidate_less candidates)) run.scanned)))
            (short e))
      where
        units : (cs : List Candidate) → All (λ _. Unit {0}) cs
        units [] = tt
        units (c ∷ cs) = (tt, units cs)

  -- Why a record may be selected: it is the endpoint of a given candidate whose summary is sufficient
  -- under the cooldowns that the selection started with.
  pub record Justified {κ} (P : Candidate → Type κ) (start : Start) (endpoint : Record)
      : Type κ where
    pub candidate : Candidate
    pub given : P candidate
    pub its_endpoint : candidate.endpoint ≡ endpoint
    pub ref : ConnectionRef
    pub referenced : new_connection_ref (identity_of candidate.endpoint) ≡ ok ref
    pub summary : Summary
    pub evidence : candidate.evidence ≡ some summary
    pub sufficient : Sufficient platform summary ref context policy start.cooldowns now

  justify {κ} :
      (P : Candidate → Type κ) (start : Start) (r : Ranked)
      → IsRanked platform context policy now start.members start.cooldowns P r
      → Justified P start r.candidate.endpoint
  justify P start r h =
      let (summary, evidence, sufficient) =
        (evaluate-eligible_iff platform r.candidate r.ref context policy start.cooldowns
            (find_member start.members r.ref).0 (find_member start.members r.ref).1 now).0
          h.is_eligible in
      record {
        candidate = r.candidate;
        given = h.from_candidate;
        its_endpoint = refl;
        ref = r.ref;
        referenced = h.referenced;
        summary = summary;
        evidence = evidence;
        sufficient = sufficient;
      }

  -- Whatever property P the candidates have: when Select succeeds, every selected record is the
  -- endpoint of a candidate with P that has a summary for this context and revision that is fresh,
  -- large enough, reliable, outside a failure streak and outside a cooldown.
  pub select-selected {κ} :
      (P : Candidate → Type κ) (d : Decision)
      → All P candidates
      → select platform scope context policy candidates previous now ≡ ok d
      → (start : Start) × (start_from scope context
            (policy_fingerprint platform policy)
            now
            previous
          ≡ ok start)
        × All (Justified P start) d.selected
  select-selected P d h e =
      let run = select-ok d e in
      (
        run.start,
        run.started,
        subst (All (Justified P run.start)) (selected_eq d run) (
            All-map (Justified P run.start) (λ r. r.candidate.endpoint) (chosen d run)
              (All-imp (RankedOf d run P) (λ r. Justified P run.start r.candidate.endpoint)
                (chosen d run) (justify P run.start) (chosen-RankedOf d run P h))),
      )

  -- When Select succeeds, it selects no more than the requested number of records, has as many
  -- members as records in the next state, and says that it is degraded exactly when there are fewer.
  pub select-size :
      (d : Decision)
      → select platform scope context policy candidates previous now ≡ ok d
      → (length d.selected ≤ pos_part policy.top_n)
        × (length d.next.members ≡ length d.selected)
        × (d.degraded ≡ ltb_ℤ (pos (length d.selected)) policy.top_n)
  select-size d e =
      let run = select-ok d e in
      let as_many : length (chosen d run) ≡ length d.selected =
        sym (length-map (λ r. r.candidate.endpoint) (chosen d run))
        ∙ ap length (selected_eq d run) in
      let members : length (chosen d run) ≡ length d.next.members =
        sym (length-map (next_member run.start.members now) (chosen d run))
        ∙ ap length (members_eq d run) in
      let bound = length-choose policy now run.start run.scan (ranked d run) in
      (
        subst (λ n. n ≤ pos_part policy.top_n) as_many bound,
        sym members ∙ as_many,
        subst (λ n. d.degraded ≡ ltb_ℤ (pos n) policy.top_n) as_many (sym (degraded_eq d run)),
      )

  -- When Select returns a degraded decision, it has left no eligible connection out: every explanation
  -- with the reason eligible is that of a member of the next state.
  pub select_complete :
      (d : Decision)
      → select platform scope context policy candidates previous now ≡ ok d
      → d.degraded ≡ true
      → All (IfEligible (λ ref. (find_member d.next.members ref).0 ≡ true)) d.explanations
  select_complete d e short_of =
      let run = select-ok d e in
      subst (All (IfEligible (λ ref. (find_member d.next.members ref).0 ≡ true)))
        (explanations_eq d run)
        (scan-explanations platform context policy now run.start.members run.start.cooldowns
          (λ ref. (find_member d.next.members ref).0 ≡ true) (sort candidate_less candidates)
          run.scan run.scanned
          (All-imp (Contains (chosen d run)) (λ r. (find_member d.next.members r.ref).0 ≡ true)
            run.scan.ranked
            (λ r h.
              subst (λ ms. (find_member ms r.ref).0 ≡ true) (members_eq d run)
                (contained_is_member d run (chosen d run) r.ref h))
            (chosen-Contains d run short_of)))

  -- Where the committed members are different connections, so are the members that Select returns.
  pub select-members :
      (d : Decision)
      → MembersApart previous
      → select platform scope context policy candidates previous now ≡ ok d
      → AllPairs OtherMember d.next.members
  select-members d apart e =
      let run = select-ok d e in
      subst (AllPairs OtherMember) (members_eq d run) (
        AllPairs-map OtherMember (next_member run.start.members now) (chosen d run) (
          choose-Distinct policy now run.start run.scan (ranked d run) (
            start-apart scope context (policy_fingerprint platform policy) now run.start previous
              apart run.started)))
