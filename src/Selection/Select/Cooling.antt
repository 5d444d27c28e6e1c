-- ===== src/Selection/Select/Cooling.antt =====
-- The cooldowns that Select of internal/selection/selection.go starts.
use egressfox.Base.{
  ℕ, zero, suc, ◌+◌, ◌≡◌, refl, sym, ap, subst, ◌∙◌, ◌⊎◌, true, false, Option, none, some, List, [],
  ◌∷◌, map, arith, pos_part, All, ok, inl, inr, get_elem?, Bool-cases,
}
use egressfox.Base.Bytes.{Bytes, eq_bytes, eq_bytes_refl}
use egressfox.Base.Sort.{sort, All-sort}
use egressfox.Base.Pairs.{AllPairs, All-imp}
use egressfox.Observation.Keys.{ConnectionRef, connection_equal}
use egressfox.Selection.{
  Policy, Context, Candidate, Member, State, Decision, Ranked, Explanation, Reason, eligible,
  unreliable, failure_streak, strategy_adaptive, ref_key,
}
use egressfox.Selection.Confidence.{Platform}
use egressfox.Selection.Evaluate.{find_cooldown}
use egressfox.Selection.Rank.{find_ranked, ranked_less, sort_ranked}
use egressfox.Selection.Rank.Search.{connection_equal_sound}
use egressfox.Selection.Select.{
  Start, Scan, choose, choose_adaptive, keeps_members, keep_members, nothing_kept, reason_of,
  later_or, is_failure, usable_previous, start_from, candidate_less, decide, policy_fingerprint,
  select,
}
use egressfox.Selection.Select.Decisions.{Run, select-ok, ranked, MembersApart}
use egressfox.Selection.Select.Members.{failed_member_cools_down, OtherMember}
use egressfox.Selection.Select.Scanning.{scan-reasons, scan-ranked, entry_of, Explains}

-- An explanation of this connection says that it failed.
abbrev pub FailedIfAt : ConnectionRef → Explanation → Type 0
FailedIfAt ref x =
    (eq_bytes (ref_key x.connection) (ref_key ref) ≡ false)
    ⊎ (x.reason ≡ unreliable)
    ⊎ (x.reason ≡ failure_streak)

abbrev FailsOrUnknown : Option Reason → Type 0
FailsOrUnknown r = (r ≡ none) ⊎ (is_failure r ≡ true)

failed_reason :
    (ref : ConnectionRef) (x : Explanation)
    → eq_bytes (ref_key x.connection) (ref_key ref) ≡ true
    → FailedIfAt ref x
    → is_failure (some x.reason) ≡ true
failed_reason ref x same (inl other) = cc
failed_reason ref x same (inr (inl e)) = rw e refl
failed_reason ref x same (inr (inr e)) = rw e refl

later-failure : (r s : Option Reason) → is_failure r ≡ true → is_failure (later_or r s) ≡ true
later-failure none s h = cc
later-failure (some r) s h = h

known_failure :
    (ref : ConnectionRef) (xs : List Explanation)
    → All (FailedIfAt ref) xs
    → FailsOrUnknown (reason_of (ref_key ref) (map entry_of xs))
unfolding reason_of
known_failure ref [] h = inl refl
known_failure ref (x ∷ xs) (h, hs) = elim (known_failure ref xs hs) [
  | inr failed ↦ inr (later-failure _ _ failed)
  | inl unknown ↦ elim (Bool-cases (eq_bytes (ref_key x.connection) (ref_key ref))) [
    | inl same ↦ rw (unknown, same) (inr (failed_reason ref x same h))
    | inr other ↦ rw (unknown, other) (inl refl)
  ]
]

-- Where every explanation of this connection says that it failed and there is one, the map says so.
reason_of-failed :
    (ref : ConnectionRef) (xs : List Explanation) (index : ℕ) (x : Explanation)
    → All (FailedIfAt ref) xs
    → get_elem? xs index ≡ some x
    → eq_bytes (ref_key x.connection) (ref_key ref) ≡ true
    → is_failure (reason_of (ref_key ref) (map entry_of xs)) ≡ true
unfolding reason_of
reason_of-failed ref [] index x h at same = cc
reason_of-failed ref (y ∷ ys) zero x h at same =
    let one : y ≡ x = ground arith in
    let here : eq_bytes (ref_key y.connection) (ref_key ref) ≡ true = rw one same in
    elim (known_failure ref ys h.1) [
      | inr failed ↦ later-failure _ _ failed
      | inl unknown ↦ rw (unknown, here) (failed_reason ref y here h.0)
    ]
reason_of-failed ref (y ∷ ys) (suc index) x h at same =
    later-failure _ _ (reason_of-failed ref ys index x h.1 at same)

failed_not_eligible :
    (ref : ConnectionRef) (r : Ranked)
    → Explains (FailedIfAt ref) r
    → connection_equal r.ref ref ≡ false
failed_not_eligible ref r (failed, at, good) = elim (Bool-cases (connection_equal r.ref ref)) [
  | inr e ↦ e
  | inl e ↦
      let one = connection_equal_sound r.ref ref e in
      let same : eq_bytes (ref_key r.explanation.connection) (ref_key ref) ≡ true =
        rw (at, one) (eq_bytes_refl (ref_key ref)) in
      absurd (impossible r.explanation.reason good (failed_reason ref r.explanation same failed))
]
  where
    impossible : (x : Reason) → x ≡ eligible → ¬ (is_failure (some x) ≡ true)
    impossible x e = ground arith

find_ranked-none :
    (ref : ConnectionRef) (rs : List Ranked)
    → All (λ r. connection_equal r.ref ref ≡ false) rs
    → find_ranked rs ref ≡ none
unfolding find_ranked
find_ranked-none ref [] h = refl
find_ranked-none ref (r ∷ rs) h = rw h.0 (find_ranked-none ref rs h.1)

usable_start :
    (scope : Bytes) (context : Context) (fingerprint : Bytes) (now : ℕ) (start : Start) (s : State)
    → usable_previous scope context fingerprint s ≡ true
    → start_from scope context fingerprint now (some s) ≡ ok start
    → (s.members ≡ start.members) × (start.usable ≡ true)
unfolding start_from
usable_start scope context fingerprint now start s usable e = ground arith

choose-cooldowns :
    (policy : Policy) (now : ℕ) (start : Start) (scan : Scan) (rs : List Ranked)
    → keeps_members policy start.usable ≡ true
    → (choose policy now start scan rs).cooldowns
      ≡ (keep_members policy now scan rs start.members
          (nothing_kept policy now start scan rs)).cooldowns
unfolding choose choose_adaptive
choose-cooldowns policy now start scan rs keeps = rw keeps refl

module _ (platform : Platform) (scope : Bytes) (context : Context) (policy : Policy)
    (candidates : List Candidate) (s : State) (now : ℕ) where
  abbrev run_ranked :
      (d : Decision) → Run platform scope context policy candidates (some s) now d → List Ranked
  run_ranked = ranked platform scope context policy candidates (some s) now

  decided_cooldowns :
      (d : Decision) (run : Run platform scope context policy candidates (some s) now d)
      → (choose policy now run.start run.scan (run_ranked d run)).cooldowns ≡ d.next.cooldowns
  unfolding decide
  decided_cooldowns d run = ap (λ x. x.next.cooldowns) run.decided

  decided_explanations :
      (d : Decision) (run : Run platform scope context policy candidates (some s) now d)
      → d.explanations ≡ run.scan.explanations
  unfolding decide
  decided_explanations d run = sym (ap (λ x. x.explanations) run.decided)

  failed_unranked :
      (d : Decision) (run : Run platform scope context policy candidates (some s) now d)
      (ref : ConnectionRef)
      → All (FailedIfAt ref) d.explanations
      → find_ranked (run_ranked d run) ref ≡ none
  unfolding sort_ranked
  failed_unranked d run ref failed = find_ranked-none ref (run_ranked d run) (
      All-sort (ranked_less policy.strategy) (λ r. connection_equal r.ref ref ≡ false)
        run.scan.ranked
        (All-imp (Explains (FailedIfAt ref)) (λ r. connection_equal r.ref ref ≡ false)
          run.scan.ranked (failed_not_eligible ref)
          (scan-ranked platform context policy now run.start.members run.start.cooldowns
            (FailedIfAt ref) (sort candidate_less candidates) run.scan run.scanned
            (subst (All (FailedIfAt ref)) (decided_explanations d run) failed))))

  -- Select with the adaptive strategy and a committed state of this scope, context and policy whose
  -- members are different connections: where the decision explains a member, and says in every
  -- explanation of its connection that it is unreliable or in a failure streak, the next state has a
  -- cooldown of this connection that ends one full period from now.
  pub select-cooldown :
      (d : Decision) (index : ℕ) (m : Member) (place : ℕ) (x : Explanation)
      → policy.strategy ≡ strategy_adaptive
      → usable_previous scope context (policy_fingerprint platform policy) s ≡ true
      → MembersApart (some s)
      → get_elem? s.members index ≡ some m
      → select platform scope context policy candidates (some s) now ≡ ok d
      → get_elem? d.explanations place ≡ some x
      → connection_equal x.connection m.connection ≡ true
      → All (FailedIfAt m.connection) d.explanations
      → find_cooldown d.next.cooldowns m.connection
        ≡ some (record { connection = m.connection; until = now + pos_part policy.cooldown })
  select-cooldown d index m place x adaptive usable apart at e explained its_own failed =
      let run = select-ok platform scope context policy candidates (some s) now d e in
      let (members, uses) =
        usable_start scope context (policy_fingerprint platform policy) now run.start s usable
          run.started in
      let keeps : keeps_members policy run.start.usable ≡ true = rw (adaptive, uses) refl in
      let one = connection_equal_sound x.connection m.connection its_own in
      let own : connection_equal m.connection m.connection ≡ true =
        subst (λ c. connection_equal c m.connection ≡ true) one its_own in
      let same : eq_bytes (ref_key x.connection) (ref_key m.connection) ≡ true =
        rw one (eq_bytes_refl (ref_key m.connection)) in
      let reasons =
        scan-reasons platform context policy now run.start.members run.start.cooldowns
          (sort candidate_less candidates) run.scan run.scanned
        ∙ ap (map entry_of) (sym (decided_explanations d run)) in
      let known : is_failure (reason_of (ref_key m.connection) run.scan.reasons) ≡ true =
        subst (λ l. is_failure (reason_of (ref_key m.connection) l) ≡ true) (sym reasons)
          (reason_of-failed m.connection d.explanations place x failed explained same) in
      subst
        (λ cs.
          find_cooldown cs m.connection
          ≡ some (record { connection = m.connection; until = now + pos_part policy.cooldown }))
        (sym (choose-cooldowns policy now run.start run.scan (run_ranked d run) keeps)
          ∙ decided_cooldowns d run)
        (failed_member_cools_down policy now run.scan (run_ranked d run) run.start.members
          (nothing_kept policy now run.start run.scan (run_ranked d run)) index m
          (subst (AllPairs OtherMember) members apart)
          (subst (λ ms. get_elem? ms index ≡ some m) members at) own
          (failed_unranked d run m.connection failed) known)
