-- ===== src/Publish/Success.antt =====
-- A Publish of internal/publish/file.go in which every call works.
use egressfox.Base.Bytes.{eq_bytes_sound}
use egressfox.Base.{
  ◌≡◌, refl, sym, ap, subst, inl, inr, Bool, true, false, not, Option, none, some, Bool-cases, ok,
}
use egressfox.Publish.{
  System, works, Bytes, eq_bytes, Profile, settle, commit, replace, publish_recovered, Disk,
  current_owned, same_profile,
}

-- No call fails and the context is not cancelled.
pub record AllWork (sys : System) : Type 0 where
  pub runs : (sys.cancelled_early ≡ false) × (sys.cancelled_late ≡ false)
  pub stages : (sys.stages_candidate ≡ true) × (sys.stages_previous ≡ true)
  pub backs_up : sys.commits_previous ≡ works
  pub journals : sys.writes_journal ≡ works
  pub commits : (sys.commits_target ≡ true) × (sys.syncs_target ≡ true) × (sys.reads_back ≡ true)
  pub records :
      (sys.writes_receipt ≡ works) × (sys.removes_journal ≡ true) × (sys.syncs_receipt ≡ true)

-- The old pair has this content.
abbrev pub holds : Bytes → Option (Bytes × Bytes) → Bool
holds desired none = false
holds desired (some (content, receipt)) = eq_bytes content desired

module _ (matches : Bytes → Bytes → Option Profile) (sys : System)
    (desired desired_receipt : Bytes) where
  settle_succeeds :
      (r : Option Bytes) (d : Disk)
      → AllWork sys
      → (settle matches sys r desired_receipt d).0 ≡ ok true
  unfolding settle
  settle_succeeds r d w =
      simp (w.commits.1, w.commits.2, w.records.0, w.records.1, w.records.2) refl

  commit_succeeds :
      (r : Option Bytes) (d : Disk)
      → AllWork sys
      → (commit matches sys r desired desired_receipt d).0 ≡ ok true
  unfolding commit
  commit_succeeds r d w =
      let settled =
        settle_succeeds r (record d { target = some desired; journal = some desired_receipt }) w in
      simp (w.journals, w.runs.1, w.commits.0) settled

  replace_succeeds :
      (old : Option (Bytes × Bytes)) (d : Disk)
      → AllWork sys
      → (replace matches sys old desired desired_receipt d).0 ≡ ok true
  unfolding replace
  replace_succeeds none d w = simp w.stages.0 (commit_succeeds none d w)
  replace_succeeds (some (current, receipt)) d w =
      simp (w.stages.0, w.stages.1, w.backs_up)
        (commit_succeeds (some receipt) (record d { previous = some current }) w)

  -- On a disk whose target is owned or missing, a Publish in which every call works succeeds, and it
  -- reports a change exactly where the content is new; where the content is the old one, the old
  -- receipt has to match it under the same profile.
  pub publish_recovered_succeeds :
      (profile : Profile) (d : Disk) (old : Option (Bytes × Bytes))
      → AllWork sys
      → current_owned matches d ≡ ok old
      → ((receipt : Bytes)
          → old ≡ some (desired, receipt)
          → same_profile matches (matches desired receipt) profile ≡ true)
      → (publish_recovered matches sys profile desired desired_receipt d).0
        ≡ ok (not (holds desired old))
  unfolding publish_recovered
  publish_recovered_succeeds profile d none w owned same =
      simp (w.runs.0, owned) (replace_succeeds none d w)
  publish_recovered_succeeds profile d (some (current, receipt)) w owned same =
      elim (Bool-cases (eq_bytes current desired)) [
        | inr q ↦ simp (w.runs.0, owned, q) (replace_succeeds (some (current, receipt)) d w)
        | inl q ↦
            let equal = eq_bytes_sound current desired q in
            let own : same_profile matches (matches current receipt) profile ≡ true =
              subst (λ b. same_profile matches (matches b receipt) profile ≡ true) (sym equal)
                (same receipt (ap (λ b. some (b, receipt)) equal)) in
            simp (w.runs.0, owned, q, own) refl
      ]
