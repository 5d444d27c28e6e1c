-- ===== src/Publish/Outcomes.antt =====
-- What a successful Publish of internal/publish/file.go leaves.
use egressfox.Base.Bytes.{eq_bytes_sound}
use egressfox.Publish.Crashes.{Answer-cases}
use egressfox.Base.{
  ◌≡◌, refl, ap, subst, ◌∙◌, ◌⊎◌, inl, inr, Bool, true, false, Option, none, some, [], ◌∷◌, arith,
  Bool-cases, Option-cases, is_none, ok, Result-cases,
}
use egressfox.Publish.{
  System, Bytes, Profile, Disk, rollback, settle, Run, PublishError, final, target_sync, read_back,
  receipt_commit, commit, replace, set_receipt, current_owned, same_profile, publish_recovered,
  eq_bytes,
}

module _ (matches : Bytes → Bytes → Option Profile) (sys : System)
    (desired desired_receipt : Bytes) where
  -- The disk holds the new pair and no journal.
  abbrev pub IsWritten : Disk → Type 0
  IsWritten d = (d.target ≡ some desired) × (d.receipt ≡ some desired_receipt) × (d.journal ≡ none)

  abbrev Written : Disk → Run Bool → Bool → Type 0
  Written d run changed = (changed ≡ true) × IsWritten (final d run.1)

  rollback_error :
      (r : Option Bytes) (code : PublishError) (d : Disk) (changed : Bool)
      → (rollback matches sys r code d).0 ≡ ok changed
      → ⊥
  unfolding rollback
  rollback_error r code d changed h = cc

  settle-Written :
      (r : Option Bytes) (d : Disk) (changed : Bool)
      → d.target ≡ some desired
      → (settle matches sys r desired_receipt d).0 ≡ ok changed
      → Written d (settle matches sys r desired_receipt d) changed
  unfolding settle
  settle-Written r d changed t h = elim (Bool-cases sys.syncs_target) [
    | inr e ↦ absurd (rollback_error r target_sync d changed (ground arith))
    | inl e ↦ elim (Bool-cases sys.reads_back) [
      | inr f ↦ absurd (rollback_error r read_back d changed (ground arith))
      | inl f ↦ elim (Answer-cases sys.writes_receipt) [
        | inr (inl g) ↦ absurd (
            rollback_error r receipt_commit (set_receipt sys.writes_receipt desired_receipt d)
              changed (ground arith))
        | inr (inr g) ↦ absurd (
            rollback_error r receipt_commit (set_receipt sys.writes_receipt desired_receipt d)
              changed (ground arith))
        | inl g ↦ elim (Bool-cases sys.removes_journal) [
          | inr i ↦ absurd (ground arith)
          | inl i ↦ elim (Bool-cases sys.syncs_receipt) [
            | inr j ↦ absurd (ground arith)
            | inl j ↦ (ground arith, simp (e, f, g, i) (t, refl, refl))
          ]
        ]
      ]
    ]
  ]

  commit-Written :
      (r : Option Bytes) (d : Disk) (changed : Bool)
      → (commit matches sys r desired desired_receipt d).0 ≡ ok changed
      → Written d (commit matches sys r desired desired_receipt d) changed
  unfolding commit
  commit-Written r d changed h = elim (Answer-cases sys.writes_journal) [
    | inr (inl w) ↦ absurd (ground arith)
    | inr (inr w) ↦ absurd (ground arith)
    | inl w ↦ elim (Bool-cases sys.cancelled_late) [
      | inl c ↦ absurd (ground arith)
      | inr c ↦ elim (Bool-cases sys.commits_target) [
        | inr t ↦ absurd (ground arith)
        | inl t ↦
            let new : Disk = record d { target = some desired; journal = some desired_receipt } in
            rw (w, c, t) (settle-Written r new changed refl (ground arith))
      ]
    ]
  ]

  replace-Written :
      (old : Option (Bytes × Bytes)) (d : Disk) (changed : Bool)
      → (replace matches sys old desired desired_receipt d).0 ≡ ok changed
      → Written d (replace matches sys old desired desired_receipt d) changed
  unfolding replace
  replace-Written none d changed h = elim (Bool-cases sys.stages_candidate) [
    | inr c ↦ absurd (ground arith)
    | inl c ↦ rw c (commit-Written none d changed (ground arith))
  ]
  replace-Written (some (current, receipt)) d changed h = elim (Bool-cases sys.stages_candidate) [
    | inr c ↦ absurd (ground arith)
    | inl c ↦ elim (Bool-cases sys.stages_previous) [
      | inr p ↦ absurd (ground arith)
      | inl p ↦ elim (Answer-cases sys.commits_previous) [
        | inr (inl w) ↦ absurd (ground arith)
        | inr (inr w) ↦ absurd (ground arith)
        | inl w ↦
            let backed : Disk = record d { previous = some current } in
            rw (c, p, w) (commit-Written (some receipt) backed changed (ground arith))
      ]
    ]
  ]

  owned_pair :
      (d : Disk) (current receipt : Bytes)
      → current_owned matches d ≡ ok (some (current, receipt))
      → (d.target ≡ some current) × (d.receipt ≡ some receipt)
  unfolding current_owned
  owned_pair d current receipt h = elim (Option-cases d.target) [
    | inl t ↦ elim (Bool-cases (is_none d.receipt)) [
      | inl n ↦ absurd (ground arith)
      | inr n ↦ absurd (ground arith)
    ]
    | inr (content, t) ↦ elim (Option-cases d.receipt) [
      | inl n ↦ absurd (ground arith)
      | inr (r, n) ↦ elim (Bool-cases (is_none (matches content r))) [
        | inl m ↦ absurd (ground arith)
        | inr m ↦ ground arith
      ]
    ]
  ]

  -- Content that is published already leaves the disk alone.
  abbrev pub Unchanged : Profile → Disk → Run Bool → Type 0
  Unchanged profile d run =
      (receipt : Bytes) × (d.target ≡ some desired)
      × (d.receipt ≡ some receipt)
      × (same_profile matches (matches desired receipt) profile ≡ true)
      × (run.1 ≡ d ∷ [])

  -- When Publish on a recovered disk succeeds, then either it reports a change, and the disk it leaves
  -- holds the new content with its receipt and no journal; or it reports none, wrote nothing, and
  -- the disk held the same content with a receipt that matches it under the same profile.
  pub publish_recovered_outcome :
      (profile : Profile) (d : Disk) (changed : Bool)
      → (publish_recovered matches sys profile desired desired_receipt d).0 ≡ ok changed
      → let run = publish_recovered matches sys profile desired desired_receipt d in
        ((changed ≡ true) × IsWritten (final d run.1))
        ⊎ ((changed ≡ false) × Unchanged profile d run)
  unfolding publish_recovered
  publish_recovered_outcome profile d changed h = elim (Bool-cases sys.cancelled_early) [
    | inl c ↦ absurd (ground arith)
    | inr c ↦ elim (Result-cases (current_owned matches d)) [
      | inr (e, f) ↦ absurd (ground arith)
      | inl (none, f) ↦ simp (c, f) (inl (replace-Written none d changed (ground arith)))
      | inl (some (current, receipt), f) ↦ elim (Bool-cases (eq_bytes current desired)) [
        | inr q ↦
            simp (c, f, q)
              (inl (replace-Written (some (current, receipt)) d changed (ground arith)))
        | inl q ↦ elim (Bool-cases (same_profile matches (matches current receipt) profile)) [
          | inr s ↦ absurd (ground arith)
          | inl s ↦
              let same = eq_bytes_sound current desired q in
              let (has_target, has_receipt) = owned_pair d current receipt f in
              simp (c, f, q, s)
                (inr (
                  ground arith,
                  (
                    receipt,
                    has_target ∙ ap some same,
                    has_receipt,
                    subst (λ b. same_profile matches (matches b receipt) profile ≡ true) same s,
                    refl,
                  ),
                ))
        ]
      ]
    ]
  ]
