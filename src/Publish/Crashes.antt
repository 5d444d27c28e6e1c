-- ===== src/Publish/Crashes.antt =====
-- Crashes during Publish of internal/publish/file.go.
use egressfox.Publish.Recovery.{IsRecoverable, matching-IsOwned}
use egressfox.Publish.{
  System, Disk, Run, target_matches, current_owned, rollback, PublishError, is_works, drop_journal,
  is_made, works, settle, commit, fails, target_sync, read_back, receipt_commit, Answer, replace,
  owned_target, unchanged_or, publish_recovered, half,
}
use egressfox.Artifact.{Profile}
use egressfox.Base.Bytes.{Bytes, eq_bytes}
use egressfox.Base.{
  ◌≡◌, refl, sym, subst, ◌⊎◌, inl, inr, Bool, true, false, Option, none, some, [], ◌∷◌, arith,
  if_rule, Bool-cases, All, ok,
}

pub Answer-cases : (a : Answer) → (a ≡ works) ⊎ (a ≡ fails) ⊎ (a ≡ half)
Answer-cases works = inl refl
Answer-cases fails = inr (inl refl)
Answer-cases half = inr (inr refl)

module _ (matches : Bytes → Bytes → Option Profile) (sys : System)
    (desired desired_receipt : Bytes) where
  -- The old target or the new one, on a disk that can be recovered.
  abbrev pub Safe : Option Bytes → Disk → Type 0
  Safe old d = IsRecoverable matches d × ((d.target ≡ old) ⊎ (d.target ≡ some desired))

  abbrev disk : Option Bytes → Option Bytes → Option Bytes → Option Bytes → Disk
  disk t r p j = record { target = t; receipt = r; previous = p; journal = j }

  abbrev AllSafe : Option Bytes → Run Bool → Type 0
  AllSafe old run = All (Safe old) run.1

  -- Content and receipt of the old target.
  abbrev old_target : Option (Bytes × Bytes) → Option Bytes
  old_target none = none
  old_target (some (content, receipt)) = some content

  abbrev old_receipt : Option (Bytes × Bytes) → Option Bytes
  old_receipt none = none
  old_receipt (some (content, receipt)) = some receipt

  abbrev Matching : Option (Bytes × Bytes) → Type 0
  Matching none = Unit {0}
  Matching (some (content, receipt)) = target_matches matches (some content) receipt ≡ true

  -- The old pair is owned, whatever the backup and the journal are.
  old-Safe :
      (old : Option (Bytes × Bytes)) (p j : Option Bytes)
      → Matching old
      → Safe (old_target old) (disk (old_target old) (old_receipt old) p j)
  unfolding current_owned
  old-Safe none p j h = (inl (none, refl), inl refl)
  old-Safe (some (content, receipt)) p j h =
      (inl (matching-IsOwned matches (some content) receipt p j h), inl refl)

  -- The new target with the journal, and with the receipt.
  journaled-Safe :
      (old r p : Option Bytes)
      → target_matches matches (some desired) desired_receipt ≡ true
      → Safe old (disk (some desired) r p (some desired_receipt))
  journaled-Safe old r p h = (inr (desired_receipt, refl, h), inr refl)

  written-Safe :
      (old p j : Option Bytes)
      → target_matches matches (some desired) desired_receipt ≡ true
      → Safe old (disk (some desired) (some desired_receipt) p j)
  written-Safe old p j h =
      (inl (matching-IsOwned matches (some desired) desired_receipt p j h), inr refl)

  -- The backup is there when there is an old target.
  abbrev backup_of : Option (Bytes × Bytes) → Option Bytes → Option Bytes
  backup_of none p = p
  backup_of (some (content, receipt)) p = some content

  drop-Safe :
      (b : Bool) (old : Option (Bytes × Bytes)) (p j : Option Bytes)
      → Matching old
      → Safe (old_target old) (drop_journal b (disk (old_target old) (old_receipt old) p j))
  drop-Safe true old p j h = old-Safe old p none h
  drop-Safe false old p j h = old-Safe old p j h

  old-AllSafe :
      (old : Option (Bytes × Bytes)) (p : Option Bytes)
      → Matching old
      → let d = disk (old_target old) (old_receipt old) p (some desired_receipt) in
        All (Safe (old_target old)) (d ∷ d ∷ drop_journal sys.drops_journal d ∷ [])
  old-AllSafe old p h =
      (old-Safe old p _ h, (old-Safe old p _ h, (drop-Safe sys.drops_journal old p _ h, tt)))

  rollback-Safe :
      (old : Option (Bytes × Bytes)) (code : PublishError) (p : Option Bytes)
      → Matching old
      → sys.restores_target ≡ true
      → AllSafe (old_target old) (
          rollback matches sys
            (old_receipt old)
            code
            (disk (some desired) (old_receipt old) (backup_of old p) (some desired_receipt)))
  unfolding rollback
  rollback-Safe none code p h restores = elim (Bool-cases (is_works sys.restores_receipt)) [
    | inl w ↦ rw (restores, w) (old-AllSafe none p h)
    | inr w ↦ rw (restores, w) (old-AllSafe none p h)
  ]
  rollback-Safe (some (content, receipt)) code p h restores =
      elim (Bool-cases (is_made sys.restores_receipt)) [
        | inl w ↦ rw (restores, w) (old-AllSafe (some (content, receipt)) none h)
        | inr w ↦ rw (restores, w) (old-AllSafe (some (content, receipt)) none h)
      ]

  -- The receipt is written whole or not at all.
  abbrev pub WholeReceipt : Type 0
  WholeReceipt = (sys.writes_receipt ≡ works) ⊎ (sys.writes_receipt ≡ fails)

  settle-Safe :
      (old : Option (Bytes × Bytes)) (p : Option Bytes)
      → Matching old
      → target_matches matches (some desired) desired_receipt ≡ true
      → sys.restores_target ≡ true
      → WholeReceipt
      → AllSafe (old_target old) (
          settle matches sys
            (old_receipt old)
            desired_receipt
            (disk (some desired) (old_receipt old) (backup_of old p) (some desired_receipt)))
  unfolding settle
  settle-Safe old p h k restores whole = elim (Bool-cases sys.syncs_target) [
    | inr s ↦ rw s (rollback-Safe old target_sync p h restores)
    | inl s ↦ elim (Bool-cases sys.reads_back) [
      | inr b ↦ rw (s, b) (rollback-Safe old read_back p h restores)
      | inl b ↦ elim whole [
        | inr f ↦
            rw (s, b, f)
              (
                journaled-Safe (old_target old) (old_receipt old) (backup_of old p) k,
                rollback-Safe old receipt_commit p h restores,
              )
        | inl w ↦ elim (Bool-cases sys.removes_journal) [
          | inl r ↦
              rw (s, b, w, r)
                (
                  written-Safe (old_target old) (backup_of old p) _ k,
                  (written-Safe (old_target old) (backup_of old p) none k, tt),
                )
          | inr r ↦
              rw (s, b, w, r)
                (
                  written-Safe (old_target old) (backup_of old p) _ k,
                  (written-Safe (old_target old) (backup_of old p) _ k, tt),
                )
        ]
      ]
    ]
  ]

  commit-Safe :
      (old : Option (Bytes × Bytes)) (p j : Option Bytes)
      → Matching old
      → target_matches matches (some desired) desired_receipt ≡ true
      → sys.restores_target ≡ true
      → WholeReceipt
      → AllSafe (old_target old) (
          commit matches sys
            (old_receipt old)
            desired
            desired_receipt
            (disk (old_target old) (old_receipt old) (backup_of old p) j))
  unfolding commit
  commit-Safe old p j h k restores whole =
      let journaled = old-Safe old (backup_of old p) (some desired_receipt) h in
      let dropped = drop-Safe sys.drops_journal old (backup_of old p) (some desired_receipt) h in
      elim (Answer-cases sys.writes_journal) [
        | inl w ↦ elim (Bool-cases sys.cancelled_late) [
          | inl c ↦ rw (w, c) (journaled, (dropped, tt))
          | inr c ↦ elim (Bool-cases sys.commits_target) [
            | inr t ↦ rw (w, c, t) (journaled, (dropped, tt))
            | inl t ↦
                rw (w, c, t)
                  (
                    journaled,
                    (
                      journaled-Safe (old_target old) (old_receipt old) (backup_of old p) k,
                      settle-Safe old p h k restores whole,
                    ),
                  )
          ]
        ]
        | inr (inl f) ↦
            let same_disk = old-Safe old (backup_of old p) j h in rw f (same_disk, (same_disk, tt))
        | inr (inr f) ↦ rw f (journaled, (journaled, tt))
      ]

  replace-Safe :
      (old : Option (Bytes × Bytes)) (p j : Option Bytes)
      → Matching old
      → target_matches matches (some desired) desired_receipt ≡ true
      → sys.restores_target ≡ true
      → WholeReceipt
      → AllSafe (old_target old) (
          replace matches sys old desired desired_receipt
            (disk (old_target old) (old_receipt old) p j))
  unfolding replace
  replace-Safe none p j h k restores whole = elim (Bool-cases sys.stages_candidate) [
    | inr s ↦ rw s (old-Safe none p j h, tt)
    | inl s ↦ rw s (commit-Safe none p j h k restores whole)
  ]
  replace-Safe (some (content, receipt)) p j h k restores whole =
      elim (Bool-cases sys.stages_candidate) [
        | inr s ↦ rw s (old-Safe (some (content, receipt)) p j h, tt)
        | inl s ↦ elim (Bool-cases sys.stages_previous) [
          | inr b ↦ rw (s, b) (old-Safe (some (content, receipt)) p j h, tt)
          | inl b ↦ elim (Answer-cases sys.commits_previous) [
            | inl w ↦
                rw (s, b, w)
                  (
                    old-Safe (some (content, receipt)) (some content) j h,
                    commit-Safe (some (content, receipt)) none j h k restores whole,
                  )
            | inr (inl f) ↦
                rw (s, b, f)
                  (
                    old-Safe (some (content, receipt)) p j h,
                    (old-Safe (some (content, receipt)) p j h, tt),
                  )
            | inr (inr f) ↦
                rw (s, b, f)
                  (
                    old-Safe (some (content, receipt)) (some content) j h,
                    (old-Safe (some (content, receipt)) (some content) j h, tt),
                  )
          ]
        ]
      ]

  owned-pair :
      (target receipt : Option Bytes) (old : Option (Bytes × Bytes))
      → owned_target matches target receipt ≡ ok old
      → (target ≡ old_target old) × (receipt ≡ old_receipt old) × Matching old
  owned-pair none none old h = ground arith
  owned-pair none (some r) old h = cc
  owned-pair (some content) none old h = cc
  owned-pair (some content) (some r) old h = ground arith

  from_pair :
      (profile : Profile) (old : Option (Bytes × Bytes)) (p j : Option Bytes)
      → Matching old
      → target_matches matches (some desired) desired_receipt ≡ true
      → sys.restores_target ≡ true
      → WholeReceipt
      → AllSafe (old_target old) (
          unchanged_or matches sys profile
            (ok old)
            desired
            desired_receipt
            (disk (old_target old) (old_receipt old) p j))
  from_pair profile none p j h k restores whole = replace-Safe none p j h k restores whole
  from_pair profile (some (content, receipt)) p j h k restores whole =
      elim (Bool-cases (eq_bytes content desired)) [
        | inl e ↦ rw e (old-Safe (some (content, receipt)) p j h, tt)
        | inr e ↦ rw e (replace-Safe (some (content, receipt)) p j h k restores whole)
      ]

  -- Whatever fails, and wherever a crash stops it, Publish on an owned disk goes only through disks that
  -- can be recovered and have the old target or the new one, given that the new receipt matches the new
  -- content, that the receipt file is written whole or not at all, and that a rollback can restore
  -- the target.
  pub publish_recovered-Safe :
      (profile : Profile) (d : Disk) (old : Option (Bytes × Bytes))
      → current_owned matches d ≡ ok old
      → target_matches matches (some desired) desired_receipt ≡ true
      → sys.restores_target ≡ true
      → WholeReceipt
      → All (Safe d.target) (publish_recovered matches sys profile desired desired_receipt d).1
  unfolding publish_recovered current_owned
  publish_recovered-Safe profile d old h k restores whole =
      let (t, r, fits) = owned-pair d.target d.receipt old h in
      let at_pair : disk (old_target old) (old_receipt old) d.previous d.journal ≡ d = cc in
      let safe =
        subst
          (λ e.
            All (Safe e.target)
              (unchanged_or matches sys profile (ok old) desired desired_receipt e).1)
          at_pair (from_pair profile old d.previous d.journal fits k restores whole) in
      if_rule {A = Run Bool} (λ run. All (Safe d.target) run.1) sys.cancelled_early _ _
        (λ _. ((inl (old, h), inl refl), tt))
        (λ _.
          subst
            (λ r.
              All (Safe d.target) (unchanged_or matches sys profile r desired desired_receipt d).1)
            (sym h) safe)
