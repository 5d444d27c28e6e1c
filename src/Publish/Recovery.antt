-- ===== src/Publish/Recovery.antt =====
-- Recovery in internal/publish/file.go.
use egressfox.Publish.{
  Disk, current_owned, recover, target_matches, RecoverySystem, works, final, close_journal,
  recover_with,
}
use egressfox.Artifact.{Profile}
use egressfox.Base.Bytes.{Bytes}
use egressfox.Base.{
  ◌≡◌, refl, ◌⊎◌, inl, inr, true, Option, none, some, arith, Bool-cases, Option-cases, ok,
}

module _ (matches : Bytes → Bytes → Option Profile) where
  -- There is no target and no receipt, or the receipt is that of the target.
  abbrev pub IsOwned : Disk → Type 0
  IsOwned d = (o : Option (Bytes × Bytes)) × (current_owned matches d ≡ ok o)

  -- The disk is owned, or the journal has the receipt of its target.
  abbrev pub IsRecoverable : Disk → Type 0
  IsRecoverable d =
      IsOwned d ⊎ ((j : Bytes) × (d.journal ≡ some j) × (target_matches matches d.target j ≡ true))

  pub matching-IsOwned :
      (target : Option Bytes) (receipt : Bytes) (previous journal : Option Bytes)
      → target_matches matches target receipt ≡ true
      → IsOwned (record {
        target = target;
        receipt = some receipt;
        previous = previous;
        journal = journal;
      })
  unfolding current_owned
  matching-IsOwned none receipt previous journal h = cc
  matching-IsOwned (some content) receipt previous journal h =
      elim (Option-cases (matches content receipt)) [
        | inl e ↦ absurd (ground arith)
        | inr (p, e) ↦ (some (content, receipt), rw e refl)
      ]

  -- Where a recovery that nothing disturbs starts on a recoverable disk, it succeeds and leaves an
  -- owned disk with the same target and without a journal.
  pub recover-IsOwned :
      (sys : RecoverySystem) (d : Disk)
      → sys.writes_receipt ≡ works
      → sys.removes_journal ≡ true
      → sys.syncs ≡ true
      → sys.scans ≡ true
      → IsRecoverable d
      → let run = recover matches sys d in
        ((done : Unit {0}) × (run.0 ≡ ok done))
        × IsOwned (final d run.1)
        × ((final d run.1).target ≡ d.target)
        × ((final d run.1).journal ≡ none)
  unfolding recover current_owned
  recover-IsOwned sys d w r s c h = cases d.journal refl h
    where
      closed :
          (e : Disk)
          → IsOwned e
          → let run = close_journal matches sys e in
            ((done : Unit {0}) × (run.0 ≡ ok done))
            × IsOwned (final e run.1)
            × ((final e run.1).target ≡ e.target)
            × ((final e run.1).journal ≡ none)
      closed e owned = rw (r, s, c) ((tt, refl), owned, refl, refl)

      cases :
          (j : Option Bytes)
          → d.journal ≡ j
          → IsRecoverable d
          → let run = recover_with matches sys d j in
            ((done : Unit {0}) × (run.0 ≡ ok done))
            × IsOwned (final d run.1)
            × ((final d run.1).target ≡ d.target)
            × ((final d run.1).journal ≡ none)
      cases none e (inl owned) = rw c ((tt, refl), owned, refl, e)
      cases none e (inr (k, at, fits)) = absurd (ground arith)
      cases (some j) e recoverable = elim (Bool-cases (target_matches matches d.target j)) [
        | inl fits ↦ rw (fits, w) (closed _ (matching-IsOwned d.target j d.previous d.journal fits))
        | inr other ↦ rw other (
            closed d
              (elim recoverable [ inl owned ↦ owned | inr (k, at, fits) ↦ absurd (ground arith) ]))
      ]
