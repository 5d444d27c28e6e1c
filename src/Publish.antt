-- ===== src/Publish.antt =====
-- internal/publish/file.go: a target file with its receipt, the backup of the previous target and
-- the journal. `matches` is artifact.MatchesProtectedReceipt. Files that pass the checks of
-- validateDirectory can be read; temporary files have names of their own and are not modelled.
pub mod Recovery
pub mod Crashes
pub mod Outcomes
pub mod Success
use egressfox.Artifact.{Profile, profile_equal}
use egressfox.Base.Bytes.{Bytes, eq_bytes}
use egressfox.Base.{
  ℕ, zero, suc, ◌+◌, ◌-◌, ◌*◌, ◌≤◌, ◌<◌, ◌≡◌, refl, sym, ap, subst, ◌∙◌, ◌⊎◌, inl, inr, Bool, true,
  false, not, ◌&&◌, ◌||◌, Option, none, some, List, [], ◌∷◌, ◌++◌, map, arith, ltb, leb, ◌==◌,
  if◌then◌else◌, if_rule, Bool-cases, Option-cases, is_none, length, All, Result, ok, err,
  Result-cases,
}

pub data PublishError : Type 0 where
  directory recovery_receipt recovery_cleanup recovery_sync temp_scan cancelled : PublishError
  orphan_receipt unmanaged_target receipt_mismatch stage_candidate : PublishError
  backup_stage backup_commit backup_sync journal_write target_commit target_sync : PublishError
  read_back receipt_commit journal_cleanup receipt_sync rollback_failed : PublishError

pub record Disk : Type 0 where
  pub target : Option Bytes
  pub receipt : Option Bytes
  pub previous : Option Bytes
  pub journal : Option Bytes

-- How a rename with the directory sync after it ends: it is made, it is not, or it is made and the
-- sync fails.
pub data Answer : Type 0 where
  works fails half : Answer

-- What the file system answers to a recovery.
pub record RecoverySystem : Type 0 where
  pub writes_receipt : Answer
  pub removes_journal : Bool
  pub syncs : Bool
  pub scans : Bool

-- What the file system and the context answer to a publication; no call is made twice.
pub record System : Type 0 where
  pub recovery : RecoverySystem
  pub directory_ok : Bool
  pub cancelled_early : Bool
  pub stages_candidate : Bool
  pub stages_previous : Bool
  pub commits_previous : Answer
  pub writes_journal : Answer
  pub cancelled_late : Bool
  pub commits_target : Bool
  pub syncs_target : Bool
  pub reads_back : Bool
  pub writes_receipt : Answer
  pub removes_journal : Bool
  pub syncs_receipt : Bool
  pub restores_target : Bool
  pub restores_receipt : Answer
  pub drops_journal : Bool

abbrev pub is_works : Answer → Bool
is_works works = true
is_works _ = false

abbrev pub is_made : Answer → Bool
is_made fails = false
is_made _ = true

-- A run is its result with the disks that it goes through; a crash leaves one of them.
abbrev pub Run : Type 0 → Type 0
Run A = Result PublishError A × List Disk

abbrev pub ends : {A : Type 0} → Result PublishError A → Disk → Run A
ends r d = (r, d ∷ [])

abbrev pub goes : {A : Type 0} → Disk → Run A → Run A
goes d run = (run.0, d ∷ run.1)

-- The disk that a run leaves.
abbrev pub final : Disk → List Disk → Disk
final d [] = d
final d (e ∷ es) = final e es

abbrev pub set_receipt : Answer → Bytes → Disk → Disk
set_receipt answer content d = if is_made answer then record d { receipt = some content } else d

abbrev pub drop_journal : Bool → Disk → Disk
drop_journal removed d = if removed then record d { journal = none } else d

module _ (matches : Bytes → Bytes → Option Profile) where
  abbrev pub target_matches : Option Bytes → Bytes → Bool
  target_matches none j = false
  target_matches (some content) j = not (is_none (matches content j))

  abbrev pub scanned : RecoverySystem → Disk → Run (Unit {0})
  scanned sys d = ends (if sys.scans then ok tt else err temp_scan) d

  -- recover behind the receipt.
  abbrev pub close_journal : RecoverySystem → Disk → Run (Unit {0})
  close_journal sys d =
      if sys.removes_journal
      then goes (record d { journal = none })
          (if sys.syncs
            then scanned sys (record d { journal = none })
            else ends (err recovery_sync) (record d { journal = none }))
      else ends (err recovery_cleanup) d

  abbrev pub recover_with : RecoverySystem → Disk → Option Bytes → Run (Unit {0})
  recover_with sys d none = scanned sys d
  recover_with sys d (some j) =
      if target_matches d.target j
      then if is_works sys.writes_receipt
        then goes (record d { receipt = some j })
            (close_journal sys (record d { receipt = some j }))
        else ends (err recovery_receipt) (set_receipt sys.writes_receipt j d)
      else close_journal sys d

  unfoldable pub recover : RecoverySystem → Disk → Run (Unit {0})
  recover sys d = recover_with sys d d.journal

  abbrev pub owned_content : Bytes → Option Bytes → Result PublishError (Option (Bytes × Bytes))
  owned_content content none = err unmanaged_target
  owned_content content (some r) =
      if is_none (matches content r) then err receipt_mismatch else ok (some (content, r))

  abbrev pub owned_target :
      Option Bytes → Option Bytes → Result PublishError (Option (Bytes × Bytes))
  owned_target none receipt = if is_none receipt then ok none else err orphan_receipt
  owned_target (some content) receipt = owned_content content receipt

  -- currentOwned
  unfoldable pub current_owned : Disk → Result PublishError (Option (Bytes × Bytes))
  current_owned d = owned_target d.target d.receipt

  -- rollback: its first step, its second, and the journal.
  abbrev pub restore_target : System → Option Bytes → Disk → Disk
  restore_target sys none d = if sys.restores_target then record d { target = none } else d
  restore_target sys (some receipt) d =
      if sys.restores_target then record d { target = d.previous; previous = none } else d

  abbrev pub restore_receipt : System → Option Bytes → Disk → Disk
  restore_receipt sys none d =
      if is_works sys.restores_receipt then record d { receipt = none } else d
  restore_receipt sys (some receipt) d = set_receipt sys.restores_receipt receipt d

  unfoldable pub rollback : System → Option Bytes → PublishError → Disk → Run Bool
  rollback sys previous_receipt code d =
      let first = restore_target sys previous_receipt d in
      let second = restore_receipt sys previous_receipt first in
      goes first (
        goes second (
          ends
            (err (
              if sys.restores_target && is_works sys.restores_receipt
              then code
              else rollback_failed))
            (drop_journal sys.drops_journal second)))

  -- Publish behind the commit of the target.
  unfoldable pub settle : System → Option Bytes → Bytes → Disk → Run Bool
  unfolding rollback
  settle sys previous_receipt desired_receipt d =
      if not sys.syncs_target
      then rollback sys previous_receipt target_sync d
      else if not sys.reads_back
      then rollback sys previous_receipt read_back d
      else let written = set_receipt sys.writes_receipt desired_receipt d in
        goes written (
          if not (is_works sys.writes_receipt)
          then rollback sys previous_receipt receipt_commit written
          else if not sys.removes_journal
          then ends (err journal_cleanup) written
          else ends (if sys.syncs_receipt then ok true else err receipt_sync)
              (record written { journal = none }))

  -- Publish behind the backup.
  unfoldable pub commit : System → Option Bytes → Bytes → Bytes → Disk → Run Bool
  unfolding settle
  commit sys previous_receipt desired desired_receipt d =
      let journaled =
        if is_made sys.writes_journal then record d { journal = some desired_receipt } else d in
      goes journaled (
        if not (is_works sys.writes_journal)
        then ends (err journal_write) journaled
        else if sys.cancelled_late
        then ends (err cancelled) (drop_journal sys.drops_journal journaled)
        else if not sys.commits_target
        then ends (err target_commit) (drop_journal sys.drops_journal journaled)
        else goes (record journaled { target = some desired })
            (settle sys previous_receipt desired_receipt
              (record journaled { target = some desired })))

  abbrev pub back_up : System → Bytes → Disk → Disk
  back_up sys current d =
      if is_made sys.commits_previous then record d { previous = some current } else d

  -- Publish of new content.
  unfoldable pub replace : System → Option (Bytes × Bytes) → Bytes → Bytes → Disk → Run Bool
  unfolding commit
  replace sys none desired desired_receipt d =
      if not sys.stages_candidate
      then ends (err stage_candidate) d
      else commit sys none desired desired_receipt d
  replace sys (some (current, current_receipt)) desired desired_receipt d =
      if not sys.stages_candidate
      then ends (err stage_candidate) d
      else if not sys.stages_previous
      then ends (err backup_stage) d
      else goes (back_up sys current d) (
          if not (is_works sys.commits_previous)
          then ends (err (if is_made sys.commits_previous then backup_sync else backup_commit))
              (back_up sys current d)
          else commit sys (some current_receipt) desired desired_receipt (back_up sys current d))

  abbrev pub same_profile : Option Profile → Profile → Bool
  same_profile none profile = false
  same_profile (some p) profile = profile_equal p profile

  abbrev pub unchanged_or :
      System
      → Profile
      → Result PublishError (Option (Bytes × Bytes))
      → Bytes
      → Bytes
      → Disk
      → Run Bool
  unchanged_or sys profile (err e) desired desired_receipt d = ends (err e) d
  unchanged_or sys profile (ok none) desired desired_receipt d =
      replace sys none desired desired_receipt d
  unchanged_or sys profile (ok (some (current, receipt))) desired desired_receipt d =
      if eq_bytes current desired
      then ends
          (if same_profile (matches current receipt) profile
            then ok false
            else err receipt_mismatch)
          d
      else replace sys (some (current, receipt)) desired desired_receipt d

  -- Publish on a recovered disk.
  unfoldable pub publish_recovered : System → Profile → Bytes → Bytes → Disk → Run Bool
  publish_recovered sys profile desired desired_receipt d =
      if sys.cancelled_early
      then ends (err cancelled) d
      else unchanged_or sys profile (current_owned d) desired desired_receipt d

  abbrev pub after_recovery : Disk → Run (Unit {0}) → (Disk → Run Bool) → Run Bool
  after_recovery d (err e, disks) f = (err e, disks)
  after_recovery d (ok done, disks) f = let later = f (final d disks) in (later.0, disks ++ later.1)

  -- Publish. A validated artifact has a receipt.
  unfoldable pub publish : System → Profile → Bytes → Bytes → Disk → Run Bool
  publish sys profile desired desired_receipt d =
      if not sys.directory_ok
      then ends (err directory) d
      else after_recovery d (recover sys.recovery d)
          (publish_recovered sys profile desired desired_receipt)
