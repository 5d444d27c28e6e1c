-- ===== src/Examples/Publishing.antt =====
-- Publications and recoveries at concrete inputs: a receipt is the content behind a byte.
use egressfox.Publish.Success.{AllWork, holds, publish_recovered_succeeds}
use egressfox.Publish.Outcomes.{IsWritten, Unchanged, publish_recovered_outcome}
use egressfox.Publish.Recovery.{IsOwned, recover-IsOwned}
use egressfox.Artifact.{Profile, mihomo_11931}
use egressfox.Publish.{
  current_owned, Disk, recover, System, works, publish_recovered, final, target_matches, replace,
  commit, settle, same_profile,
}
use egressfox.Publish.Crashes.{Safe, publish_recovered-Safe}
use egressfox.Base.Bytes.{Bytes, eq_bytes, compare_bytes, compare_byte}
use egressfox.Base.{
  ◌≡◌, refl, inl, inr, true, false, Option, none, some, [], ◌∷◌, if◌then◌else◌, All, ok, ◌⊎◌, not,
  arith, ap,
}

abbrev test_matches : Bytes → Bytes → Option Profile
test_matches content [] = none
test_matches content (b ∷ receipt) = if eq_bytes content receipt then some mihomo_11931 else none

-- The sync after the commit of the target fails.
abbrev failing_sync : System
failing_sync = record {
  recovery = record { writes_receipt = works; removes_journal = true; syncs = true; scans = true };
  directory_ok = true;
  cancelled_early = false;
  stages_candidate = true;
  stages_previous = true;
  commits_previous = works;
  writes_journal = works;
  cancelled_late = false;
  commits_target = true;
  syncs_target = false;
  reads_back = true;
  writes_receipt = works;
  removes_journal = true;
  syncs_receipt = true;
  restores_target = true;
  restores_receipt = works;
  drops_journal = true;
}

abbrev owned_disk : Disk
owned_disk = record {
  target = some (7 ∷ []);
  receipt = some (0 ∷ 7 ∷ []);
  previous = none;
  journal = none;
}

is_owned : current_owned test_matches owned_disk ≡ ok (some (7 ∷ [], 0 ∷ 7 ∷ []))
unfolding current_owned eq_bytes compare_bytes compare_byte
is_owned = refl

new_matches : target_matches test_matches (some (8 ∷ [])) (0 ∷ 8 ∷ []) ≡ true
unfolding eq_bytes compare_bytes compare_byte
new_matches = refl

publish_recovered-Safe_example :
    All
      (Safe test_matches failing_sync (8 ∷ []) (0 ∷ 8 ∷ []) (some (7 ∷ [])))
      (publish_recovered test_matches failing_sync mihomo_11931 (8 ∷ []) (0 ∷ 8 ∷ []) owned_disk).1
publish_recovered-Safe_example =
    publish_recovered-Safe test_matches failing_sync (8 ∷ []) (0 ∷ 8 ∷ []) mihomo_11931 owned_disk
      (some (7 ∷ [], 0 ∷ 7 ∷ [])) is_owned new_matches refl (inl refl)

-- A crash after the commit of the target.
abbrev crashed_disk : Disk
crashed_disk = record {
  target = some (8 ∷ []);
  receipt = some (0 ∷ 7 ∷ []);
  previous = some (7 ∷ []);
  journal = some (0 ∷ 8 ∷ []);
}

recover-IsOwned_example :
    let run = recover test_matches failing_sync.recovery crashed_disk in
    ((done : Unit {0}) × (run.0 ≡ ok done))
    × IsOwned test_matches (final crashed_disk run.1)
    × ((final crashed_disk run.1).target ≡ some (8 ∷ []))
    × ((final crashed_disk run.1).journal ≡ none)
recover-IsOwned_example =
    recover-IsOwned test_matches failing_sync.recovery crashed_disk refl refl refl refl
      (inr (0 ∷ 8 ∷ [], refl, new_matches))

-- A publication in which everything works.
abbrev working : System
working = record failing_sync { syncs_target = true }

publishes :
    (publish_recovered test_matches working mihomo_11931 (8 ∷ []) (0 ∷ 8 ∷ []) owned_disk).0
    ≡ ok true
unfolding publish_recovered replace commit settle current_owned eq_bytes compare_bytes compare_byte
publishes = refl

publish_recovered_outcome_example :
    let run =
      publish_recovered test_matches working mihomo_11931 (8 ∷ []) (0 ∷ 8 ∷ []) owned_disk in
    ((true ≡ true) × IsWritten test_matches working (8 ∷ []) (0 ∷ 8 ∷ []) (final owned_disk run.1))
    ⊎ ((true ≡ false)
        × Unchanged test_matches working (8 ∷ []) (0 ∷ 8 ∷ []) mihomo_11931 owned_disk run)
publish_recovered_outcome_example =
    publish_recovered_outcome test_matches working (8 ∷ []) (0 ∷ 8 ∷ []) mihomo_11931 owned_disk
      true publishes

all_work : AllWork working
all_work = record {
  runs = (refl, refl);
  stages = (refl, refl);
  backs_up = refl;
  journals = refl;
  commits = (refl, refl, refl);
  records = (refl, refl, refl);
}

abbrev old_pair : Option (Bytes × Bytes)
old_pair = some (7 ∷ [], 0 ∷ 7 ∷ [])

abbrev content_of : Option (Bytes × Bytes) → Bytes
content_of none = []
content_of (some (content, receipt)) = content

abbrev pair_of : Bytes → Option (Bytes × Bytes)
pair_of receipt = some (8 ∷ [], receipt)

is_new :
    (receipt : Bytes)
    → old_pair ≡ pair_of receipt
    → same_profile test_matches (test_matches (8 ∷ []) receipt) mihomo_11931 ≡ true
is_new receipt e = let contents : 7 ∷ [] ≡ 8 ∷ [] = ap content_of e in absurd (ground arith)

publish_recovered_succeeds_example :
    (publish_recovered test_matches working mihomo_11931 (8 ∷ []) (0 ∷ 8 ∷ []) owned_disk).0
    ≡ ok (not (holds (8 ∷ []) old_pair))
publish_recovered_succeeds_example =
    publish_recovered_succeeds test_matches working (8 ∷ []) (0 ∷ 8 ∷ []) mihomo_11931 owned_disk
      old_pair all_work is_owned is_new
