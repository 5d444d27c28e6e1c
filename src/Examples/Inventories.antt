-- ===== src/Examples/Inventories.antt =====
-- Inventories and snapshots at concrete inputs.
use egressfox.Base.Sort.{sort}
use egressfox.Examples.Samples.{endpoint_of, connection_b, connection_a}
use egressfox.Endpoint.Inventory.Distinct.{Before, deduplicate_result}
use egressfox.Observation.Keys.{ConnectionRef}
use egressfox.Source.Snapshots.Lookup.{snapshot_of-replace}
use egressfox.Base.Bytes.{Bytes, ascii, eq_bytes, compare_bytes}
use egressfox.Endpoint.{Identity, identity_of, Record, is_empty, identity_compare}
use egressfox.Source.Snapshots.{
  Snapshot, SnapshotSet, replace, snapshot_of, source_string, inventory,
}
use egressfox.Base.Pairs.{AllPairs}
use egressfox.Endpoint.Inventory.{
  InventoryError, Configurations, deduplicate, merge_runs, merge_matching,
}
use egressfox.Base.{
  ◌≡◌, refl, ◌⊎◌, true, false, not, some, List, [], ◌∷◌, if◌then◌else◌, All, Result, ok, err, ◌↔◌,
  ◌≢◌,
}

abbrev test_configurations : Configurations
test_configurations = record {
  valid = λ c. not (is_empty c.encoding);
  equivalent = λ a b. eq_bytes a.encoding b.encoding;
  printable = λ alias. true;
}

abbrev from_source : Bytes → ConnectionRef → Record
from_source source ref = record (endpoint_of ref) {
  provenance = record { source = source; record_id = ascii "r1"; aliases = ascii "fast" ∷ [] } ∷ [];
}

-- The same connection from two sources, and another one.
abbrev three_records : List Record
three_records =
    from_source (ascii "s2") connection_b
    ∷ from_source (ascii "s1") connection_a
    ∷ from_source (ascii "s1") connection_b
    ∷ []

abbrev records_of : Result InventoryError (List Record) → List Record
records_of (ok records) = records
records_of (err e) = []

abbrev merged_records : List Record
merged_records = records_of (deduplicate test_configurations three_records)

merges : deduplicate test_configurations three_records ≡ ok merged_records
unfolding deduplicate sort identity_compare compare_bytes merge_runs eq_bytes merge_matching
merges = refl

abbrev KnownIdentity : Identity → Type 0
KnownIdentity i = (i.id ≡ connection_a.id) ⊎ (i.id ≡ connection_b.id)

deduplicate_result_example :
    AllPairs Before merged_records
    × (All (λ r. KnownIdentity (identity_of r)) three_records
        ↔ All (λ r. KnownIdentity (identity_of r)) merged_records)
deduplicate_result_example =
    deduplicate_result test_configurations KnownIdentity three_records merged_records merges

abbrev first_snapshot : Snapshot
first_snapshot = record {
  source = ascii "s1";
  records = from_source (ascii "s1") connection_a ∷ [];
}

abbrev one_snapshot : SnapshotSet
one_snapshot = (ascii "s1", first_snapshot) ∷ []

abbrev second_snapshot : Snapshot
second_snapshot = record {
  source = ascii "s2";
  records = from_source (ascii "s2") connection_b ∷ [];
}

abbrev two_snapshots : SnapshotSet
two_snapshots = (ascii "s1", first_snapshot) ∷ (ascii "s2", second_snapshot) ∷ []

replaces : replace one_snapshot second_snapshot false ≡ ok two_snapshots
unfolding replace eq_bytes source_string
replaces = refl

snapshot_of-replace_example :
    (snapshot_of two_snapshots (ascii "s1") ≡ (
      if eq_bytes (source_string (ascii "s2")) (source_string (ascii "s1"))
      then some second_snapshot
      else snapshot_of one_snapshot (ascii "s1")))
    × ((second_snapshot.records ≢ []) ⊎ (false ≡ true))
snapshot_of-replace_example =
    snapshot_of-replace one_snapshot two_snapshots second_snapshot false (ascii "s1") replaces

abbrev inventory_of_two : List Record
inventory_of_two = records_of (inventory test_configurations two_snapshots)

has_inventory : inventory test_configurations two_snapshots ≡ ok inventory_of_two
unfolding inventory deduplicate sort compare_bytes identity_compare merge_runs eq_bytes
has_inventory = refl
