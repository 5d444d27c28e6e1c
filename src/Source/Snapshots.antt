-- ===== src/Source/Snapshots.antt =====
-- internal/source/snapshot.go: the set of the latest snapshots. The map is a list of pairs with at
-- most one pair for a key; a copy of a value is the value.
pub mod Lookup
use egressfox.Base.Sort.{sort}
use egressfox.Endpoint.Inventory.{Configurations, InventoryError, deduplicate}
use egressfox.Base.Bytes.{Bytes, ascii, eq_bytes, is_below, compare_bytes}
use egressfox.Endpoint.{Record, is_empty}
use egressfox.Base.{
  ℕ, zero, suc, ◌+◌, ◌-◌, ◌*◌, ◌≤◌, ◌<◌, ◌≡◌, refl, sym, ap, subst, ◌∙◌, ◌⊎◌, inl, inr, Bool, true,
  false, not, ◌&&◌, ◌||◌, Option, none, some, List, [], ◌∷◌, ◌++◌, map, arith, ltb, leb, ◌==◌,
  if◌then◌else◌, if_rule, Bool-cases, Option-cases, is_none, length, All, Result, ok, err,
  Result-cases, ◌>>◌, fail_if, keep_if,
}

pub record Snapshot : Type 0 where
  pub source : Bytes
  pub records : List Record

pub data RefreshError : Type 0 where
  invalid_snapshot empty_snapshot : RefreshError

abbrev pub invalid_source_id : Bytes
invalid_source_id = ascii "<invalid-source-id>"

-- SourceID.String
unfoldable pub source_string : Bytes → Bytes
source_string source = if is_empty source then invalid_source_id else source

abbrev pub SnapshotSet : Type 0
SnapshotSet = List (Bytes × Snapshot)

-- A write of the map.
unfoldable pub put_snapshot : Bytes → Snapshot → SnapshotSet → SnapshotSet
put_snapshot key snapshot [] = (key, snapshot) ∷ []
put_snapshot key snapshot ((k, s) ∷ rest) =
    let others = put_snapshot key snapshot rest in
    if eq_bytes k key then (key, snapshot) ∷ rest else (k, s) ∷ others

-- Set.Replace; with an error, the set that is returned is the one that was there.
unfoldable pub replace : SnapshotSet → Snapshot → Bool → Result RefreshError SnapshotSet
unfolding put_snapshot
replace set snapshot allow_empty = do
  fail_if (eq_bytes (source_string snapshot.source) invalid_source_id) invalid_snapshot
  fail_if (is_empty snapshot.records && not allow_empty) empty_snapshot
  ok (put_snapshot (source_string snapshot.source) snapshot set)

-- Set.Remove
unfoldable pub remove_key : Bytes → SnapshotSet → SnapshotSet
remove_key key set = keep_if (λ entry. not (eq_bytes entry.0 key)) set

unfoldable pub remove : SnapshotSet → Bytes → SnapshotSet
unfolding remove_key
remove set source = remove_key (source_string source) set

unfoldable pub find_key : Bytes → SnapshotSet → Option Snapshot
find_key key [] = none
find_key key ((k, s) ∷ rest) = if eq_bytes k key then some s else find_key key rest

-- Set.Snapshot
unfoldable pub snapshot_of : SnapshotSet → Bytes → Option Snapshot
unfolding find_key
snapshot_of set source = find_key (source_string source) set

abbrev pub key_less : Bytes × Snapshot → Bytes × Snapshot → Bool
key_less a b = is_below (compare_bytes a.0 b.0)

unfoldable pub all_records : SnapshotSet → List Record
all_records [] = []
all_records ((k, s) ∷ rest) = s.records ++ all_records rest

-- Set.Inventory
unfoldable pub inventory : Configurations → SnapshotSet → Result InventoryError (List Record)
unfolding all_records
inventory configurations set = deduplicate configurations (all_records (sort key_less set))
