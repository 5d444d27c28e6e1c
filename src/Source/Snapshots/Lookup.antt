-- ===== src/Source/Snapshots/Lookup.antt =====
-- Lookups in the set of internal/source/snapshot.go after its operations, and its inventory.
use egressfox.Base.Sort.{All-sort, All-sort-inv}
use egressfox.Endpoint.Inventory.Distinct.{deduplicate-identities}
use egressfox.Base.Bytes.{eq_bytes_sound, eq_bytes_refl}
use egressfox.Endpoint.{Identity, Record, identity_of, is_empty}
use egressfox.Endpoint.Inventory.{Configurations}
use egressfox.Source.Snapshots.{
  snapshot_of, find_key, put_snapshot, remove_key, replace, remove, Bytes, SnapshotSet, all_records,
  inventory, Snapshot, eq_bytes, source_string, sort, key_less, invalid_source_id, invalid_snapshot,
  empty_snapshot,
}
use egressfox.Base.{
  ◌≡◌, refl, subst, ◌⊎◌, inl, inr, Bool, true, not, ◌&&◌, none, some, List, [], ◌∷◌, ◌++◌, arith,
  if◌then◌else◌, Bool-cases, All, ok, ◌↔◌, All-append, ◌≢◌, >>-eq-ok,
}

find_key-put_snapshot :
    (key other : Bytes) (snapshot : Snapshot) (set : SnapshotSet)
    → find_key other (put_snapshot key snapshot set)
      ≡ (if eq_bytes key other then some snapshot else find_key other set)
unfolding find_key put_snapshot
find_key-put_snapshot key other snapshot [] = refl
find_key-put_snapshot key other snapshot ((k, s) ∷ rest) = elim (Bool-cases (eq_bytes k key)) [
  | inl e ↦ let one = eq_bytes_sound k key e in rw e (ground (arith, one))
  | inr e ↦ rw e (
      ground (
        arith,
        eq_bytes_sound k other,
        eq_bytes_sound key other,
        eq_bytes_refl key,
        find_key-put_snapshot key other snapshot rest,
      ))
]

find_key-remove_key :
    (key other : Bytes) (set : SnapshotSet)
    → find_key other (remove_key key set)
      ≡ (if eq_bytes key other then none else find_key other set)
unfolding find_key remove_key
find_key-remove_key key other [] = ground arith
find_key-remove_key key other ((k, s) ∷ rest) = ground (
  arith,
  eq_bytes_sound k key,
  eq_bytes_sound k other,
  eq_bytes_sound key other,
  eq_bytes_refl k,
  find_key-remove_key key other rest,
)

-- A successful Replace changes the snapshot of its source and no other, and a snapshot without
-- records is accepted only where this is allowed.
pub snapshot_of-replace :
    (set result : SnapshotSet) (snapshot : Snapshot) (allow_empty : Bool) (source : Bytes)
    → replace set snapshot allow_empty ≡ ok result
    → (snapshot_of result source ≡ (
        if eq_bytes (source_string snapshot.source) (source_string source)
        then some snapshot
        else snapshot_of set source))
      × ((snapshot.records ≢ []) ⊎ (allow_empty ≡ true))
unfolding snapshot_of replace
snapshot_of-replace set result snapshot allow_empty source h =
    let (_, more) =
      >>-eq-ok (eq_bytes (source_string snapshot.source) invalid_source_id) invalid_snapshot _ h in
    let (accepted, last) =
      >>-eq-ok (is_empty snapshot.records && not allow_empty) empty_snapshot _ more in
    let changed : put_snapshot (source_string snapshot.source) snapshot set ≡ result =
      ground arith in
    (
      subst
          (λ s. find_key (source_string source) s ≡ (
            if eq_bytes (source_string snapshot.source) (source_string source)
            then some snapshot
            else find_key (source_string source) set))
          changed
          (find_key-put_snapshot (source_string snapshot.source) (source_string source) snapshot
            set),
      elim (Bool-cases allow_empty) [
        | inl e ↦ inr e
        | inr e ↦ inl (λ no_records. ground (arith, accepted, no_records))
      ],
    )

-- Remove forgets the snapshot of its source and no other.
pub snapshot_of-remove :
    (set : SnapshotSet) (removed source : Bytes)
    → snapshot_of (remove set removed) source ≡ (
        if eq_bytes (source_string removed) (source_string source)
        then none
        else snapshot_of set source)
unfolding snapshot_of remove
snapshot_of-remove set removed source =
    find_key-remove_key (source_string removed) (source_string source) set

module _ {κ} (configurations : Configurations) (Q : Identity → Type κ) where
  abbrev Has : Record → Type κ
  Has r = Q (identity_of r)

  abbrev pub EverySnapshot : SnapshotSet → Type κ
  EverySnapshot = All (λ entry. All (λ r. Q (identity_of r)) entry.1.records)

  split : (xs ys : List Record) → All Has (xs ++ ys) → All Has xs × All Has ys
  split [] ys h = (tt, h)
  split (x ∷ xs) ys h = let rest = split xs ys h.1 in ((h.0, rest.0), rest.1)

  records-EverySnapshot : (set : SnapshotSet) → EverySnapshot set ↔ All Has (all_records set)
  unfolding all_records
  records-EverySnapshot [] = (λ h. tt, λ h. tt)
  records-EverySnapshot ((k, s) ∷ rest) =
      let (to, from) = records-EverySnapshot rest in
      (
        λ h. All-append Has s.records (all_records rest) h.0 (to h.1),
        λ h. let both = split s.records (all_records rest) h in (both.0, from both.1),
      )

  -- When Inventory succeeds, the identities that it returns are exactly those of the records of all
  -- snapshots: a property holds of all of the ones when it holds of all of the others.
  pub inventory-identities :
      (set : SnapshotSet) (out : List Record)
      → inventory configurations set ≡ ok out
      → EverySnapshot set ↔ All (λ r. Q (identity_of r)) out
  unfolding inventory
  inventory-identities set out h =
      let (to, from) = records-EverySnapshot (sort key_less set) in
      let (there, back) =
        deduplicate-identities configurations Q (all_records (sort key_less set)) out h in
      (
        λ every. there (to (All-sort key_less (λ entry. All Has entry.1.records) set every)),
        λ every. All-sort-inv key_less (λ entry. All Has entry.1.records) set (from (back every)),
      )
