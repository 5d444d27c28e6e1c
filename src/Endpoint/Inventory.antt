-- ===== src/Endpoint/Inventory.antt =====
-- internal/endpoint/inventory.go and the merging of internal/endpoint/provenance.go. The validity and
-- the equivalence of configurations (configuration.go) are the interface `Configurations`, and
-- `printable` says of an alias that it is valid UTF-8 without control characters.
pub mod Distinct
use egressfox.Base.Sort.{sort}
use egressfox.Base.Bytes.{Bytes, compare_bytes, is_below, eq_bytes, then_sign, below, same, above}
use egressfox.Endpoint.{
  identity_equal, Record, Configuration, Provenance, is_empty, identity_of, identity_less,
}
use egressfox.Base.{
  ℕ, zero, suc, ◌+◌, ◌-◌, ◌*◌, ◌≤◌, ◌<◌, ◌≡◌, refl, sym, ap, subst, ◌∙◌, ◌⊎◌, inl, inr, Bool, true,
  false, not, ◌&&◌, ◌||◌, Option, none, some, List, [], ◌∷◌, ◌++◌, map, arith, ltb, leb, ◌==◌,
  if◌then◌else◌, if_rule, Bool-cases, Option-cases, is_none, length, All, Result, ok, err,
  Result-cases, fail_if, ◌>>◌, ◌>>=◌,
}

pub record Configurations : Type 0 where
  pub valid : Configuration → Bool
  pub equivalent : Configuration → Configuration → Bool
  pub printable : Bytes → Bool

pub data InventoryError : Type 0 where
  invalid_alias invalid_record no_provenance invalid_provenance conflict : InventoryError

-- Provenance.valid
unfoldable pub provenance_valid : Provenance → Bool
provenance_valid p = not (is_empty p.source) && not (is_empty p.record_id)

-- Provenance.key, with a zero byte between the two.
unfoldable pub provenance_key : Provenance → Bytes
provenance_key p = p.source ++ 0 ∷ p.record_id

-- A set of strings in order.
unfoldable pub insert_unique : Bytes → List Bytes → List Bytes
insert_unique x [] = x ∷ []
insert_unique x (y ∷ ys) =
    let rest = insert_unique x ys in
    elim (compare_bytes x y) [ below ↦ x ∷ y ∷ ys | same ↦ y ∷ ys | above ↦ y ∷ rest ]

unfoldable pub provenance_less : Provenance → Provenance → Bool
provenance_less p q =
    is_below (then_sign (compare_bytes p.source q.source) (compare_bytes p.record_id q.record_id))

module _ (configurations : Configurations) where
  open configurations use {valid, equivalent, printable}

  unfoldable pub normalize_aliases : List Bytes → Result InventoryError (List Bytes)
  unfolding insert_unique
  normalize_aliases [] = ok []
  normalize_aliases (a ∷ as') =
      let rest = normalize_aliases as' in
      fail_if (is_empty a || ltb 256 (length a) || not (printable a)) invalid_alias
      >> (rest >>= λ aliases. ok (insert_unique a aliases))

  -- `aliases, _ := normalizeAliases(...)`: nil after an error.
  abbrev pub aliases_or_nil : Result InventoryError (List Bytes) → List Bytes
  aliases_or_nil (ok aliases) = aliases
  aliases_or_nil (err e) = []

  -- An entry of the map of mergeProvenance.
  unfoldable pub put_provenance : Provenance → List Provenance → List Provenance
  unfolding provenance_key
  put_provenance p [] = p ∷ []
  put_provenance p (q ∷ qs) =
      let rest = put_provenance p qs in
      if eq_bytes (provenance_key q) (provenance_key p)
      then record q { aliases = aliases_or_nil (normalize_aliases (q.aliases ++ p.aliases)) } ∷ qs
      else q ∷ rest

  unfoldable pub put_all : List Provenance → List Provenance → List Provenance
  unfolding put_provenance
  put_all [] entries = entries
  put_all (p ∷ ps) entries = put_all ps (put_provenance p entries)

  unfoldable pub merge_provenance : List Provenance → List Provenance → List Provenance
  unfolding put_all provenance_less
  merge_provenance left right = sort provenance_less (put_all right (put_all left []))

  unfoldable pub all_provenance_valid : List Provenance → Bool
  unfolding provenance_valid
  all_provenance_valid [] = true
  all_provenance_valid (p ∷ ps) = provenance_valid p && all_provenance_valid ps

  unfoldable pub new_record : Configuration → List Provenance → Result InventoryError Record
  unfolding merge_provenance all_provenance_valid
  new_record configuration provenance = do
    fail_if (not (valid configuration)) invalid_record
    fail_if (is_empty provenance) no_provenance
    fail_if (not (all_provenance_valid provenance)) invalid_provenance
    ok (record { configuration = configuration; provenance = merge_provenance provenance [] })

  -- Record.valid
  unfoldable pub record_valid : Record → Bool
  unfolding all_provenance_valid
  record_valid r =
      valid r.configuration && not (is_empty r.provenance) && all_provenance_valid r.provenance

  unfoldable pub all_records_valid : List Record → Bool
  unfolding record_valid
  all_records_valid [] = true
  all_records_valid (r ∷ rs) = record_valid r && all_records_valid rs

  unfoldable pub merge_matching : Record → Record → Result InventoryError Record
  merge_matching left right = do
    fail_if (not (equivalent left.configuration right.configuration)) conflict
    ok (record left { provenance = merge_provenance left.provenance right.provenance })

  -- The loop over the ordered records, with the last record of the result.
  unfoldable pub merge_runs : Record → List Record → Result InventoryError (List Record)
  unfolding identity_equal
  merge_runs last [] = ok (last ∷ [])
  merge_runs last (r ∷ rs) =
      let apart = merge_runs r rs in
      if identity_equal (identity_of last) (identity_of r)
      then (merge_matching last r >>= λ merged. merge_runs merged rs)
      else (apart >>= λ rest. ok (last ∷ rest))

  abbrev pub merge_ordered : List Record → Result InventoryError (List Record)
  merge_ordered [] = ok []
  merge_ordered (r ∷ rs) = merge_runs r rs

  unfoldable pub deduplicate : List Record → Result InventoryError (List Record)
  unfolding all_records_valid
  deduplicate records = do
    fail_if (not (all_records_valid records)) invalid_record
    merge_ordered (sort identity_less records)
