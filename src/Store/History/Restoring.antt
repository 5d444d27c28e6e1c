-- ===== src/Store/History/Restoring.antt =====
-- The rows that Append of internal/state/sqlite.go writes, and what the loop of Load restores from
-- them.
use egressfox.Base.{none, ◌≡◌, refl, subst, Bool, true, some, ok, List, [], ◌∷◌, map, All}
use egressfox.Base.Bytes.{Bytes}
use egressfox.Observation.{Observation, Params, new}
use egressfox.Observation.Keys.{Key}
use egressfox.Endpoint.{Revision}
use egressfox.Observation.Valid.{new-IsValid}
use egressfox.Store.History.{restore_rows, params_of, checked_row}
use egressfox.Store.History.Rows.{fields_with, KeyFields, persistence_fields, row_of}
use egressfox.Store.History.Times.{InRange}
use egressfox.Store.History.Loading.{IsValidKey, IsKept, row_for, checked_row-row_for}

module _ (sha256 : Bytes → Bytes) (key : Key) (fields : KeyFields) where
  -- An observation of this key that New has admitted, with times that UnixNano can hold.
  abbrev pub IsAdmitted : Observation → Type 0
  IsAdmitted v =
      (p : Params) × (new sha256 p ≡ ok v)
      × (v.key ≡ key)
      × InRange v.started_at
      × InRange v.completed_at

  fields_digests :
      (connection target : Revision)
      → fields_with key connection target ≡ some fields
      → ((digest : Bytes) × (connection ≡ some digest))
        × ((digest : Bytes) × (target ≡ some digest))
  fields_digests none target e = cc
  fields_digests (some c) none e = cc
  fields_digests (some c) (some t) e = ((c, refl), (t, refl))

  has_digests :
      persistence_fields key ≡ some fields
      → ((digest : Bytes) × (key.connection.revision ≡ some digest))
        × ((digest : Bytes) × (key.target.revision ≡ some digest))
  unfolding persistence_fields
  has_digests e = fields_digests key.connection.revision key.target.revision e

  admitted-IsKept :
      (v : Observation) → persistence_fields key ≡ some fields → IsAdmitted v → IsKept sha256 v
  admitted-IsKept v e (p, made, same, started, completed) =
      let valid = new-IsValid sha256 p v made in
      let digests = has_digests e in
      record {
        valid = valid;
        has_key = (valid.key_valid, rw same digests.0, rw same digests.1);
        started = started;
        completed = completed;
      }

  row_for-row_of :
      (v : Observation)
      → persistence_fields key ≡ some fields
      → v.key ≡ key
      → row_for v ≡ row_of fields v
  row_for-row_of v e same = rw (same, e) refl

  -- Observations of one key that New has admitted, and whose times an int64 of nanoseconds can hold,
  -- are written as rows from which the loop of Load, where every scan works, restores exactly them.
  pub restore_rows-row_of :
      (scans : Bytes → Bool) (values : List Observation)
      → persistence_fields key ≡ some fields
      → ((s : Bytes) → scans s ≡ true)
      → All IsAdmitted values
      → restore_rows sha256 scans key (map (row_of fields) values) ≡ ok values
  unfolding restore_rows
  restore_rows-row_of scans [] e works h = refl
  restore_rows-row_of scans (v ∷ vs) e works h =
      let kept = admitted-IsKept v e h.0 in
      let same = h.0.2 in
      let valid_key = subst IsValidKey same kept.has_key in
      let checked : checked_row v.sample_id (new sha256 (params_of key (row_of fields v))) ≡ ok v =
        subst (λ row. checked_row v.sample_id (new sha256 (params_of key row)) ≡ ok v)
          (row_for-row_of v e same) (checked_row-row_for sha256 key valid_key v kept same) in
      simp (works v.sample_id, checked, restore_rows-row_of scans vs e works h.1) refl
