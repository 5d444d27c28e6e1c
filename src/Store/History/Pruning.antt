-- ===== src/Store/History/Pruning.antt =====
-- What pruning leaves of the observations in internal/state/sqlite.go.
use egressfox.Base.Perms.{All-keep_if}
use egressfox.Store.History.{
  append, append_tables, prune, Retention, KeyFields, AppendCalls, Tables, fields_or_fault,
  Observation, fields_equal, history_key, cutoff, persistence_fields, context_code, zero_time,
  StoreError, retention_age, evaluation_time, retention_checkpoints, retention_key, history_begin,
  retention_global, history_insert, insert_or_ignore, row_of, history_commit,
}
use egressfox.Base.Counts.{
  length-keep_if-keep_if, length-keep_if-sort, length-keep_if-drop, length-keep_if-keep_if-le,
  keep_if-All,
}
use egressfox.Base.Sort.{sort}
use egressfox.Base.Pairs.{All-imp}
use egressfox.Base.Bytes.{eq_bytes_refl}
use egressfox.Store.History.Rows.{has_sample, delete_beyond, HistoryRow, newer, delete_older}
use egressfox.Base.{
  ℕ, List, ◌≡◌, All, Bool, true, ◌∷◌, length, arith, keep_if, ◌≤◌, [], not, drop, false, ap, ℤ,
  Option, ltb_ℤ, refl, pos_part, ok, some, >>-eq-ok, ◌⊎◌, none, err, >>=-eq-ok, Result-cases, inr,
  inl, subst,
}

abbrev Beyond : List HistoryRow → HistoryRow → Type 0
Beyond rows row = has_sample row.sample_id rows ≡ true

Beyond-self : (rows : List HistoryRow) → All (Beyond rows) rows
unfolding has_sample
Beyond-self [] = tt
Beyond-self (row ∷ rows) = (
  ground (arith, eq_bytes_refl row.sample_id),
  All-imp (Beyond rows) (Beyond (row ∷ rows)) rows (λ r h. ground arith) (Beyond-self rows),
)

-- At most n of the chosen rows are left.
delete_beyond-le :
    (n : ℕ) (chosen : HistoryRow → Bool) (rows : List HistoryRow)
    → length (keep_if chosen (delete_beyond n chosen rows)) ≤ n
unfolding delete_beyond
delete_beyond-le n chosen rows =
    let order = sort newer (keep_if chosen rows) in
    let left : HistoryRow → Bool = λ row. not (has_sample row.sample_id (drop n order)) in
    omega (
      arith,
      length-keep_if-keep_if chosen left rows,
      length-keep_if-sort left newer (keep_if chosen rows),
      length-keep_if-drop left n order (
          All-imp (Beyond (drop n order)) (λ row. left row ≡ false) (drop n order) (λ r h. rw h)
            (Beyond-self (drop n order))),
    )

delete_beyond-All {κ} :
    (P : HistoryRow → Type κ) (n : ℕ) (chosen : HistoryRow → Bool) (rows : List HistoryRow)
    → All P rows
    → All P (delete_beyond n chosen rows)
unfolding delete_beyond
delete_beyond-All P n chosen rows h =
    All-keep_if (λ row. not (has_sample row.sample_id (drop n (sort newer (keep_if chosen rows)))))
      P rows h

delete_beyond-count :
    (n : ℕ) (chosen test : HistoryRow → Bool) (rows : List HistoryRow)
    → length (keep_if test (delete_beyond n chosen rows)) ≤ length (keep_if test rows)
unfolding delete_beyond
delete_beyond-count n chosen test rows =
    length-keep_if-keep_if-le test
      (λ row. not (has_sample row.sample_id (drop n (sort newer (keep_if chosen rows))))) rows

keep_if-everything : (rows : List HistoryRow) → keep_if (λ row. true) rows ≡ rows
keep_if-everything [] = refl
keep_if-everything (row ∷ rows) = ap (λ rest. row ∷ rest) (keep_if-everything rows)

abbrev pub NotOlder : ℤ → HistoryRow → Type 0
NotOlder limit row = ltb_ℤ row.completed_at limit ≡ false

delete_older-NotOlder :
    (limit : ℤ) (rows : List HistoryRow) → All (NotOlder limit) (delete_older limit rows)
unfolding delete_older
delete_older-NotOlder limit rows =
    All-imp (λ row. not (ltb_ℤ row.completed_at limit) ≡ true) (NotOlder limit)
      (keep_if (λ row. not (ltb_ℤ row.completed_at limit)) rows) (λ r h. ground arith)
      (keep_if-All (λ row. not (ltb_ℤ row.completed_at limit)) rows)

-- The bounds of a retention.
pub record IsPruned (retention : Retention) (fields : KeyFields) (now : ℕ) (rows : List HistoryRow)
    : Type 0 where
  pub few : length rows ≤ pos_part retention.max_rows
  pub few_of_key :
      length (keep_if (λ row. fields_equal row.fields fields) rows) ≤ pos_part retention.max_per_key
  pub none_old : All (NotOlder (cutoff retention.max_age now)) rows

prune-IsPruned :
    (calls : AppendCalls) (retention : Retention) (fields : KeyFields) (now : ℕ)
    (tables new : Tables)
    → prune calls retention fields now tables ≡ ok new
    → IsPruned retention fields now new.observations
unfolding prune
prune-IsPruned calls retention fields now tables new h =
    let limit = cutoff retention.max_age now in
    let of_key : HistoryRow → Bool = λ row. fields_equal row.fields fields in
    let aged = delete_older limit tables.observations in
    let keyed = delete_beyond (pos_part retention.max_per_key) of_key aged in
    let all = delete_beyond (pos_part retention.max_rows) (λ row. true) keyed in
    let (a, h1) = >>-eq-ok (not calls.prunes_age) (context_code calls.context retention_age) _ h in
    let (b, h2) =
      >>-eq-ok (not calls.prunes_checkpoints) (context_code calls.context retention_checkpoints) _
        h1 in
    let (c, h3) = >>-eq-ok (not calls.prunes_key) (context_code calls.context retention_key) _ h2 in
    let (e, h4) =
      >>-eq-ok (not calls.prunes_all) (context_code calls.context retention_global) _ h3 in
    let same : all ≡ new.observations = ground arith in
    let few : length all ≤ pos_part retention.max_rows =
      subst (λ rows. length rows ≤ pos_part retention.max_rows) (keep_if-everything all)
        (delete_beyond-le (pos_part retention.max_rows) (λ row. true) keyed) in
    let few_of_key : length (keep_if of_key all) ≤ pos_part retention.max_per_key = omega (
      arith,
      delete_beyond-count (pos_part retention.max_rows) (λ row. true) of_key keyed,
      delete_beyond-le (pos_part retention.max_per_key) of_key aged,
    ) in
    let young : All (NotOlder limit) all =
      delete_beyond-All (NotOlder limit) (pos_part retention.max_rows) (λ row. true) keyed
        (delete_beyond-All (NotOlder limit) (pos_part retention.max_per_key) of_key aged
          (delete_older-NotOlder limit tables.observations)) in
    subst (IsPruned retention fields now) same
      (record { few = few; few_of_key = few_of_key; none_old = young })

fields_or_fault-ok :
    (o : Option KeyFields) (fields : KeyFields)
    → fields_or_fault history_key o ≡ ok fields
    → o ≡ some fields
fields_or_fault-ok none fields h = cc
fields_or_fault-ok (some known) fields h = ground arith

append_tables-IsPruned :
    (calls : AppendCalls) (retention : Retention) (value : Observation) (now : ℕ)
    (tables new : Tables)
    → append_tables calls retention value now tables ≡ ok new
    → (fields : KeyFields) × (persistence_fields value.key ≡ some fields)
      × IsPruned retention fields now new.observations
unfolding append_tables
append_tables-IsPruned calls retention value now tables new h =
    let (a, h1) = >>-eq-ok (zero_time now) evaluation_time _ h in
    let (fields, has_fields, h2) =
      >>=-eq-ok (fields_or_fault history_key (persistence_fields value.key)) _ h1 in
    let (b, h3) = >>-eq-ok (not calls.begins) (context_code calls.context history_begin) _ h2 in
    let (c, h4) = >>-eq-ok (not calls.inserts) (context_code calls.context history_insert) _ h3 in
    let inserted : Tables = record tables {
      observations = insert_or_ignore (row_of fields value) tables.observations;
    } in
    let (pruned, done, h5) = >>=-eq-ok (prune calls retention fields now inserted) _ h4 in
    let (e, h6) = >>-eq-ok (not calls.commits) (context_code calls.context history_commit) _ h5 in
    let same : pruned ≡ new = ground arith in
    (
      fields,
      fields_or_fault-ok (persistence_fields value.key) fields has_fields,
      subst (λ t. IsPruned retention fields now t.observations) same
          (prune-IsPruned calls retention fields now inserted pruned done),
    )

-- When Append succeeds, the table holds no more rows than the retention allows in all and for the
-- key of the observation, and none that completed before the cutoff of the retention's age; when
-- it fails, the tables are as they were.
pub append-IsPruned :
    (calls : AppendCalls) (retention : Retention) (value : Observation) (now : ℕ) (tables : Tables)
    → let run = append calls retention value now tables in
      ((run.0 ≡ ok tt)
        × ((fields : KeyFields) × (persistence_fields value.key ≡ some fields)
            × IsPruned retention fields now run.1.observations))
      ⊎ (((fault : StoreError) × (run.0 ≡ err fault)) × (run.1 ≡ tables))
unfolding append
append-IsPruned calls retention value now tables =
    elim (Result-cases (append_tables calls retention value now tables)) [
      | inr (fault, e) ↦ rw e (inr ((fault, refl), refl))
      | inl (new, e) ↦
          rw e (inl (refl, append_tables-IsPruned calls retention value now tables new e))
    ]
