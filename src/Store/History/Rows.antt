-- ===== src/Store/History/Rows.antt =====
-- The rows of observations in internal/state/sqlite.go and the statements of prune.
use egressfox.Store.Checkpoints.{CheckpointRow}
use egressfox.Artifact.{profile_equal, Profile}
use egressfox.Base.Sort.{sort}
use egressfox.Base.Bytes.{compare_bytes, Bytes, eq_bytes, is_below}
use egressfox.Endpoint.{id_string, Revision}
use egressfox.Observation.{Observation, unix_epoch}
use egressfox.Observation.Keys.{Key}
use egressfox.Base.{
  ℕ, wrap_int64, ℤ, Bool, List, Option, ◌+◌, pos, false, length, if◌then◌else◌, keep_if, ltb_ℤ,
  drop, some, ◌&&◌, ◌^◌, pos_part, ◌∷◌, ◌==◌, ◌||◌, not, ◌-◌, neg_part, none, [],
}

pub record KeyFields : Type 0 where
  pub endpoint_id : Bytes
  pub connection_revision : Bytes
  pub target_id : Bytes
  pub target_revision : Bytes
  pub vantage_id : Bytes
  pub kind : ℕ
  pub profile : Profile

pub record HistoryRow : Type 0 where
  pub sample_id : Bytes
  pub fields : KeyFields
  pub started_at : ℤ
  pub completed_at : ℤ
  pub duration : ℤ
  pub outcome : ℕ
  pub status_code : ℤ

abbrev pub fields_with : Key → Revision → Revision → Option KeyFields
fields_with key none target = none
fields_with key (some connection) none = none
fields_with key (some connection) (some target) = some (record {
  endpoint_id = id_string key.connection.id;
  connection_revision = connection;
  target_id = key.target.id;
  target_revision = target;
  vantage_id = key.vantage;
  kind = key.kind;
  profile = key.profile;
})

-- persistenceFields
unfoldable pub persistence_fields : Key → Option KeyFields
unfolding id_string
persistence_fields key = fields_with key key.connection.revision key.target.revision

-- The ten comparisons of a query by key.
unfoldable pub fields_equal : KeyFields → KeyFields → Bool
unfolding eq_bytes profile_equal
fields_equal a b =
    eq_bytes a.endpoint_id b.endpoint_id
    && eq_bytes a.connection_revision b.connection_revision
    && eq_bytes a.target_id b.target_id
    && eq_bytes a.target_revision b.target_revision
    && eq_bytes a.vantage_id b.vantage_id
    && a.kind == b.kind
    && profile_equal a.profile b.profile

-- Time.UnixNano, which wraps.
unfoldable pub unix_nano : ℕ → ℤ
unfolding wrap_int64
unix_nano t = wrap_int64 (t + 2 ^ 66 - unix_epoch)

-- now.Add(-age).UnixNano()
unfoldable pub cutoff : ℤ → ℕ → ℤ
unfolding wrap_int64
cutoff age now = wrap_int64 (now + 2 ^ 66 + neg_part age - unix_epoch - pos_part age)

-- time.Unix(0, n)
abbrev pub time_of : ℤ → ℕ
time_of n = unix_epoch + pos_part n - neg_part n

abbrev pub row_of : KeyFields → Observation → HistoryRow
row_of fields value = record {
  sample_id = value.sample_id;
  fields = fields;
  started_at = unix_nano value.started_at;
  completed_at = unix_nano value.completed_at;
  duration = pos value.duration;
  outcome = value.outcome;
  status_code = pos value.status_code;
}

unfoldable pub has_sample : Bytes → List HistoryRow → Bool
unfolding eq_bytes
has_sample sample [] = false
has_sample sample (row ∷ rows) = eq_bytes row.sample_id sample || has_sample sample rows

-- The CHECK clauses of the table.
abbrev pub row_fits : HistoryRow → Bool
row_fits row =
    length row.sample_id == 32
    && length row.fields.connection_revision == 32
    && length row.fields.target_revision == 32

-- INSERT OR IGNORE
unfoldable pub insert_or_ignore : HistoryRow → List HistoryRow → List HistoryRow
unfolding has_sample
insert_or_ignore row rows =
    if has_sample row.sample_id rows || not (row_fits row) then rows else row ∷ rows

-- DELETE … WHERE completed_at_ns < ?
unfoldable pub delete_older : ℤ → List HistoryRow → List HistoryRow
delete_older limit rows = keep_if (λ row. not (ltb_ℤ row.completed_at limit)) rows

unfoldable pub delete_old_checkpoints : ℤ → List CheckpointRow → List CheckpointRow
unfolding wrap_int64
delete_old_checkpoints limit rows =
    keep_if (λ row. not (ltb_ℤ (wrap_int64 row.updated_at) limit)) rows

-- ORDER BY completed_at_ns ASC, sample_id ASC
unfoldable pub older : HistoryRow → HistoryRow → Bool
unfolding compare_bytes
older a b =
    ltb_ℤ a.completed_at b.completed_at
    || (not (ltb_ℤ b.completed_at a.completed_at)
        && is_below (compare_bytes a.sample_id b.sample_id))

abbrev pub newer : HistoryRow → HistoryRow → Bool
newer a b = older b a

-- DELETE … WHERE sample_id IN (SELECT … ORDER BY … DESC LIMIT -1 OFFSET ?)
unfoldable pub delete_beyond : ℕ → (HistoryRow → Bool) → List HistoryRow → List HistoryRow
unfolding older has_sample sort
delete_beyond n chosen rows =
    let beyond = drop n (sort newer (keep_if chosen rows)) in
    keep_if (λ row. not (has_sample row.sample_id beyond)) rows
