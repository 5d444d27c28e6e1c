-- ===== src/Store/Cache.antt =====
-- internal/state/source_cache.go: the cache of HTTP sources, a table with one row for each source.
pub mod Fidelity
pub mod Pruning
use egressfox.Observation.{zero_time}
use egressfox.Endpoint.{is_empty}
use egressfox.Base.Bytes.{eq_bytes, Bytes}
use egressfox.Base.{
  ℕ, Bool, ℤ, List, ltb, Option, length, if◌then◌else◌, not, none, ◌∷◌, ◌||◌, Result, ◌==◌, false,
  some, leb_ℤ, ok, fail_if, ◌&&◌, err, ◌+◌, keep_if, ◌>>◌, [], pos, leb, ltb_ℤ,
}
use egressfox.Store.History.Rows.{unix_nano, time_of}

pub data CacheError : Type 0 where
  cache_read cache_corrupt cache_invalid cache_write cache_invalid_validator : CacheError
  cache_validate cache_missing cache_version cache_delete : CacheError
  cache_prune_read cache_prune_scan cache_prune_iterate cache_prune_close : CacheError

pub record CacheEntry : Type 0 where
  pub key : Bytes
  pub fingerprint : Bytes
  pub body : Bytes
  pub content_type : Bytes
  pub etag : Bytes
  pub last_modified : Bytes
  pub accepted_at : ℕ
  pub validated_at : ℕ

-- A row of http_source_cache.
pub record CacheRow : Type 0 where
  pub source_key : Bytes
  pub fingerprint : Bytes
  pub body : Bytes
  pub body_digest : Bytes
  pub content_type : Bytes
  pub etag : Bytes
  pub last_modified : Bytes
  pub accepted_at : ℤ
  pub validated_at : ℤ

-- SELECT … WHERE source_key=?
unfoldable pub find_source : Bytes → List CacheRow → Option CacheRow
unfolding eq_bytes
find_source key [] = none
find_source key (row ∷ rows) =
    if eq_bytes row.source_key key then some row else find_source key rows

-- DELETE … WHERE source_key=?
unfoldable pub delete_source : Bytes → List CacheRow → List CacheRow
unfolding eq_bytes
delete_source key [] = []
delete_source key (row ∷ rows) =
    let rest = delete_source key rows in if eq_bytes row.source_key key then rest else row ∷ rest

abbrev pub too_long : Bytes → Bytes → Bool
too_long etag last_modified = ltb 1024 (length etag) || ltb 1024 (length last_modified)

abbrev pub entry_of : Bytes → Bytes → CacheRow → CacheEntry
entry_of key fingerprint row = record {
  key = key;
  fingerprint = fingerprint;
  body = row.body;
  content_type = row.content_type;
  etag = row.etag;
  last_modified = row.last_modified;
  accepted_at = time_of row.accepted_at;
  validated_at = time_of row.validated_at;
}

module _ (sha256 : Bytes → Bytes) where
  abbrev pub row_corrupt : CacheRow → Bool
  row_corrupt row =
      ltb 4194304 (length row.body)
      || not (length row.body_digest == 32)
      || not (eq_bytes (sha256 row.body) row.body_digest)
      || leb_ℤ row.accepted_at (pos 0)
      || ltb_ℤ row.validated_at row.accepted_at
      || too_long row.etag row.last_modified

  abbrev pub entry_found : Bytes → Bytes → Option CacheRow → Result CacheError (Option CacheEntry)
  entry_found key fingerprint none = ok none
  entry_found key fingerprint (some row) =
      if not (length row.fingerprint == 32) || not (eq_bytes row.fingerprint fingerprint)
      then ok none
      else (fail_if (row_corrupt row) cache_corrupt >> ok (some (entry_of key fingerprint row)))

  -- LoadSourceCache
  unfoldable pub load_source_cache :
      Bool → Bytes → Bytes → List CacheRow → Result CacheError (Option CacheEntry)
  unfolding eq_bytes find_source
  load_source_cache works key fingerprint rows =
      fail_if (not works) cache_read >> entry_found key fingerprint (find_source key rows)

  abbrev pub version_found : Option CacheRow → Result CacheError (Option (Bytes × ℕ))
  version_found none = ok none
  version_found (some row) =
      fail_if
        (ltb 4194304 (length row.body)
          || not (length row.body_digest == 32)
          || leb_ℤ row.validated_at (pos 0))
        cache_version
      >> (fail_if (not (eq_bytes (sha256 row.body) row.body_digest)) cache_corrupt
          >> ok (some (row.body_digest, time_of row.validated_at)))

  -- SourceCacheVersion
  unfoldable pub source_cache_version :
      Bool → Bytes → List CacheRow → Result CacheError (Option (Bytes × ℕ))
  unfolding eq_bytes find_source
  source_cache_version works key rows =
      fail_if (not works) cache_version >> version_found (find_source key rows)

  abbrev pub entry_invalid : CacheEntry → Bool
  entry_invalid entry =
      is_empty entry.key
      || ltb 4194304 (length entry.body)
      || zero_time entry.accepted_at
      || ltb entry.validated_at entry.accepted_at
      || too_long entry.etag entry.last_modified

  abbrev pub row_of_entry : CacheEntry → CacheRow
  row_of_entry entry = record {
    source_key = entry.key;
    fingerprint = entry.fingerprint;
    body = entry.body;
    body_digest = sha256 entry.body;
    content_type = entry.content_type;
    etag = entry.etag;
    last_modified = entry.last_modified;
    accepted_at = unix_nano entry.accepted_at;
    validated_at = unix_nano entry.validated_at;
  }

  -- The CHECK clauses of the table.
  abbrev pub source_fits : CacheRow → Bool
  source_fits row =
      length row.fingerprint == 32 && leb (length row.body) 4194304 && length row.body_digest == 32

  -- SaveSourceCache
  unfoldable pub save_source_cache :
      Bool → CacheEntry → List CacheRow → Result CacheError (List CacheRow)
  unfolding unix_nano delete_source
  save_source_cache works entry rows = do
    fail_if (entry_invalid entry) cache_invalid
    fail_if (not works || not (source_fits (row_of_entry entry))) cache_write
    ok (row_of_entry entry ∷ delete_source entry.key rows)

abbrev pub text_or : Bytes → Bytes → Bytes
text_or new old = if is_empty new then old else new

-- UPDATE … WHERE source_key=? AND fingerprint=?
unfoldable pub revalidate : Bytes → Bytes → ℕ → Bytes → Bytes → List CacheRow → List CacheRow
unfolding eq_bytes unix_nano
revalidate key fingerprint at etag last_modified [] = []
revalidate key fingerprint at etag last_modified (row ∷ rows) =
    (if eq_bytes row.source_key key && eq_bytes row.fingerprint fingerprint
      then record row {
        validated_at = unix_nano at;
        etag = text_or etag row.etag;
        last_modified = text_or last_modified row.last_modified;
      }
      else row)
    ∷ revalidate key fingerprint at etag last_modified rows

abbrev pub has_source : Bytes → Option CacheRow → Bool
has_source fingerprint none = false
has_source fingerprint (some row) = eq_bytes row.fingerprint fingerprint

-- ValidateSourceCache: the update works or not, and then its count of rows. It commits by itself.
unfoldable pub validate_source_cache :
    Bool
    → Bool
    → Bytes
    → Bytes
    → ℕ
    → Bytes
    → Bytes
    → List CacheRow
    → Result CacheError (Unit {0}) × List CacheRow
unfolding eq_bytes find_source revalidate
validate_source_cache updates counts key fingerprint at etag last_modified rows =
    if too_long etag last_modified
    then (err cache_invalid_validator, rows)
    else if not updates
    then (err cache_validate, rows)
    else (
      fail_if (not counts || not (has_source fingerprint (find_source key rows))) cache_missing,
      revalidate key fingerprint at etag last_modified rows,
    )

-- DeleteSourceCache
unfoldable pub delete_source_cache :
    Bool → Bytes → List CacheRow → Result CacheError (Unit {0}) × List CacheRow
unfolding delete_source
delete_source_cache works key rows =
    if works then (ok tt, delete_source key rows) else (err cache_delete, rows)

-- A source that is gone, or that was validated eight days ago.
abbrev pub is_stale : (Bytes → Bool) → ℕ → CacheRow → Bool
is_stale live now row =
    not (live row.source_key) || not (ltb now (time_of row.validated_at + 691200000000000))

-- The deletions of PruneSourceCache, up to the first that fails.
unfoldable pub delete_stale :
    (Bytes → Bool) → List CacheRow → List CacheRow → Result CacheError (Unit {0}) × List CacheRow
unfolding delete_source
delete_stale works [] rows = (ok tt, rows)
delete_stale works (row ∷ stale) rows =
    let rest = delete_stale works stale (delete_source row.source_key rows) in
    if works row.source_key then rest else (err cache_delete, rows)

-- PruneSourceCache, with what the reading of the rows answers.
unfoldable pub prune_source_cache :
    Result CacheError (Unit {0})
    → (Bytes → Bool)
    → (Bytes → Bool)
    → ℕ
    → List CacheRow
    → Result CacheError (Unit {0}) × List CacheRow
unfolding delete_stale
prune_source_cache (err fault) works live now rows = (err fault, rows)
prune_source_cache (ok done) works live now rows =
    delete_stale works (keep_if (is_stale live now) rows) rows
