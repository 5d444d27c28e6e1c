-- ===== src/Store/Cache/Fidelity.antt =====
-- What the cache of internal/state/source_cache.go keeps.
use egressfox.Observation.{unix_epoch}
use egressfox.Store.Cache.{
  CacheEntry, find_source, delete_source, CacheRow, entry_invalid, save_source_cache,
  load_source_cache, entry_found, row_of_entry, cache_invalid, source_fits, cache_write,
}
use egressfox.Store.History.Rows.{unix_nano}
use egressfox.Base.{
  ℕ, wrap_int64, length, List, ◌<◌, ◌≡◌, ◌+◌, ◌^◌, false, if◌then◌else◌, pos, true, none, ◌-◌, some,
  ok, arith, ◌∷◌, ◌≤◌, >>-eq-ok, [], not, ◌||◌, subst, refl,
}
use egressfox.Base.Bytes.{eq_bytes_sound, eq_bytes_refl, Bytes, eq_bytes}

pub find_source-delete_source :
    (k j : Bytes) (rows : List CacheRow)
    → find_source k (delete_source j rows) ≡ (if eq_bytes j k then none else find_source k rows)
unfolding find_source delete_source
find_source-delete_source k j [] = ground arith
find_source-delete_source k j (row ∷ rows) = ground (
  arith,
  find_source-delete_source k j rows,
  eq_bytes_sound row.source_key k,
  eq_bytes_sound row.source_key j,
  eq_bytes_sound j k,
  eq_bytes_refl k,
  eq_bytes_refl j,
)

-- The times that a row can hold and a load accepts.
abbrev pub IsCacheTime : CacheEntry → Type 0
IsCacheTime entry = (unix_epoch < entry.accepted_at) × (entry.validated_at < unix_epoch + 2 ^ 63)

time_back : (t : ℕ) → unix_epoch < t → t < unix_epoch + 2 ^ 63 → unix_nano t ≡ pos (t - unix_epoch)
unfolding unix_nano wrap_int64
time_back t h k = ground arith

module _ (sha256 : Bytes → Bytes) (digest : (b : Bytes) → length (sha256 b) ≡ 32) where
  found_entry :
      (entry : CacheEntry)
      → IsCacheTime entry
      → entry_invalid sha256 entry ≡ false
      → length entry.fingerprint ≡ 32
      → entry_found sha256 entry.key entry.fingerprint (some (row_of_entry sha256 entry))
        ≡ ok (some entry)
  found_entry entry (late, early) valid size =
      let ordered : entry.accepted_at ≤ entry.validated_at = ground (arith, valid) in
      let accepted = time_back entry.accepted_at late (omega (arith, ordered, early)) in
      let validated = time_back entry.validated_at (omega (arith, ordered, late)) early in
      ground (
        arith,
        valid,
        size,
        digest entry.body,
        eq_bytes_refl (sha256 entry.body),
        eq_bytes_refl entry.fingerprint,
        accepted,
        validated,
        ordered,
      )

  -- When SaveSourceCache succeeds, a load of the source with its fingerprint finds the entry as it was
  -- saved, and a load of any other source finds what it found before, where the times lie after the
  -- Unix epoch and fit an int64 of nanoseconds.
  pub load_source_cache-save_source_cache :
      (entry : CacheEntry) (rows new : List CacheRow)
      → IsCacheTime entry
      → save_source_cache sha256 true entry rows ≡ ok new
      → (load_source_cache sha256 true entry.key entry.fingerprint new ≡ ok (some entry))
        × ((key fingerprint : Bytes)
            → eq_bytes entry.key key ≡ false
            → load_source_cache sha256 true key fingerprint new
              ≡ load_source_cache sha256 true key fingerprint rows)
  unfolding save_source_cache load_source_cache find_source
  load_source_cache-save_source_cache entry rows new times h =
      let row = row_of_entry sha256 entry in
      let (valid, h1) = >>-eq-ok (entry_invalid sha256 entry) cache_invalid _ h in
      let (fits, h2) = >>-eq-ok (not true || not (source_fits sha256 row)) cache_write _ h1 in
      let last : row ∷ delete_source entry.key rows ≡ new = ground (arith, h2) in
      let back = found_entry entry times valid (ground (arith, fits)) in
      subst
        (λ rs.
          (load_source_cache sha256 true entry.key entry.fingerprint rs ≡ ok (some entry))
          × ((key fingerprint : Bytes)
              → eq_bytes entry.key key ≡ false
              → load_source_cache sha256 true key fingerprint rs
                ≡ load_source_cache sha256 true key fingerprint rows))
        last
        (
          rw (eq_bytes_refl entry.key) back,
          λ key fingerprint other.
              rw (other, find_source-delete_source key entry.key rows, other) refl,
        )
