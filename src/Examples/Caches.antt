-- ===== src/Examples/Caches.antt =====
-- A cache with a source that is live and one that is gone.
use egressfox.Store.Cache.Fidelity.{load_source_cache-save_source_cache}
use egressfox.Store.Cache.Pruning.{HasKeys, prune_source_cache_exact, IsFresh}
use egressfox.Base.Bytes.{eq_bytes, Bytes, ascii}
use egressfox.Store.Cache.{
  CacheRow, save_source_cache, prune_source_cache, CacheEntry, load_source_cache, row_of_entry,
  find_source,
}
use egressfox.Base.{true, Bool, ok, [], ◌∷◌, ◌-◌, ◌≡◌, refl, some, false, All, arith}
use egressfox.Examples.Receipts.{digest_32}
use egressfox.Examples.Samples.{test_now}

abbrev digest : Bytes → Bytes
digest b = digest_32

abbrev entry : CacheEntry
entry = record {
  key = ascii "a";
  fingerprint = digest_32;
  body = ascii "body";
  content_type = ascii "text/plain";
  etag = ascii "v1";
  last_modified = [];
  accepted_at = test_now - 1000;
  validated_at = test_now;
}

abbrev cached : CacheRow
cached = row_of_entry digest entry

abbrev gone : CacheRow
gone = record cached { source_key = ascii "b" }

saves : save_source_cache digest true entry [] ≡ ok (cached ∷ [])
unfolding save_source_cache
saves = refl

load_source_cache-save_source_cache_example :
    (load_source_cache digest true (ascii "a") digest_32 (cached ∷ []) ≡ ok (some entry))
    × ((key fingerprint : Bytes)
        → eq_bytes (ascii "a") key ≡ false
        → load_source_cache digest true key fingerprint (cached ∷ [])
          ≡ load_source_cache digest true key fingerprint [])
load_source_cache-save_source_cache_example =
    load_source_cache-save_source_cache digest (λ b. refl) entry [] (cached ∷ []) (omega arith)
      saves

abbrev is_live : Bytes → Bool
is_live key = eq_bytes key (ascii "a")

two_keys : HasKeys (cached ∷ gone ∷ [])
unfolding eq_bytes
two_keys = ((refl, tt), (tt, tt))

prune_source_cache_exact_example :
    let run = prune_source_cache (ok tt) (λ key. true) is_live test_now (cached ∷ gone ∷ []) in
    ((key : Bytes) (row : CacheRow)
      → find_source key (cached ∷ gone ∷ []) ≡ some row
      → IsFresh is_live test_now row
      → find_source key run.1 ≡ some row)
    × (run.0 ≡ ok tt → All (IsFresh is_live test_now) run.1)
prune_source_cache_exact_example =
    prune_source_cache_exact (λ key. true) is_live test_now (cached ∷ gone ∷ []) two_keys
