-- ===== src/Examples/Histories.antt =====
-- The history of one observation.
use egressfox.Store.History.Pruning.{IsPruned, append-IsPruned}
use egressfox.Observation.Summary.{earlier}
use egressfox.Base.Sort.{sort}
use egressfox.Store.History.Rows.{KeyFields, persistence_fields, row_of}
use egressfox.Store.History.Restoring.{restore_rows-row_of}
use egressfox.Endpoint.{id_string}
use egressfox.Store.History.Loading.{IsValidKey, IsKept, row_for, wanted, load-row_for}
use egressfox.Base.Bytes.{Bytes, eq_bytes}
use egressfox.Observation.Keys.{Key, new_key}
use egressfox.Observation.{new, Params, Observation}
use egressfox.Store.History.{restore_rows, AppendCalls, Tables, load, append, LoadCalls, Retention}
use egressfox.Base.{◌-◌, pos, true, [], ◌≡◌, arith, ok, map, refl, ◌∷◌, some, ◌⊎◌, keep_if, err}
use egressfox.Examples.Receipts.{digest_32}
use egressfox.Examples.Checkpoints.{stored_connection, stored_context}
use egressfox.Examples.Samples.{test_now}
use egressfox.Store.{live, StoreError}
use egressfox.Observation.Valid.{new-IsValid}

abbrev history_key : Key
history_key = record {
  connection = stored_connection;
  target = stored_context.target;
  vantage = stored_context.vantage;
  kind = stored_context.kind;
  profile = stored_context.profile;
}

abbrev digest : Bytes → Bytes
digest b = digest_32

abbrev given : Params
given = record {
  key = history_key;
  started_at = test_now - 2000;
  completed_at = test_now - 1000;
  duration = pos 900;
  outcome = 1;
  status_code = pos 200;
}

abbrev observation : Observation
observation = record {
  key = history_key;
  started_at = test_now - 2000;
  completed_at = test_now - 1000;
  duration = 900;
  outcome = 1;
  status_code = 200;
  sample_id = digest_32;
}

abbrev retention : Retention
retention = record { max_age = pos 60000000000; max_per_key = pos 1; max_rows = pos 1 }

abbrev appending : AppendCalls
appending = record {
  context = live;
  begins = true;
  inserts = true;
  prunes_age = true;
  prunes_checkpoints = true;
  prunes_key = true;
  prunes_all = true;
  commits = true;
}

abbrev empty_tables : Tables
empty_tables = record { observations = []; checkpoints = [] }

append-IsPruned_example :
    let run = append appending retention observation test_now empty_tables in
    ((run.0 ≡ ok tt)
      × ((fields : KeyFields) × (persistence_fields history_key ≡ some fields)
          × IsPruned retention fields test_now run.1.observations))
    ⊎ (((fault : StoreError) × (run.0 ≡ err fault)) × (run.1 ≡ empty_tables))
append-IsPruned_example = append-IsPruned appending retention observation test_now empty_tables

admitted : new digest given ≡ ok observation
unfolding new new_key eq_bytes id_string
admitted = refl

has_key :
    new_key history_key.connection history_key.target history_key.vantage history_key.kind
      history_key.profile
    ≡ ok history_key
unfolding new_key eq_bytes id_string
has_key = refl

key-IsValidKey : IsValidKey history_key
key-IsValidKey = (has_key, (digest_32, refl), (digest_32, refl))

observation-IsKept : IsKept digest observation
observation-IsKept = record {
  valid = new-IsValid digest given observation admitted;
  has_key = key-IsValidKey;
  started = omega arith;
  completed = omega arith;
}

abbrev loading : LoadCalls
loading = record { context = live; queries = true; scans = λ s. true; ends = true }

abbrev stored_row_fields : KeyFields
stored_row_fields = record {
  endpoint_id = stored_connection.id;
  connection_revision = digest_32;
  target_id = history_key.target.id;
  target_revision = digest_32;
  vantage_id = history_key.vantage;
  kind = history_key.kind;
  profile = history_key.profile;
}

load-row_for_example :
    load digest loading history_key (test_now - 5000) test_now (map row_for (observation ∷ []))
    ≡ ok (sort earlier (keep_if (wanted history_key (test_now - 5000) test_now) (observation ∷ [])))
load-row_for_example =
    load-row_for digest history_key key-IsValidKey loading (test_now - 5000) test_now
      (observation ∷ []) (observation-IsKept, tt) (omega arith) (refl, (λ s. refl), refl)

stored_fields : persistence_fields history_key ≡ some stored_row_fields
unfolding persistence_fields id_string
stored_fields = refl

restore_rows-row_of_example :
    restore_rows digest (λ s. true) history_key (map (row_of stored_row_fields) (observation ∷ []))
    ≡ ok (observation ∷ [])
restore_rows-row_of_example =
    restore_rows-row_of digest history_key stored_row_fields (λ s. true) (observation ∷ [])
      stored_fields (λ s. refl) ((given, admitted, refl, omega arith, omega arith), tt)
