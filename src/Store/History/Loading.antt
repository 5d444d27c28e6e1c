-- ===== src/Store/History/Loading.antt =====
-- Load of internal/state/sqlite.go gives back the observations that were stored.
use egressfox.Base.Sort.{All-sort}
use egressfox.Base.Mapped.{keep_if-map, sort-map}
use egressfox.Base.Pairs.{All-imp}
use egressfox.Observation.Summary.{compare_samples, earlier, summarize}
use egressfox.Store.History.{
  restore_rows, in_query, params_of, load, checked_row, unix_nano, LoadCalls, sort,
  summarize_history, summarized,
}
use egressfox.Artifact.{profile_equal}
use egressfox.Store.History.Times.{InRange, time_of-unix_nano, leb_ℤ-unix_nano, ltb_ℤ-unix_nano}
use egressfox.Observation.Valid.{IsValid, restored_params, new-restored_params}
use egressfox.Endpoint.{revision_equal, id_string, is_empty, invalid_endpoint_id}
use egressfox.Observation.{Observation, new, zero_time}
use egressfox.Base.Bytes.{Bytes, eq_bytes_sound, eq_bytes_refl, compare_byte}
use egressfox.Store.History.Rows.{
  persistence_fields, KeyFields, HistoryRow, fields_equal, row_of, older, fields_with,
}
use egressfox.Observation.Keys.{Key, same_key, new_key}
use egressfox.Base.{
  ℕ, Option, ◌≡◌, Bool, some, ok, ◌&&◌, Bool-cases, [], leb, arith, true, inl, none, inr, List, All,
  map, keep_if, ◌<◌, ◌∷◌, ◌≤◌, refl, ◌||◌, ltb, false, ℤ, ◌+◌, neg_part, ◌-◌, pos_part,
}

abbrev fields_or_none : Option KeyFields → KeyFields
fields_or_none (some fields) = fields
fields_or_none none = record {
  endpoint_id = [];
  connection_revision = [];
  target_id = [];
  target_revision = [];
  vantage_id = [];
  kind = 0;
  profile = record { engine = 0; version = []; renderer_schema = []; media_type = [] };
}

-- The row of a stored observation.
abbrev pub row_for : Observation → HistoryRow
row_for v = row_of (fields_or_none (persistence_fields v.key)) v

abbrev pub IsValidKey : Key → Type 0
IsValidKey k =
    (new_key k.connection k.target k.vantage k.kind k.profile ≡ ok k)
    × ((digest : Bytes) × (k.connection.revision ≡ some digest))
    × ((digest : Bytes) × (k.target.revision ≡ some digest))

-- An observation that Append can store and Load can restore.
pub record IsKept (sha256 : Bytes → Bytes) (v : Observation) : Type 0 where
  pub valid : IsValid sha256 v
  pub has_key : IsValidKey v.key
  pub started : InRange v.started_at
  pub completed : InRange v.completed_at

-- The observations that Load asks for.
abbrev pub wanted : Key → ℕ → ℕ → Observation → Bool
wanted key from through v =
    same_key v.key key && leb from v.completed_at && leb v.completed_at through

nonempty_id : (k : Key) → IsValidKey k → id_string k.connection.id ≡ k.connection.id
unfolding new_key id_string
nonempty_id k h = elim (Bool-cases (is_empty k.connection.id)) [
  | inl e ↦ absurd (ground (arith, h.0, eq_bytes_refl invalid_endpoint_id))
  | inr e ↦ rw e
]

fields_equal-same_key :
    (k j : Key) (g : KeyFields)
    → IsValidKey k
    → IsValidKey j
    → persistence_fields j ≡ some g
    → fields_equal (fields_or_none (persistence_fields k)) g ≡ same_key k j
unfolding persistence_fields fields_equal same_key revision_equal
fields_equal-same_key k j g h i e =
    let (connection, r) = h.1 in
    let (target, t) = h.2 in
    let (connection', r') = i.1 in
    let (target', t') = i.2 in ground (arith, nonempty_id k h, nonempty_id j i)

same_key-eq : (k j : Key) → IsValidKey k → IsValidKey j → same_key k j ≡ true → k ≡ j
unfolding same_key revision_equal profile_equal
same_key-eq k j h i e =
    let (connection, r) = h.1 in
    let (target, t) = h.2 in
    let (connection', r') = i.1 in
    let (target', t') = i.2 in
    ground (
      arith,
      eq_bytes_sound k.connection.id j.connection.id,
      eq_bytes_sound connection connection',
      eq_bytes_sound k.target.id j.target.id,
      eq_bytes_sound target target',
      eq_bytes_sound k.vantage j.vantage,
      eq_bytes_sound k.profile.version j.profile.version,
      eq_bytes_sound k.profile.renderer_schema j.profile.renderer_schema,
      eq_bytes_sound k.profile.media_type j.profile.media_type,
    )

module _ (sha256 : Bytes → Bytes) (key : Key) (valid_key : IsValidKey key) where
  params_of-row_for :
      (v : Observation)
      → IsKept sha256 v
      → v.key ≡ key
      → params_of key (row_for v) ≡ restored_params v
  params_of-row_for v kept same = ground (
    arith,
    time_of-unix_nano v.started_at kept.started,
    time_of-unix_nano v.completed_at kept.completed,
    kept.valid.known_outcome,
    same,
  )

  pub checked_row-row_for :
      (v : Observation)
      → IsKept sha256 v
      → v.key ≡ key
      → checked_row v.sample_id (new sha256 (params_of key (row_for v))) ≡ ok v
  checked_row-row_for v kept same =
      rw (params_of-row_for v kept same, new-restored_params sha256 v kept.valid)
        (rw (eq_bytes_refl v.sample_id))

  restore_rows-row_for :
      (scans : Bytes → Bool) (vs : List Observation)
      → ((s : Bytes) → scans s ≡ true)
      → All (λ v. IsKept sha256 v × (v.key ≡ key)) vs
      → restore_rows sha256 scans key (map row_for vs) ≡ ok vs
  unfolding restore_rows
  restore_rows-row_for scans [] works h = refl
  restore_rows-row_for scans (v ∷ vs) works h =
      simp
        (
          works v.sample_id,
          checked_row-row_for v h.0.0 h.0.1,
          restore_rows-row_for scans vs works h.1,
        )
        refl

  in_query-row_for :
      (g : KeyFields) (from through : ℕ) (v : Observation)
      → persistence_fields key ≡ some g
      → InRange from
      → InRange through
      → IsKept sha256 v
      → in_query g (unix_nano from) (unix_nano through) (row_for v) ≡ wanted key from through v
  in_query-row_for g from through v e h k kept =
      simp
        (
          fields_equal-same_key v.key key g kept.has_key valid_key e,
          leb_ℤ-unix_nano from v.completed_at h kept.completed,
          leb_ℤ-unix_nano v.completed_at through kept.completed k,
        )
        refl

  older-row_for :
      (v w : Observation)
      → IsKept sha256 v
      → IsKept sha256 w
      → older (row_for v) (row_for w) ≡ earlier v w
  unfolding older compare_samples compare_byte
  older-row_for v w kept kept' =
      simp
        (
          ltb_ℤ-unix_nano v.completed_at w.completed_at kept.completed kept'.completed,
          ltb_ℤ-unix_nano w.completed_at v.completed_at kept'.completed kept.completed,
        )
        (ground arith)

  wanted-key :
      (from through : ℕ) (vs : List Observation)
      → All (IsKept sha256) vs
      → All (λ v. IsKept sha256 v × (v.key ≡ key)) (keep_if (wanted key from through) vs)
  wanted-key from through [] h = tt
  wanted-key from through (v ∷ vs) h = elim (Bool-cases (wanted key from through v)) [
    | inl e ↦ rw e (
      (h.0, same_key-eq v.key key h.0.has_key valid_key (ground arith)),
      wanted-key from through vs h.1,
    )
    | inr e ↦ rw e (wanted-key from through vs h.1)
  ]

  valid_fields : (g : KeyFields) × (persistence_fields key ≡ some g)
  unfolding persistence_fields
  valid_fields =
      let (connection, r) = valid_key.1 in
      let (target, t) = valid_key.2 in
      (fields_or_none (fields_with key (some connection) (some target)), rw (r, t))

  -- Where every stored observation is valid and its times fit an int64 of nanoseconds, a Load of a
  -- valid key whose calls all work returns exactly the observations of this key that completed in
  -- the window, in the order of their completion, unchanged.
  pub load-row_for :
      (calls : LoadCalls) (from through : ℕ) (values : List Observation)
      → All (IsKept sha256) values
      → (0 < from) × (from ≤ through) × InRange from × InRange through
      → (calls.queries ≡ true) × ((s : Bytes) → calls.scans s ≡ true) × (calls.ends ≡ true)
      → load sha256 calls key from through (map row_for values)
        ≡ ok (sort earlier (keep_if (wanted key from through) values))
  unfolding load
  load-row_for calls from through values h (low, order, in_from, in_through) works =
      let (g, has_fields) = valid_fields in
      let chosen = keep_if (wanted key from through) values in
      let chosen_kept = wanted-key from through values h in
      let kept_ones : All (IsKept sha256) chosen =
        All-imp (λ v. IsKept sha256 v × (v.key ≡ key)) (IsKept sha256) chosen (λ v p. p.0)
          chosen_kept in
      let filtered =
        keep_if-map row_for (IsKept sha256) (wanted key from through)
          (in_query g (unix_nano from) (unix_nano through)) values
          (λ v kept. in_query-row_for g from through v has_fields in_from in_through kept) h in
      let sorted = sort-map row_for (IsKept sha256) earlier older older-row_for chosen kept_ones in
      let restored =
        restore_rows-row_for calls.scans (sort earlier chosen) works.1
          (All-sort earlier (λ v. IsKept sha256 v × (v.key ≡ key)) chosen chosen_kept) in
      let window : (zero_time from || zero_time through || ltb through from) ≡ false =
        ground arith in
      simp (window, has_fields, works.0, works.2, filtered, sorted, restored) refl

  -- So a summary of the stored observations is that of the observations themselves.
  pub summarize_history-row_for :
      (calls : LoadCalls) (now : ℕ) (window freshness : ℤ) (values : List Observation)
      → let from = now + neg_part window - pos_part window in
        All (IsKept sha256) values
        → (0 < from) × (from ≤ now) × InRange from × InRange now
        → (calls.queries ≡ true) × ((s : Bytes) → calls.scans s ≡ true) × (calls.ends ≡ true)
        → summarize_history sha256 calls key now window freshness (map row_for values)
          ≡ summarized (
              summarize key
                (sort earlier (keep_if (wanted key from now) values))
                now
                window
                freshness)
  unfolding summarize_history
  summarize_history-row_for calls now window freshness values h times works =
      rw (load-row_for calls (now + neg_part window - pos_part window) now values h times works)
        refl
