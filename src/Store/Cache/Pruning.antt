-- ===== src/Store/Cache/Pruning.antt =====
-- What PruneSourceCache of internal/state/source_cache.go removes.
use egressfox.Store.Cache.{
  CacheRow, find_source, delete_source, prune_source_cache, delete_stale, is_stale, time_of,
}
use egressfox.Base.{
  ℕ, List, Bool, ◌≡◌, All, false, not, ok, ◌∷◌, keep_if, true, some, [], ◌||◌, Bool-cases, arith,
  inl, ◌∙◌, inr, ap, refl, subst, ◌<◌, ◌+◌,
}
use egressfox.Base.Pairs.{AllPairs, All-imp}
use egressfox.Base.Bytes.{eq_bytes_sound, eq_bytes_refl, Bytes, eq_bytes}
use egressfox.Store.Cache.Fidelity.{find_source-delete_source}

abbrev OtherSource : Bytes → CacheRow → Type 0
OtherSource key row = eq_bytes row.source_key key ≡ false

-- The primary key of the table.
abbrev pub HasKeys : List CacheRow → Type 0
HasKeys rows = AllPairs (λ r s. eq_bytes r.source_key s.source_key ≡ false) rows

find_source-delete_stale :
    (works : Bytes → Bool) (key : Bytes) (stale rows : List CacheRow)
    → All (OtherSource key) stale
    → find_source key (delete_stale works stale rows).1 ≡ find_source key rows
unfolding delete_stale
find_source-delete_stale works key [] rows h = refl
find_source-delete_stale works key (row ∷ stale) rows h = elim (Bool-cases (works row.source_key)) [
  | inl e ↦ rw e (
      find_source-delete_stale works key stale (delete_source row.source_key rows) h.1
      ∙ (find_source-delete_source key row.source_key rows ∙ rw h.0 refl))
  | inr e ↦ rw e refl
]

All-keep_if :
    (P : CacheRow → Type 0) (chosen : CacheRow → Bool) (rows : List CacheRow)
    → All P rows
    → All P (keep_if chosen rows)
All-keep_if P chosen [] h = tt
All-keep_if P chosen (row ∷ rows) h = elim (Bool-cases (chosen row)) [
  | inl e ↦ rw e (h.0, All-keep_if P chosen rows h.1)
  | inr e ↦ rw e (All-keep_if P chosen rows h.1)
]

others_of_key :
    (key : Bytes) (x : CacheRow) (rows : List CacheRow)
    → eq_bytes x.source_key key ≡ true
    → All (λ s. eq_bytes x.source_key s.source_key ≡ false) rows
    → All (OtherSource key) rows
others_of_key key x [] e h = tt
others_of_key key x (row ∷ rows) e h = (
  ground (
    arith,
    h.0,
    eq_bytes_sound x.source_key key e,
    eq_bytes_sound row.source_key key,
    eq_bytes_refl key,
  ),
  others_of_key key x rows e h.1,
)

none_stale_of :
    (stale : CacheRow → Bool) (key : Bytes) (rows : List CacheRow) (row : CacheRow)
    → HasKeys rows
    → find_source key rows ≡ some row
    → stale row ≡ false
    → All (OtherSource key) (keep_if stale rows)
unfolding find_source
none_stale_of stale key [] row h found fresh = tt
none_stale_of stale key (x ∷ rows) row h found fresh =
    elim (Bool-cases (eq_bytes x.source_key key)) [
      | inl e ↦
          let same : x ≡ row = ground (arith, found, e) in
          let kept : stale x ≡ false = ap stale same ∙ fresh in
          rw kept (All-keep_if (OtherSource key) stale rows (others_of_key key x rows e h.0))
      | inr e ↦
          let rest = none_stale_of stale key rows row h.1 (ground (arith, found, e)) fresh in
          elim (Bool-cases (stale x)) [ inl s ↦ rw s (e, rest) | inr s ↦ rw s rest ]
    ]

abbrev has_key : Bytes → List CacheRow → Bool
has_key key [] = false
has_key key (row ∷ rows) = eq_bytes row.source_key key || has_key key rows

abbrev Covered : (CacheRow → Bool) → List CacheRow → CacheRow → Type 0
Covered old stale row = (not (old row) || has_key row.source_key stale) ≡ true

Covered-cons :
    (old : CacheRow → Bool) (s : CacheRow) (stale rows : List CacheRow)
    → All (Covered old stale) rows
    → All (Covered old (s ∷ stale)) rows
Covered-cons old s stale [] h = tt
Covered-cons old s stale (row ∷ rows) h = (ground (arith, h.0), Covered-cons old s stale rows h.1)

Covered-delete_source :
    (old : CacheRow → Bool) (s : CacheRow) (stale rows : List CacheRow)
    → All (Covered old (s ∷ stale)) rows
    → All (Covered old stale) (delete_source s.source_key rows)
unfolding delete_source
Covered-delete_source old s stale [] h = tt
Covered-delete_source old s stale (row ∷ rows) h =
    elim (Bool-cases (eq_bytes row.source_key s.source_key)) [
      | inl e ↦ rw e (Covered-delete_source old s stale rows h.1)
      | inr e ↦ rw e (
        ground (
          arith,
          h.0,
          e,
          eq_bytes_sound s.source_key row.source_key,
          eq_bytes_refl row.source_key,
          eq_bytes_refl s.source_key,
        ),
        Covered-delete_source old s stale rows h.1,
      )
    ]

Covered-start :
    (old : CacheRow → Bool) (rows : List CacheRow) → All (Covered old (keep_if old rows)) rows
Covered-start old [] = tt
Covered-start old (row ∷ rows) = elim (Bool-cases (old row)) [
  | inl e ↦
      let grown : row ∷ keep_if old rows ≡ keep_if old (row ∷ rows) = ground (arith, e) in
      subst (λ kept. All (Covered old kept) (row ∷ rows)) grown
        (
          ground (arith, eq_bytes_refl row.source_key),
          Covered-cons old row (keep_if old rows) rows (Covered-start old rows),
        )
  | inr e ↦
      let same : keep_if old rows ≡ keep_if old (row ∷ rows) = ground (arith, e) in
      subst (λ kept. All (Covered old kept) (row ∷ rows)) same
        (ground (arith, e), Covered-start old rows)
]

none_left :
    (old : CacheRow → Bool) (rows : List CacheRow)
    → All (Covered old []) rows
    → All (λ row. old row ≡ false) rows
none_left old [] h = tt
none_left old (row ∷ rows) h = (ground (arith, h.0), none_left old rows h.1)

delete_stale-All :
    (works : Bytes → Bool) (old : CacheRow → Bool) (stale rows : List CacheRow)
    → All (Covered old stale) rows
    → (delete_stale works stale rows).0 ≡ ok tt
    → All (λ row. old row ≡ false) (delete_stale works stale rows).1
unfolding delete_stale
delete_stale-All works old [] rows h e = none_left old rows h
delete_stale-All works old (s ∷ stale) rows h e = elim (Bool-cases (works s.source_key)) [
  | inl w ↦ rw w (
      delete_stale-All works old stale (delete_source s.source_key rows)
        (Covered-delete_source old s stale rows h) (ground (arith, e, w)))
  | inr w ↦ absurd (ground (arith, e, w))
]

-- The source is live, and it was validated less than eight days ago.
abbrev pub IsFresh : (Bytes → Bool) → ℕ → CacheRow → Type 0
IsFresh live now row =
    (live row.source_key ≡ true) × (now < time_of row.validated_at + 691200000000000)

IsFresh-is_stale :
    (live : Bytes → Bool) (now : ℕ) (row : CacheRow)
    → IsFresh live now row
    → is_stale live now row ≡ false
IsFresh-is_stale live now row h = ground (arith, h)

is_stale-IsFresh :
    (live : Bytes → Bool) (now : ℕ) (row : CacheRow)
    → is_stale live now row ≡ false
    → IsFresh live now row
is_stale-IsFresh live now row h = ground (arith, h)

-- Whichever deletions fail, PruneSourceCache keeps every row of a live source that was validated less
-- than eight days ago; and when it succeeds, it leaves no other row. The rows have different keys.
pub prune_source_cache_exact :
    (works live : Bytes → Bool) (now : ℕ) (rows : List CacheRow)
    → HasKeys rows
    → let run = prune_source_cache (ok tt) works live now rows in
      ((key : Bytes) (row : CacheRow)
        → find_source key rows ≡ some row
        → IsFresh live now row
        → find_source key run.1 ≡ some row)
      × (run.0 ≡ ok tt → All (IsFresh live now) run.1)
unfolding prune_source_cache
prune_source_cache_exact works live now rows keys =
    let stale = is_stale live now in
    (
      (λ key row found fresh.
          find_source-delete_stale works key (keep_if stale rows) rows
            (none_stale_of stale key rows row keys found (IsFresh-is_stale live now row fresh))
          ∙ found),
      λ e.
          All-imp (λ row. is_stale live now row ≡ false) (IsFresh live now)
            (delete_stale works (keep_if stale rows) rows).1 (is_stale-IsFresh live now)
            (delete_stale-All works stale (keep_if stale rows) rows (Covered-start stale rows) e),
    )
