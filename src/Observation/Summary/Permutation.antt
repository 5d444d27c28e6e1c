-- ===== src/Observation/Summary/Permutation.antt =====
-- Summarize of internal/observation/summary.go and the order in which evidence arrives.
use mathlib.Core.List.{Perm, Permᴰ}
use mathlib.Core.Logic.{∥∥₁_elim}
use egressfox.Base.{
  ℕ, ◌≡◌, refl, ap, ◌∙◌, Bool, true, not, ◌&&◌, ◌||◌, List, [], ◌∷◌, ◌-◌, arith, ltb, leb_ℤ, pos,
  keep_if, Result, ok, err, fail_if, ◌>>=◌, ◌>>◌, if◌then◌else◌, ℤ, pos_part, Bool-cases, inl, inr,
}
use egressfox.Base.Bytes.{
  compare_bytes_flip, compare_bytes_same, compare_bytes_trans, Bytes, is_below, Sign, compare_byte,
  compare_bytes, then_sign,
}
use egressfox.Base.Sort.{
  sort, sort-Permᴰ, AllSeparated, IsStrictOrder, IsComparison, IsComparison-IsStrictOrder,
}
use egressfox.Base.Perms.{keep_if-Permᴰ, AllSeparated-keep_if}
use egressfox.Observation.{Observation, zero_time}
use egressfox.Observation.Keys.{Key, same_key, new_key}
use egressfox.Observation.Summary.{
  Summary, SummaryError, different_key, time_bounds, key_checked, in_window, earlier,
  compare_samples, summarize, summary_of,
}

pub all_keys : Key → List Observation → Bool
all_keys key [] = true
all_keys key (v ∷ vs) = same_key key v.key && all_keys key vs

abbrev pub inside : ℕ → ℕ → Observation → Bool
inside cutoff now v = not (ltb v.completed_at cutoff || ltb now v.completed_at)

-- The loop returns the values of the window, or an error when any key differs.
pub in_window-keep_if :
    (key : Key) (cutoff now : ℕ) (vs : List Observation)
    → in_window key cutoff now vs
      ≡ (if all_keys key vs then ok (keep_if (inside cutoff now) vs) else err different_key)
unfolding in_window all_keys
in_window-keep_if key cutoff now [] = refl
in_window-keep_if key cutoff now (v ∷ vs) = ground (arith, in_window-keep_if key cutoff now vs)

all_keys-Permᴰ :
    (key : Key) {xs ys : List Observation} → Permᴰ xs ys → all_keys key xs ≡ all_keys key ys
unfolding all_keys
all_keys-Permᴰ key Permᴰ.nil = refl
all_keys-Permᴰ key (Permᴰ.cons e p) = cc (e, all_keys-Permᴰ key p)
all_keys-Permᴰ key (Permᴰ.swap e f) = rw (e, f) (ground arith)
all_keys-Permᴰ key (Permᴰ.trans p q) = all_keys-Permᴰ key p ∙ all_keys-Permᴰ key q

-- What the comparison looks at.
abbrev Stamp : Type 0
Stamp = ℕ × Bytes

abbrev stamp : Observation → Stamp
stamp v = (v.completed_at, v.sample_id)

compare_stamps : Stamp → Stamp → Sign
compare_stamps a b = then_sign (compare_byte a.0 b.0) (compare_bytes a.1 b.1)

stamps-IsComparison : IsComparison compare_stamps
unfolding compare_stamps compare_byte
stamps-IsComparison = record {
  flips = λ a b. ground (arith, compare_bytes_flip a.1 b.1);
  same_is_equal = λ a b h. ground (arith, compare_bytes_same a.1 b.1);
  below_trans = λ a b c h k. ground (
    arith,
    compare_bytes_trans a.1 b.1 c.1,
    compare_bytes_same a.1 b.1,
    compare_bytes_same b.1 c.1,
  );
}

-- The comparison of sort.Slice in Summarize is a strict order.
pub earlier-IsStrictOrder : IsStrictOrder earlier
unfolding compare_samples compare_stamps
earlier-IsStrictOrder = record {
  asymmetric = λ x y h. order.asymmetric (stamp x) (stamp y) h;
  not_above_trans = λ x y z h k. order.not_above_trans (stamp x) (stamp y) (stamp z) h k;
}
  where
    order : IsStrictOrder (λ a b. is_below (compare_stamps a b))
    order = IsComparison-IsStrictOrder compare_stamps stamps-IsComparison

kept_agree :
    (key : Key) {xs ys : List Observation} (cutoff now : ℕ) (freshness : ℕ)
    → Permᴰ xs ys
    → AllSeparated earlier xs
    → (in_window key cutoff now xs >>= λ kept.
        ok (summary_of key now freshness (sort earlier kept)))
      ≡ (in_window key cutoff now ys >>= λ kept.
          ok (summary_of key now freshness (sort earlier kept)))
kept_agree key {xs} {ys} cutoff now freshness p h =
    rw
      (
        in_window-keep_if key cutoff now xs,
        in_window-keep_if key cutoff now ys,
        all_keys-Permᴰ key p,
      )
      (elim (Bool-cases (all_keys key ys)) [
        | inl e ↦ rw e (ap (λ vs. ok (summary_of key now freshness vs)) sorted)
        | inr e ↦ rw e refl
      ])
  where
    sorted :
        sort earlier (keep_if (inside cutoff now) xs)
        ≡ sort earlier (keep_if (inside cutoff now) ys)
    sorted =
        sort-Permᴰ earlier earlier-IsStrictOrder (keep_if-Permᴰ (inside cutoff now) p)
          (AllSeparated-keep_if (inside cutoff now) earlier xs h)

summarize-Permᴰ :
    (key : Key) {xs ys : List Observation} (now : ℕ) (window freshness : ℤ)
    → Permᴰ xs ys
    → AllSeparated earlier xs
    → summarize key xs now window freshness ≡ summarize key ys now window freshness
unfolding summarize
summarize-Permᴰ key now window freshness p h =
    ap
      (λ r. key_checked (new_key key.connection key.target key.vantage key.kind key.profile) (
        fail_if (zero_time now || leb_ℤ window (pos 0) || leb_ℤ freshness (pos 0)) time_bounds
        >> r))
      (kept_agree key (now - pos_part window) now (pos_part freshness) p h)

Summary-set : IsSet (Result SummaryError Summary)
Summary-set = hlevel

-- Evidence may arrive in any order: where no two observations share both completion time and
-- sample id, Summarize returns the same summary, or the same error, for every rearrangement.
pub summarize-perm :
    (key : Key) (xs ys : List Observation) (now : ℕ) (window freshness : ℤ)
    → Perm xs ys
    → AllSeparated earlier xs
    → summarize key xs now window freshness ≡ summarize key ys now window freshness
summarize-perm key xs ys now window freshness p h =
    ∥∥₁_elim p (Summary-set _ _) (λ d. summarize-Permᴰ key now window freshness d h)
