-- ===== src/Observation/Summary/Bounds.antt =====
-- Counts, means and freshness in the summaries of internal/observation/summary.go.
use egressfox.Base.{
  ap, ◌∙◌, subst, ℕ, ◌+◌, ◌-◌, ◌*◌, ◌/◌, ◌≤◌, ◌≡◌, true, Option, none, some, List, [], ◌∷◌, arith,
  length, ℤ, pos_part, keep_if, All, length-keep_if-le, ok, Option-cases, inl, inr,
}
use egressfox.Base.Sort.{sort, length-sort, All-sort}
use egressfox.Base.Perms.{All-keep_if}
use egressfox.Observation.{Observation}
use egressfox.Observation.Keys.{Key}
use egressfox.Observation.Summary.{
  Summary, summarize, summary_of, earlier, count_successes, total_duration, last,
}
use egressfox.Observation.Summary.Permutation.{inside, in_window-keep_if}

count_successes-le-length : (vs : List Observation) → count_successes vs ≤ length vs
unfolding count_successes
count_successes-le-length [] = omega arith
count_successes-le-length (v ∷ vs) = ground (arith, count_successes-le-length vs)

abbrev pub Lasts : ℕ → Observation → Type 0
Lasts bound v = v.duration ≤ bound

total_duration-le :
    (bound : ℕ) (vs : List Observation)
    → All (Lasts bound) vs
    → total_duration vs ≤ bound * count_successes vs
unfolding total_duration count_successes
total_duration-le bound [] h = omega arith
total_duration-le bound (v ∷ vs) h = ground (arith, h.0, total_duration-le bound vs h.1)

mean_le : (total count bound : ℕ) → total ≤ bound * count → 1 ≤ count → total / count ≤ bound
mean_le total count bound h p = grind arith

last-All :
    (P : Observation → Type 0) (found : Option Observation) (vs : List Observation)
    (v : Observation)
    → ((w : Observation) → found ≡ some w → P w)
    → All P vs
    → last found vs ≡ some v
    → P v
unfolding last
last-All P found [] v start h e = start v e
last-All P found (w ∷ vs) v start h e =
    last-All P (some w) vs v (λ u q. let e : w ≡ u = cc in subst P e h.0) h.1 e

abbrev pub IsInside : ℕ → ℕ → Observation → Type 0
IsInside cutoff now v = (cutoff ≤ v.completed_at) × (v.completed_at ≤ now)

keep_if-IsInside :
    (cutoff now : ℕ) (vs : List Observation)
    → All (IsInside cutoff now) (keep_if (inside cutoff now) vs)
keep_if-IsInside cutoff now [] = tt
keep_if-IsInside cutoff now (v ∷ vs) = ground (arith, keep_if-IsInside cutoff now vs)

-- The values that a successful summary is made from.
abbrev pub sorted_window : List Observation → ℕ → ℤ → List Observation
sorted_window vs now window = sort earlier (keep_if (inside (now - pos_part window) now) vs)

summarize-eq-ok :
    (key : Key) (vs : List Observation) (now : ℕ) (window freshness : ℤ) (s : Summary)
    → summarize key vs now window freshness ≡ ok s
    → s ≡ summary_of key now (pos_part freshness) (sorted_window vs now window)
unfolding summarize
summarize-eq-ok key vs now window freshness s h =
    ground (arith, in_window-keep_if key (now - pos_part window) now vs)

summary_of_counts :
    (key : Key) (now freshness bound : ℕ) (values : List Observation) (most : ℕ)
    → All (Lasts bound) values
    → length values ≤ most
    → let s = summary_of key now freshness values in
      (s.successes ≤ s.samples) × (s.samples ≤ most) × (s.mean_success_duration ≤ bound)
unfolding summary_of
summary_of_counts key now freshness bound values most h shorter = (
  count_successes-le-length values,
  shorter,
  ground (
    arith,
    mean_le (total_duration values) (count_successes values) bound,
    total_duration-le bound values h,
  ),
)

latest_of_fresh :
    (key : Key) (now freshness : ℕ) (values : List Observation)
    → (summary_of key now freshness values).fresh ≡ true
    → (v : Observation) × ((summary_of key now freshness values).latest ≡ some v)
      × (last none values ≡ some v)
      × (now ≤ v.completed_at + freshness)
unfolding summary_of
latest_of_fresh key now freshness values h = elim (Option-cases (last none values)) [
  | inl e ↦ ground (arith, e)
  | inr (v, e) ↦ (v, e, e, ground (arith, e))
]

module _ (key : Key) (vs : List Observation) (now : ℕ) (window freshness : ℤ) (s : Summary)
    (summarized : summarize key vs now window freshness ≡ ok s) where
  -- A summary counts no more successes than samples and no more samples than values, and its mean
  -- duration of successes is within every bound on the durations of the values.
  pub summarize_counts :
      (bound : ℕ)
      → All (Lasts bound) vs
      → (s.successes ≤ s.samples) × (s.samples ≤ length vs) × (s.mean_success_duration ≤ bound)
  summarize_counts bound h =
      rw eq (summary_of_counts key now (pos_part freshness) bound _ _ lasts shorter)
    where
      window_values : List Observation
      window_values = keep_if (inside (now - pos_part window) now) vs

      eq : s ≡ summary_of key now (pos_part freshness) (sorted_window vs now window)
      eq = summarize-eq-ok key vs now window freshness s summarized

      lasts : All (Lasts bound) (sorted_window vs now window)
      lasts =
          All-sort earlier (Lasts bound) window_values
            (All-keep_if (inside (now - pos_part window) now) (Lasts bound) vs h)

      shorter : length (sorted_window vs now window) ≤ length vs
      shorter = omega (
        arith,
        length-sort earlier window_values,
        length-keep_if-le (inside (now - pos_part window) now) vs,
      )

  -- A fresh summary has a latest value, completed inside the window and within the freshness bound.
  pub summarize_fresh :
      s.fresh ≡ true
      → (v : Observation) × (s.latest ≡ some v)
        × IsInside (now - pos_part window) now v
        × (now ≤ v.completed_at + pos_part freshness)
  summarize_fresh h =
      let fresh_values = subst (λ t. t.fresh ≡ true) eq h in
      let (v, latest, at_end, close) =
        latest_of_fresh key now (pos_part freshness) values fresh_values in
      (
        v,
        ap (λ t. t.latest) eq ∙ latest,
        last-All (IsInside _ now) none values v (λ w e. cc) inside_all at_end,
        close,
      )
    where
      values : List Observation
      values = sorted_window vs now window

      eq : s ≡ summary_of key now (pos_part freshness) values
      eq = summarize-eq-ok key vs now window freshness s summarized

      inside_all : All (IsInside (now - pos_part window) now) values
      inside_all =
          All-sort earlier (IsInside (now - pos_part window) now) _
            (keep_if-IsInside (now - pos_part window) now vs)
