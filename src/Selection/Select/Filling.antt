-- ===== src/Selection/Select/Filling.antt =====
-- The loop of Select in internal/selection/selection.go that fills the selection up.
use egressfox.Base.{
  ◌≤◌, ◌<◌, ◌≡◌, true, false, ◌||◌, List, [], ◌∷◌, ◌++◌, arith, pos_part, All, All-append, length,
  length-append, Bool-cases, inl, inr, if◌then◌else◌,
}
use egressfox.Base.Pairs.{AllPairs, AllPairs-append-one}
use egressfox.Observation.Keys.{ConnectionRef, connection_equal}
use egressfox.Selection.{Policy, Ranked}
use egressfox.Selection.Rank.{contains_ranked}
use egressfox.Selection.Rank.Search.{
  contains_ranked-append, contains_ranked-last, contains_ranked-false,
}
use egressfox.Selection.Rank.Stability.{Distinct}
use egressfox.Selection.Select.{full, fill}

abbrev pub HasRevision : Ranked → Type 0
HasRevision r = connection_equal r.ref r.ref ≡ true

abbrev pub Contains : List Ranked → Ranked → Type 0
Contains selected r = contains_ranked selected r.ref ≡ true

module _ (policy : Policy) where
  abbrev grow : List Ranked → Ranked → List Ranked
  grow selected r =
      if full policy selected || contains_ranked selected r.ref
      then selected
      else selected ++ r ∷ []

  grow_rule {κ} :
      (P : List Ranked → Type κ) (selected : List Ranked) (r : Ranked)
      → P selected
      → (full policy selected ≡ false
          → contains_ranked selected r.ref ≡ false
          → P (selected ++ r ∷ []))
      → P (grow selected r)
  grow_rule P selected r same larger = elim (Bool-cases (full policy selected)) [
    | inl f ↦ rw f same
    | inr f ↦ elim (Bool-cases (contains_ranked selected r.ref)) [
      | inl c ↦ rw (f, c) same
      | inr c ↦ rw (f, c) (larger f c)
    ]
  ]

  pub length-fill-ge :
      (selected rs : List Ranked) → length selected ≤ length (fill policy selected rs)
  unfolding fill
  length-fill-ge selected [] = omega arith
  length-fill-ge selected (r ∷ rs) =
      ground (arith, length-append selected (r ∷ []), length-fill-ge (grow selected r) rs)

  -- Filling does not pass the requested number.
  pub length-fill-le :
      (selected rs : List Ranked)
      → length selected ≤ pos_part policy.top_n
      → length (fill policy selected rs) ≤ pos_part policy.top_n
  unfolding fill
  length-fill-le selected [] h = h
  length-fill-le selected (r ∷ rs) h = length-fill-le (grow selected r) rs (
      grow_rule (λ s. length s ≤ pos_part policy.top_n) selected r h
        (λ f c. ground (arith, length-append selected (r ∷ []))))

  pub fill-All {κ} :
      (P : Ranked → Type κ) (selected rs : List Ranked)
      → All P selected
      → All P rs
      → All P (fill policy selected rs)
  unfolding fill
  fill-All P selected [] h k = h
  fill-All P selected (r ∷ rs) h k =
      fill-All P (grow selected r) rs
        (grow_rule (All P) selected r h (λ f c. All-append P selected (r ∷ []) h (k.0, tt))) k.1

  pub fill-Distinct :
      (selected rs : List Ranked)
      → AllPairs Distinct selected
      → AllPairs Distinct (fill policy selected rs)
  unfolding fill
  fill-Distinct selected [] d = d
  fill-Distinct selected (r ∷ rs) d = fill-Distinct (grow selected r) rs (
      grow_rule (AllPairs Distinct) selected r d
        (λ f c. AllPairs-append-one Distinct selected r d (contains_ranked-false selected r.ref c)))

  pub fill_contains :
      (selected rs : List Ranked) (ref : ConnectionRef)
      → contains_ranked selected ref ≡ true
      → contains_ranked (fill policy selected rs) ref ≡ true
  unfolding fill
  fill_contains selected [] ref h = h
  fill_contains selected (r ∷ rs) ref h = fill_contains (grow selected r) rs ref (
      grow_rule (λ s. contains_ranked s ref ≡ true) selected r h
        (λ f c. contains_ranked-append selected r ref h))

  grow-Contains :
      (selected : List Ranked) (r : Ranked)
      → HasRevision r
      → length (grow selected r) < pos_part policy.top_n
      → Contains (grow selected r) r
  grow-Contains selected r own h = elim (Bool-cases (contains_ranked selected r.ref)) [
    | inl c ↦
        grow_rule (λ s. contains_ranked s r.ref ≡ true) selected r c
          (λ f absent. contains_ranked-last selected r r.ref own)
    | inr c ↦ elim (Bool-cases (full policy selected)) [
      | inl f ↦ absurd (ground arith)
      | inr f ↦ rw (f, c) (contains_ranked-last selected r r.ref own)
    ]
  ]

  -- A selection that is not filled up contains every value that it was offered.
  pub fill_complete :
      (selected rs : List Ranked)
      → All HasRevision rs
      → length (fill policy selected rs) < pos_part policy.top_n
      → All (Contains (fill policy selected rs)) rs
  unfolding fill
  fill_complete selected [] own h = tt
  fill_complete selected (r ∷ rs) own h = (
    fill_contains (grow selected r) rs r.ref
        (grow-Contains selected r own.0 (omega (arith, length-fill-ge (grow selected r) rs))),
    fill_complete (grow selected r) rs own.1 h,
  )
