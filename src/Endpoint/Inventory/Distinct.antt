-- ===== src/Endpoint/Inventory/Distinct.antt =====
-- The records that Deduplicate of internal/endpoint/inventory.go returns.
-- Records with the identities in strict order.
use egressfox.Endpoint.Order.{
  identity_compare_flip, identity_compare_same, identity_less-IsStrictOrder, identity_equal_iff,
}
use egressfox.Base.Pairs.{AllPairs, All-imp}
use egressfox.Base.Sort.{NotAbove, IsSorted, sort, sort-IsSorted, All-sort, All-sort-inv}
use egressfox.Endpoint.Inventory.{
  Configurations, merge_matching, merge_runs, InventoryError, deduplicate, merge_ordered,
  all_records_valid, invalid_record,
}
use egressfox.Endpoint.{
  Record, identity_less, identity_equal, identity_of, Identity, is_below, identity_compare,
}
use egressfox.Base.{
  ◌≡◌, sym, ap, subst, ◌∙◌, inl, inr, Bool, true, false, not, List, [], ◌∷◌, arith, if◌then◌else◌,
  Bool-cases, All, Result, ok, >>=-eq-ok, ◌↔◌, ◌>>=◌, >>-eq-ok,
}

abbrev pub Before : Record → Record → Type 0
Before x y = identity_less x y ≡ true

-- Not before.
abbrev NotAfter : Record → Record → Type 0
NotAfter = NotAbove identity_less

module _ (configurations : Configurations) where
  merge_matching-configuration :
      (left right merged : Record)
      → merge_matching configurations left right ≡ ok merged
      → merged.configuration ≡ left.configuration
  unfolding merge_matching
  merge_matching-configuration left right merged h = ground arith

  -- The order sees the configuration only.
  NotAfter-configuration :
      (x y : Record) (rs : List Record)
      → x.configuration ≡ y.configuration
      → All (NotAfter x) rs
      → All (NotAfter y) rs
  NotAfter-configuration x y rs e h =
      All-imp (NotAfter x) (NotAfter y) rs
        (λ z k. subst (λ c. is_below (identity_compare (identity_of z) c.identity) ≡ false) e k) h

  -- Records that are not equal and not after are before.
  Before-strict :
      (x y : Record)
      → NotAfter x y
      → identity_equal (identity_of x) (identity_of y) ≡ false
      → Before x y
  Before-strict x y h k = elim (Bool-cases (identity_less x y)) [
    | inl e ↦ e
    | inr e ↦ absurd (
        ground (
          arith,
          identity_compare_flip (identity_of x) (identity_of y),
          identity_compare_same (identity_of x) (identity_of y),
          (identity_equal_iff (identity_of x) (identity_of y)).1,
        ))
  ]

  irreflexive : (x : Record) → NotAfter x x
  irreflexive x = ground (arith, identity_less-IsStrictOrder.asymmetric x x)

  Before-All :
      (x y : Record) (zs : List Record) → Before x y → All (NotAfter y) zs → All (Before x) zs
  Before-All x y zs b =
      All-imp (NotAfter y) (Before x) zs
        (λ z k. ground (arith, identity_less-IsStrictOrder.not_above_trans y z x k))

  loosen : (x : Record) (zs : List Record) → All (Before x) zs → All (NotAfter x) zs
  loosen x zs =
      All-imp (Before x) (NotAfter x) zs (λ z k. identity_less-IsStrictOrder.asymmetric x z k)

  -- What the loop does after the test.
  abbrev branch : Record → Record → List Record → Bool → Result InventoryError (List Record)
  branch last r rs b =
      if b
      then (merge_matching configurations last r >>= λ merged. merge_runs configurations merged rs)
      else (merge_runs configurations r rs >>= λ rest. ok (last ∷ rest))

  merge_runs-Before :
      (last : Record) (rs out : List Record)
      → IsSorted identity_less (last ∷ rs)
      → merge_runs configurations last rs ≡ ok out
      → AllPairs Before out × All (NotAfter last) out
  unfolding merge_runs
  merge_runs-Before last [] out s h =
      let only : last ∷ [] ≡ out = ground arith in
      subst (λ o. AllPairs Before o × All (NotAfter last) o) only ((tt, tt), (irreflexive last, tt))
  merge_runs-Before last (r ∷ rs) out s h =
      elim (Bool-cases (identity_equal (identity_of last) (identity_of r))) [
        | inl e ↦
            let (merged, made, more) =
              >>=-eq-ok (merge_matching configurations last r) _
                (subst (λ b. branch last r rs b ≡ ok out) e h) in
            let kept = merge_matching-configuration last r merged made in
            let (pairs, after) =
              merge_runs-Before merged rs out
                (NotAfter-configuration last merged rs (sym kept) s.0.1, s.1.1) more in
            (pairs, NotAfter-configuration merged last out kept after)
        | inr e ↦
            let (rest, made, more) =
              >>=-eq-ok (merge_runs configurations r rs) _
                (subst (λ b. branch last r rs b ≡ ok out) e h) in
            let (pairs, after) = merge_runs-Before r rs rest s.1 made in
            let first = Before-All last r rest (Before-strict last r s.0.0 e) after in
            let both : last ∷ rest ≡ out = ground arith in
            subst (λ o. AllPairs Before o × All (NotAfter last) o) both
              ((first, pairs), (irreflexive last, loosen last rest first))
      ]

  -- The identities of the result are those of the records.
  merge_runs-identities {κ} :
      (Q : Identity → Type κ) (last : Record) (rs out : List Record)
      → merge_runs configurations last rs ≡ ok out
      → All (λ r. Q (identity_of r)) (last ∷ rs) ↔ All (λ r. Q (identity_of r)) out
  unfolding merge_runs
  merge_runs-identities Q last [] out h =
      let only : last ∷ [] ≡ out = ground arith in
      subst (λ o. All (λ r. Q (identity_of r)) (last ∷ []) ↔ All (λ r. Q (identity_of r)) o) only
        (λ q. q, λ q. q)
  merge_runs-identities Q last (r ∷ rs) out h =
      elim (Bool-cases (identity_equal (identity_of last) (identity_of r))) [
        | inl e ↦
            let (merged, made, more) =
              >>=-eq-ok (merge_matching configurations last r) _
                (subst (λ b. branch last r rs b ≡ ok out) e h) in
            let kept = ap (λ c. c.identity) (merge_matching-configuration last r merged made) in
            let own = (identity_equal_iff (identity_of last) (identity_of r)).0 e in
            let (to, from) = merge_runs-identities Q merged rs out more in
            (
              λ q. to (subst Q (sym kept) q.0, q.1.1),
              λ q.
                  let back = from q in (subst Q kept back.0, (subst Q (kept ∙ own) back.0, back.1)),
            )
        | inr e ↦
            let (rest, made, more) =
              >>=-eq-ok (merge_runs configurations r rs) _
                (subst (λ b. branch last r rs b ≡ ok out) e h) in
            let (to, from) = merge_runs-identities Q r rs rest made in
            let both : last ∷ rest ≡ out = ground arith in
            subst
              (λ o. All (λ x. Q (identity_of x)) (last ∷ r ∷ rs) ↔ All (λ x. Q (identity_of x)) o)
              both (λ q. (q.0, to q.1), λ q. (q.0, from q.1))
      ]

  merged_result :
      (records out : List Record)
      → deduplicate configurations records ≡ ok out
      → merge_ordered configurations (sort identity_less records) ≡ ok out
  unfolding deduplicate
  merged_result records out h =
      (>>-eq-ok (not (all_records_valid configurations records)) invalid_record _ h).1

  ordered-Before :
      (ordered out : List Record)
      → IsSorted identity_less ordered
      → merge_ordered configurations ordered ≡ ok out
      → AllPairs Before out
  ordered-Before [] out s h =
      let none_left : [] ≡ out = ground arith in subst (AllPairs Before) none_left tt
  ordered-Before (r ∷ rs) out s h = (merge_runs-Before r rs out s h).0

  -- When Deduplicate succeeds, its records are in the strict order of their identities, so that no two
  -- have the same identity.
  pub deduplicate-Before :
      (records out : List Record)
      → deduplicate configurations records ≡ ok out
      → AllPairs Before out
  deduplicate-Before records out h =
      ordered-Before (sort identity_less records) out
        (sort-IsSorted identity_less identity_less-IsStrictOrder records)
        (merged_result records out h)

  ordered-identities {κ} :
      (Q : Identity → Type κ) (ordered out : List Record)
      → merge_ordered configurations ordered ≡ ok out
      → All (λ r. Q (identity_of r)) ordered ↔ All (λ r. Q (identity_of r)) out
  ordered-identities Q [] out h =
      let none_left : [] ≡ out = ground arith in
      subst (λ o. All (λ r. Q (identity_of r)) [] ↔ All (λ r. Q (identity_of r)) o) none_left
        (λ q. q, λ q. q)
  ordered-identities Q (r ∷ rs) out h = merge_runs-identities Q r rs out h

  -- When Deduplicate succeeds, it loses no identity and makes none up: a property holds of the
  -- identities of all records given exactly when it holds of those of all records returned.
  pub deduplicate-identities {κ} :
      (Q : Identity → Type κ) (records out : List Record)
      → deduplicate configurations records ≡ ok out
      → All (λ r. Q (identity_of r)) records ↔ All (λ r. Q (identity_of r)) out
  deduplicate-identities Q records out h =
      let (to, from) =
        ordered-identities Q (sort identity_less records) out (merged_result records out h) in
      (
        λ q. to (All-sort identity_less (λ r. Q (identity_of r)) records q),
        λ q. All-sort-inv identity_less (λ r. Q (identity_of r)) records (from q),
      )

  -- When Deduplicate succeeds, its records are in the strict order of their identities, so that no two
  -- have the same; and it loses no identity and makes none up: a property holds of the identities
  -- of all records given exactly when it holds of those of all records returned.
  pub deduplicate_result {κ} :
      (Q : Identity → Type κ) (records out : List Record)
      → deduplicate configurations records ≡ ok out
      → AllPairs Before out
        × (All (λ r. Q (identity_of r)) records ↔ All (λ r. Q (identity_of r)) out)
  deduplicate_result Q records out h =
      (deduplicate-Before records out h, deduplicate-identities Q records out h)
