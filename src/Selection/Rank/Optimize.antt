-- ===== src/Selection/Rank/Optimize.antt =====
-- optimize of internal/selection/selection.go as a chain of single replacements.
use egressfox.Base.{
  ℕ, suc, ◌+◌, ◌≡◌, refl, sym, ap, ◌∙◌, subst, inl, inr, true, false, Option, none, some, List, [],
  ◌∷◌, arith, get_elem?, set, Bool-cases, if◌then◌else◌,
}
use egressfox.Selection.{Policy, Member, Ranked}
use egressfox.Selection.Rank.{
  in_residence, takes_over, find_worst, improves_by, replace_worst, challenge, optimize,
  contains_ranked,
}

module _ (previous : List Member) (policy : Policy) (now : ℕ) where
  -- A result of the search is an element outside its residence, at its index.
  abbrev Located : List Ranked → Option (ℕ × Ranked) → Type 0
  Located values none = Unit {0}
  Located values (some (index, worst)) =
      (get_elem? values index ≡ some worst) × (in_residence previous policy now worst ≡ false)

  next-Located :
      (values : List Ranked) (index : ℕ) (found : Option (ℕ × Ranked)) (r : Ranked)
      → Located values found
      → get_elem? values index ≡ some r
      → Located values (
          if in_residence previous policy now r
          then found
          else if takes_over found r
          then some (index, r)
          else found)
  next-Located values index found r h e = elim (Bool-cases (in_residence previous policy now r)) [
    | inl stays ↦ rw stays h
    | inr leaves ↦ rw leaves (elim (Bool-cases (takes_over found r)) [
      | inl taken ↦ rw taken (e, leaves)
      | inr kept ↦ rw kept h
    ])
  ]

  find_worst-Located :
      (values : List Ranked) (index : ℕ) (found : Option (ℕ × Ranked)) (rest : List Ranked)
      → Located values found
      → ((k : ℕ) → get_elem? rest k ≡ get_elem? values (index + k))
      → Located values (find_worst previous policy now index found rest)
  unfolding find_worst
  find_worst-Located values index found [] h same_rest = h
  find_worst-Located values index found (r ∷ rest) h same_rest =
      find_worst-Located values (suc index) _ rest
        (next-Located values index found r h
          (subst (λ k. get_elem? values k ≡ some r) (omega arith) (sym (same_rest 0))))
        (λ k. same_rest (suc k) ∙ ap (get_elem? values) (omega arith))

  -- Replacements of members outside their residence by challengers that improve on them by the
  -- required margin and were not selected.
  pub data Improves (s : List Ranked) : List Ranked → Type 0 where
    unchanged : Improves s s
    replaced :
        {t u : List Ranked} (index : ℕ) (worst challenger : Ranked)
        → Improves s t
        → get_elem? t index ≡ some worst
        → in_residence previous policy now worst ≡ false
        → improves_by challenger.explanation worst.explanation policy.required_improvement_permille
          ≡ true
        → contains_ranked t challenger.ref ≡ false
        → u ≡ set t index challenger
        → Improves s u

  replace_worst-Improves :
      (s t : List Ranked) (challenger : Ranked) (found : Option (ℕ × Ranked))
      → Improves s t
      → Located t found
      → contains_ranked t challenger.ref ≡ false
      → Improves s (replace_worst policy challenger t found)
  replace_worst-Improves s t challenger none i h absent = i
  replace_worst-Improves s t challenger (some (index, worst)) i h absent =
      elim (Bool-cases (
        improves_by challenger.explanation worst.explanation
          policy.required_improvement_permille)) [
            | inl better ↦ rw better (replaced index worst challenger i h.0 h.1 better absent refl)
            | inr not_better ↦ rw not_better i
          ]

  challenge-Improves :
      (s t : List Ranked) (challenger : Ranked)
      → Improves s t
      → Improves s (challenge previous policy now t challenger)
  unfolding challenge
  challenge-Improves s t challenger i = elim (Bool-cases (contains_ranked t challenger.ref)) [
    | inl there ↦ rw there i
    | inr absent ↦ rw absent (
        replace_worst-Improves s t challenger _ i
          (find_worst-Located t 0 none t tt (λ k. ap (get_elem? t) (omega arith))) absent)
  ]

  -- optimize performs such replacements and nothing else.
  pub optimize-Improves :
      (s t rest : List Ranked) → Improves s t → Improves s (optimize previous policy now t rest)
  unfolding optimize
  optimize-Improves s t [] i = i
  optimize-Improves s t (challenger ∷ rest) i =
      optimize-Improves s (challenge previous policy now t challenger) rest
        (challenge-Improves s t challenger i)
