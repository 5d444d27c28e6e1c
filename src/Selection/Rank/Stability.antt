-- ===== src/Selection/Rank/Stability.antt =====
-- What optimize of internal/selection/selection.go keeps of a selection.
use egressfox.Base.{
  ℕ, zero, suc, ◌≡◌, refl, ap, ◌∙◌, subst, Bool, true, false, inl, inr, Bool-cases, if◌then◌else◌,
  Option, none, some, List, [], ◌∷◌, arith, ℤ, ◌≤ℤ◌, All, All-set, get_elem?, set, length,
  length-set,
}
use egressfox.Base.Pairs.{AllPairs, AllPairs-set, All-imp}
use egressfox.Selection.{Policy, Member, Ranked, Explanation}
use egressfox.Selection.Rank.{
  in_residence, improves_by, contains_ranked, find_worst, replace_worst, challenge, optimize,
}
use egressfox.Selection.Rank.Search.{Apart, contains_ranked-false, connection_equal_sym}
use egressfox.Selection.Rank.Optimize.{Improves, unchanged, replaced, optimize-Improves}

-- Two selected values with different connections.
abbrev pub Distinct : Ranked → Ranked → Type 0
Distinct a b = Apart b.ref a

improves_by-cheaper :
    (challenger incumbent : Explanation) (required : ℤ)
    → improves_by challenger incumbent required ≡ true
    → challenger.adaptive_cost_nanos ≤ℤ incumbent.adaptive_cost_nanos
unfolding improves_by
improves_by-cheaper challenger incumbent required h = ground arith

module _ (previous : List Member) (policy : Policy) (now : ℕ) where
  -- A slot before and after: it is no costlier, and a member in its residence keeps it.
  pub record Slot (before after : Ranked) : Type 0 where
    pub cheaper : after.explanation.adaptive_cost_nanos ≤ℤ before.explanation.adaptive_cost_nanos
    pub protected : in_residence previous policy now before ≡ true → after ≡ before

  abbrev pub Slots : List Ranked → List Ranked → Type 0
  Slots [] [] = Unit {0}
  Slots [] (b ∷ bs) = ⊥
  Slots (a ∷ as') [] = ⊥
  Slots (a ∷ as') (b ∷ bs) = Slot a b × Slots as' bs

  Slots-refl : (s : List Ranked) → Slots s s
  Slots-refl [] = tt
  Slots-refl (r ∷ rs) = (record { cheaper = omega arith; protected = λ _. refl }, Slots-refl rs)

  Slot-replaced :
      (before worst challenger : Ranked)
      → Slot before worst
      → in_residence previous policy now worst ≡ false
      → challenger.explanation.adaptive_cost_nanos ≤ℤ worst.explanation.adaptive_cost_nanos
      → Slot before challenger
  Slot-replaced before worst challenger s h k = record {
    cheaper = omega (arith, s.cheaper);
    protected = λ r. absurd (cc (s.protected r, r, h));
  }

  Slots-set :
      (s t : List Ranked) (index : ℕ) (worst challenger : Ranked)
      → Slots s t
      → get_elem? t index ≡ some worst
      → in_residence previous policy now worst ≡ false
      → challenger.explanation.adaptive_cost_nanos ≤ℤ worst.explanation.adaptive_cost_nanos
      → Slots s (set t index challenger)
  Slots-set [] [] index worst challenger p e h k = tt
  Slots-set [] (b ∷ bs) index worst challenger p e h k = absurd p
  Slots-set (a ∷ as') [] index worst challenger p e h k = absurd p
  Slots-set (a ∷ as') (b ∷ bs) zero worst challenger p e h k =
      let b_worst : b ≡ worst = ground arith in
      (Slot-replaced a worst challenger (subst (Slot a) b_worst p.0) h k, p.1)
  Slots-set (a ∷ as') (b ∷ bs) (suc index) worst challenger p e h k =
      (p.0, Slots-set as' bs index worst challenger p.1 e h k)

  Improves-Slots : (s t : List Ranked) → Improves previous policy now s t → Slots s t
  Improves-Slots s t unchanged = Slots-refl s
  Improves-Slots s t (replaced {t = u} index worst challenger i e h better absent eq) = rw eq (
      Slots-set s u index worst challenger (Improves-Slots s u i) e h
        (improves_by-cheaper challenger.explanation worst.explanation _ better))

  -- Optimization makes no slot of the selection costlier, and every selected member that is in its
  -- residence keeps its slot.
  pub optimize-Slots : (s rest : List Ranked) → Slots s (optimize previous policy now s rest)
  optimize-Slots s rest =
      Improves-Slots s _ (optimize-Improves previous policy now s s rest unchanged)

  Improves-length : (s t : List Ranked) → Improves previous policy now s t → length t ≡ length s
  Improves-length s t unchanged = refl
  Improves-length s t (replaced {t = u} index worst challenger i e h better absent eq) =
      ap length eq ∙ length-set u index challenger ∙ Improves-length s u i

  pub length-optimize :
      (s rest : List Ranked) → length (optimize previous policy now s rest) ≡ length s
  length-optimize s rest =
      Improves-length s _ (optimize-Improves previous policy now s s rest unchanged)

  Improves-Distinct :
      (s t : List Ranked)
      → Improves previous policy now s t
      → AllPairs Distinct s
      → AllPairs Distinct t
  Improves-Distinct s t unchanged d = d
  Improves-Distinct s t (replaced {t = u} index worst challenger i e h better absent eq) d =
      let apart = contains_ranked-false u challenger.ref absent in
      rw eq (
        AllPairs-set Distinct u index challenger (Improves-Distinct s u i d) apart (
          All-imp (Apart challenger.ref) (Distinct challenger) u
            (λ x a. connection_equal_sym x.ref challenger.ref a) apart))

  pub optimize-Distinct :
      (s rest : List Ranked)
      → AllPairs Distinct s
      → AllPairs Distinct (optimize previous policy now s rest)
  optimize-Distinct s rest d =
      Improves-Distinct s _ (optimize-Improves previous policy now s s rest unchanged) d

  module _ {κ} (P : Ranked → Type κ) where
    challenge-All :
        (s : List Ranked) (challenger : Ranked)
        → All P s
        → P challenger
        → All P (challenge previous policy now s challenger)
    unfolding challenge
    challenge-All s challenger h p = elim (Bool-cases (contains_ranked s challenger.ref)) [
      | inl there ↦ rw there h
      | inr absent ↦ rw absent (replace_worst-All (find_worst previous policy now 0 none s))
    ]
      where
        replace_worst-All :
            (found : Option (ℕ × Ranked)) → All P (replace_worst policy challenger s found)
        replace_worst-All none = h
        replace_worst-All (some (index, worst)) = if_All _ (All-set P s index challenger h p)
          where
            if_All :
                (b : Bool)
                → All P (set s index challenger)
                → All P (if b then set s index challenger else s)
            if_All true k = k
            if_All false k = h

    pub optimize-All :
        (s rest : List Ranked) → All P s → All P rest → All P (optimize previous policy now s rest)
    unfolding optimize
    optimize-All s [] h k = h
    optimize-All s (challenger ∷ rest) h k =
        optimize-All (challenge previous policy now s challenger) rest
          (challenge-All s challenger h k.0) k.1
