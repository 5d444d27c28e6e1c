-- ===== src/Selection/Select/Choice.antt =====
-- The selection that Select of internal/selection/selection.go makes from the ranked values.
use egressfox.Base.{
  if_rule, ℕ, ◌≤◌, ◌<◌, ◌≡◌, true, false, List, [], ◌∷◌, arith, pos, pos_part, ltb_ℤ, ◌==◌, All,
  All-take, length, length-take, length-take-le, take,
}
use egressfox.Base.Sort.{All-sort}
use egressfox.Base.Pairs.{AllPairs, AllPairs-take, AllPairs-sort}
use egressfox.Selection.{Policy, Member, Ranked}
use egressfox.Selection.Rank.{ranked_less, sort_ranked, optimize}
use egressfox.Selection.Rank.Search.{Apart, connection_equal_sym}
use egressfox.Selection.Rank.Stability.{Distinct, optimize-All, optimize-Distinct, length-optimize}
use egressfox.Selection.Select.{
  Start, Scan, Kept, keeps_members, incumbents, choose_adaptive, choose_afresh, choose, fill,
  keep_members, nothing_kept,
}
use egressfox.Selection.Select.Filling.{
  fill-All, fill-Distinct, length-fill-le, fill_complete, HasRevision, Contains,
}
use egressfox.Selection.Select.Members.{keep_members-All, keep_members-Distinct, OtherMember}

module _ (policy : Policy) (now : ℕ) (start : Start) (scan : Scan) (ranked : List Ranked) where
  abbrev all_kept : Kept
  all_kept =
      keep_members policy now scan ranked start.members (nothing_kept policy now start scan ranked)

  -- What holds of every ranked value holds of every selected one.
  pub choose-All {κ} :
      (P : Ranked → Type κ) → All P ranked → All P (choose policy now start scan ranked).selected
  unfolding choose choose_adaptive choose_afresh sort_ranked
  choose-All P h =
      if_rule {A = Kept} (λ k. All P k.selected) (keeps_members policy start.usable) _ _
        (λ _.
          if_rule (All P) _ _ _ (λ _. optimize-All start.members policy now P _ ranked filled h)
            (λ _. filled))
        (λ _.
          let fresh = fill-All policy P [] ranked tt h in
          if_rule (All P) _ _ _ (λ _. All-take P (pos_part policy.top_n) _ fresh) (λ _. fresh))
    where
      kept : All P all_kept.selected
      kept = keep_members-All policy now scan ranked P start.members _ h tt

      filled : All P (fill policy (incumbents policy all_kept.selected) ranked)
      filled =
          fill-All policy P _ ranked
            (if_rule (All P) _ _ _
              (λ _.
                All-take P (pos_part policy.top_n) _
                  (All-sort (ranked_less policy.strategy) P _ kept))
              (λ _. kept))
            h

  incumbents-Distinct :
      AllPairs Distinct all_kept.selected → AllPairs Distinct (incumbents policy all_kept.selected)
  unfolding sort_ranked
  incumbents-Distinct d =
      if_rule (AllPairs Distinct) _ _ _
        (λ _. AllPairs-take Distinct (pos_part policy.top_n) _ (
          AllPairs-sort (ranked_less policy.strategy) Distinct
            (λ x y h. connection_equal_sym x.ref y.ref h) _ d))
        (λ _. d)

  untouched_at_first : (ms : List Member) → All (λ m. All (Apart m.connection) []) ms
  untouched_at_first [] = tt
  untouched_at_first (m ∷ ms) = (tt, untouched_at_first ms)

  -- Where the previous members are different connections, so are the selected values.
  pub choose-Distinct :
      AllPairs OtherMember start.members
      → AllPairs Distinct (choose policy now start scan ranked).selected
  unfolding choose choose_adaptive choose_afresh
  choose-Distinct o =
      if_rule {A = Kept} (λ k. AllPairs Distinct k.selected) (keeps_members policy start.usable) _ _
        (λ _.
          if_rule (AllPairs Distinct) _ _ _
            (λ _. optimize-Distinct start.members policy now _ ranked filled) (λ _. filled))
        (λ _.
          let fresh = fill-Distinct policy [] ranked tt in
          if_rule (AllPairs Distinct) _ _ _
            (λ _. AllPairs-take Distinct (pos_part policy.top_n) _ fresh) (λ _. fresh))
    where
      kept : AllPairs Distinct all_kept.selected
      kept =
          keep_members-Distinct policy now scan ranked start.members _ o tt
            (untouched_at_first start.members)

      filled : AllPairs Distinct (fill policy (incumbents policy all_kept.selected) ranked)
      filled = fill-Distinct policy _ ranked (incumbents-Distinct kept)

  abbrev AtMost : List Ranked → Type 0
  AtMost s = length s ≤ pos_part policy.top_n

  abbrev CompleteIfShort : List Ranked → Type 0
  CompleteIfShort s = length s < pos_part policy.top_n → All (Contains s) ranked

  not_over :
      (s : List Ranked)
      → ltb_ℤ policy.top_n (pos (length s)) ≡ false
      → length s ≤ pos_part policy.top_n
  not_over s e = ground arith

  length-optimize-le :
      (s : List Ranked)
      → length s ≤ pos_part policy.top_n
      → length (optimize start.members policy now s ranked) ≤ pos_part policy.top_n
  length-optimize-le s h = omega (arith, length-optimize start.members policy now s ranked)

  full_not_short :
      (s : List Ranked)
      → (pos_part policy.top_n == length s) ≡ true
      → ¬ (length (optimize start.members policy now s ranked) < pos_part policy.top_n)
  full_not_short s e h = ground (arith, length-optimize start.members policy now s ranked)

  capped_not_short :
      (s : List Ranked)
      → ltb_ℤ policy.top_n (pos (length s)) ≡ true
      → ¬ (length (take (pos_part policy.top_n) s) < pos_part policy.top_n)
  capped_not_short s e h = ground (arith, length-take (pos_part policy.top_n) s)

  length-incumbents : length (incumbents policy all_kept.selected) ≤ pos_part policy.top_n
  unfolding sort_ranked
  length-incumbents =
      if_rule AtMost _
        (take (pos_part policy.top_n) (sort_ranked policy.strategy all_kept.selected))
        all_kept.selected
        (λ e.
          length-take-le (pos_part policy.top_n) (sort_ranked policy.strategy all_kept.selected))
        (λ e. not_over all_kept.selected e)

  -- No more values are selected than requested.
  pub length-choose : length (choose policy now start scan ranked).selected ≤ pos_part policy.top_n
  unfolding choose choose_adaptive choose_afresh
  length-choose =
      if_rule {A = Kept} (λ k. length k.selected ≤ pos_part policy.top_n)
        (keeps_members policy start.usable) _ _
        (λ _.
          let filled = length-fill-le policy _ ranked length-incumbents in
          if_rule AtMost _ _ _
            (λ _.
              length-optimize-le (fill policy (incumbents policy all_kept.selected) ranked) filled)
            (λ _. filled))
        (λ _.
          if_rule AtMost _ _ _ (λ _. length-take-le (pos_part policy.top_n) (fill policy [] ranked))
            (λ _. length-fill-le policy [] ranked (omega arith)))

  -- When fewer values are selected than requested, every ranked value is.
  pub choose_complete :
      All HasRevision ranked
      → length (choose policy now start scan ranked).selected < pos_part policy.top_n
      → All (Contains (choose policy now start scan ranked).selected) ranked
  unfolding choose choose_adaptive choose_afresh
  choose_complete own =
      if_rule {A = Kept}
        (λ k. length k.selected < pos_part policy.top_n → All (Contains k.selected) ranked)
        (keeps_members policy start.usable) _ _
        (λ _.
          if_rule CompleteIfShort _ _ _
            (λ e h.
              absurd
                (full_not_short (fill policy (incumbents policy all_kept.selected) ranked) e h))
            (λ _ h. fill_complete policy _ ranked own h))
        (λ _.
          if_rule CompleteIfShort _ _ _
            (λ e h. absurd (capped_not_short (fill policy [] ranked) e h))
            (λ _ h. fill_complete policy [] ranked own h))
