-- ===== src/Selection/Rank.antt =====
-- sortRanked, optimize and the list searches of internal/selection/selection.go.
pub mod Search
pub mod Optimize
pub mod Stability
use egressfox.Base.{
  ℕ, zero, suc, ◌+◌, ◌-◌, ◌*◌, Bool, true, false, not, ◌&&◌, ◌||◌, Option, none, some, List, [],
  ◌∷◌, ltb, leb, ◌==◌, ℤ, pos, pos_part, ltb_ℤ, leb_ℤ, eq_ℤ, get_elem?, set, length, is_none,
  if◌then◌else◌,
}
use egressfox.Base.Bytes.{is_below}
use egressfox.Base.Sort.{sort}
use egressfox.Endpoint.{identity_less}
use egressfox.Observation.Keys.{ConnectionRef, connection_equal}
use egressfox.Selection.{
  Policy, Member, Cooldown, Explanation, Ranked, strategy_static, strategy_lowest_latency,
  strategy_adaptive,
}
use egressfox.Selection.Evaluate.{find_member}

-- What the strategy compares first.
unfoldable pub rank_key : ℕ → Ranked → ℤ
rank_key strategy r =
    if strategy == strategy_lowest_latency
    then pos r.explanation.mean_success_duration
    else if strategy == strategy_adaptive
    then r.explanation.adaptive_cost_nanos
    else pos 0

-- The comparison of sortRanked.
unfoldable pub ranked_less : ℕ → Ranked → Ranked → Bool
unfolding rank_key
ranked_less strategy a b =
    if not (strategy == strategy_static) && not (eq_ℤ (rank_key strategy a) (rank_key strategy b))
    then ltb_ℤ (rank_key strategy a) (rank_key strategy b)
    else identity_less a.candidate.endpoint b.candidate.endpoint

unfoldable pub sort_ranked : ℕ → List Ranked → List Ranked
sort_ranked strategy = sort (ranked_less strategy)

-- findRanked and containsRanked
unfoldable pub find_ranked : List Ranked → ConnectionRef → Option Ranked
find_ranked [] ref = none
find_ranked (r ∷ rs) ref = if connection_equal r.ref ref then some r else find_ranked rs ref

unfoldable pub contains_ranked : List Ranked → ConnectionRef → Bool
unfolding find_ranked
contains_ranked values ref = not (is_none (find_ranked values ref))

-- `!since.IsZero() && now.Before(since.Add(policy.Residence))`
unfoldable pub in_residence : List Member → Policy → ℕ → Ranked → Bool
unfolding find_member
in_residence previous policy now r =
    let since = (find_member previous r.ref).1 in
    not (since == 0) && ltb now (since + pos_part policy.residence)

-- The value that the search for the worst replaceable member compares its next one with.
abbrev pub worse : Ranked → Ranked → Bool
worse worst next =
    ltb_ℤ worst.explanation.adaptive_cost_nanos next.explanation.adaptive_cost_nanos
    || (eq_ℤ worst.explanation.adaptive_cost_nanos next.explanation.adaptive_cost_nanos
        && identity_less worst.candidate.endpoint next.candidate.endpoint)

abbrev pub takes_over : Option (ℕ × Ranked) → Ranked → Bool
takes_over none next = true
takes_over (some (index, worst)) next = worse worst next

-- The inner loop of optimize: the index and the value of the worst member outside its residence.
unfoldable pub find_worst :
    List Member → Policy → ℕ → ℕ → Option (ℕ × Ranked) → List Ranked → Option (ℕ × Ranked)
unfolding in_residence
find_worst previous policy now index found [] = found
find_worst previous policy now index found (r ∷ rs) =
    find_worst previous policy now (suc index)
      (if in_residence previous policy now r
        then found
        else if takes_over found r
        then some (index, r)
        else found)
      rs

-- improvesBy, whose products are exact in the source too (math/big). The confidence of an eligible
-- candidate is positive.
unfoldable pub improves_by : Explanation → Explanation → ℤ → Bool
improves_by challenger incumbent required =
    leb (challenger.mean_success_duration * pos_part incumbent.confidence_ppm * 1000) (
      incumbent.mean_success_duration
      * pos_part challenger.confidence_ppm
      * (1000 - pos_part required))
    && ltb_ℤ challenger.adaptive_cost_nanos incumbent.adaptive_cost_nanos

abbrev pub replace_worst : Policy → Ranked → List Ranked → Option (ℕ × Ranked) → List Ranked
replace_worst policy challenger selected none = selected
replace_worst policy challenger selected (some (index, worst)) =
    if improves_by challenger.explanation worst.explanation policy.required_improvement_permille
    then set selected index challenger
    else selected

-- One round of the outer loop of optimize.
unfoldable pub challenge : List Member → Policy → ℕ → List Ranked → Ranked → List Ranked
unfolding contains_ranked find_worst improves_by
challenge previous policy now selected challenger =
    if contains_ranked selected challenger.ref
    then selected
    else replace_worst policy challenger selected (find_worst previous policy now 0 none selected)

unfoldable pub optimize : List Member → Policy → ℕ → List Ranked → List Ranked → List Ranked
unfolding challenge
optimize previous policy now selected [] = selected
optimize previous policy now selected (challenger ∷ rest) =
    optimize previous policy now (challenge previous policy now selected challenger) rest
