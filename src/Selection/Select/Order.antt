-- ===== src/Selection/Select/Order.antt =====
-- Select of internal/selection/selection.go does not see the order of its candidates.
use mathlib.Core.List.{Perm}
use egressfox.Base.{ℕ, ◌≡◌, refl, List, Option}
use egressfox.Base.Bytes.{Bytes}
use egressfox.Base.Sort.{sort-perm, IsStrictOrder, AllSeparated}
use egressfox.Endpoint.Order.{identity_less-IsStrictOrder}
use egressfox.Selection.{Policy, Context, Candidate, State}
use egressfox.Selection.Confidence.{Platform}
use egressfox.Selection.Select.{candidate_less, select}

pub candidate_less-IsStrictOrder : IsStrictOrder candidate_less
candidate_less-IsStrictOrder = record {
  asymmetric = λ x y h. identity_less-IsStrictOrder.asymmetric x.endpoint y.endpoint h;
  not_above_trans =
      λ x y z h k. identity_less-IsStrictOrder.not_above_trans x.endpoint y.endpoint z.endpoint h k;
}

Candidate-set : IsSet Candidate
Candidate-set = hlevel

-- Where different candidates have different identities, Select returns the same decision, or the same
-- error, for every rearrangement of the candidates.
pub select-perm :
    (platform : Platform) (scope : Bytes) (context : Context) (policy : Policy)
    (xs ys : List Candidate) (previous : Option State) (now : ℕ)
    → Perm xs ys
    → AllSeparated candidate_less xs
    → select platform scope context policy xs previous now
      ≡ select platform scope context policy ys previous now
unfolding select
select-perm platform scope context policy xs ys previous now p apart =
    rw (sort-perm candidate_less candidate_less-IsStrictOrder Candidate-set p apart) refl
