-- ===== src/Selection/Select/Residence.antt =====
-- How long a member stays selected: the times that Select of internal/selection/selection.go keeps.
use egressfox.Base.{
  ℕ, ◌<◌, ◌≡◌, refl, sym, subst, ◌⊎◌, false, Option, none, some, List, [], ◌∷◌, arith, All, ok,
  Bool-cases, inl, inr, ◌==◌, get_elem?, suc, if_rule, if◌then◌else◌,
}
use egressfox.Base.Bytes.{Bytes}
use egressfox.Base.Pairs.{All-map}
use egressfox.Observation.Keys.{connection_equal}
use egressfox.Selection.{Policy, Context, Candidate, Member, State, Decision, Ranked}
use egressfox.Selection.Confidence.{Platform}
use egressfox.Selection.Evaluate.{find_member}
use egressfox.Selection.Rank.Search.{connection_equal_sound}
use egressfox.Selection.Select.{
  Start, start_from, policy_fingerprint, select, next_member, usable_previous,
}
use egressfox.Selection.Select.Decisions.{select-ok, chosen, members_eq}

-- The members of a state have the time at which they were selected.
abbrev pub MembersDated : Option State → Type 0
MembersDated none = Unit {0}
MembersDated (some s) = All (λ m. 0 < m.selected_at) s.members

-- The members of the committed state where Select uses it.
abbrev pub committed_members : Bytes → Context → Bytes → Option State → List Member
committed_members scope context fingerprint none = []
committed_members scope context fingerprint (some s) =
    if usable_previous scope context fingerprint s then s.members else []

started_members :
    (scope : Bytes) (context : Context) (fingerprint : Bytes) (now : ℕ) (start : Start)
    (previous : Option State)
    → start_from scope context fingerprint now previous ≡ ok start
    → start.members ≡ committed_members scope context fingerprint previous
unfolding start_from
started_members scope context fingerprint now start none e = ground arith
started_members scope context fingerprint now start (some s) e = ground arith

dated_members :
    (scope : Bytes) (context : Context) (fingerprint : Bytes) (previous : Option State)
    → MembersDated previous
    → All (λ m. 0 < m.selected_at) (committed_members scope context fingerprint previous)
dated_members scope context fingerprint none dated = tt
dated_members scope context fingerprint (some s) dated =
    if_rule (All (λ m. 0 < m.selected_at)) (usable_previous scope context fingerprint s) _ _
      (λ _. dated) (λ _. tt)

-- Either the member is one of those before, with its time, or none of those has its connection and
-- it starts now.
abbrev pub Resident : List Member → ℕ → Member → Type 0
Resident before now m =
    ((index : ℕ) × (get_elem? before index ≡ some m))
    ⊎ (All (λ old. connection_equal old.connection m.connection ≡ false) before
        × (m.selected_at ≡ now))

later_member :
    (m : Member) (ms : List Member) (now : ℕ) (x : Member)
    → connection_equal m.connection x.connection ≡ false
    → Resident ms now x
    → Resident (m ∷ ms) now x
later_member m ms now x apart (inl (index, at)) = inl (suc index, at)
later_member m ms now x apart (inr (absent, starts)) = inr ((apart, absent), starts)

member_since :
    (ms : List Member) (r : Ranked) (now : ℕ)
    → All (λ m. 0 < m.selected_at) ms
    → Resident ms now (next_member ms now r)
unfolding find_member
member_since [] r now h = inr (tt, refl)
member_since (m ∷ ms) r now h = elim (Bool-cases (connection_equal m.connection r.ref)) [
  | inl e ↦
      let one = connection_equal_sound m.connection r.ref e in
      let dated : (m.selected_at == 0) ≡ false = ground (arith, h.0) in inl (0, ground arith)
  | inr e ↦
      let same : next_member ms now r ≡ next_member (m ∷ ms) now r = rw e refl in
      subst (Resident (m ∷ ms) now) same
        (later_member m ms now (next_member ms now r) e (member_since ms r now h.1))
]

members-Resident :
    (ms : List Member) (now : ℕ) (rs : List Ranked)
    → All (λ m. 0 < m.selected_at) ms
    → All (λ r. Resident ms now (next_member ms now r)) rs
members-Resident ms now [] h = tt
members-Resident ms now (r ∷ rs) h = (member_since ms r now h, members-Resident ms now rs h)

module _ (platform : Platform) (scope : Bytes) (context : Context) (policy : Policy)
    (candidates : List Candidate) (previous : Option State) (now : ℕ) where
  -- Where the members of the committed state have the time at which they were selected: when Select
  -- succeeds, every member of the next state is either a member of the committed state, unchanged with
  -- its time, so that its residence goes on, or it has the connection of none of them and starts now.
  -- A state of another scope, context or policy counts as one without members.
  pub select-residence :
      (d : Decision)
      → MembersDated previous
      → select platform scope context policy candidates previous now ≡ ok d
      → All
          (Resident
            (committed_members scope context (policy_fingerprint platform policy) previous)
            now)
          d.next.members
  select-residence d dated e =
      let run = select-ok platform scope context policy candidates previous now d e in
      let before = committed_members scope context (policy_fingerprint platform policy) previous in
      let same_members =
        started_members scope context (policy_fingerprint platform policy) now run.start previous
          run.started in
      subst (λ ms. All (Resident ms now) d.next.members) same_members
        (subst (All (Resident run.start.members now))
          (members_eq platform scope context policy candidates previous now d run)
          (All-map (Resident run.start.members now) (next_member run.start.members now)
            (chosen platform scope context policy candidates previous now d run)
            (members-Resident run.start.members now
              (chosen platform scope context policy candidates previous now d run)
              (subst (All (λ m. 0 < m.selected_at)) (sym same_members) (
                dated_members scope context (policy_fingerprint platform policy) previous dated)))))
