-- ===== src/Selection/Select/Members.antt =====
-- The loop of Select in internal/selection/selection.go over the previous members.
use egressfox.Base.{
  ℕ, zero, suc, ◌+◌, ◌≡◌, refl, sym, subst, true, false, Option, none, some, List, [], ◌∷◌, ◌++◌,
  arith, pos_part, All, All-append, Bool-cases, inl, inr, if◌then◌else◌, get_elem?,
}
use egressfox.Base.Pairs.{AllPairs, AllPairs-append-one, All-imp}
use egressfox.Observation.Keys.{ConnectionRef, connection_equal}
use egressfox.Selection.{Policy, Member, Cooldown, Ranked, ref_key}
use egressfox.Selection.Evaluate.{find_cooldown}
use egressfox.Selection.Rank.{find_ranked}
use egressfox.Selection.Rank.Search.{
  Apart, find_ranked-some, connection_equal_sound, connection_equal_sym,
}
use egressfox.Selection.Rank.Stability.{Distinct}
use egressfox.Selection.Select.{
  Scan, Kept, keep_member, keep_members, keep_entry, upsert_cooldown, is_failure, reason_of,
}

-- Members with different connections.
abbrev pub OtherMember : Member → Member → Type 0
OtherMember a b = connection_equal a.connection b.connection ≡ false

pub find_cooldown-upsert_cooldown :
    (cs : List Cooldown) (c : Cooldown) (ref : ConnectionRef)
    → find_cooldown (upsert_cooldown cs c) ref
      ≡ (if connection_equal c.connection ref then some c else find_cooldown cs ref)
unfolding find_cooldown upsert_cooldown
find_cooldown-upsert_cooldown [] c ref = ground arith
find_cooldown-upsert_cooldown (d ∷ ds) c ref =
    elim (Bool-cases (connection_equal d.connection c.connection)) [
      | inl e ↦
          let one = connection_equal_sound d.connection c.connection e in rw e (ground (arith, one))
      | inr e ↦
          let other = connection_equal_sym d.connection c.connection e in
          rw e (
            ground (
              arith,
              other,
              connection_equal_sound d.connection ref,
              find_cooldown-upsert_cooldown ds c ref,
            ))
    ]

module _ (policy : Policy) (now : ℕ) (scan : Scan) (ranked : List Ranked) where
  abbrev kept_after : Kept → Member → Kept
  kept_after = keep_member policy now scan ranked

  pub keep_members-All {κ} :
      (P : Ranked → Type κ) (ms : List Member) (kept : Kept)
      → All P ranked
      → All P kept.selected
      → All P (keep_members policy now scan ranked ms kept).selected
  unfolding keep_members
  keep_members-All P [] kept h k = k
  keep_members-All P (m ∷ ms) kept h k =
      keep_members-All P ms (kept_after kept m) h (entry_All (find_ranked ranked m.connection) refl)
    where
      entry_All :
          (o : Option Ranked)
          → find_ranked ranked m.connection ≡ o
          → All P (keep_entry policy now scan kept m o).selected
      entry_All none e = k
      entry_All (some entry) e =
          All-append P kept.selected (entry ∷ []) k
            ((find_ranked-some P ranked m.connection entry h e).0, tt)

  -- No kept value has the connection of a member that is still to come.
  abbrev pub Untouched : Kept → List Member → Type 0
  Untouched kept ms = All (λ m. All (Apart m.connection) kept.selected) ms

  pub keep_members-Distinct :
      (ms : List Member) (kept : Kept)
      → AllPairs OtherMember ms
      → AllPairs Distinct kept.selected
      → Untouched kept ms
      → AllPairs Distinct (keep_members policy now scan ranked ms kept).selected
  unfolding keep_members
  keep_members-Distinct [] kept o d u = d
  keep_members-Distinct (m ∷ ms) kept o d u =
      let next = step (find_ranked ranked m.connection) refl in
      keep_members-Distinct ms (kept_after kept m) o.1 next.0 next.1
    where
      unaffected :
          (entry : Ranked)
          → entry.ref ≡ m.connection
          → (rest : List Member) → All (OtherMember m) rest
          → Untouched kept rest
          → All (λ k. All (Apart k.connection) (kept.selected ++ entry ∷ [])) rest
      unaffected entry e [] a b = tt
      unaffected entry e (k ∷ ks) a b = (
        All-append (Apart k.connection) kept.selected (entry ∷ []) b.0 (rw e a.0, tt),
        unaffected entry e ks a.1 b.1,
      )

      step :
          (found : Option Ranked)
          → find_ranked ranked m.connection ≡ found
          → AllPairs Distinct (keep_entry policy now scan kept m found).selected
            × Untouched (keep_entry policy now scan kept m found) ms
      step none e = (d, u.1)
      step (some entry) e =
          let at_member =
            (find_ranked-some (λ _. Unit {0}) ranked m.connection entry (units ranked) e).1 in
          (
            AllPairs-append-one Distinct kept.selected entry d
                (subst (λ c. All (Apart c) kept.selected) (sym at_member) u.0),
            unaffected entry at_member ms o.0 u.1,
          )
        where
          units : (rs : List Ranked) → All (λ _. Unit {0}) rs
          units [] = tt
          units (r ∷ rs) = (tt, units rs)

  abbrev pub cooldown_of : Member → Cooldown
  cooldown_of m = record { connection = m.connection; until = now + pos_part policy.cooldown }

  step-keeps-cooldown :
      (kept : Kept) (k : Member) (ref : ConnectionRef) (c : Cooldown)
      → connection_equal k.connection ref ≡ false
      → find_cooldown kept.cooldowns ref ≡ some c
      → find_cooldown (kept_after kept k).cooldowns ref ≡ some c
  unfolding keep_members
  step-keeps-cooldown kept k ref c apart e =
      ground (arith, find_cooldown-upsert_cooldown kept.cooldowns (cooldown_of k) ref)

  keeps-cooldown :
      (ms : List Member) (kept : Kept) (ref : ConnectionRef) (c : Cooldown)
      → All (λ m. connection_equal m.connection ref ≡ false) ms
      → find_cooldown kept.cooldowns ref ≡ some c
      → find_cooldown (keep_members policy now scan ranked ms kept).cooldowns ref ≡ some c
  unfolding keep_members
  keeps-cooldown [] kept ref c a e = e
  keeps-cooldown (m ∷ ms) kept ref c a e =
      keeps-cooldown ms (kept_after kept m) ref c a.1 (step-keeps-cooldown kept m ref c a.0 e)

  step-starts-cooldown :
      (kept : Kept) (m : Member)
      → connection_equal m.connection m.connection ≡ true
      → find_ranked ranked m.connection ≡ none
      → is_failure (reason_of (ref_key m.connection) scan.reasons) ≡ true
      → find_cooldown (kept_after kept m).cooldowns m.connection ≡ some (cooldown_of m)
  unfolding keep_members
  step-starts-cooldown kept m own gone failed =
      ground (arith, find_cooldown-upsert_cooldown kept.cooldowns (cooldown_of m) m.connection)

  -- A previous member that is no longer eligible because it failed starts a full cooldown.
  pub failed_member_cools_down :
      (ms : List Member) (kept : Kept) (index : ℕ) (m : Member)
      → AllPairs OtherMember ms
      → get_elem? ms index ≡ some m
      → connection_equal m.connection m.connection ≡ true
      → find_ranked ranked m.connection ≡ none
      → is_failure (reason_of (ref_key m.connection) scan.reasons) ≡ true
      → find_cooldown (keep_members policy now scan ranked ms kept).cooldowns m.connection
        ≡ some (cooldown_of m)
  unfolding keep_members
  failed_member_cools_down [] kept index m o at own gone failed = cc
  failed_member_cools_down (k ∷ ks) kept zero m o at own gone failed =
      let same_member : k ≡ m = ground arith in
      keeps-cooldown ks (kept_after kept k) m.connection (cooldown_of m)
        (subst (λ x. All (λ y. connection_equal y.connection x.connection ≡ false) ks) same_member
          (All-imp (OtherMember k) (λ y. connection_equal y.connection k.connection ≡ false) ks
            (λ y a. connection_equal_sym k.connection y.connection a) o.0))
        (subst
          (λ x. find_cooldown (kept_after kept x).cooldowns m.connection ≡ some (cooldown_of m))
          (sym same_member) (step-starts-cooldown kept m own gone failed))
  failed_member_cools_down (k ∷ ks) kept (suc index) m o at own gone failed =
      failed_member_cools_down ks (kept_after kept k) index m o.1 at own gone failed
