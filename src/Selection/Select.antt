-- ===== src/Selection/Select.antt =====
-- Select of internal/selection/selection.go.
pub mod Filling
pub mod Members
pub mod Choice
pub mod Scanning
pub mod Decisions
pub mod Residence
pub mod Cooling
pub mod Order
use egressfox.Base.{
  ℕ, ◌+◌, ◌-◌, Bool, true, false, not, ◌&&◌, ◌||◌, Option, none, some, List, [], ◌∷◌, ◌++◌, map,
  ltb, leb, ◌==◌, ℤ, pos, pos_part, ltb_ℤ, leb_ℤ, take, keep_if, length, is_none, Result, ok, err,
  fail_if, ◌>>=◌, ◌>>◌, if◌then◌else◌,
}
use egressfox.Base.Bytes.{Bytes, eq_bytes}
use egressfox.Base.Sort.{sort}
use egressfox.Endpoint.{Record, identity_of, identity_equal, identity_less}
use egressfox.Observation.{zero_time}
use egressfox.Observation.Keys.{ConnectionRef, ModelError, new_connection_ref, connection_equal}
use egressfox.Observation.Summary.{Summary}
use egressfox.Selection.{
  Policy, Context, Candidate, Member, Cooldown, State, Reason, eligible, unreliable, failure_streak,
  Explanation, Transition, initial, unchanged, optimized, emergency, context_reset, no_eligible,
  Decision, Ranked, SelectError, unsafe_scope_or_time, stale_evaluation, duplicate_candidates,
  invalid_identity, strategy_adaptive, validate, contexts_equal, ref_key, contains_key, safe_scope,
  fingerprint_input,
}
use egressfox.Selection.Confidence.{Platform}
use egressfox.Selection.Evaluate.{find_member, evaluate}
use egressfox.Selection.Rank.{sort_ranked, find_ranked, contains_ranked, optimize}

abbrev pub candidate_less : Candidate → Candidate → Bool
candidate_less a b = identity_less a.endpoint b.endpoint

-- The loop over neighbours of the sorted candidates.
unfoldable pub has_duplicate : List Candidate → Bool
has_duplicate [] = false
has_duplicate (a ∷ []) = false
has_duplicate (a ∷ b ∷ rest) =
    identity_equal (identity_of a.endpoint) (identity_of b.endpoint) || has_duplicate (b ∷ rest)

abbrev pub is_eligible : Reason → Bool
is_eligible eligible = true
is_eligible _ = false

-- The reasons after which a lost member cools down.
abbrev pub is_failure : Option Reason → Bool
is_failure (some unreliable) = true
is_failure (some failure_streak) = true
is_failure _ = false

-- What the loop over the ordered candidates collects, in their order.
pub record Scan : Type 0 where
  pub explanations : List Explanation
  pub ranked : List Ranked
  pub reasons : List (Bytes × Reason)
  pub present : List Bytes

abbrev pub no_scan : Scan
no_scan = record { explanations = []; ranked = []; reasons = []; present = [] }

abbrev pub add_scan : Candidate → ConnectionRef → Explanation → Scan → Scan
add_scan candidate ref explanation rest = record {
  explanations = explanation ∷ rest.explanations;
  ranked =
      if is_eligible explanation.reason
      then record { candidate = candidate; ref = ref; explanation = explanation } ∷ rest.ranked
      else rest.ranked;
  reasons = (ref_key ref, explanation.reason) ∷ rest.reasons;
  present = ref_key ref ∷ rest.present;
}

abbrev pub reference {ℓ} : {A : Type ℓ} → Result ModelError A → Result SelectError A
reference (ok a) = ok a
reference (err e) = err invalid_identity

abbrev pub later_or : Option Reason → Option Reason → Option Reason
later_or none r = r
later_or (some s) r = some s

-- A map of reasons: the last entry of a key counts.
unfoldable pub reason_of : Bytes → List (Bytes × Reason) → Option Reason
reason_of key [] = none
reason_of key ((k, reason) ∷ rest) =
    later_or (reason_of key rest) (if eq_bytes k key then some reason else none)

abbrev pub recovering : Policy → Option Ranked → Bool
recovering policy none = true
recovering policy (some r) = elim r.candidate.evidence [
  | none ↦ true
  | some summary ↦ ltb_ℤ (pos summary.consecutive_successes) policy.recovery_successes
]

-- Whether an old cooldown stays: its revision is in the inventory, and it is running or the
-- revision has not recovered.
unfoldable pub cooldown_stays : Policy → ℕ → Scan → List Ranked → Cooldown → Bool
cooldown_stays policy now scan ranked c =
    contains_key (ref_key c.connection) scan.present
    && (ltb now c.until || recovering policy (find_ranked ranked c.connection))

-- upsertCooldown
unfoldable pub upsert_cooldown : List Cooldown → Cooldown → List Cooldown
upsert_cooldown [] c = c ∷ []
upsert_cooldown (d ∷ ds) c =
    if connection_equal d.connection c.connection then c ∷ ds else d ∷ upsert_cooldown ds c

pub record Kept : Type 0 where
  pub selected : List Ranked
  pub cooldowns : List Cooldown
  pub lost : Bool

abbrev pub keep_entry : Policy → ℕ → Scan → Kept → Member → Option Ranked → Kept
keep_entry policy now scan kept member (some entry) = record kept {
  selected = kept.selected ++ entry ∷ [];
}
keep_entry policy now scan kept member none = record kept {
  lost = true;
  cooldowns =
      if is_failure (reason_of (ref_key member.connection) scan.reasons)
      then upsert_cooldown kept.cooldowns
          (record { connection = member.connection; until = now + pos_part policy.cooldown })
      else kept.cooldowns;
}

-- The loop over the previous members of an adaptive selection.
unfoldable pub keep_member : Policy → ℕ → Scan → List Ranked → Kept → Member → Kept
keep_member policy now scan ranked kept member =
    keep_entry policy now scan kept member (find_ranked ranked member.connection)

unfoldable pub keep_members : Policy → ℕ → Scan → List Ranked → List Member → Kept → Kept
unfolding keep_member
keep_members policy now scan ranked [] kept = kept
keep_members policy now scan ranked (m ∷ ms) kept =
    keep_members policy now scan ranked ms (keep_member policy now scan ranked kept m)

abbrev pub full : Policy → List Ranked → Bool
full policy selected = leb_ℤ policy.top_n (pos (length selected))

-- The loop that fills the selection up in ranked order.
unfoldable pub fill : Policy → List Ranked → List Ranked → List Ranked
fill policy selected [] = selected
fill policy selected (r ∷ rs) =
    fill policy
      (if full policy selected || contains_ranked selected r.ref
        then selected
        else selected ++ r ∷ [])
      rs

-- `if len(values) > n { values = values[:n] }`
abbrev pub cap_at : Policy → List Ranked → List Ranked
cap_at policy selected =
    if ltb_ℤ policy.top_n (pos (length selected))
    then take (pos_part policy.top_n) selected
    else selected

abbrev pub keeps_members : Policy → Bool → Bool
keeps_members policy usable = policy.strategy == strategy_adaptive && usable

-- The previous state as far as it is usable.
pub record Start : Type 0 where
  pub members : List Member
  pub cooldowns : List Cooldown
  pub transition : Transition
  pub usable : Bool

abbrev pub old_cooldowns : Policy → ℕ → Start → Scan → List Ranked → List Cooldown
old_cooldowns policy now start scan ranked =
    keep_if (cooldown_stays policy now scan ranked) start.cooldowns

abbrev pub nothing_kept : Policy → ℕ → Start → Scan → List Ranked → Kept
nothing_kept policy now start scan ranked = record {
  selected = [];
  cooldowns = old_cooldowns policy now start scan ranked;
  lost = false;
}

-- Too many incumbents are cut to the best of them.
abbrev pub incumbents : Policy → List Ranked → List Ranked
incumbents policy selected =
    if ltb_ℤ policy.top_n (pos (length selected))
    then take (pos_part policy.top_n) (sort_ranked policy.strategy selected)
    else selected

-- A full selection is optimized.
abbrev pub optimized_if_full : Policy → ℕ → List Member → List Ranked → List Ranked → List Ranked
optimized_if_full policy now previous ranked selected =
    if pos_part policy.top_n == length selected
    then optimize previous policy now selected ranked
    else selected

unfoldable pub choose_adaptive : Policy → ℕ → Start → Scan → List Ranked → Kept
choose_adaptive policy now start scan ranked =
    let kept =
      keep_members policy now scan ranked start.members
        (nothing_kept policy now start scan ranked) in
    record kept {
      selected =
          optimized_if_full policy now start.members ranked
            (fill policy (incumbents policy kept.selected) ranked);
    }

unfoldable pub choose_afresh : Policy → ℕ → Start → Scan → List Ranked → Kept
choose_afresh policy now start scan ranked = record {
  selected = cap_at policy (fill policy [] ranked);
  cooldowns = old_cooldowns policy now start scan ranked;
  lost = false;
}

-- The selection and the cooldowns of the next state.
unfoldable pub choose : Policy → ℕ → Start → Scan → List Ranked → Kept
choose policy now start scan ranked =
    if keeps_members policy start.usable
    then choose_adaptive policy now start scan ranked
    else choose_afresh policy now start scan ranked

abbrev pub next_member : List Member → ℕ → Ranked → Member
next_member previous now r =
    let since = (find_member previous r.ref).1 in
    record { connection = r.ref; selected_at = if since == 0 then now else since }

-- sameMembers
unfoldable pub same_members : List Member → List Member → Bool
same_members [] [] = true
same_members [] (b ∷ bs) = false
same_members (a ∷ as') [] = false
same_members (a ∷ as') (b ∷ bs) = connection_equal a.connection b.connection && same_members as' bs

abbrev pub is_empty_selection : List Ranked → Bool
is_empty_selection [] = true
is_empty_selection (r ∷ rs) = false

abbrev pub next_transition : Start → Kept → Bool → Transition
next_transition start kept changed =
    if is_empty_selection kept.selected
    then no_eligible
    else if kept.lost && changed
    then emergency
    else if changed && start.usable
    then optimized
    else start.transition

-- Whether the committed state belongs to this scope, context and policy.
unfoldable pub usable_previous : Bytes → Context → Bytes → State → Bool
usable_previous scope context fingerprint previous =
    eq_bytes previous.scope scope
    && contexts_equal previous.context context
    && eq_bytes previous.policy_fingerprint fingerprint

unfoldable pub start_from : Bytes → Context → Bytes → ℕ → Option State → Result SelectError Start
unfolding usable_previous
start_from scope context fingerprint now none =
    ok (record { members = []; cooldowns = []; transition = initial; usable = false })
start_from scope context fingerprint now (some previous) =
    if usable_previous scope context fingerprint previous
    then fail_if (ltb now previous.evaluated_at) stale_evaluation
      >> ok (record {
        members = previous.members;
        cooldowns = previous.cooldowns;
        transition = unchanged;
        usable = true;
      })
    else ok (record { members = []; cooldowns = []; transition = context_reset; usable = false })

module _ (platform : Platform) where
  open platform use {sha256}

  -- The loop over the ordered candidates.
  unfoldable pub scan_candidates :
      Context → Policy → ℕ → List Member → List Cooldown → List Candidate → Result SelectError Scan
  scan_candidates context policy now members cooldowns [] = ok no_scan
  scan_candidates context policy now members cooldowns (c ∷ cs) =
      let rest = scan_candidates context policy now members cooldowns cs in
      reference (new_connection_ref (identity_of c.endpoint)) >>= λ ref. rest >>= λ scan.
      let (incumbent, selected_at) = find_member members ref in
      ok (
        add_scan c ref (evaluate platform c ref context policy cooldowns incumbent selected_at now)
          scan)

  unfoldable pub policy_fingerprint : Policy → Bytes
  policy_fingerprint policy = sha256 (fingerprint_input policy)

  -- The decision that is returned from the parts.
  unfoldable pub decide : Bytes → Context → Policy → ℕ → Start → Scan → Decision
  decide scope context policy now start scan =
      let ranked = sort_ranked policy.strategy scan.ranked in
      let kept = choose policy now start scan ranked in
      let members = map (next_member start.members now) kept.selected in
      let changed = not (same_members start.members members) in
      record {
        selected = map (λ r. r.candidate.endpoint) kept.selected;
        explanations = scan.explanations;
        next = record {
          scope = scope;
          context = context;
          policy_fingerprint = policy_fingerprint policy;
          evaluated_at = now;
          members = members;
          cooldowns = kept.cooldowns;
        };
        changed = changed;
        degraded = ltb_ℤ (pos (length kept.selected)) policy.top_n;
        transition = next_transition start kept changed;
        eligible = length ranked;
        requested = policy.top_n;
      }

  unfoldable pub select :
      Bytes → Context → Policy → List Candidate → Option State → ℕ → Result SelectError Decision
  select scope context policy candidates previous now = do
    fail_if (not (safe_scope scope) || zero_time now) unsafe_scope_or_time
    validate policy
    start ← start_from scope context (policy_fingerprint policy) now previous
    let ordered = sort candidate_less candidates
    fail_if (has_duplicate ordered) duplicate_candidates
    scan ← scan_candidates context policy now start.members start.cooldowns ordered
    ok (decide scope context policy now start scan)
