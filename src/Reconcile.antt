-- ===== src/Reconcile.antt =====
-- internal/reconcile/reconcile.go: from evidence to a publication. The stores, the publisher, the
-- renderer and the caller's callbacks are the interface `Ports`. A call is entered in a log, and
-- what a port answers may depend on the whole log before the call.
pub mod Apply
pub mod Plan
pub mod Cycle
use egressfox.Base.{
  ℕ, Bool, true, false, not, ◌||◌, Option, none, some, List, [], ◌∷◌, ℤ, Result, ok, err, is_none,
  if◌then◌else◌,
}
use egressfox.Base.Bytes.{Bytes, eq_bytes}
use egressfox.Artifact.{Profile, profile_equal}
use egressfox.Endpoint.{Record, identity_of}
use egressfox.Observation.{zero_time}
use egressfox.Observation.Keys.{Key, ModelError, new_connection_ref, new_key}
use egressfox.Observation.Summary.{Summary}
use egressfox.Selection.{Context, Policy, Candidate, State, Decision, SelectError}
use egressfox.Selection.Confidence.{Platform}
use egressfox.Selection.Select.{select}

pub data Stage : Type 0 where
  request_stage profile_stage publisher_read state_recover candidate_stage evidence_key : Stage
  evidence_load selection_stage scheduling inventory_stage policy_stage render_stage : Stage
  validation_stage receipt_stage state_stage publication_stage publication_readback : Stage
  state_commit : Stage

pub data Publication : Type 0 where
  publication_none publication_uncertain publication_written publication_confirmed : Publication

-- Result of the source; its zero decision is `none`, its zero receipt too.
pub record Outcome : Type 0 where
  pub decision : Option Decision
  pub published : Bool
  pub changed : Bool
  pub retained_lkg : Bool
  pub publication : Publication
  pub intended : Option Bytes
  pub constrained : Bool

abbrev pub no_outcome : Outcome
no_outcome = record {
  decision = none;
  published = false;
  changed = false;
  retained_lkg = false;
  publication = publication_none;
  intended = none;
  constrained = false;
}

-- Calls that leave the package.
pub data Call (Validated : Type 0) : Type 0 where
  read_receipt : Call Validated
  recovering : Bytes → Option Bytes → Call Validated
  summarizing : Key → Call Validated
  reserving : Decision → Call Validated
  applying : List Record → Call Validated
  staging : State → Bytes → ℕ → Call Validated
  publishing : Validated → Call Validated
  committing : Bytes → Bytes → Call Validated

-- A failed publication says whether it may have written.
pub record PublishFault : Type 0 where
  pub uncertain : Bool

-- What Reconcile is given: History, Decisions, Publisher and the request's renderer, checker and
-- callbacks. A callback that is nil is `none`.
pub record Ports : Type 1 where
  pub Fault : Type 0
  pub Inventory : Type 0
  pub Gateway : Type 0
  pub Rendered : Type 0
  pub Validated : Type 0
  pub deduplicate : List Record → Result Fault Inventory
  pub new_gateway : Inventory → Result Fault Gateway
  pub renderer_profile : Profile
  pub render : Gateway → Result Fault Rendered
  pub validate : Rendered → Result Fault Validated
  pub receipt_of : Validated → Result Fault Bytes
  pub summarize : Key → ℕ → ℤ → ℤ → List (Call Validated) → Result Fault Summary
  pub current_receipt : List (Call Validated) → Result Fault (Option Bytes)
  pub recover_decision : Bytes → Option Bytes → List (Call Validated) → Result Fault (Option State)
  pub stage_decision : State → Bytes → ℕ → List (Call Validated) → Result Fault (Unit {0})
  pub publish : Validated → List (Call Validated) → Result PublishFault Bool
  pub commit_decision : Bytes → Bytes → List (Call Validated) → Result Fault (Unit {0})
  pub reserve : Option (Decision → List (Call Validated) → Result Fault (Unit {0}))
  pub maintained : Option (Record → Bool)
  pub before_apply : Bool

pub record Request : Type 0 where
  pub scope : Bytes
  pub inventory : List Record
  pub context : Context
  pub policy : Policy
  pub evaluated_at : ℕ
  pub has_renderer : Bool
  pub has_checker : Bool

-- What is returned with an error: the result and the stage of the failure.
pub record Failed : Type 0 where
  pub outcome : Outcome
  pub stage : Stage

module _ (ports : Ports) where
  open ports use {Validated, Fault}

  -- The log that a run is given, latest call first, and the one that it leaves.
  abbrev pub Run : Type 0 → Type 0
  Run A = List (Call Validated) → Result Failed A × List (Call Validated)

abbrev pub fail {κ} : {A : Type κ} → Stage → Result Failed A
fail stage = err (record { outcome = no_outcome; stage = stage })

abbrev pub at_stage {ℓ κ} : {E : Type ℓ} {A : Type κ} → Stage → Result E A → Result Failed A
at_stage stage (ok a) = ok a
at_stage stage (err e) = fail stage

abbrev pub and_then : {A B : Type 0} → Result Failed A → (A → Result Failed B) → Result Failed B
and_then (ok a) f = f a
and_then (err e) f = err e

module _ {V : Type 0} where
  infixl 5 ◌>>=◌ ◌>>◌
  abbrev pub continue :
      {A B : Type 0}
      → Result Failed A
      → List (Call V)
      → (A → List (Call V) → Result Failed B × List (Call V))
      → Result Failed B × List (Call V)
  continue (ok a) log f = f a log
  continue (err e) log f = (err e, log)

  abbrev pub ◌>>=◌ :
      {A B : Type 0}
      → (List (Call V) → Result Failed A × List (Call V))
      → (A → List (Call V) → Result Failed B × List (Call V))
      → List (Call V)
      → Result Failed B × List (Call V)
  (m >>= f) log = let (r, after) = m log in continue r after f

  abbrev pub ◌>>◌ :
      {B : Type 0}
      → (List (Call V) → Result Failed (Unit {0}) × List (Call V))
      → (List (Call V) → Result Failed B × List (Call V))
      → List (Call V)
      → Result Failed B × List (Call V)
  (m >> k) = m >>= λ _. k

  -- A step that calls nothing.
  abbrev pub quietly :
      {A : Type 0} → Result Failed A → List (Call V) → Result Failed A × List (Call V)
  quietly r log = (r, log)

  -- A call of a port.
  abbrev pub calling :
      {A E : Type 0}
      → Stage
      → Call V
      → (List (Call V) → Result E A)
      → List (Call V)
      → Result Failed A × List (Call V)
  calling stage call answer log = (at_stage stage (answer log), call ∷ log)

  abbrev pub refuse_if : Bool → Stage → List (Call V) → Result Failed (Unit {0}) × List (Call V)
  refuse_if test stage log = (if test then fail stage else ok tt, log)
