-- ===== src/Reconcile/Cycle/Outcomes.antt =====
-- What a run of Reconcile in internal/reconcile/reconcile.go that succeeds has done.
use egressfox.Reconcile.Apply.{prepare}
use egressfox.Reconcile.Apply.Trace.{Confirmed}
use egressfox.Reconcile.Plan.Gathering.{Grows, Gathers}
use egressfox.Reconcile.Cycle.{
  Planned, retained, nothing_selected, accepted, plan, finish, announce, choosing,
}
use egressfox.Reconcile.{
  Ports, Platform, Request, Call, Decision, Failed, State, reserving, Run, Outcome, Bytes, ◌>>=◌,
  read_receipt, recovering,
}
use egressfox.Base.{◌≡◌, Bool, true, false, Option, none, some, List, ◌∷◌, Result, ok}

abbrev succeeding : {A : Type 0} → A → Result Failed A
succeeding a = ok a

module _ (ports : Ports) (platform : Platform) (request : Request) where
  open ports use {
    Validated, Fault, reserve, maintained, current_receipt, recover_decision, renderer_profile,
  }

  abbrev Log : Type 0
  Log = List (Call Validated)

  -- The caller, if it wants to be asked, has allowed the decision in the last call of the log.
  abbrev pub Allowed : Option (Decision → Log → Result Fault (Unit {0})) → Decision → Log → Type 0
  Allowed none d log = Unit {0}
  Allowed (some permits) d log =
      (earlier : Log) × (done : Unit {0}) × (permits d earlier ≡ ok done)
      × (reserving d ∷ earlier ≡ log)

  -- A plan is an empty decision, or one with records that the caller allows.
  abbrev pub Sound :
      Option (Decision → Log → Result Fault (Unit {0})) → Planned ports platform → Log → Type 0
  Sound asks (retained outcome) log =
      (d : Decision) × (outcome.decision ≡ some d)
      × (nothing_selected ports platform d ≡ true)
      × (outcome.published ≡ false)
  Sound asks (accepted constrained d) log =
      (nothing_selected ports platform d ≡ false) × Allowed asks d log

  -- What a part of the run that ends in a plan has done.
  abbrev pub Plans :
      Option (Decision → Log → Result Fault (Unit {0}))
      → Log
      → Result Failed (Planned ports platform) × Log
      → Type 0
  Plans asks log run =
      Grows Gathers log run.1 × ((p : Planned ports platform) → run.0 ≡ ok p → Sound asks p run.1)

  -- What a successful run has done since the given log.
  pub data Reconciled (log : Log) (outcome : Outcome) : Log → Type 0 where
    kept_lkg :
        {after : Log} (d : Decision)
        → Grows Gathers log after
        → outcome.decision ≡ some d
        → nothing_selected ports platform d ≡ true
        → outcome.published ≡ false
        → Reconciled log outcome after
    applied :
        {before after : Log} (d : Decision) (validated : Validated) (receipt : Bytes) (o : Outcome)
        → Grows Gathers log before
        → nothing_selected ports platform d ≡ false
        → Allowed reserve d before
        → prepare ports d ≡ ok (validated, receipt)
        → Confirmed ports request d validated receipt (announce ports platform d before).1 o after
        → outcome ≡ record o { constrained = outcome.constrained }
        → Reconciled log outcome after

  -- What a run comes to, if it succeeds.
  abbrev Good : Log → Result Failed Outcome × Log → Type 0
  Good log run = (outcome : Outcome) → run.0 ≡ ok outcome → Reconciled log outcome run.1

  abbrev decided_run : Option State → Bool → Decision → Run ports Outcome
  decided_run previous exists d =
      choosing ports platform request previous exists d >>= finish ports platform request

  abbrev planned_run : Option State → Bool → Run ports Outcome
  planned_run previous exists =
      plan ports platform request previous none >>= decided_run previous exists

  -- The log when the published receipt has been read and the checkpoints have been recovered with it.
  abbrev pub recovered_log : Option Bytes → Log → Log
  recovered_log current log = recovering request.scope current ∷ read_receipt ∷ log
