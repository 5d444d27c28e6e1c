-- ===== src/Reconcile/Apply/Trace.antt =====
-- The calls of Apply in internal/reconcile/reconcile.go, and what it reports about them.
use egressfox.Base.Bytes.{eq_bytes_sound, eq_bytes_refl}
use egressfox.Base.{
  none, refl, ap, sym, Result-cases, inr, ◌≡◌, inl, Bool-cases, err, Bool, ok, false, ◌∷◌, some,
  true, Option, arith, ◌∙◌, ◌⊎◌, subst,
}
use egressfox.Reconcile.Apply.{
  apply_prepared, confirms, after_publish, after_commit, apply, prepare,
}
use egressfox.Reconcile.{
  Ports, Request, Decision, List, Bytes, Call, staging, publishing, read_receipt, committing,
  Result, Failed, Outcome, fail, state_stage, PublishFault, publication_readback, no_outcome,
  publication_written, publication_confirmed, publication_none, publication_uncertain,
}

abbrev pub failing : Failed → Result Failed Outcome
failing f = err f

failed_inj : (x y : Failed) → failing x ≡ failing y → x ≡ y
failed_inj x y h = ground arith

module _ (ports : Ports) (request : Request) (decision : Decision) where
  open ports use {Validated, stage_decision, publish, current_receipt, commit_decision, Fault}

  abbrev Log : Type 0
  Log = List (Call Validated)

  module _ (validated : Validated) (receipt : Bytes) (log : Log) where
    abbrev pub staged : Log
    staged = staging decision.next receipt request.evaluated_at ∷ log

    abbrev pub published : Log
    published = publishing validated ∷ staged

    abbrev pub read_back : Log
    read_back = read_receipt ∷ published

    abbrev pub committed : Log
    committed = committing request.scope receipt ∷ read_back

    -- The runs that end without an error or with one, by the last call that was made.
    pub data Applied : Result Failed Outcome × Log → Type 0 where
      unstaged :
          {run : Result Failed Outcome × Log} → run ≡ (fail state_stage, staged) → Applied run
      unwritten :
          {run : Result Failed Outcome × Log} (fault : PublishFault)
          → publish validated staged ≡ err fault
          → run ≡ (after_publish ports decision receipt (err fault), published)
          → Applied run
      unconfirmed :
          {run : Result Failed Outcome × Log} (changed : Bool)
          → publish validated staged ≡ ok changed
          → confirms ports receipt (current_receipt published) ≡ false
          → run ≡ (
            err (record {
              stage = publication_readback;
              outcome = record no_outcome {
                decision = some decision;
                changed = changed;
                publication = publication_written;
                intended = some receipt;
              };
            }),
            read_back,
          )
          → Applied run
      decided :
          {run : Result Failed Outcome × Log} (changed : Bool)
          → publish validated staged ≡ ok changed
          → confirms ports receipt (current_receipt published) ≡ true
          → run ≡ (
            after_commit ports
                (record no_outcome {
                  decision = some decision;
                  changed = changed;
                  publication = publication_confirmed;
                  intended = some receipt;
                })
                (commit_decision request.scope receipt read_back),
            committed,
          )
          → Applied run

    -- The intended receipt is the one that was read back.
    confirmed_receipt :
        (answer : Result Fault (Option Bytes))
        → confirms ports receipt answer ≡ true
        → answer ≡ ok (some receipt)
    confirmed_receipt (ok (some current)) h =
        ap (λ c. ok (some c)) (eq_bytes_sound current receipt h)
    confirmed_receipt (ok none) h = cc
    confirmed_receipt (err e) h = cc

    apply_prepared-Applied : Applied (apply_prepared ports request decision validated receipt log)
    unfolding apply_prepared
    apply_prepared-Applied =
        elim (Result-cases (stage_decision decision.next receipt request.evaluated_at log)) [
          | inr (e, refused) ↦ unstaged (rw refused refl)
          | inl (done, accepted) ↦ elim (Result-cases (publish validated staged)) [
            | inr (fault, failed) ↦ unwritten fault failed (rw (accepted, failed) refl)
            | inl (changed, wrote) ↦
                elim (Bool-cases (confirms ports receipt (current_receipt published))) [
                  | inl same_receipt ↦
                      let answered = confirmed_receipt (current_receipt published) same_receipt in
                      decided changed wrote same_receipt
                        (rw (accepted, wrote, answered, eq_bytes_refl receipt) refl)
                  | inr other ↦ unconfirmed changed wrote other (rw (accepted, wrote, other) refl)
                ]
          ]
        ]

    -- A run without an error.
    pub record Confirmed (outcome : Outcome) (after : Log) : Type 0 where
      pub calls : after ≡ committed
      pub confirmed : current_receipt published ≡ ok (some receipt)
      pub promoted : (done : Unit {0}) × (commit_decision request.scope receipt read_back ≡ ok done)
      pub reports :
          (outcome.published ≡ true)
          × (outcome.publication ≡ publication_confirmed)
          × (outcome.intended ≡ some receipt)
          × (outcome.decision ≡ some decision)

    commit-cases :
        (answer : Result Fault (Unit {0})) (outcome : Outcome) (o : Outcome)
        → after_commit ports o answer ≡ ok outcome
        → ((done : Unit {0}) × (answer ≡ ok done)) × (record o { published = true } ≡ outcome)
    commit-cases (ok done) outcome o h = ((done, refl), ground arith)
    commit-cases (err e) outcome o h = cc

    Applied-ok :
        (run : Result Failed Outcome × Log) (outcome : Outcome)
        → Applied run
        → run.0 ≡ ok outcome
        → Confirmed outcome run.1
    Applied-ok run outcome (unstaged eq) h = cc
    Applied-ok run outcome (unwritten fault failed eq) h = cc
    Applied-ok run outcome (unconfirmed changed wrote other eq) h = cc
    Applied-ok run outcome (decided changed wrote same_receipt eq) h =
        let (promoted, reported) =
          commit-cases (commit_decision request.scope receipt read_back) outcome _
            (sym (ap (λ r. r.0) eq) ∙ h) in
        record {
          calls = ap (λ r. r.1) eq;
          confirmed = confirmed_receipt (current_receipt published) same_receipt;
          promoted = promoted;
          reports = (
            sym (ap (λ o. o.published) reported),
            sym (ap (λ o. o.publication) reported),
            sym (ap (λ o. o.intended) reported),
            sym (ap (λ o. o.decision) reported),
          );
        }

    -- What an error says about the external write.
    abbrev pub Honest : Outcome → Log → Type 0
    Honest outcome after =
        (outcome.publication ≡ publication_none
          → (after ≡ staged)
            ⊎ ((after ≡ published)
                × (publish validated staged ≡ err (record { uncertain = false }))))
        × (outcome.publication ≡ publication_confirmed
            → (after ≡ committed) × (current_receipt published ≡ ok (some receipt)))

    abbrev pub Says : Outcome → Log → Type 0
    Says outcome after = (outcome.published ≡ false) × Honest outcome after

    conclude :
        (run : Result Failed Outcome × Log) (failed : Failed) (expected : Result Failed Outcome)
        (after : Log)
        → run ≡ (expected, after)
        → run.0 ≡ err failed
        → ((f : Failed) → expected ≡ err f → Says f.outcome after)
        → Says failed.outcome run.1
    conclude run failed expected after eq h base =
        subst (Says failed.outcome) (sym (ap (λ r. r.1) eq))
          (base failed (sym (ap (λ r. r.0) eq) ∙ h))

    unstaged-Says : (f : Failed) → fail {A = Outcome} state_stage ≡ err f → Says f.outcome staged
    unstaged-Says f h =
        subst (λ g. Says g.outcome staged) (failed_inj _ f h) (refl, (λ _. inl refl, λ e. cc))

    unwritten-Says :
        (fault : PublishFault) (f : Failed)
        → publish validated staged ≡ err fault
        → after_publish ports decision receipt (err fault) ≡ err f
        → Says f.outcome published
    unwritten-Says fault f refused h = elim (Bool-cases fault.uncertain) [
      | inl u ↦
          let outcome : f.outcome.publication ≡ publication_uncertain = ground arith in
          let unpublished : f.outcome.published ≡ false = ground arith in
          (unpublished, (λ e. cc, λ e. cc))
      | inr u ↦
          let outcome : f.outcome.publication ≡ publication_none = ground arith in
          let unpublished : f.outcome.published ≡ false = ground arith in
          let certain : fault ≡ record { uncertain = false } = ground arith in
          (unpublished, (λ e. inr (refl, refused ∙ ap err certain), λ e. cc))
    ]

    unconfirmed-Says :
        (outcome : Outcome) (f : Failed)
        → outcome.published ≡ false
        → outcome.publication ≡ publication_written
        → failing (record { outcome = outcome; stage = publication_readback }) ≡ failing f
        → Says f.outcome read_back
    unconfirmed-Says outcome f p q h =
        subst (λ g. Says g.outcome read_back) (failed_inj _ f h) (p, (λ e. cc, λ e. cc))

    uncommitted-Says :
        (outcome : Outcome) (answer : Result Fault (Unit {0})) (f : Failed)
        → outcome.published ≡ false
        → outcome.publication ≡ publication_confirmed
        → current_receipt published ≡ ok (some receipt)
        → after_commit ports outcome answer ≡ err f
        → Says f.outcome committed
    uncommitted-Says outcome (ok done) f p q c h = cc
    uncommitted-Says outcome (err e) f p q c h =
        subst (λ g. Says g.outcome committed) (failed_inj _ f h) (p, (λ e'. cc, λ _. (refl, c)))

    Applied-err :
        (run : Result Failed Outcome × Log) (failed : Failed)
        → Applied run
        → run.0 ≡ err failed
        → Says failed.outcome run.1
    Applied-err run failed (unstaged eq) h = conclude run failed _ _ eq h unstaged-Says
    Applied-err run failed (unwritten fault refused eq) h =
        conclude run failed _ _ eq h (λ f. unwritten-Says fault f refused)
    Applied-err run failed (unconfirmed changed wrote other eq) h =
        conclude run failed _ _ eq h (λ f. unconfirmed-Says _ f refl refl)
    Applied-err run failed (decided changed wrote same_receipt eq) h =
        conclude run failed _ _ eq h (λ f.
          uncommitted-Says _ (commit_decision request.scope receipt read_back) f refl refl
            (confirmed_receipt (current_receipt published) same_receipt))

  unprepared-run :
      (log : Log) (f : Failed)
      → prepare ports decision ≡ err f
      → apply ports request decision log ≡ (failing f, log)
  unfolding apply
  unprepared-run log f e = rw e refl

  prepared-run :
      (log : Log) (validated : Validated) (receipt : Bytes)
      → prepare ports decision ≡ ok (validated, receipt)
      → apply ports request decision log
        ≡ apply_prepared ports request decision validated receipt log
  unfolding apply
  prepared-run log validated receipt e = rw e refl

  failing-ok : (f : Failed) (outcome : Outcome) → ¬ (failing f ≡ ok outcome)
  failing-ok f outcome h = cc

  -- Apply succeeds only when it made its four calls in this order (stage, publish, read back, commit),
  -- with the receipt of the rendered artifact: the publisher read back exactly this receipt before
  -- it was committed, the commit succeeded, and the result says so.
  pub apply-Confirmed :
      (log : Log) (outcome : Outcome)
      → (apply ports request decision log).0 ≡ ok outcome
      → (validated : Validated) × (receipt : Bytes) × (prepare ports decision
          ≡ ok (validated, receipt))
        × Confirmed validated receipt log outcome (apply ports request decision log).1
  apply-Confirmed log outcome h = elim (Result-cases (prepare ports decision)) [
    | inr (e, refused) ↦
        absurd (failing-ok e outcome (sym (ap (λ r. r.0) (unprepared-run log e refused)) ∙ h))
    | inl (both, prepared) ↦
        let run = prepared-run log both.0 both.1 prepared in
        (
          both.0,
          both.1,
          prepared,
          subst (Confirmed both.0 both.1 log outcome) (sym (ap (λ r. r.1) run)) (
              Applied-ok both.0 both.1 log _ outcome (apply_prepared-Applied both.0 both.1 log)
                (sym (ap (λ r. r.0) run) ∙ h)),
        )
  ]

  -- When Apply fails, its result never counts as published. Either it failed before it called
  -- anything, or it reports no publication only when it did not publish or the publisher said that
  -- it had written nothing, and a confirmed one only when the intended receipt was read back.
  pub apply-Says :
      (log : Log) (failed : Failed)
      → (apply ports request decision log).0 ≡ failing failed
      → ((prepare ports decision ≡ err failed) × ((apply ports request decision log).1 ≡ log))
        ⊎ ((validated : Validated) × (receipt : Bytes) × (prepare ports decision
              ≡ ok (validated, receipt))
            × Says validated receipt log failed.outcome (apply ports request decision log).1)
  apply-Says log failed h = elim (Result-cases (prepare ports decision)) [
    | inr (e, refused) ↦
        let run = unprepared-run log e refused in
        inl
          (refused ∙ ap err (failed_inj e failed (sym (ap (λ r. r.0) run) ∙ h)), ap (λ r. r.1) run)
    | inl (both, prepared) ↦
        let run = prepared-run log both.0 both.1 prepared in
        inr (
          both.0,
          both.1,
          prepared,
          subst (Says both.0 both.1 log failed.outcome) (sym (ap (λ r. r.1) run)) (
              Applied-err both.0 both.1 log _ failed (apply_prepared-Applied both.0 both.1 log)
                (sym (ap (λ r. r.0) run) ∙ h)),
        )
  ]
