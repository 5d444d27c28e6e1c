-- ===== src/Store/Checkpoints/Trace.antt =====
-- Sequences of checkpoint operations of internal/state/sqlite.go, with any answers of the database.
use egressfox.Store.Checkpoints.Simulation.{run-Refines}
use egressfox.Store.Checkpoints.{payload_at, CheckpointRow, Calls, state_valid, encode_checkpoint}
use egressfox.Base.Bytes.{Bytes, eq_bytes, eq_bytes_sound}
use egressfox.Store.Checkpoints.Refinement.{
  stay, discard, put_pending, take_over, Operation, stage, scope_of, Slots, Change, Allowed,
  slots_of, IsCurrent, changed, run, published_by, commit, recover,
}
use egressfox.Artifact.Receipts.{Encoding}
use egressfox.Store.Checkpoints.Payload.{Json}
use egressfox.Base.{
  List, ◌∷◌, [], ◌≡◌, ◌⊎◌, inr, some, arith, true, inl, subst, ◌∙◌, if◌then◌else◌, ap, Bool-cases,
  sym, refl,
}

module _ (json : Json) (encoding : Encoding) where
  -- The operations so far, the last one first, and the rows that they left.
  pub data Ran : List Operation → List CheckpointRow → Type 0 where
    start : Ran [] []
    later :
        {ops : List Operation} {rows : List CheckpointRow} (calls : Calls) (op : Operation)
        (new : List CheckpointRow)
        → Ran ops rows
        → run json encoding calls op rows ≡ new
        → Ran (op ∷ ops) new

  abbrev pub Stages : Bytes → Bytes → Operation → Type 0
  Stages scope payload (stage value receipt now) =
      (value.scope ≡ scope)
      × (state_valid value ≡ true)
      × (encode_checkpoint json value receipt ≡ some payload)
  Stages scope payload (commit own current) = ⊥
  Stages scope payload (recover own current) = ⊥

  abbrev pub Publishes : Bytes → Bytes → Operation → Type 0
  Publishes scope payload op =
      (scope_of op ≡ scope) × IsCurrent json encoding (published_by op) (some payload)

  abbrev pub AnyOf : (Operation → Type 0) → List Operation → Type 0
  AnyOf P [] = ⊥
  AnyOf P (op ∷ ops) = P op ⊎ AnyOf P ops

  -- Where the payloads of the two slots come from.
  abbrev pub Explained : List Operation → Bytes → Slots → Type 0
  Explained ops scope slots =
      ((payload : Bytes) → slots.pending ≡ some payload → AnyOf (Stages scope payload) ops)
      × ((payload : Bytes)
          → slots.committed ≡ some payload
          → AnyOf (Stages scope payload) ops × AnyOf (Publishes scope payload) ops)

  Explained-later :
      (op : Operation) (ops : List Operation) (scope : Bytes) (slots : Slots)
      → Explained ops scope slots
      → Explained (op ∷ ops) scope slots
  Explained-later op ops scope slots h = (
    (λ payload e. inr (h.0 payload e)),
    λ payload e. let (staged, published) = h.1 payload e in (inr staged, inr published),
  )

  Explained-changed :
      (op : Operation) (ops : List Operation) (change : Change) (slots : Slots)
      → Allowed json encoding op slots change
      → Explained ops (scope_of op) slots
      → Explained (op ∷ ops) (scope_of op) (changed change slots)
  Explained-changed op ops stay slots allowed h = Explained-later op ops (scope_of op) slots h
  Explained-changed (stage value receipt now) ops (put_pending encoded) slots allowed h = (
    (λ payload e.
        let same : encoded ≡ payload = ground arith in
        inl (refl, allowed.0, allowed.1 ∙ ap some same)),
    λ payload e. let (staged, published) = h.1 payload e in (inr staged, inr published),
  )
  Explained-changed (commit own current) ops (put_pending encoded) slots allowed h = absurd allowed
  Explained-changed (recover own current) ops (put_pending encoded) slots allowed h = absurd allowed
  Explained-changed op ops take_over slots allowed h = (
    (λ payload e. absurd (ground arith)),
    λ payload e. (
      inr (h.0 payload e),
      inl (refl, subst (IsCurrent json encoding (published_by op)) e allowed),
    ),
  )
  Explained-changed op ops discard slots allowed h = (
    (λ payload e. absurd (ground arith)),
    λ payload e. let (staged, published) = h.1 payload e in (inr staged, inr published),
  )

  -- After any operations on an empty table, whatever failed: a payload in the pending slot of a scope
  -- was staged for it, and a payload in the committed slot was staged for it and found published
  -- by a commit or a recovery of it.
  pub Ran-Explained :
      {ops : List Operation} {rows : List CheckpointRow}
      → Ran ops rows
      → (scope : Bytes) → Explained ops scope (slots_of rows scope)
  unfolding payload_at
  Ran-Explained start scope =
      ((λ payload e. absurd (ground arith)), λ payload e. absurd (ground arith))
  Ran-Explained (later {ops} {rows} calls op new before ran) scope =
      let (change, allowed, same) = run-Refines json encoding calls op rows in
      let old = Ran-Explained before scope in
      let at_new =
        subst
          (λ r. slots_of r scope ≡ (
            if eq_bytes (scope_of op) scope
            then changed change (slots_of rows scope)
            else slots_of rows scope))
          ran (same scope) in
      elim (Bool-cases (eq_bytes (scope_of op) scope)) [
        | inr other ↦
            let kept : slots_of new scope ≡ slots_of rows scope =
              at_new
              ∙ ap (λ b. if b then changed change (slots_of rows scope) else slots_of rows scope)
                  other in
            subst (Explained (op ∷ ops) scope) (sym kept)
              (Explained-later op ops scope (slots_of rows scope) old)
        | inl own ↦
            let moved : slots_of new scope ≡ changed change (slots_of rows scope) =
              at_new
              ∙ ap (λ b. if b then changed change (slots_of rows scope) else slots_of rows scope)
                  own in
            let scopes = eq_bytes_sound (scope_of op) scope own in
            subst (Explained (op ∷ ops) scope) (sym moved) (
              subst (λ s. Explained (op ∷ ops) s (changed change (slots_of rows s))) scopes
                (Explained-changed op ops change (slots_of rows (scope_of op)) allowed
                  (subst (λ s. Explained ops s (slots_of rows s)) (sym scopes) old)))
      ]
