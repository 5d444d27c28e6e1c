-- ===== src/Reconcile/Plan/Gathering.antt =====
-- What plan of internal/reconcile/reconcile.go calls: it only asks for summaries.
use egressfox.Reconcile.Plan.{
  plan, load_candidates, load_candidate, withheld, candidate_of, key_of, evidence_of,
}
use egressfox.Reconcile.{
  reserving, Call, Ports, summarizing, Request, Platform, Record, State, new_connection_ref,
  identity_of,
}
use egressfox.Base.{inl, inr, Bool, Option, List, [], ◌∷◌, Bool-cases, Result-cases}

-- The log grows by calls that satisfy Q.
pub data Grows {V : Type 0} (Q : Call V → Type 0) (log : List (Call V))
    : List (Call V) → Type 0 where
  stays : Grows Q log log
  grows : {after : List (Call V)} (c : Call V) → Q c → Grows Q log after → Grows Q log (c ∷ after)

pub Grows-trans :
    {V : Type 0} {Q : Call V → Type 0} {a b c : List (Call V)}
    → Grows Q a b
    → Grows Q b c
    → Grows Q a c
Grows-trans g stays = g
Grows-trans g (grows c q h) = grows c q (Grows-trans g h)

-- A call for a summary, or for the caller's reservation: none that touches the publication or the
-- checkpoints.
abbrev pub Gathers : {V : Type 0} → Call V → Type 0
Gathers (summarizing key) = Unit {0}
Gathers (reserving decision) = Unit {0}
Gathers _ = ⊥

module _ (ports : Ports) where
  open ports use {Validated}

  abbrev Log : Type 0
  Log = List (Call Validated)

  load_candidate-Gathers :
      (request : Request) (r : Record) (log : Log)
      → Grows Gathers log (load_candidate ports request r log).1
  unfolding load_candidate
  load_candidate-Gathers request r log = elim (Result-cases (new_connection_ref (identity_of r))) [
    | inr (e, h) ↦ rw h stays
    | inl (connection, h) ↦ elim (Result-cases (key_of ports request connection)) [
      | inr (e, k) ↦ rw (h, k) stays
      | inl (key, k) ↦ elim (Result-cases (evidence_of ports request key log)) [
        | inr (e, l) ↦ rw (h, k, l) (grows (summarizing key) tt stays)
        | inl (summary, l) ↦ rw (h, k, l) (grows (summarizing key) tt stays)
      ]
    ]
  ]

  candidate-Gathers :
      (request : Request) (keeps : Option (Record → Bool)) (r : Record) (log : Log)
      → Grows Gathers log (candidate_of ports request keeps r log).1
  candidate-Gathers request keeps r log = elim (Bool-cases (withheld ports keeps r)) [
    | inl w ↦ rw w stays
    | inr k ↦ rw k (load_candidate-Gathers request r log)
  ]

  load_candidates-Gathers :
      (request : Request) (keeps : Option (Record → Bool)) (rs : List Record) (log : Log)
      → Grows Gathers log (load_candidates ports request keeps rs log).1
  unfolding load_candidates
  load_candidates-Gathers request keeps [] log = stays
  load_candidates-Gathers request keeps (r ∷ rs) log =
      let between = (candidate_of ports request keeps r log).1 in
      let first = candidate-Gathers request keeps r log in
      let both = Grows-trans first (load_candidates-Gathers request keeps rs between) in
      elim (Result-cases (candidate_of ports request keeps r log).0) [
        | inr (e, h) ↦ rw h first
        | inl (candidate, h) ↦
            elim (Result-cases (load_candidates ports request keeps rs between).0) [
              | inr (e, k) ↦ rw (h, k) both
              | inl (candidates, k) ↦ rw (h, k) both
            ]
      ]

  -- Planning only asks for summaries.
  pub plan-Gathers :
      (platform : Platform) (request : Request) (previous : Option State)
      (keeps : Option (Record → Bool)) (log : Log)
      → Grows Gathers log (plan ports platform request previous keeps log).1
  unfolding plan
  plan-Gathers platform request previous keeps log =
      elim (Result-cases (load_candidates ports request keeps request.inventory log).0) [
        | inr (e, h) ↦ rw h (load_candidates-Gathers request keeps request.inventory log)
        | inl (candidates, h) ↦ rw h (load_candidates-Gathers request keeps request.inventory log)
      ]
