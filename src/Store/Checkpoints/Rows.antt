-- ===== src/Store/Checkpoints/Rows.antt =====
-- What the SQL statements on checkpoints of internal/state/sqlite.go do to the row of a slot.
use egressfox.Store.Checkpoints.{
  payload_at, delete_slot, upsert, CheckpointRow, promote, slot_committed, slot_pending,
}
use egressfox.Base.Bytes.{Bytes, eq_bytes, eq_bytes_sound, eq_bytes_refl}
use egressfox.Base.{
  ℕ, ◌≡◌, List, false, if◌then◌else◌, Bool-cases, ◌==◌, ◌&&◌, inr, none, some, inl, arith, ◌∷◌,
  subst, [],
}

-- Equality of scopes in the form that case splits use.
pub eq_bytes-false : (a b : Bytes) → eq_bytes a b ≡ false → eq_bytes b a ≡ false
eq_bytes-false a b h = elim (Bool-cases (eq_bytes b a)) [
  | inr e ↦ e
  | inl e ↦
      let same = eq_bytes_sound b a e in
      let other = subst (λ c. eq_bytes a c ≡ false) same h in
      absurd (ground (arith, eq_bytes_refl a))
]

pub payload_at-delete_slot :
    (s t : Bytes) (k j : ℕ) (rows : List CheckpointRow)
    → payload_at s k (delete_slot t j rows)
      ≡ (if eq_bytes t s && j == k then none else payload_at s k rows)
unfolding payload_at delete_slot
payload_at-delete_slot s t k j [] = ground arith
payload_at-delete_slot s t k j (row ∷ rows) = ground (
  arith,
  payload_at-delete_slot s t k j rows,
  eq_bytes_sound row.scope s,
  eq_bytes_sound row.scope t,
  eq_bytes_sound t s,
  eq_bytes_refl s,
  eq_bytes_refl t,
)

pub payload_at-upsert :
    (s : Bytes) (k : ℕ) (row : CheckpointRow) (rows : List CheckpointRow)
    → payload_at s k (upsert row rows)
      ≡ (if eq_bytes row.scope s && row.slot == k then some row.payload else payload_at s k rows)
unfolding payload_at upsert
payload_at-upsert s k row rows = ground (arith, payload_at-delete_slot s row.scope k row.slot rows)

-- The pending row takes the place of the committed one.
pub payload_at-promote :
    (s t : Bytes) (k : ℕ) (rows : List CheckpointRow)
    → payload_at s k (promote t (delete_slot t slot_committed rows)) ≡ (
        if eq_bytes t s
        then (if k == slot_committed
            then payload_at s slot_pending rows
            else if k == slot_pending
            then none
            else payload_at s k rows)
        else payload_at s k rows)
unfolding payload_at delete_slot promote
payload_at-promote s t k [] = ground arith
payload_at-promote s t k (row ∷ rows) = ground (
  arith,
  payload_at-promote s t k rows,
  eq_bytes_sound row.scope s,
  eq_bytes_sound row.scope t,
  eq_bytes_sound t s,
  eq_bytes_refl s,
  eq_bytes_refl t,
)
