-- ===== src/Selection/Rank/Search.antt =====
-- findRanked and containsRanked of internal/selection/selection.go.
use egressfox.Base.{
  ◌≡◌, subst, inl, inr, true, false, some, List, [], ◌∷◌, ◌++◌, arith, All, Bool-cases,
}
use egressfox.Base.Bytes.{eq_bytes_sound}
use egressfox.Endpoint.Order.{revision_equal_iff}
use egressfox.Observation.Keys.{ConnectionRef, connection_equal}
use egressfox.Selection.{Ranked}
use egressfox.Selection.Rank.{find_ranked, contains_ranked}

-- ConnectionRef.Equal holds of equal references only, and of those with a revision.
pub connection_equal_sound : (a b : ConnectionRef) → connection_equal a b ≡ true → a ≡ b
unfolding connection_equal
connection_equal_sound a b h =
    ground (arith, eq_bytes_sound a.id b.id, (revision_equal_iff a.revision b.revision).0)

-- Equality of references is symmetric.
pub connection_equal_sym :
    (a b : ConnectionRef) → connection_equal a b ≡ false → connection_equal b a ≡ false
connection_equal_sym a b h = elim (Bool-cases (connection_equal b a)) [
  | inl e ↦ let same_ref = connection_equal_sound b a e in absurd (cc (h, e, same_ref))
  | inr e ↦ e
]

abbrev pub Apart : ConnectionRef → Ranked → Type 0
Apart ref r = connection_equal r.ref ref ≡ false

pub contains_ranked-append :
    (rs : List Ranked) (s : Ranked) (ref : ConnectionRef)
    → contains_ranked rs ref ≡ true
    → contains_ranked (rs ++ s ∷ []) ref ≡ true
unfolding contains_ranked
contains_ranked-append [] s ref h = cc
contains_ranked-append (r ∷ rs) s ref h = ground (arith, contains_ranked-append rs s ref)

pub contains_ranked-last :
    (rs : List Ranked) (s : Ranked) (ref : ConnectionRef)
    → connection_equal s.ref ref ≡ true
    → contains_ranked (rs ++ s ∷ []) ref ≡ true
unfolding contains_ranked
contains_ranked-last [] s ref h = ground arith
contains_ranked-last (r ∷ rs) s ref h = ground (arith, contains_ranked-last rs s ref)

-- What is not found is apart from every element.
pub contains_ranked-false :
    (rs : List Ranked) (ref : ConnectionRef) → contains_ranked rs ref ≡ false → All (Apart ref) rs
unfolding contains_ranked
contains_ranked-false [] ref h = tt
contains_ranked-false (r ∷ rs) ref h = ground (arith, contains_ranked-false rs ref)

-- What is found has the reference, and every property of the list.
pub find_ranked-some {κ} :
    (P : Ranked → Type κ) (rs : List Ranked) (ref : ConnectionRef) (entry : Ranked)
    → All P rs
    → find_ranked rs ref ≡ some entry
    → P entry × (entry.ref ≡ ref)
unfolding find_ranked
find_ranked-some P [] ref entry h e = cc
find_ranked-some P (r ∷ rs) ref entry h e = elim (Bool-cases (connection_equal r.ref ref)) [
  | inl hit ↦
      let found : r ≡ entry = ground arith in
      subst (λ s. P s × (s.ref ≡ ref)) found (h.0, connection_equal_sound r.ref ref hit)
  | inr miss ↦ find_ranked-some P rs ref entry h.1 (ground arith)
]
