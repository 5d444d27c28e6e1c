-- ===== src/Endpoint/Order.antt =====
-- Identity.Compare is a total order, and it agrees with Identity.Equal.
use egressfox.Base.{◌≡◌, refl, sym, ap, true, none, some, arith, ◌↔◌}
use egressfox.Base.Bytes.{
  Bytes, below, same, is_below, flip_sign, eq_bytes_refl, eq_bytes_sound, compare_bytes_same,
  compare_bytes_flip, compare_bytes_trans,
}
use egressfox.Base.Sort.{IsStrictOrder, IsComparison, IsComparison-IsStrictOrder}
use egressfox.Endpoint.{
  Revision, Identity, identity_of, identity_less, identity_equal, identity_compare, same_revision,
  compare_revision, revision_equal,
}

compare_revision_flip : (a b : Revision) → compare_revision b a ≡ flip_sign (compare_revision a b)
unfolding compare_revision
compare_revision_flip none none = refl
compare_revision_flip none (some b) = refl
compare_revision_flip (some a) none = refl
compare_revision_flip (some a) (some b) = compare_bytes_flip a b

compare_revision_same : (a b : Revision) → compare_revision a b ≡ same → a ≡ b
unfolding compare_revision
compare_revision_same none none h = refl
compare_revision_same none (some b) h = cc
compare_revision_same (some a) none h = cc
compare_revision_same (some a) (some b) h = ap some (compare_bytes_same a b h)

compare_revision_trans :
    (a b c : Revision)
    → compare_revision a b ≡ below
    → compare_revision b c ≡ below
    → compare_revision a c ≡ below
unfolding compare_revision
compare_revision_trans none none c h k = cc
compare_revision_trans none (some b) none h k = cc
compare_revision_trans none (some b) (some c) h k = refl
compare_revision_trans (some a) none c h k = cc
compare_revision_trans (some a) (some b) none h k = cc
compare_revision_trans (some a) (some b) (some c) h k = compare_bytes_trans a b c h k

pub identity_compare_flip :
    (a b : Identity) → identity_compare b a ≡ flip_sign (identity_compare a b)
unfolding identity_compare
identity_compare_flip a b =
    ground (arith, compare_bytes_flip a.id b.id, compare_revision_flip a.revision b.revision)

pub identity_compare_same : (a b : Identity) → identity_compare a b ≡ same → a ≡ b
unfolding identity_compare
identity_compare_same a b h =
    ground (arith, compare_bytes_same a.id b.id, compare_revision_same a.revision b.revision)

pub identity_compare_trans :
    (a b c : Identity)
    → identity_compare a b ≡ below
    → identity_compare b c ≡ below
    → identity_compare a c ≡ below
unfolding identity_compare
identity_compare_trans a b c h k = ground (
  arith,
  compare_bytes_trans a.id b.id c.id,
  compare_bytes_same a.id b.id,
  compare_bytes_same b.id c.id,
  compare_revision_trans a.revision b.revision c.revision,
)

identity-IsComparison : IsComparison identity_compare
identity-IsComparison = record {
  flips = identity_compare_flip;
  same_is_equal = identity_compare_same;
  below_trans = identity_compare_trans;
}

-- Sorting by identity is sorting by a strict order.
pub identity_less-IsStrictOrder : IsStrictOrder identity_less
identity_less-IsStrictOrder = record {
  asymmetric = λ x y h. order.asymmetric (identity_of x) (identity_of y) h;
  not_above_trans =
      λ x y z h k. order.not_above_trans (identity_of x) (identity_of y) (identity_of z) h k;
}
  where
    order : IsStrictOrder (λ a b. is_below (identity_compare a b))
    order = IsComparison-IsStrictOrder identity_compare identity-IsComparison

same_revision_iff : (a b : Revision) → (same_revision a b ≡ true) ↔ (a ≡ b)
unfolding same_revision
same_revision_iff none none = (λ _. refl, λ _. refl)
same_revision_iff none (some b) = (λ h. cc, λ h. cc)
same_revision_iff (some a) none = (λ h. cc, λ h. cc)
same_revision_iff (some a) (some b) =
    (λ h. ap some (eq_bytes_sound a b h), λ h. ground (arith, eq_bytes_refl a))

-- Identity.Equal holds exactly of equal identities.
pub identity_equal_iff : (a b : Identity) → (identity_equal a b ≡ true) ↔ (a ≡ b)
unfolding identity_equal
identity_equal_iff a b = (
  λ h. ground (arith, eq_bytes_sound a.id b.id, (same_revision_iff a.revision b.revision).0),
  λ h. ground (arith, eq_bytes_refl a.id, (same_revision_iff a.revision a.revision).1 refl),
)

-- Revision.Equal holds exactly of equal revisions that are there.
pub revision_equal_iff :
    (a b : Revision) → (revision_equal a b ≡ true) ↔ ((d : Bytes) × (a ≡ some d) × (b ≡ some d))
unfolding revision_equal
revision_equal_iff none b = (λ h. cc, λ h. cc (h.1))
revision_equal_iff (some a) none = (λ h. cc, λ h. cc (h.2))
revision_equal_iff (some a) (some b) = (
  λ h. (a, refl, ap some (sym (eq_bytes_sound a b h))),
  λ h. ground (arith, h.1, h.2, eq_bytes_refl a),
)
