-- ===== src/Endpoint.antt =====
-- internal/endpoint: identities, confidential revisions, provenance and records.
-- Text is a list of bytes. A configuration is seen through the two values that the other
-- components use: its identity and its complete canonical encoding.
pub mod Order
pub mod Connection
pub mod Inventory
use egressfox.Base.{Bool, true, false, ◌&&◌, Option, none, some, List, [], ◌∷◌, if◌then◌else◌}
use egressfox.Base.Bytes.{
  Bytes, Sign, below, same, above, compare_bytes, is_below, eq_bytes, then_sign, ascii,
}

abbrev pub invalid_endpoint_id : Bytes
invalid_endpoint_id = ascii "<invalid-endpoint-id>"

abbrev pub is_empty {ℓ} : {A : Type ℓ} → List A → Bool
is_empty [] = true
is_empty (b ∷ bs) = false

-- ID.String
unfoldable pub id_string : Bytes → Bytes
id_string id = if is_empty id then invalid_endpoint_id else id

-- A nil pointer to the digest is `none`.
abbrev pub Revision : Type 0
Revision = Option Bytes

-- Revision.Equal: a nil revision equals nothing, not even another nil.
unfoldable pub revision_equal : Revision → Revision → Bool
revision_equal none r = false
revision_equal (some a) none = false
revision_equal (some a) (some b) = eq_bytes a b

pub record Identity : Type 0 where
  pub id : Bytes
  pub revision : Revision

-- The rest of Identity.Equal, where two nil revisions agree.
unfoldable pub same_revision : Revision → Revision → Bool
same_revision none none = true
same_revision none (some b) = false
same_revision (some a) none = false
same_revision (some a) (some b) = eq_bytes a b

unfoldable pub identity_equal : Identity → Identity → Bool
unfolding same_revision
identity_equal a b = eq_bytes a.id b.id && same_revision a.revision b.revision

-- The rest of Identity.Compare: nil sorts before every digest.
unfoldable pub compare_revision : Revision → Revision → Sign
compare_revision none none = same
compare_revision none (some b) = below
compare_revision (some a) none = above
compare_revision (some a) (some b) = compare_bytes a b

unfoldable pub identity_compare : Identity → Identity → Sign
unfolding compare_revision
identity_compare a b = then_sign (compare_bytes a.id b.id) (compare_revision a.revision b.revision)

pub record Configuration : Type 0 where
  pub identity : Identity
  pub encoding : Bytes

pub record Provenance : Type 0 where
  pub source : Bytes
  pub record_id : Bytes
  pub aliases : List Bytes

pub record Record : Type 0 where
  pub configuration : Configuration
  pub provenance : List Provenance

abbrev pub identity_of : Record → Identity
identity_of r = r.configuration.identity

abbrev pub identity_less : Record → Record → Bool
identity_less a b = is_below (identity_compare (identity_of a) (identity_of b))
