-- ===== src/Observation/Keys.antt =====
-- internal/observation/model.go and target.go: references and evidence keys.
use egressfox.Base.{ℕ, Bool, not, ◌&&◌, ◌||◌, leb, ◌==◌, length, Result, ok, fail_if, ◌>>◌, is_none}
use egressfox.Base.Bytes.{Bytes, eq_bytes}
use egressfox.Artifact.{Profile, profile_equal, mihomo_11931, sing_box_1141, all_safe}
use egressfox.Endpoint.{
  Revision, Identity, id_string, invalid_endpoint_id, is_empty, revision_equal,
}

abbrev pub kind_http_get : ℕ
kind_http_get = 1

pub record ConnectionRef : Type 0 where
  pub id : Bytes
  pub revision : Revision

pub record TargetRef : Type 0 where
  pub id : Bytes
  pub revision : Revision

pub data ModelError : Type 0 where
  invalid_connection invalid_target invalid_key invalid_timing invalid_outcome : ModelError
  invalid_status unexpected_status : ModelError

unfoldable pub is_invalid_connection : Bytes → Revision → Bool
is_invalid_connection id revision = is_none revision || eq_bytes (id_string id) invalid_endpoint_id

unfoldable pub new_connection_ref : Identity → Result ModelError ConnectionRef
unfolding is_invalid_connection
new_connection_ref identity = do
  fail_if (is_invalid_connection identity.id identity.revision) invalid_connection
  ok (record { id = identity.id; revision = identity.revision })

unfoldable pub restore_connection_ref : Bytes → Revision → Result ModelError ConnectionRef
unfolding is_invalid_connection
restore_connection_ref id revision = do
  fail_if (is_invalid_connection id revision) invalid_connection
  ok (record { id = id; revision = revision })

unfoldable pub connection_equal : ConnectionRef → ConnectionRef → Bool
connection_equal a b = eq_bytes a.id b.id && revision_equal a.revision b.revision

unfoldable pub target_equal : TargetRef → TargetRef → Bool
target_equal a b = eq_bytes a.id b.id && revision_equal a.revision b.revision

-- safeID, which NewTargetID and NewVantageID ask for.
unfoldable pub safe_id : Bytes → Bool
unfolding all_safe
safe_id value = leb 1 (length value) && leb (length value) 128 && all_safe value

pub record Key : Type 0 where
  pub connection : ConnectionRef
  pub target : TargetRef
  pub vantage : Bytes
  pub kind : ℕ
  pub profile : Profile

unfoldable pub supported_profile : Profile → Bool
unfolding profile_equal
supported_profile p = profile_equal p mihomo_11931 || profile_equal p sing_box_1141

unfoldable pub new_key : ConnectionRef → TargetRef → Bytes → ℕ → Profile → Result ModelError Key
unfolding supported_profile
new_key connection target vantage kind profile = do
  fail_if
      (eq_bytes (id_string connection.id) invalid_endpoint_id
        || is_empty target.id
        || is_empty vantage
        || not (kind == kind_http_get)
        || not (supported_profile profile))
      invalid_key
  ok (record {
    connection = connection;
    target = target;
    vantage = vantage;
    kind = kind;
    profile = profile;
  })

-- sameKey of summary.go.
unfoldable pub same_key : Key → Key → Bool
same_key a b =
    eq_bytes a.connection.id b.connection.id
    && revision_equal a.connection.revision b.connection.revision
    && eq_bytes a.target.id b.target.id
    && revision_equal a.target.revision b.target.revision
    && eq_bytes a.vantage b.vantage
    && a.kind == b.kind
    && profile_equal a.profile b.profile
