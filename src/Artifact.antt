-- ===== src/Artifact.antt =====
-- internal/artifact: engine profiles. An enumeration over uint8 is a number with named constants,
-- so that values outside the enumeration are there too.
pub mod Receipts
use egressfox.Base.{ℕ, Bool, true, ◌&&◌, ◌||◌, [], ◌∷◌, leb, ◌==◌, length}
use egressfox.Base.Bytes.{Bytes, ascii, eq_bytes}

abbrev pub engine_mihomo : ℕ
engine_mihomo = 1

abbrev pub engine_sing_box : ℕ
engine_sing_box = 2

pub record Profile : Type 0 where
  pub engine : ℕ
  pub version : Bytes
  pub renderer_schema : Bytes
  pub media_type : Bytes

abbrev pub mihomo_11931 : Profile
mihomo_11931 = record {
  engine = engine_mihomo;
  version = ascii "1.19.31";
  renderer_schema = ascii "egressfox.mihomo/v1";
  media_type = ascii "application/yaml";
}

abbrev pub sing_box_1141 : Profile
sing_box_1141 = record {
  engine = engine_sing_box;
  version = ascii "1.14.1";
  renderer_schema = ascii "egressfox.sing-box/v3";
  media_type = ascii "application/json";
}

-- `==` on the struct.
unfoldable pub profile_equal : Profile → Profile → Bool
profile_equal a b =
    a.engine == b.engine
    && eq_bytes a.version b.version
    && eq_bytes a.renderer_schema b.renderer_schema
    && eq_bytes a.media_type b.media_type

-- The character class that identifiers, scopes and validator ids share. A byte of a character
-- outside ASCII is in none of the ranges.
unfoldable pub is_safe_character : ℕ → Bool
is_safe_character c =
    (leb b'a' c && leb c b'z')
    || (leb b'A' c && leb c b'Z')
    || (leb b'0' c && leb c b'9')
    || c == b'.'
    || c == b'/'
    || c == b'_'
    || c == b'-'

unfoldable pub all_safe : Bytes → Bool
unfolding is_safe_character
all_safe [] = true
all_safe (c ∷ cs) = is_safe_character c && all_safe cs

unfoldable pub safe_validator_id : Bytes → Bool
unfolding all_safe
safe_validator_id value = leb 1 (length value) && leb (length value) 128 && all_safe value
