-- ===== src/Store/Ids.antt =====
-- internal/endpoint/identity.go: ParseID and RestoreRevision. strings.ToUpper sends two letters outside
-- ASCII to ASCII: U+0131 to I and U+017F to S; encoding/base32 skips line breaks.
use egressfox.Endpoint.{Revision}
use egressfox.Base.Bytes.{Bytes}
use egressfox.Base.{
  ℕ, Bool, leb, ◌∷◌, true, false, length, Option, Result, ◌&&◌, if◌then◌else◌, ◌||◌, ◌==◌, err, ◌-◌,
  some, fail_if, [], none, not, ◌>>◌, ok,
}

pub data IdError : Type 0 where
  unsupported_version not_canonical wrong_length : IdError

abbrev pub in_range : ℕ → ℕ → ℕ → Bool
in_range low high b = leb low b && leb b high

-- strings.ToUpper, as far as its result can be base32.
unfoldable pub to_upper : Bytes → Bytes
to_upper [] = []
to_upper (b ∷ []) = (if in_range 97 122 b then b - 32 else b) ∷ []
to_upper (b ∷ c ∷ bs) =
    let skipped = to_upper bs in
    let rest = to_upper (c ∷ bs) in
    if b == 196 && c == 177
    then 73 ∷ skipped
    else if b == 197 && c == 191
    then 83 ∷ skipped
    else (if in_range 97 122 b then b - 32 else b) ∷ rest

-- The line breaks that the decoder strips.
unfoldable pub strip_newlines : Bytes → Bytes
strip_newlines [] = []
strip_newlines (b ∷ bs) =
    let rest = strip_newlines bs in if b == 10 || b == 13 then rest else b ∷ rest

unfoldable pub all_base32 : Bytes → Bool
all_base32 [] = true
all_base32 (b ∷ bs) = (in_range 65 90 b || in_range 50 55 b) && all_base32 bs

unfoldable pub has_upper : Bytes → Bool
has_upper [] = false
has_upper (b ∷ bs) = in_range 65 90 b || has_upper bs

-- Without padding, 52 characters are 32 bytes.
unfoldable pub decodes_to_digest : Bytes → Bool
unfolding to_upper strip_newlines all_base32
decodes_to_digest encoded =
    let symbols = strip_newlines (to_upper encoded) in length symbols == 52 && all_base32 symbols

-- The text behind ef1_, ef2_ or ef3_.
abbrev pub after_version : Bytes → Option Bytes
after_version (a ∷ b ∷ v ∷ c ∷ encoded) =
    if a == 101 && b == 102 && in_range 49 51 v && c == 95 then some encoded else none
after_version value = none

abbrev pub parsed : Bytes → Option Bytes → Result IdError Bytes
parsed value none = err unsupported_version
parsed value (some encoded) =
    fail_if (not (decodes_to_digest encoded) || has_upper encoded) not_canonical >> ok value

-- ParseID
unfoldable pub parse_id : Bytes → Result IdError Bytes
unfolding decodes_to_digest has_upper
parse_id value = parsed value (after_version value)

-- RestoreRevision and restoreTargetRevision
unfoldable pub restore_revision : Bytes → Result IdError Revision
restore_revision encoded = fail_if (not (length encoded == 32)) wrong_length >> ok (some encoded)
