-- ===== src/Examples/Samples.antt =====
-- Inputs shared by the examples: endpoints, a context, and fixed-point numbers in millionths.
use egressfox.Base.{ℕ, zero, suc, ◌+◌, ◌-◌, ◌*◌, ◌/◌, some, [], ◌∷◌, pos, ltb, ◌==◌, if◌then◌else◌}
use egressfox.Base.Bytes.{Bytes, ascii}
use egressfox.Artifact.{mihomo_11931}
use egressfox.Endpoint.{Record}
use egressfox.Observation.{unix_epoch}
use egressfox.Observation.Keys.{ConnectionRef, Key, kind_http_get}
use egressfox.Selection.{Context}
use egressfox.Selection.Confidence.{Platform}

abbrev newton : ℕ → ℕ → ℕ → ℕ
newton zero x guess = guess
newton (suc fuel) x guess = newton fuel x (if guess == 0 then 0 else (guess + x / guess) / 2)

abbrev pub test_hash : Bytes → Bytes
test_hash bytes = 1 ∷ bytes

abbrev pub test_platform : Platform
test_platform = record {
  Float = ℕ;
  of_nat = λ n. n * 1000000;
  add = λ x y. x + y;
  sub = λ x y. x - y;
  mul = λ x y. x * y / 1000000;
  div = λ x y. if y == 0 then 0 else x * 1000000 / y;
  sqrt = λ x. newton 60 (x * 1000000) (x * 1000000);
  less = ltb;
  round_int64 = λ x. pos ((x + 500000) / 1000000);
  sha256 = test_hash;
}

abbrev pub connection_a : ConnectionRef
connection_a = record { id = 10 ∷ 1 ∷ []; revision = some (1 ∷ 1 ∷ []) }

abbrev pub connection_b : ConnectionRef
connection_b = record { id = 10 ∷ 2 ∷ []; revision = some (1 ∷ 2 ∷ []) }

abbrev pub connection_c : ConnectionRef
connection_c = record { id = 10 ∷ 3 ∷ []; revision = some (1 ∷ 3 ∷ []) }

abbrev pub endpoint_of : ConnectionRef → Record
endpoint_of ref = record {
  configuration = record {
    identity = record { id = ref.id; revision = ref.revision };
    encoding = 123 ∷ 125 ∷ [];
  };
  provenance = [];
}

abbrev pub test_context : Context
test_context = record {
  target = record { id = ascii "web"; revision = some (7 ∷ []) };
  vantage = ascii "local";
  kind = kind_http_get;
  profile = mihomo_11931;
}

abbrev pub key_of : ConnectionRef → Key
key_of ref = record {
  connection = ref;
  target = test_context.target;
  vantage = test_context.vantage;
  kind = test_context.kind;
  profile = test_context.profile;
}

-- An hour after the epoch.
abbrev pub test_now : ℕ
test_now = unix_epoch + 3600000000000
