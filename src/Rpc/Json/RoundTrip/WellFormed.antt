-- ===== src/Rpc/Json/RoundTrip/WellFormed.antt =====
-- The values that are dumped as JSON, and how their texts begin.
use audio_studio.Prelude.{ℕ, ◌≡◌, refl, true, false, List, [], ◌∷◌, ◌++◌, arith}
use audio_studio.Rpc.Json.{
  JsonValue, Items, Fields, null, bool, number, string, array, object, no_items, item, no_fields,
  field,
}
use audio_studio.Rpc.Json.Scan.{Parser, ok, starts, skip_space}
use audio_studio.Rpc.Json.Parser.{parse_token, parse_key}
use audio_studio.Rpc.Json.Dump.{dump_string, dump}
use audio_studio.Rpc.Json.RoundTrip.Text.{parse_string-dump_string}
use audio_studio.Rpc.Json.RoundTrip.Number.{IsNumber, ends_number, parse_number-number, peek-number}
use audio_studio.Rpc.Json.RoundTrip.Keys.{IsBelow}

-- Number texts are numbers, keys ascend.
unfoldable mutual
  unfolding IsBelow

  pub IsWellFormed : JsonValue → Type 0
  IsWellFormed (number raw) = IsNumber raw
  IsWellFormed (array xs) = AreWellFormed xs
  IsWellFormed (object fs) = AreFieldsWellFormed fs
  IsWellFormed _ = Unit

  pub AreWellFormed : Items → Type 0
  AreWellFormed no_items = Unit
  AreWellFormed (item v xs) = IsWellFormed v × AreWellFormed xs

  pub AreFieldsWellFormed : Fields → Type 0
  AreFieldsWellFormed no_fields = Unit
  AreFieldsWellFormed (field k v fs) = IsWellFormed v × (IsBelow k fs × AreFieldsWellFormed fs)

-- What stands at the front of a number is no space and opens nothing else.
pub parse_token-number :
    (raw ts : List ℕ) (es : Parser Items) (ms : Parser Fields)
    → IsNumber raw
    → ends_number ts ≡ true
    → parse_token es ms (raw ++ ts) ≡ ok (number raw) ts
unfolding parse_token
parse_token-number [] ts es ms h k = absurd (ground (arith, peek-number [] h))
parse_token-number (c ∷ raw) ts es ms h k =
    ground (arith, peek-number (c ∷ raw) h, parse_number-number (c ∷ raw) ts h k)

pub head-number :
    (raw ts : List ℕ)
    → IsNumber raw
    → (skip_space (raw ++ ts) ≡ raw ++ ts) × (starts b']' (raw ++ ts) ≡ false)
unfolding skip_space
head-number [] ts h = absurd (ground (arith, peek-number [] h))
head-number (c ∷ raw) ts h = ground (arith, peek-number (c ∷ raw) h)

pub head-dump :
    (v : JsonValue) (ts : List ℕ)
    → IsWellFormed v
    → (skip_space (dump v ++ ts) ≡ dump v ++ ts) × (starts b']' (dump v ++ ts) ≡ false)
unfolding skip_space dump IsWellFormed dump_string
head-dump null ts h = (refl, refl)
head-dump (bool true) ts h = (refl, refl)
head-dump (bool false) ts h = (refl, refl)
head-dump (number raw) ts h = head-number raw ts h
head-dump (string s) ts h = (refl, refl)
head-dump (array xs) ts h = (refl, refl)
head-dump (object fs) ts h = (refl, refl)

pub parse_key-dump_string : (k ts : List ℕ) → parse_key (dump_string k ++ ts) ≡ ok k ts
unfolding parse_key dump_string
parse_key-dump_string k ts = parse_string-dump_string k ts

pub skip_space-dump_string :
    (k ts : List ℕ) → skip_space (dump_string k ++ ts) ≡ dump_string k ++ ts
unfolding skip_space dump_string
skip_space-dump_string k ts = refl

pub starts-dump_string : (k ts : List ℕ) → starts b'}' (dump_string k ++ ts) ≡ false
unfolding dump_string
starts-dump_string k ts = refl
