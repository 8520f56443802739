-- ===== src/Rpc/Json/RoundTrip/Elements.antt =====
-- The steps of the parser's loops over what was dumped, one value or field at a time.
use audio_studio.Prelude.{
  ℕ, zero, suc, ◌+◌, ◌*◌, ◌<◌, ◌≡◌, refl, true, false, List, ◌∷◌, ◌++◌, append_assoc, length,
  length-append, arith,
}
use audio_studio.Rpc.Json.{
  JsonValue, Items, Fields, array, object, no_items, item, no_fields, field, push_back,
}
use audio_studio.Rpc.Json.Scan.{ok, skip_space, expect}
use audio_studio.Rpc.Json.Parser.{
  skip, parse_array, parse_object, parse_token, parse_value, parse_elements, parse_members,
}
use audio_studio.Rpc.Json.Dump.{dump_chars, dump_string, dump, dump_items, dump_fields}
use audio_studio.Rpc.Json.RoundTrip.Number.{ends_number}
use audio_studio.Rpc.Json.RoundTrip.Keys.{
  append_items, append_fields, append_items-push_back, push_back_lem, append_fields_assoc, IsBelow,
  IsFollowedBy, emplace_above, followed_append, none_followed,
}
use audio_studio.Rpc.Json.RoundTrip.WellFormed.{
  IsWellFormed, head-dump, parse_key-dump_string, skip_space-dump_string, starts-dump_string,
}

abbrev pub ReadsValue : JsonValue → Type 0
ReadsValue v =
    (f : ℕ) (ts : List ℕ)
    → ends_number ts ≡ true
    → 2 * length (dump v) < f
    → parse_value f (dump v ++ ts) ≡ ok v ts

length-append_bytes : (xs ys : List ℕ) → length (xs ++ ys) ≡ length xs + length ys
length-append_bytes = length-append

-- for `omega`, on texts
ruleset lengths = (arith, length-append_bytes)

abbrev pub ReadsItems : Items → Type 0
ReadsItems xs =
    (v : JsonValue)
    → ReadsValue v
    → (f : ℕ) (values : Items) (ts : List ℕ)
    → suc (2 * (length (dump v) + length (dump_items false xs))) < f
    → parse_elements f values (dump v ++ (dump_items false xs ++ ts))
      ≡ ok (append_items values (item v xs)) ts

pub read_last_item : ReadsItems no_items
unfolding dump parse_value skip
read_last_item v hv zero values ts b = absurd (omega arith)
read_last_item v hv (suc f) values ts b =
    rw (parse_elements, hv f (b']' ∷ ts) refl (omega arith), push_back_lem values v) refl

pub read_item : (w : JsonValue) (xs : Items) → ReadsValue w → ReadsItems xs → ReadsItems (item w xs)
unfolding dump parse_value skip skip_space expect
read_item w xs hw hxs v hv zero values ts b = absurd (omega arith)
read_item w xs hw hxs v hv (suc f) values ts b =
    rw
      (
        append_assoc (dump w) (dump_items false xs) ts,
        parse_elements,
        hv f (b',' ∷ (dump w ++ (dump_items false xs ++ ts))) refl (omega arith),
        hxs w hw f (push_back values v) ts (omega lengths),
        append_items-push_back,
      )
      refl

abbrev pub ReadsFields : Fields → Type 0
ReadsFields fs =
    (k : List ℕ) (v : JsonValue)
    → ReadsValue v
    → (f : ℕ) (values : Fields) (ts : List ℕ) → IsFollowedBy values (field k v fs)
    → IsBelow k fs
    → suc (2 * (length (dump v) + length (dump_fields false fs))) < f
    → parse_members f values (dump_string k ++ b':' ∷ (dump v ++ (dump_fields false fs ++ ts)))
      ≡ ok (append_fields values (field k v fs)) ts

pub read_last_field : ReadsFields no_fields
unfolding dump parse_value skip skip_space expect IsFollowedBy
read_last_field k v hv zero values ts above below b = absurd (omega arith)
read_last_field k v hv (suc f) values ts above below b =
    rw
      (
        parse_members,
        skip_space-dump_string,
        parse_key-dump_string,
        hv f (b'}' ∷ ts) refl (omega arith),
        emplace_above k v values above.0,
      )
      refl

-- What the remaining fields need of the fuel.
shorter :
    (j : List ℕ) (w : JsonValue) (fs : Fields) (f : ℕ)
    → 2 * length (dump_fields true (field j w fs)) < f
    → suc (2 * (length (dump w) + length (dump_fields false fs))) < f
unfolding dump dump_string
shorter j w fs f h =
    let colon = length-append_bytes (dump_chars j) (b':' ∷ (dump w ++ dump_fields false fs)) in
    omega (lengths, colon, length-append_bytes (dump w) (dump_fields false fs))

pub read_field :
    (j : List ℕ) (w : JsonValue) (fs : Fields)
    → ReadsValue w
    → IsBelow j fs
    → ReadsFields fs
    → ReadsFields (field j w fs)
unfolding dump parse_value skip skip_space expect IsFollowedBy append_fields
read_field j w fs hw jb hfs k v hv zero values ts above below b = absurd (omega arith)
read_field j w fs hw jb hfs k v hv (suc f) values ts above below b =
    let later = followed_append k v values (field j w fs) above.1 below in
    rw
      (
        append_assoc (dump_string j) _ ts,
        append_assoc (dump w) (dump_fields false fs) ts,
        parse_members,
        skip_space-dump_string,
        parse_key-dump_string,
        hv f (b',' ∷ (dump_string j ++ (b':' ∷ (dump w ++ (dump_fields false fs ++ ts))))) refl
            (omega arith),
        emplace_above k v values above.0,
        hfs j w hw f (append_fields values (field k v no_fields)) ts later jb
            (shorter j w fs f (omega arith)),
        append_fields_assoc,
      )
      refl

pub read_object :
    (k : List ℕ) (v : JsonValue) (fs : Fields)
    → ReadsValue v
    → ReadsFields fs
    → IsBelow k fs
    → ReadsValue (object (field k v fs))
unfolding dump parse_value parse_token parse_object skip expect append_fields
read_object k v fs hv hfs below zero ts e b = absurd (omega arith)
read_object k v fs hv hfs below (suc f) ts e b =
    let rest = b':' ∷ (dump v ++ (dump_fields false fs ++ ts)) in
    rw
      (
        append_assoc (dump_string k) (b':' ∷ (dump v ++ dump_fields false fs)) ts,
        append_assoc (dump v) (dump_fields false fs) ts,
        skip_space-dump_string k rest,
        starts-dump_string k rest,
        hfs k v hv f no_fields ts (none_followed (field k v fs)) below
            (shorter k v fs f (omega arith)),
      )
      refl

pub read_array :
    (v : JsonValue) (xs : Items)
    → IsWellFormed v
    → ReadsValue v
    → ReadsItems xs
    → ReadsValue (array (item v xs))
unfolding dump parse_value parse_token parse_array skip skip_space expect append_items
read_array v xs wf hv hxs zero ts e b = absurd (omega arith)
read_array v xs wf hv hxs (suc f) ts e b =
    let head = head-dump v (dump_items false xs ++ ts) wf in
    rw
      (
        append_assoc (dump v) (dump_items false xs) ts,
        head.0,
        head.1,
        hxs v hv f no_items ts (omega (arith, length-append_bytes (dump v) (dump_items false xs))),
      )
      refl
