-- ===== src/Rpc/Json/RoundTrip/Keys.antt =====
-- Objects whose keys ascend: an `emplace` past the last key appends.
use audio_studio.Prelude.{ℕ, ◌≡◌, refl, ap, List, Ordering}
use audio_studio.Rpc.Json.{
  JsonValue, Items, Fields, no_items, item, no_fields, field, compare_keys, emplace, push_back,
}

-- Both appends are on the lists inside an array and an object.
unfoldable pub append_items : Items → Items → Items
append_items no_items ys = ys
append_items (item v xs) ys = item v (append_items xs ys)

unfoldable pub append_fields : Fields → Fields → Fields
append_fields no_fields gs = gs
append_fields (field k v fs) gs = field k v (append_fields fs gs)

pub append_items-push_back :
    (xs : Items) (v : JsonValue) (ys : Items)
    → append_items (push_back xs v) ys ≡ append_items xs (item v ys)
unfolding append_items push_back
append_items-push_back no_items v ys = refl
append_items-push_back (item w xs) v ys = ap (item w) (append_items-push_back xs v ys)

pub push_back_lem :
    (xs : Items) (v : JsonValue) → push_back xs v ≡ append_items xs (item v no_items)
unfolding append_items push_back
push_back_lem no_items v = refl
push_back_lem (item w xs) v = ap (item w) (push_back_lem xs v)

pub append_fields_assoc :
    (fs gs hs : Fields)
    → append_fields (append_fields fs gs) hs ≡ append_fields fs (append_fields gs hs)
unfolding append_fields
append_fields_assoc no_fields gs hs = refl
append_fields_assoc (field k v fs) gs hs = ap (field k v) (append_fields_assoc fs gs hs)

-- `key` is above each key of the object.
unfoldable pub IsAbove : List ℕ → Fields → Type 0
IsAbove key no_fields = Unit
IsAbove key (field k v fs) = (compare_keys key k ≡ Ordering.gt) × IsAbove key fs

-- Each key of the second object is above each of the first.
unfoldable pub IsFollowedBy : Fields → Fields → Type 0
unfolding IsAbove
IsFollowedBy fs no_fields = Unit
IsFollowedBy fs (field k v gs) = IsAbove k fs × IsFollowedBy fs gs

pub emplace_above :
    (key : List ℕ) (value : JsonValue) (fs : Fields)
    → IsAbove key fs
    → emplace key value fs ≡ append_fields fs (field key value no_fields)
unfolding emplace IsAbove append_fields
emplace_above key value no_fields h = refl
emplace_above key value (field k v fs) (h, hs) = rw (emplace, h, emplace_above key value fs hs) refl

-- The keys of the second object are above `key`.
unfoldable pub IsBelow : List ℕ → Fields → Type 0
IsBelow key no_fields = Unit
IsBelow key (field k v fs) = (compare_keys k key ≡ Ordering.gt) × IsBelow key fs

IsAbove-append :
    (j key : List ℕ) (value : JsonValue) (fs : Fields)
    → IsAbove j fs
    → compare_keys j key ≡ Ordering.gt
    → IsAbove j (append_fields fs (field key value no_fields))
unfolding IsAbove append_fields
IsAbove-append j key value no_fields h k = (k, tt)
IsAbove-append j key value (field i v fs) (h, hs) k = (h, IsAbove-append j key value fs hs k)

pub followed_append :
    (key : List ℕ) (value : JsonValue) (fs gs : Fields)
    → IsFollowedBy fs gs
    → IsBelow key gs
    → IsFollowedBy (append_fields fs (field key value no_fields)) gs
unfolding IsFollowedBy IsBelow
followed_append key value fs no_fields h k = tt
followed_append key value fs (field j v gs) (h, hs) (k, ks) =
    (IsAbove-append j key value fs h k, followed_append key value fs gs hs ks)

pub none_followed : (gs : Fields) → IsFollowedBy no_fields gs
unfolding IsFollowedBy IsAbove
none_followed no_fields = tt
none_followed (field k v gs) = (tt, none_followed gs)
