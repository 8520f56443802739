-- ===== src/Rpc/Json/Termination/Value.antt =====
-- The loops over values: two units of fuel for each byte.
use audio_studio.Prelude.{
  ℕ, zero, suc, ◌+◌, ◌-◌, ◌*◌, ◌≤◌, ◌<◌, ◌≡◌, refl, true, false, List, [], ◌∷◌, length, length-drop,
  arith, if◌then◌else◌, inl, inr, String, ◌⊎◌,
}
use audio_studio.Rpc.Json.{
  JsonValue, Items, Fields, string, array, object, emplace, push_back, no_items, no_fields,
}
use audio_studio.Rpc.Json.Scan.{
  Scan, Parser, ok, failed, out_of_fuel, and_then, fail, skip_space, expect, tail, starts, codes,
  pure,
}
use audio_studio.Rpc.Json.Text.{parse_string}
use audio_studio.Rpc.Json.Parser.{
  parse_literal, skip, parse_array, parse_object, parse_token, parse_key, parse_value,
  parse_elements, parse_members, finish, parse_json,
}
use audio_studio.Rpc.Json.Termination.{settles, settles-and_then, settles_mono, settles_chain}
use audio_studio.Rpc.Json.Termination.Number.{
  expect-settles, expect-settles_cons, skip-settles, parse_number-settles, length-skip_space,
}
use audio_studio.Rpc.Json.Termination.Text.{parse_string-settles}

parse_literal-settles :
    (literal : String) (v : JsonValue) (ts : List ℕ)
    → settles (length ts) (parse_literal literal v ts) ≡ true
unfolding parse_literal settles fail
parse_literal-settles literal v ts = ground (arith, length-drop (length (codes literal)) ts)

parse_key-settles : (ts : List ℕ) → settles (length ts) (parse_key ts) ≡ true
unfolding parse_key settles fail
parse_key-settles ts = ground (arith, parse_string-settles ts)

-- `p` settles on every input shorter than `n` bytes.
abbrev SettlesBelow {ℓ} : {A : Type ℓ} → ℕ → Parser A → Type 0
SettlesBelow n p = (ts : List ℕ) → length ts < n → settles (length ts) (p ts) ≡ true

-- `p`, what it reads put into `f`, and after the closing byte nothing more.
close_settles {ℓ κ} :
    {A : Type ℓ} {B : Type κ} (n c : ℕ) (p : Parser A) (f : A → B) (b : B) (ts : List ℕ)
    → length ts ≤ n
    → settles (length ts) (p ts) ≡ true
    → settles n (if starts c ts then ok b (tail ts) else and_then (p ts) (λ a. pure (f a))) ≡ true
unfolding settles
close_settles n c p f b [] h k =
    settles-and_then 0 n (p []) (λ a. pure (f a)) k λ a rest m. ground arith
close_settles n c p f b (d ∷ ts) h k =
    let more =
      settles-and_then (suc (length ts)) n (p (d ∷ ts)) (λ a. pure (f a)) k
        λ a rest m. ground arith in
    ground arith

parse_array-settles :
    (es : Parser Items) (c : ℕ) (ts : List ℕ)
    → SettlesBelow (suc (length ts)) es
    → settles (suc (length ts)) (parse_array es (c ∷ ts)) ≡ true
unfolding parse_array
parse_array-settles es c ts hes =
    settles_mono (length ts) (suc (length ts)) (parse_array es (c ∷ ts)) (omega arith) (
      settles-and_then (length ts) (length ts) (expect b'[' (c ∷ ts)) _
        (expect-settles_cons b'[' c ts)
        λ a rest h.
          settles-and_then (length rest) (length ts) (skip rest) _ (skip-settles rest) λ b later k.
            close_settles (length ts) b']' es array (array no_items) later (omega arith)
              (hes later (omega arith)))

parse_object-settles :
    (ms : Parser Fields) (c : ℕ) (ts : List ℕ)
    → SettlesBelow (suc (length ts)) ms
    → settles (suc (length ts)) (parse_object ms (c ∷ ts)) ≡ true
unfolding parse_object
parse_object-settles ms c ts hms =
    settles_mono (length ts) (suc (length ts)) (parse_object ms (c ∷ ts)) (omega arith) (
      settles-and_then (length ts) (length ts) (expect b'{' (c ∷ ts)) _
        (expect-settles_cons b'{' c ts)
        λ a rest h.
          settles-and_then (length rest) (length ts) (skip rest) _ (skip-settles rest) λ b later k.
            close_settles (length ts) b'}' ms object (object no_fields) later (omega arith)
              (hms later (omega arith)))

text_settles :
    (ts : List ℕ)
    → settles (length ts) (and_then (parse_string ts) (λ (text : List ℕ). pure (string text)))
      ≡ true
unfolding settles
text_settles ts =
    settles_chain (length ts) (parse_string ts) (λ text. pure (string text))
      (parse_string-settles ts) λ a rest. ground arith

parse_token-settles :
    (es : Parser Items) (ms : Parser Fields) (ts : List ℕ)
    → SettlesBelow (length ts) es
    → SettlesBelow (length ts) ms
    → settles (length ts) (parse_token es ms ts) ≡ true
unfolding parse_token fail settles
parse_token-settles es ms [] hes hms = refl
parse_token-settles es ms (c ∷ rest) hes hms = ground (
  arith,
  parse_array-settles es c rest hes,
  parse_object-settles ms c rest hms,
  text_settles (c ∷ rest),
  parse_number-settles (c ∷ rest),
  parse_literal-settles "null" JsonValue.null (c ∷ rest),
  parse_literal-settles "true" (JsonValue.bool true) (c ∷ rest),
  parse_literal-settles "false" (JsonValue.bool false) (c ∷ rest),
)

-- After a value: the closing byte, or a comma and the loop again.
again_settles {ℓ} :
    {A : Type ℓ} (c : ℕ) (p : Parser A) (a : A) (ts : List ℕ)
    → SettlesBelow (length ts) p
    → settles
        (length ts)
        (if starts c ts then ok a (tail ts) else and_then (expect b',' ts) (λ u. p))
      ≡ true
unfolding settles expect
again_settles c p a [] h = refl
again_settles c p a (d ∷ ts) h =
    ground (arith, settles_mono (length ts) (suc (length ts)) (p ts), h ts (omega arith))

mutual
  unfolding parse_value

  value_settles :
      (f : ℕ) (ts : List ℕ) → 2 * length ts < f → settles (length ts) (parse_value f ts) ≡ true
  value_settles zero ts h = absurd (omega arith)
  value_settles (suc f) ts h =
      let shorter = length-skip_space ts in
      settles_mono (length (skip_space ts)) (length ts) (parse_value (suc f) ts) shorter (
        parse_token-settles (parse_elements f no_items) (parse_members f no_fields) (skip_space ts)
          (λ rest k. elements_settle f no_items rest (omega arith))
          (λ rest k. members_settle f no_fields rest (omega arith)))

  elements_settle :
      (f : ℕ) (values : Items) (ts : List ℕ)
      → suc (2 * length ts) < f
      → settles (length ts) (parse_elements f values ts) ≡ true
  elements_settle zero values ts h = absurd (omega arith)
  elements_settle (suc f) values ts h =
      settles-and_then (length ts) (length ts) (parse_value f ts) _
        (value_settles f ts (omega arith))
        λ value rest k.
          settles-and_then (length rest) (length ts) (skip rest) _ (skip-settles rest) λ u later m.
            settles_mono (length later) (length ts) _ (omega arith) (
              again_settles b']' (parse_elements f (push_back values value))
                (push_back values value) later
                λ end j. elements_settle f (push_back values value) end (omega arith))

  members_settle :
      (f : ℕ) (values : Fields) (ts : List ℕ)
      → suc (2 * length ts) < f
      → settles (length ts) (parse_members f values ts) ≡ true
  members_settle zero values ts h = absurd (omega arith)
  members_settle (suc f) values ts h =
      let n = length ts in
      settles-and_then n n (skip ts) _ (skip-settles ts) λ u ts1 k1.
        settles-and_then (length ts1) n (parse_key ts1) _ (parse_key-settles ts1) λ key ts2 k2.
          settles-and_then (length ts2) n (skip ts2) _ (skip-settles ts2) λ u3 ts3 k3.
            settles-and_then (length ts3 - 1) n (expect b':' ts3) _ (expect-settles b':' ts3)
              λ u4 ts4 k4.
                settles-and_then (length ts4) n (parse_value f ts4) _
                  (value_settles f ts4 (omega arith))
                  λ value ts5 k5.
                    settles-and_then (length ts5) n (skip ts5) _ (skip-settles ts5) λ u6 ts6 k6.
                      settles_mono (length ts6) n _ (omega arith) (
                        again_settles b'}' (parse_members f (emplace key value values))
                          (emplace key value values) ts6
                          λ end j. members_settle f (emplace key value values) end (omega arith))

finish-settles : (v : JsonValue) (ts : List ℕ) → settles 0 (finish v ts) ≡ true
unfolding finish settles fail
finish-settles v [] = refl
finish-settles v (c ∷ ts) = refl

read_whole {ℓ} :
    {A : Type ℓ} (m : Scan A)
    → settles 0 m ≡ true
    → ((a : A) × (m ≡ ok a [])) ⊎ ((message : List ℕ) × (at : List ℕ) × (m ≡ failed message at))
unfolding settles
read_whole (ok a []) h = inl (a, refl)
read_whole (ok a (c ∷ rest)) h = absurd (ground arith)
read_whole (failed message at) h = inr (message, at, refl)
read_whole out_of_fuel h = absurd (ground arith)

-- `parseJson` comes to an end on every text: with a value and all of the text read, or with a
-- `JsonParseError`.
pub parse_json_ends :
    (text : List ℕ)
    → ((v : JsonValue) × (parse_json text ≡ ok v []))
      ⊎ ((message : List ℕ) × (at : List ℕ) × (parse_json text ≡ failed message at))
unfolding parse_json
parse_json_ends text = read_whole (parse_json text) (
    settles-and_then (length text) 0 (parse_value (2 * length text + 1) text) _
      (value_settles (2 * length text + 1) text (omega arith))
      λ v rest h.
        settles-and_then (length rest) 0 (skip rest) _ (skip-settles rest)
          λ u later k. finish-settles v later)
