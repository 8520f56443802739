-- ===== src/Rpc/Json/Termination/Text.antt =====
-- The loop of `parseString`: a unit of fuel for each byte.
use audio_studio.Prelude.{
  ℕ, zero, suc, ◌-◌, ◌<◌, ◌≡◌, refl, true, List, [], ◌∷◌, ◌++◌, leb, length, arith,
}
use audio_studio.Rpc.Json.Scan.{and_then, fail, expect}
use audio_studio.Rpc.Json.Text.{
  hex_round, hex_rounds, parse_unicode_escape, parse_escape, parse_chars, parse_string,
}
use audio_studio.Rpc.Json.Termination.{settles, settles-and_then, settles_mono, settles_chain}
use audio_studio.Rpc.Json.Termination.Number.{expect-settles}

hex_round-settles : (c : ℕ) (ts : List ℕ) → settles (length ts) (hex_round c ts) ≡ true
unfolding settles hex_round fail
hex_round-settles c [] = refl
hex_round-settles c (d ∷ ts) = ground arith

leb_refl : (ts : List ℕ) → leb (length ts) (length ts) ≡ true
leb_refl ts = ground arith

hex_rounds-settles : (ts : List ℕ) → settles (length ts) (hex_rounds ts) ≡ true
unfolding hex_rounds settles
hex_rounds-settles ts =
    settles_chain (length ts) (hex_round 0 ts) _ (hex_round-settles 0 ts) λ one ts1.
      settles_chain (length ts1) (hex_round one ts1) _ (hex_round-settles one ts1) λ two ts2.
        settles_chain (length ts2) (hex_round two ts2) _ (hex_round-settles two ts2) λ three ts3.
          settles_chain (length ts3) (hex_round three ts3) _ (hex_round-settles three ts3)
            λ codepoint ts4. leb_refl ts4

parse_unicode_escape-settles : (ts : List ℕ) → settles (length ts) (parse_unicode_escape ts) ≡ true
unfolding parse_unicode_escape settles fail
parse_unicode_escape-settles ts = ground (arith, hex_rounds-settles ts)

parse_escape-settles : (ts : List ℕ) → settles (length ts) (parse_escape ts) ≡ true
unfolding parse_escape settles fail
parse_escape-settles [] = refl
parse_escape-settles (c ∷ ts) = ground (
  arith,
  settles_mono (length ts) (suc (length ts)) (parse_unicode_escape ts),
  parse_unicode_escape-settles ts,
)

parse_chars-settles :
    (f : ℕ) (out ts : List ℕ) → length ts < f → settles (length ts) (parse_chars f out ts) ≡ true
unfolding parse_chars settles fail
parse_chars-settles zero out ts h = absurd (omega arith)
parse_chars-settles (suc f) out [] h = refl
parse_chars-settles (suc f) out (c ∷ ts) h =
    let escaped =
      settles-and_then (length ts) (length ts) (parse_escape ts)
        (λ (piece rest : List ℕ). parse_chars f (out ++ piece) rest) (parse_escape-settles ts)
        (λ piece rest k.
          settles_mono (length rest) (length ts) (parse_chars f (out ++ piece) rest) k
            (parse_chars-settles f (out ++ piece) rest (omega arith))) in
    let plain = parse_chars-settles f (out ++ c ∷ []) ts (omega arith) in
    ground (
      arith,
      settles_mono (length ts) (suc (length ts))
          (and_then (parse_escape ts) (λ (piece rest : List ℕ). parse_chars f (out ++ piece) rest))
          (omega arith) escaped,
      settles_mono (length ts) (suc (length ts)) (parse_chars f (out ++ c ∷ []) ts) (omega arith)
          plain,
    )

-- A string literal is read to its end or refused.
pub parse_string-settles : (ts : List ℕ) → settles (length ts) (parse_string ts) ≡ true
unfolding parse_string
parse_string-settles ts = settles_mono (length ts - 1) (length ts) (parse_string ts) (omega arith) (
    settles_chain (length ts - 1) (expect b'"' ts) _ (expect-settles b'"' ts)
      λ a rest. parse_chars-settles (suc (length rest)) [] rest (omega arith))
