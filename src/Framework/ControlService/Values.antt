-- ===== src/Framework/ControlService/Values.antt =====
-- ControlService: what `get` returns after `set`, and where its keys fall together.
use audio_studio.Prelude.{String, ◌≡◌, ap, ◌∙◌, false, not, ◌&&◌, arith, if◌then◌else◌}
use audio_studio.Prelude.Texts.{is_empty, text_eq, compare_eq}
use audio_studio.Framework.Status.{done, is_ok}
use audio_studio.OrderedMap.{string_key}
use audio_studio.OrderedMap.Laws.{find-assign}
use audio_studio.OrderedMap.Order.{IsSorted, assign-IsSorted}
use audio_studio.Framework.ControlService.{ControlValue, ControlService, key, set, get}
use Prim.Native.String.{◌++◌}
use text.Mathlib.TextLemmas.{append_assoc}

-- `set` succeeds exactly when neither id is empty. Then `get` returns the new value for the
-- node and parameter whose ids, joined by a colon, read the same, and for all others, or after a
-- refusal, what it returned before; keys in strict order stay so.
pub get-set :
    (value : ControlValue) (node_id parameter_id : String) (s : ControlService)
    → IsSorted s.values
    → let (status, t) = set value s in
      (is_ok status ≡ not (is_empty value.node_id) && not (is_empty value.parameter_id))
      × (get node_id parameter_id t ≡ (
          if is_ok status
            && text_eq (key node_id parameter_id) (key value.node_id value.parameter_id)
          then done value
          else get node_id parameter_id s))
      × IsSorted t.values
unfolding set get
get-set value node_id parameter_id s sorted =
    let k : String = key value.node_id value.parameter_id in
    (
      ground arith,
      ground (arith, find-assign (key node_id parameter_id) k value s.values),
      ground (arith, assign-IsSorted k value s.values sorted),
    )

key-collides : (a b c : String) → key (a ++ (":" ++ b)) c ≡ key a (b ++ (":" ++ c))
key-collides a b c =
    append_assoc a (":" ++ b) (":" ++ c) ∙ ap (λ t. a ++ t) (append_assoc ":" b (":" ++ c))

-- A control of node `a:b` and one of node `a` whose parameter is `b:c` are one entry: when both
-- are set, reading the first returns the value of the second, ids and all.
pub set-collides :
    (a b c v w : String) (s : ControlService)
    → is_empty a ≡ false
    → is_empty (b ++ (":" ++ c)) ≡ false
    → let first : ControlValue = record {
      node_id = a ++ (":" ++ b);
      parameter_id = c;
      value = v;
    } in
      let second : ControlValue = record {
        node_id = a;
        parameter_id = b ++ (":" ++ c);
        value = w;
      } in
      get first.node_id first.parameter_id (set second (set first s).1).1 ≡ done second
unfolding set get
set-collides a b c v w s here there =
    let k1 : String = key (a ++ (":" ++ b)) c in
    let k2 : String = key a (b ++ (":" ++ c)) in
    let second : ControlValue = record { node_id = a; parameter_id = b ++ (":" ++ c); value = w } in
    let first : ControlValue = record { node_id = a ++ (":" ++ b); parameter_id = c; value = v } in
    ground
      (arith, find-assign k1 k2 second (set first s).1.values, key-collides a b c, compare_eq k1 k2)
