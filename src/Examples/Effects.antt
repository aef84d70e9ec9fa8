-- ===== src/Examples/Effects.antt =====
-- The theorems on the effects at concrete scenes and nodes.
use led_orchestra.Base.{◌≡◌, ◌≢◌, refl, none, arith}
use led_orchestra.Scene.{Scene, NodeConfig}
use led_orchestra.Effects.{render_effect}
use led_orchestra.Effects.Registry.{effect_meta, effect_identify, find_effect, effects}
use led_orchestra.Effects.Seamless.{render_effect_seamless}
use led_orchestra.Effects.Ceiling.{IsCapped, IsScene}
use led_orchestra.Effects.Brightness.{render_effect-IsCapped}

abbrev pub comet : Scene
comet = record {
  effect = 5;
  red = 255;
  green = 96;
  blue = 0;
  speed = 100;
  brightness = 40;
  sequence = 7;
  scheduled_start_ms = 0;
}

abbrev pub west : NodeConfig
west = record { node_id = 1; segment_start = 0; segment_len = 60; total_leds = 120; led_gpio = 8 }

abbrev pub east : NodeConfig
east = record { node_id = 2; segment_start = 60; segment_len = 40; total_leds = 120; led_gpio = 8 }

pub comet-IsScene : IsScene comet
comet-IsScene = omega arith

render_effect-IsCapped_example : IsCapped 40 (render_effect comet east 61 90000 255)
render_effect-IsCapped_example = render_effect-IsCapped comet east 61 90000 255 comet-IsScene

pub comet_moves : 5 ≢ effect_identify
comet_moves e = omega (arith, e)

render_effect_seamless_example :
    render_effect comet west 61 90000 255 ≡ render_effect comet east 61 90000 255
render_effect_seamless_example =
    render_effect_seamless comet west east 61 90000 255 refl comet_moves

nothing_at_99 : effect_meta 99 ≡ none
unfolding effect_meta find_effect effects
nothing_at_99 = refl
