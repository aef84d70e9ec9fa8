-- ===== src/Console/Fitting.antt =====
-- The payloads of led_orchestra_console.cpp are objects that fit their buffers.
use led_orchestra.Base.{ℕ, ◌^◌, ◌<◌, ◌≡◌, some, arith}
use led_orchestra.Scene.{Scene, NodeConfig}
use led_orchestra.Console.Json.{build_set_scene_json, node_config_json, clock_json}
use led_orchestra.Console.Objects.{
  Fit, json_object, scene_fields, config_fields, clock_fields, formatted-json_object,
}

-- The text of a SetScene with fields within their widths is its object.
pub build_set_scene_json-json_object :
    (s : Scene)
    → Fit (scene_fields s)
    → build_set_scene_json 192 s ≡ some (json_object (scene_fields s))
unfolding build_set_scene_json
build_set_scene_json-json_object s fits =
    formatted-json_object 192 (scene_fields s) fits (omega arith)

pub node_config_json-json_object :
    (c : NodeConfig)
    → Fit (config_fields c)
    → node_config_json c ≡ some (json_object (config_fields c))
unfolding node_config_json
node_config_json-json_object c fits = formatted-json_object 160 (config_fields c) fits (omega arith)

pub clock_json-json_object :
    (time : ℕ) → time < 2 ^ 64 → clock_json time ≡ some (json_object (clock_fields time))
unfolding clock_json
clock_json-json_object time h = formatted-json_object 64 (clock_fields time) (h, tt) (omega arith)
