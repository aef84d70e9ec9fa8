-- ===== src/Examples/Cluster.antt =====
-- The theorems on the command handlers at concrete payloads.
use led_orchestra.Base.{◌≡◌, refl, true, none, some, arith, [], ◌∷◌}
use led_orchestra.Effects.Registry.{effect_meta, find_effect, effects}
use led_orchestra.Store.{unknown_override, compiled_defaults, scene_defaults, calib_defaults}
use led_orchestra.Renderer.{initial_renderer, is_known}
use led_orchestra.Cluster.{
  Elements, element, end_of_tlv, Payload, CommandPath, decode_fields, scene_field,
  calibration_field, command_callback,
}
use led_orchestra.Cluster.Errors.{FailsCleanly, command_callback-FailsCleanly}
use led_orchestra.Cluster.Valid.{IsValid, command_callback-IsValid}
use led_orchestra.Cluster.Server.{led_orchestra_cluster_create}
use led_orchestra.Cluster.Server.Mirror.{
  Mirrors, commanded, created_values, run_node, attributes_mirror,
}
use led_orchestra.Examples.Flash.{slots_nvs, erased, build}
use led_orchestra.Examples.Effects.{comet}
use led_orchestra.Examples.Store.{tuned}

-- A speed of 200, under tag 4, and an element that no command knows, under tag 60.
abbrev faster : Elements
faster = element (some 4) (λ bits. some 200) (element (some 60) (λ bits. none) (end_of_tlv true))

decoded_scene : decode_fields scene_field faster comet ≡ some (record comet { speed = 200 })
unfolding decode_fields scene_field
decoded_scene = refl

abbrev dimmer : Elements
dimmer = element (some 1) (λ bits. some 30) (end_of_tlv true)

decoded_calibration :
    decode_fields calibration_field dimmer tuned ≡ some (record tuned { brightness_cap = 30 })
unfolding decode_fields calibration_field
decoded_calibration = refl

abbrev pub to_scene : CommandPath
to_scene = record { endpoint_id = 1; cluster_id = 0xFFF1FC00; command_id = 0 }

abbrev pub payload : Payload
payload = record { is_structure = true; enters = true; elements = faster }

command_callback-FailsCleanly_example :
    FailsCleanly slots_nvs
      (initial_renderer build, erased)
      (command_callback slots_nvs build 5000 1 to_scene payload (initial_renderer build, erased))
command_callback-FailsCleanly_example =
    command_callback-FailsCleanly slots_nvs build 5000 1 to_scene payload (initial_renderer build)
      erased

initial-IsValid : IsValid build (initial_renderer build)
unfolding is_known effect_meta find_effect effects compiled_defaults scene_defaults calib_defaults
    unknown_override
initial-IsValid = record {
  scene = refl;
  pending = λ h. refl;
  segment = omega arith;
  strip = omega arith;
  gpio = refl;
  override = refl;
}

command_callback-IsValid_example :
    IsValid build
      (command_callback slots_nvs build 5000 1 to_scene payload
        (initial_renderer build, erased)).1.0
command_callback-IsValid_example =
    command_callback-IsValid slots_nvs build 5000 1 to_scene payload (initial_renderer build) erased
      initial-IsValid

attributes_mirror_example :
    let g = initial_renderer build in
    let server = led_orchestra_cluster_create true true g.scene g.node g.calibration in
    let after =
      run_node slots_nvs build 1
        (commanded 5000 to_scene payload ∷ [])
        (created_values server, (g, erased)) in
    Mirrors after.0 after.1.0
attributes_mirror_example =
    attributes_mirror slots_nvs build 1 (commanded 5000 to_scene payload ∷ [])
      (initial_renderer build) erased refl
