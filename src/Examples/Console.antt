-- ===== src/Examples/Console.antt =====
-- The theorems on the commands of the console at concrete lines.
use led_orchestra.Base.{
  ℕ, ◌+◌, ◌*◌, ◌^◌, ◌≡◌, refl, true, false, none, some, List, [], ◌∷◌, arith, ltb, if◌then◌else◌,
}
use led_orchestra.Base.Words.{u32, u64}
use led_orchestra.Scene.{Scene, NodeConfig}
use led_orchestra.Renderer.{initial_renderer, set_scene, set_node_config}
use led_orchestra.Cluster.{Payload, tlv_error, applied, command_callback}
use led_orchestra.Ota.Provider.Handlers.{data_equal}
use led_orchestra.Libc.{
  codes, decimal, digits, digit_value, skip_spaces, read_sign, base_of, read_digits, strtoull,
  strtoll, strtoul,
}
use led_orchestra.Console.{
  parse_u64, parse_u32, parse_u16, parse_u8, parse_i32_bits, parse_byte, parse_rgb,
  parse_rgb_packed,
}
use led_orchestra.Console.Json.{Tuning}
use led_orchestra.Console.Unicast.{
  set_scene_arguments, set_scene_handler, set_node_config_arguments, set_node_config_handler,
  sync_clock_handler, read_config_handler,
}
use led_orchestra.Console.Groups.{
  set_scene_group_handler, sync_clock_group_handler, scheduled_scene_group_handler,
}
use led_orchestra.Console.Calibration.{set_calibration_handler, set_calibration_group_handler}
use led_orchestra.Console.Commands.{set_calibration, Surroundings, run_command}
use led_orchestra.Console.Reading.{parse_decimal, rgb_text, parse_rgb-rgb_text}
use led_orchestra.Console.Objects.{Field, json_object, payload_of, scene_fields, config_fields}
use led_orchestra.Console.Tunings.{tuning_fields}
use led_orchestra.Console.Decoding.{tuned}
use led_orchestra.Console.Room.{IsWellFormed, run_command-IsWellFormed}
use led_orchestra.Console.Arguments.Typed.{TypedTuning}
use led_orchestra.Console.Delivery.{
  delivered, set_scene_handler-delivered, set_node_config_handler-delivered,
}
use led_orchestra.Console.Delivery.Calibrating.{
  arrived, calibrated, set_calibration_handler-delivered,
}
use led_orchestra.Console.Groups.Agree.{groups_agree, scheduled_scene_group_handler_lem}
use led_orchestra.Console.Attributes.{Requests, read_config_handler-AllAmong}
use led_orchestra.Examples.Flash.{slots_nvs, erased, build}
use led_orchestra.Examples.Cluster.{to_scene, payload}

parse_decimal_example :
    (parse_u64 (decimal 300) ≡ some 300)
    × (parse_u32 (decimal 300) ≡ (if ltb 300 (2 ^ 32) then some 300 else none))
    × (parse_u16 (decimal 300) ≡ (if ltb 300 (2 ^ 16) then some 300 else none))
    × (parse_u8 (decimal 300) ≡ (if ltb 300 (2 ^ 8) then some 300 else none))
parse_decimal_example = parse_decimal 300 (omega arith)

parse_rgb-rgb_text_example :
    (parse_rgb (rgb_text 255 128 7) ≡ some (255, 128, 7))
    × (parse_rgb_packed (rgb_text 255 128 7) ≡ some (255 * 2 ^ 16 + 128 * 2 ^ 8 + 7))
parse_rgb-rgb_text_example = parse_rgb-rgb_text 255 128 7 (omega arith) (omega arith) (omega arith)

-- Spaces, a sign, a prefix: what the parsers also take.
other_numbers :
    (parse_u8 (codes " +0x1f") ≡ some 31)
    × (parse_u8 (codes "010") ≡ some 8)
    × (parse_u64 (codes "-1") ≡ some 0xFFFFFFFFFFFFFFFF)
    × (parse_u32 (codes "-1") ≡ none)
    × (parse_u8 (codes "12x") ≡ none)
    × (parse_rgb (codes "-1-1-1") ≡ some (255, 255, 255))
unfolding parse_u8 parse_u32 parse_u64 parse_rgb parse_byte strtoull strtoul digit_value skip_spaces
    read_sign base_of read_digits
other_numbers = (refl, refl, refl, refl, refl, refl)

-- A converter that knows one object.
abbrev knows : List Field → List ℕ → Payload
knows fields json =
    if data_equal json (json_object fields)
    then payload_of fields
    else record { is_structure = false; enters = false; elements = tlv_error }

-- lo-set-scene 0x2a 1 5 FF8000 40 200, with 7 the next sequence number.
abbrev scene_line : List (List ℕ)
scene_line = codes "0x2a" ∷ codes "1" ∷ codes "5" ∷ codes "FF8000" ∷ codes "40" ∷ codes "200" ∷ []

abbrev orange : Scene
orange = record {
  effect = 5;
  red = 255;
  green = 128;
  blue = 0;
  speed = 40;
  brightness = 200;
  sequence = 7;
  scheduled_start_ms = 0;
}

read_scene_line : set_scene_arguments scene_line 7 ≡ some (42, 1, orange)
unfolding set_scene_arguments parse_u8 parse_u16 parse_u32 parse_u64 parse_rgb strtoull strtoul
    digit_value skip_spaces read_sign base_of read_digits
read_scene_line = refl

knows-orange :
    knows (scene_fields orange) (json_object (scene_fields orange))
    ≡ payload_of (scene_fields orange)
unfolding digits data_equal
knows-orange = refl

set_scene_handler-delivered_example :
    let r = set_scene_handler scene_line 7 in
    (delivered slots_nvs build 5000 1
        (knows (scene_fields orange))
        (initial_renderer build)
        erased
        r.0
      ≡ some (
        42,
        applied slots_nvs
            (set_scene slots_nvs orange (initial_renderer build, erased))
            (record { attribute = 0; value = 5 } ∷ record { attribute = 6; value = 7 } ∷ []),
      ))
    × (r.1 ≡ u32 (7 + 1))
set_scene_handler-delivered_example =
    set_scene_handler-delivered slots_nvs build 5000 1 (knows (scene_fields orange))
      (initial_renderer build) erased scene_line 7 42 orange (omega arith) (omega arith)
      (omega arith) read_scene_line knows-orange

-- lo-set-node-config 42 1 3 100 60 300 8.
abbrev config_line : List (List ℕ)
config_line =
    codes "42" ∷ codes "1" ∷ codes "3" ∷ codes "100" ∷ codes "60" ∷ codes "300" ∷ codes "8" ∷ []

abbrev third_node : NodeConfig
third_node = record {
  node_id = 3;
  segment_start = 100;
  segment_len = 60;
  total_leds = 300;
  led_gpio = 8;
}

read_config_line : set_node_config_arguments config_line ≡ some (42, 1, third_node)
unfolding set_node_config_arguments parse_u8 parse_u16 parse_u64 strtoull digit_value skip_spaces
    read_sign base_of read_digits
read_config_line = refl

knows-third_node :
    knows (config_fields third_node) (json_object (config_fields third_node))
    ≡ payload_of (config_fields third_node)
unfolding digits data_equal
knows-third_node = refl

set_node_config_handler-delivered_example :
    delivered slots_nvs build 5000 1
      (knows (config_fields third_node))
      (initial_renderer build)
      erased
      (set_node_config_handler config_line)
    ≡ some (
      42,
      applied slots_nvs
          (set_node_config slots_nvs build third_node (initial_renderer build, erased))
          (record { attribute = 1; value = 100 }
            ∷ record { attribute = 2; value = 60 }
            ∷ record { attribute = 3; value = 300 }
            ∷ record { attribute = 4; value = 8 }
            ∷ []),
    )
set_node_config_handler-delivered_example =
    set_node_config_handler-delivered slots_nvs build 5000 1 (knows (config_fields third_node))
      (initial_renderer build) erased config_line 42 third_node refl read_config_line
      knows-third_node

-- lo-set-calibration 42 1 -5 - 2 FFE0C0: the brightness cap and the colour temperature stay.
abbrev calibration_line : List (List ℕ)
calibration_line = codes "42" ∷ codes "1" ∷ codes "-5" ∷ codes "-" ∷ codes "2" ∷ codes "FFE0C0" ∷ []

abbrev warmer : Tuning
warmer = record {
  time_offset_bits = some 0xFFFFFFFB;
  brightness_cap = none;
  palette_override = some 2;
  color_correction = some 0xFFE0C0;
  color_temperature = none;
}

read_calibration_line :
    (parse_u64 (codes "42") ≡ some 42)
    × (parse_u16 (codes "1") ≡ some 1)
    × TypedTuning (codes "-5") (codes "-") (codes "2") (codes "FFE0C0" ∷ []) warmer
unfolding parse_i32_bits parse_u8 parse_u16 parse_u64 parse_rgb_packed strtoull strtoul strtoll
    digit_value skip_spaces read_sign base_of read_digits
read_calibration_line = (refl, refl, (refl, refl, refl, (refl, refl)))

knows-warmer :
    knows (tuning_fields warmer) (json_object (tuning_fields warmer))
    ≡ payload_of (tuning_fields warmer)
unfolding digits data_equal
knows-warmer = refl

set_calibration_handler-delivered_example :
    arrived slots_nvs build 5000 1
      (knows (tuning_fields warmer))
      (initial_renderer build)
      erased
      (set_calibration_handler calibration_line)
    ≡ some (
      42,
      calibrated slots_nvs build 5000 1
          (knows (tuning_fields warmer))
          (initial_renderer build)
          erased
          (tuned warmer (initial_renderer build).calibration),
    )
set_calibration_handler-delivered_example =
    set_calibration_handler-delivered slots_nvs build 5000 1 (knows (tuning_fields warmer))
      (initial_renderer build) erased (codes "42") (codes "1") (codes "-5") (codes "-") (codes "2")
      (codes "FFE0C0" ∷ []) 42 warmer read_calibration_line.0 read_calibration_line.1
      read_calibration_line.2 refl knows-warmer

abbrev group_node : ℕ → ℕ
group_node id = 0xFFFFFFFFFFFF0000 + id

abbrev desk : Surroundings
desk = record { now_ms = 90000; allocated = true; group_node = group_node }

run_command-IsWellFormed_example :
    IsWellFormed (run_command desk set_calibration calibration_line 7).0
run_command-IsWellFormed_example =
    run_command-IsWellFormed desk set_calibration calibration_line 7 refl (omega arith)
      (omega arith)

-- Group 1, and the rest of a calibration.
abbrev tuning_line : List (List ℕ)
tuning_line = codes "-5" ∷ codes "-" ∷ codes "2" ∷ []

read_group :
    (parse_u16 (codes "1") ≡ some 1)
    × (parse_u64 (codes "0xFFFFFFFFFFFF0001") ≡ some (group_node 1))
    × (parse_u64 (codes "500") ≡ some 500)
    × (parse_u64 (codes "90500") ≡ some (u64 (90000 + 500)))
unfolding parse_u16 parse_u64 strtoull digit_value skip_spaces read_sign base_of read_digits
read_group = (refl, refl, refl, refl)

groups_agree_example :
    let group = codes "1" ∷ tuning_line in
    let unicast = codes "0xFFFFFFFFFFFF0001" ∷ (codes "1" ∷ tuning_line) in
    (set_scene_group_handler group_node group 7 ≡ set_scene_handler unicast 7)
    × (sync_clock_group_handler group_node 90000 group ≡ sync_clock_handler 90000 unicast)
    × (set_calibration_group_handler group_node group ≡ set_calibration_handler unicast)
groups_agree_example =
    groups_agree group_node (codes "1") (codes "0xFFFFFFFFFFFF0001") (codes "1") 1 read_group.0
      read_group.1 read_group.0 90000 tuning_line 7

scheduled_scene_group_handler_lem_example :
    scheduled_scene_group_handler group_node 90000
      (codes "1"
        ∷ (codes "500"
            ∷ (codes "5" ∷ (codes "FF8000" ∷ (codes "40" ∷ (codes "200" ∷ (codes "9" ∷ [])))))))
      7
    ≡ set_scene_group_handler group_node
        (codes "1"
          ∷ (codes "5"
              ∷ (codes "FF8000"
                  ∷ (codes "40" ∷ (codes "200" ∷ (codes "9" ∷ (codes "90500" ∷ [])))))))
        7
scheduled_scene_group_handler_lem_example =
    scheduled_scene_group_handler_lem group_node 90000 500 (codes "1") (codes "500") (codes "5")
      (codes "FF8000") (codes "40") (codes "200") (codes "9") (codes "90500") 7 read_group.2
      read_group.3

read_config_handler-AllAmong_example :
    Requests 500 1
      (command_callback slots_nvs build 5000 1 to_scene payload (initial_renderer build, erased)).2
      (read_config_handler true (codes "500" ∷ (codes "1" ∷ [])))
read_config_handler-AllAmong_example =
    read_config_handler-AllAmong slots_nvs build 5000 1 to_scene payload (initial_renderer build)
      erased (codes "500") (codes "1") 500 read_group.2 read_group.0
