-- ===== src/Console/Json.antt =====
-- The payloads that led_orchestra_console.cpp builds as JSON.
use led_orchestra.Base.{
  ℕ, ◌+◌, Bool, true, false, ◌||◌, Option, none, some, List, ◌∷◌, ◌++◌, ltb, if◌then◌else◌, ◌>>=◌,
  length,
}
use led_orchestra.Libc.{codes, decimal, formatted}
use led_orchestra.Scene.{Scene, NodeConfig}

-- The scene is the list of the arguments.
unfoldable pub build_set_scene_json : ℕ → Scene → Option (List ℕ)
build_set_scene_json json_len s = formatted json_len (
    codes "{\"0:U8\":"
    ++ (decimal s.effect
        ++ (codes ",\"1:U8\":"
            ++ (decimal s.red
                ++ (codes ",\"2:U8\":"
                    ++ (decimal s.green
                        ++ (codes ",\"3:U8\":"
                            ++ (decimal s.blue
                                ++ (codes ",\"4:U8\":"
                                    ++ (decimal s.speed
                                        ++ (codes ",\"5:U8\":"
                                            ++ (decimal s.brightness
                                                ++ (codes ",\"6:U32\":"
                                                    ++ (decimal s.sequence
                                                        ++ (codes ",\"7:U64\":"
                                                            ++ (decimal s.scheduled_start_ms
                                                            ++ codes "}"))))))))))))))))

-- The snprintf of `set_node_config_handler`.
unfoldable pub node_config_json : NodeConfig → Option (List ℕ)
node_config_json c = formatted 160 (
    codes "{\"0:U16\":"
    ++ (decimal c.node_id
        ++ (codes ",\"1:U16\":"
            ++ (decimal c.segment_start
                ++ (codes ",\"2:U16\":"
                    ++ (decimal c.segment_len
                        ++ (codes ",\"3:U16\":"
                            ++ (decimal c.total_leds
                                ++ (codes ",\"4:U8\":" ++ (decimal c.led_gpio ++ codes "}"))))))))))

-- The snprintf of `sync_clock_handler` and of `sync_clock_group_handler`.
unfoldable pub clock_json : ℕ → Option (List ℕ)
clock_json controller_time_ms =
    formatted 64 (codes "{\"0:U64\":" ++ (decimal controller_time_ms ++ codes "}"))

-- The snprintf of `add_group_handler`.
unfoldable pub group_json : ℕ → List ℕ → Option (List ℕ)
group_json group_id group_name = formatted 64 (
    codes "{\"0:U16\":"
    ++ (decimal group_id ++ (codes ",\"1:STR\":\"" ++ (group_name ++ codes "\"}"))))

-- The text in the buffer, of `used` bytes, and whether no field stands in it yet.
abbrev pub append_json_field : ℕ → List ℕ → List ℕ × Bool → Option (List ℕ × Bool)
append_json_field json_len field (json, first) =
    let needed = length field + (if first then 0 else 1) in
    if ltb json_len (length json + needed + 1)
    then none
    else some (json ++ (if first then field else b',' ∷ field), false)

-- The values that a SetCalibration changes; one that is not included is `none`. The offset is its bits.
pub record Tuning : Type 0 where
  pub time_offset_bits : Option ℕ
  pub brightness_cap : Option ℕ
  pub palette_override : Option ℕ
  pub color_correction : Option ℕ
  pub color_temperature : Option ℕ

-- One field of `build_set_calibration_json`, if it is included.
unfoldable pub append_value : ℕ → List ℕ → Option ℕ → List ℕ × Bool → Option (List ℕ × Bool)
append_value json_len label none buffer = some buffer
append_value json_len label (some value) buffer = do
  field ← formatted 48 (label ++ decimal value)
  append_json_field json_len field buffer

-- The end of `build_set_calibration_json`.
unfoldable pub close_json : ℕ → List ℕ × Bool → Option (List ℕ)
close_json json_len (json, first) =
    if first || ltb json_len (length json + 2) then none else some (json ++ codes "}")

unfoldable pub build_set_calibration_json : ℕ → Tuning → Option (List ℕ)
unfolding append_value close_json
build_set_calibration_json json_len t = if ltb json_len 3 then none else (do
  opened ← some (codes "{", true)
  timed ← append_value json_len (codes "\"0:U32\":") t.time_offset_bits opened
  capped ← append_value json_len (codes "\"1:U8\":") t.brightness_cap timed
  coloured ← append_value json_len (codes "\"2:U8\":") t.palette_override capped
  corrected ← append_value json_len (codes "\"3:U32\":") t.color_correction coloured
  warmed ← append_value json_len (codes "\"4:U32\":") t.color_temperature corrected
  close_json json_len warmed)
