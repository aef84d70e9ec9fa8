-- ===== src/Console/Calibration.antt =====
-- The calibration commands of led_orchestra_console.cpp, to one node and to a group of nodes. `arguments` are argv
-- behind the name of the command; `group_node` is the SDK's `NodeIdFromGroupId`.
use led_orchestra.Base.{
  ℕ, Bool, true, false, not, ◌||◌, Option, none, some, List, ltb, leb, if◌then◌else◌, ◌>>=◌, length,
}
use led_orchestra.Platform.{esp_err_invalid_arg}
use led_orchestra.Console.{
  Outcome, returned, parse_u64, parse_u16, parse_u8, parse_i32_bits, parse_rgb_packed, arg_is_keep,
  argv, send_invoke, or_invalid_arg, or_no_mem, k_endpoint_id_hint,
}
use led_orchestra.Console.Json.{Tuning, build_set_calibration_json}

-- A value that `-` or the end of the line leaves out.
abbrev pub unless_kept : Bool → Option ℕ → Option (Option ℕ)
unless_kept true parsed = some none
unless_kept false none = none
unless_kept false (some value) = some (some value)

abbrev pub is_given : Option ℕ → Bool
is_given none = false
is_given (some value) = true

abbrev pub changes_something : Tuning → Bool
changes_something t =
    is_given t.time_offset_bits
    || is_given t.brightness_cap
    || is_given t.palette_override
    || is_given t.color_correction
    || is_given t.color_temperature

-- The texts of the five values, the last two being given or not.
unfoldable pub tuning_arguments :
    List ℕ → List ℕ → List ℕ → Bool → List ℕ → Bool → List ℕ → Option Tuning
tuning_arguments offset brightness palette has_correction correction has_temperature temperature =
    do
      time_offset_bits ← unless_kept (arg_is_keep offset) (parse_i32_bits offset)
      brightness_cap ← unless_kept (arg_is_keep brightness) (parse_u8 brightness)
      palette_override ← unless_kept (arg_is_keep palette) (parse_u8 palette)
      color_correction ←
          unless_kept (not has_correction || arg_is_keep correction) (parse_rgb_packed correction)
      color_temperature ←
          unless_kept (not has_temperature || arg_is_keep temperature)
            (parse_rgb_packed temperature)
      let t : Tuning = record {
        time_offset_bits = time_offset_bits;
        brightness_cap = brightness_cap;
        palette_override = palette_override;
        color_correction = color_correction;
        color_temperature = color_temperature;
      }
      if changes_something t then some t else none

unfoldable pub set_calibration_arguments : List (List ℕ) → Option (ℕ × ℕ × Tuning)
unfolding tuning_arguments
set_calibration_arguments arguments = do
  destination ← parse_u64 (argv arguments 0)
  endpoint ← parse_u16 (argv arguments 1)
  t ←
      tuning_arguments (argv arguments 2) (argv arguments 3) (argv arguments 4)
        (leb 6 (length arguments)) (argv arguments 5) (leb 7 (length arguments)) (argv arguments 6)
  some (destination, endpoint, t)

abbrev pub send_calibration : ℕ × ℕ × Tuning → Outcome
send_calibration (destination, endpoint, t) =
    or_no_mem (send_invoke destination endpoint 3) (build_set_calibration_json 160 t)

unfoldable pub set_calibration_handler : List (List ℕ) → Outcome
unfolding set_calibration_arguments
set_calibration_handler arguments =
    if ltb (length arguments) 5 || ltb 7 (length arguments)
    then returned esp_err_invalid_arg
    else or_invalid_arg send_calibration (set_calibration_arguments arguments)

module _ (group_node : ℕ → ℕ) where
  unfoldable pub set_calibration_group_arguments : List (List ℕ) → Option (ℕ × ℕ × Tuning)
  unfolding tuning_arguments
  set_calibration_group_arguments arguments = do
    group_id ← parse_u16 (argv arguments 0)
    t ←
        tuning_arguments (argv arguments 1) (argv arguments 2) (argv arguments 3)
          (leb 5 (length arguments)) (argv arguments 4) (leb 6 (length arguments))
          (argv arguments 5)
    some (group_node group_id, k_endpoint_id_hint, t)

  unfoldable pub set_calibration_group_handler : List (List ℕ) → Outcome
  unfolding set_calibration_group_arguments
  set_calibration_group_handler arguments =
      if ltb (length arguments) 4 || ltb 6 (length arguments)
      then returned esp_err_invalid_arg
      else or_invalid_arg send_calibration (set_calibration_group_arguments arguments)
