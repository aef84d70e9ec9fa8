-- ===== src/Console/Commands.antt =====
-- The table of the commands of led_orchestra_console.cpp and their registration.
use Prim.Native.String.{String}
use led_orchestra.Base.{ℕ, Bool, true, false, List, [], ◌∷◌}
use led_orchestra.Platform.{EspErr, esp_ok, is_ok}
use led_orchestra.Console.{Outcome}
use led_orchestra.Console.Unicast.{
  set_scene_handler, set_node_config_handler, sync_clock_handler, add_group_handler,
  read_config_handler, show_group_help_handler,
}
use led_orchestra.Console.Groups.{
  set_scene_group_handler, sync_clock_group_handler, scheduled_scene_group_handler,
}
use led_orchestra.Console.Calibration.{set_calibration_handler, set_calibration_group_handler}

-- The handlers, as the members `.func` of the table name them.
pub data Command : Type 0 where
  set_scene set_node_config sync_clock set_calibration add_group set_scene_group : Command
  sync_clock_group scheduled_scene_group set_calibration_group show_group_help : Command
  read_config : Command

-- The names and handlers in the order of the registration.
abbrev pub command_table : List (String × Command)
command_table =
    ("lo-set-scene", set_scene)
    ∷ ("lo-set-node-config", set_node_config)
    ∷ ("lo-sync-clock", sync_clock)
    ∷ ("lo-set-calibration", set_calibration)
    ∷ ("lo-add-group", add_group)
    ∷ ("lo-set-scene-group", set_scene_group)
    ∷ ("lo-sync-clock-group", sync_clock_group)
    ∷ ("lo-scheduled-scene-group", scheduled_scene_group)
    ∷ ("lo-set-calibration-group", set_calibration_group)
    ∷ ("lo-show-group-help", show_group_help)
    ∷ ("lo-read-config", read_config)
    ∷ []

-- `esp_console_cmd_register`, over what is registered.
module _ {Registry : Type 0} (cmd_register : String × Command → Registry → EspErr × Registry) where
  -- The commands behind those that were registered with `err`; the first error ends it.
  unfoldable pub register_from : List (String × Command) → EspErr × Registry → EspErr × Registry
  register_from [] (err, registry) = (err, registry)
  register_from (command ∷ commands) (err, registry) = elim (is_ok err) [
    | true ↦ register_from commands (cmd_register command registry)
    | false ↦ (err, registry)
  ]

  unfoldable pub led_orchestra_console_register_commands : Registry → EspErr × Registry
  unfolding register_from
  led_orchestra_console_register_commands registry = register_from command_table (esp_ok, registry)

-- What the handlers meet: the time, whether memory could be allocated, and `NodeIdFromGroupId`.
pub record Surroundings : Type 0 where
  pub now_ms : ℕ
  pub allocated : Bool
  pub group_node : ℕ → ℕ

-- One line that the operator types: a command and its arguments, over `g_sequence`.
unfoldable pub run_command : Surroundings → Command → List (List ℕ) → ℕ → Outcome × ℕ
run_command w set_scene arguments sequence = set_scene_handler arguments sequence
run_command w set_node_config arguments sequence = (set_node_config_handler arguments, sequence)
run_command w sync_clock arguments sequence = (sync_clock_handler w.now_ms arguments, sequence)
run_command w set_calibration arguments sequence = (set_calibration_handler arguments, sequence)
run_command w add_group arguments sequence = (add_group_handler arguments, sequence)
run_command w set_scene_group arguments sequence =
    set_scene_group_handler w.group_node arguments sequence
run_command w sync_clock_group arguments sequence =
    (sync_clock_group_handler w.group_node w.now_ms arguments, sequence)
run_command w scheduled_scene_group arguments sequence =
    scheduled_scene_group_handler w.group_node w.now_ms arguments sequence
run_command w set_calibration_group arguments sequence =
    (set_calibration_group_handler w.group_node arguments, sequence)
run_command w show_group_help arguments sequence = (show_group_help_handler, sequence)
run_command w read_config arguments sequence = (read_config_handler w.allocated arguments, sequence)
