-- ===== src/Console/Unicast.antt =====
-- The commands of led_orchestra_console.cpp to one node. `arguments` are argv behind the name of the command,
-- `sequence` is `g_sequence`, and `now_ms` the time that esp_timer_get_time() / 1000 gives.
use led_orchestra.Base.{
  ℕ, ◌+◌, Bool, ◌||◌, Option, none, some, List, [], ◌∷◌, ltb, leb, ◌==◌, if◌then◌else◌, ◌>>=◌,
  length, replicate,
}
use led_orchestra.Base.Words.{u32}
use led_orchestra.Libc.{codes}
use led_orchestra.Scene.{Scene, NodeConfig}
use led_orchestra.Platform.{esp_ok, esp_err_invalid_arg, esp_err_no_mem}
use led_orchestra.Console.{
  Outcome, returned, reads, parse_u64, parse_u32, parse_u16, parse_u8, parse_rgb, argv, optional,
  send_invoke, send_invoke_to, or_invalid_arg, or_no_mem, k_cluster_id, k_group_all_nodes,
}
use led_orchestra.Console.Json.{build_set_scene_json, node_config_json, clock_json, group_json}

-- The texts of a scene, the last two being given or not: the sequence number is `default` if none is given, and the
-- start is then 0.
unfoldable pub scene_arguments :
    List ℕ → List ℕ → List ℕ → List ℕ → Bool → List ℕ → ℕ → Bool → List ℕ → Option Scene
scene_arguments effect_text rgb_text speed_text brightness_text has_sequence sequence_text default
      has_start start_text =
    do
      effect ← parse_u8 effect_text
      rgb ← parse_rgb rgb_text
      speed ← parse_u8 speed_text
      brightness ← parse_u8 brightness_text
      sequence ← optional has_sequence (parse_u32 sequence_text) default
      scheduled_start_ms ← optional has_start (parse_u64 start_text) 0
      some (record {
        effect = effect;
        red = rgb.0;
        green = rgb.1;
        blue = rgb.2;
        speed = speed;
        brightness = brightness;
        sequence = sequence;
        scheduled_start_ms = scheduled_start_ms;
      })

-- What `set_scene_handler` parses, the sequence number being `sequence` if none is given.
unfoldable pub set_scene_arguments : List (List ℕ) → ℕ → Option (ℕ × ℕ × Scene)
unfolding scene_arguments
set_scene_arguments arguments sequence = do
  destination ← parse_u64 (argv arguments 0)
  endpoint ← parse_u16 (argv arguments 1)
  s ←
      scene_arguments (argv arguments 2) (argv arguments 3) (argv arguments 4) (argv arguments 5)
        (leb 7 (length arguments)) (argv arguments 6) sequence (leb 8 (length arguments))
        (argv arguments 7)
  some (destination, endpoint, s)

abbrev pub send_scene : ℕ × ℕ × Scene → Outcome
send_scene (destination, endpoint, s) =
    or_no_mem (send_invoke destination endpoint 0) (build_set_scene_json 192 s)

-- A sequence number is taken once the count of the arguments is right.
unfoldable pub set_scene_handler : List (List ℕ) → ℕ → Outcome × ℕ
unfolding set_scene_arguments
set_scene_handler arguments sequence =
    if ltb (length arguments) 6 || ltb 8 (length arguments)
    then (returned esp_err_invalid_arg, sequence)
    else (or_invalid_arg send_scene (set_scene_arguments arguments sequence), u32 (sequence + 1))

unfoldable pub set_node_config_arguments : List (List ℕ) → Option (ℕ × ℕ × NodeConfig)
set_node_config_arguments arguments = do
  destination ← parse_u64 (argv arguments 0)
  endpoint ← parse_u16 (argv arguments 1)
  orchestra_node_id ← parse_u16 (argv arguments 2)
  segment_start ← parse_u16 (argv arguments 3)
  segment_len ← parse_u16 (argv arguments 4)
  total_leds ← parse_u16 (argv arguments 5)
  led_gpio ← parse_u8 (argv arguments 6)
  some (
    destination,
    endpoint,
    record {
      node_id = orchestra_node_id;
      segment_start = segment_start;
      segment_len = segment_len;
      total_leds = total_leds;
      led_gpio = led_gpio;
    },
  )

abbrev pub send_node_config : ℕ × ℕ × NodeConfig → Outcome
send_node_config (destination, endpoint, c) =
    or_no_mem (send_invoke destination endpoint 1) (node_config_json c)

unfoldable pub set_node_config_handler : List (List ℕ) → Outcome
unfolding set_node_config_arguments
set_node_config_handler arguments =
    if length arguments == 7
    then or_invalid_arg send_node_config (set_node_config_arguments arguments)
    else returned esp_err_invalid_arg

unfoldable pub sync_clock_arguments : ℕ → List (List ℕ) → Option (ℕ × ℕ × ℕ)
sync_clock_arguments now_ms arguments = do
  destination ← parse_u64 (argv arguments 0)
  endpoint ← parse_u16 (argv arguments 1)
  time ← optional (length arguments == 3) (parse_u64 (argv arguments 2)) now_ms
  some (destination, endpoint, time)

abbrev pub send_clock : ℕ × ℕ × ℕ → Outcome
send_clock (destination, endpoint, time) =
    or_no_mem (send_invoke destination endpoint 2) (clock_json time)

unfoldable pub sync_clock_handler : ℕ → List (List ℕ) → Outcome
unfolding sync_clock_arguments
sync_clock_handler now_ms arguments =
    if ltb (length arguments) 2 || ltb 3 (length arguments)
    then returned esp_err_invalid_arg
    else or_invalid_arg send_clock (sync_clock_arguments now_ms arguments)

-- The node, the endpoint, the group and its name; the name is cut nowhere, only checked.
unfoldable pub add_group_arguments : List (List ℕ) → Option (ℕ × ℕ × ℕ × List ℕ)
add_group_arguments arguments = do
  node_id ← parse_u64 (argv arguments 0)
  endpoint ← parse_u16 (argv arguments 1)
  group_id ← optional (leb 3 (length arguments)) (parse_u16 (argv arguments 2)) k_group_all_nodes
  let group_name = if leb 4 (length arguments) then argv arguments 3 else codes "orchestra"
  if ltb 16 (length group_name) then none else some (node_id, endpoint, group_id, group_name)

abbrev pub send_group : ℕ × ℕ × ℕ × List ℕ → Outcome
send_group (node_id, endpoint, group_id, group_name) =
    or_no_mem (send_invoke_to node_id endpoint 4 0) (group_json group_id group_name)

unfoldable pub add_group_handler : List (List ℕ) → Outcome
unfolding add_group_arguments
add_group_handler arguments =
    if ltb (length arguments) 2 || ltb 4 (length arguments)
    then returned esp_err_invalid_arg
    else or_invalid_arg send_group (add_group_arguments arguments)

-- The attributes that `lo-read-config` asks for.
abbrev pub read_attributes : List ℕ
read_attributes = 0 ∷ 1 ∷ 2 ∷ 3 ∷ 4 ∷ 5 ∷ 6 ∷ 7 ∷ 8 ∷ 9 ∷ []

abbrev pub send_read : Bool → ℕ × ℕ → Outcome
send_read allocated (node_id, endpoint) =
    if allocated
    then reads (record {
      node = node_id;
      endpoints = replicate 10 endpoint;
      clusters = replicate 10 k_cluster_id;
      attributes = read_attributes;
    })
    else returned esp_err_no_mem

-- Whether the three buffers could be allocated, and the arguments.
unfoldable pub read_config_handler : Bool → List (List ℕ) → Outcome
read_config_handler allocated arguments =
    if length arguments == 2
    then or_invalid_arg (send_read allocated) (do
      node_id ← parse_u64 (argv arguments 0)
      endpoint ← parse_u16 (argv arguments 1)
      some (node_id, endpoint))
    else returned esp_err_invalid_arg

-- `show_group_help_handler` only prints.
unfoldable pub show_group_help_handler : Outcome
show_group_help_handler = returned esp_ok
