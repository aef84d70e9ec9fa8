-- ===== src/Console/Groups.antt =====
-- The commands of led_orchestra_console.cpp to a group of nodes. `group_node` is the SDK's `NodeIdFromGroupId`, the
-- other names are those of the commands to one node.
pub mod Agree
use led_orchestra.Base.{
  ℕ, ◌+◌, false, ◌||◌, Option, some, List, [], ◌∷◌, ltb, leb, ◌==◌, if◌then◌else◌, ◌>>=◌, length,
}
use led_orchestra.Base.Words.{u32, u64}
use led_orchestra.Scene.{Scene}
use led_orchestra.Platform.{esp_err_invalid_arg}
use led_orchestra.Console.{
  Outcome, returned, parse_u64, parse_u16, argv, optional, or_invalid_arg, k_endpoint_id_hint,
}
use led_orchestra.Console.Unicast.{scene_arguments, send_scene, send_clock}

module _ (group_node : ℕ → ℕ) where
  unfoldable pub set_scene_group_arguments : List (List ℕ) → ℕ → Option (ℕ × ℕ × Scene)
  unfolding scene_arguments
  set_scene_group_arguments arguments sequence = do
    group_id ← parse_u16 (argv arguments 0)
    s ←
        scene_arguments (argv arguments 1) (argv arguments 2) (argv arguments 3) (argv arguments 4)
          (leb 6 (length arguments)) (argv arguments 5) sequence (leb 7 (length arguments))
          (argv arguments 6)
    some (group_node group_id, k_endpoint_id_hint, s)

  unfoldable pub set_scene_group_handler : List (List ℕ) → ℕ → Outcome × ℕ
  unfolding set_scene_group_arguments
  set_scene_group_handler arguments sequence =
      if ltb (length arguments) 5 || ltb 7 (length arguments)
      then (returned esp_err_invalid_arg, sequence)
      else (
        or_invalid_arg send_scene (set_scene_group_arguments arguments sequence),
        u32 (sequence + 1),
      )

  unfoldable pub sync_clock_group_arguments : ℕ → List (List ℕ) → Option (ℕ × ℕ × ℕ)
  sync_clock_group_arguments now_ms arguments = do
    group_id ← parse_u16 (argv arguments 0)
    time ← optional (length arguments == 2) (parse_u64 (argv arguments 1)) now_ms
    some (group_node group_id, k_endpoint_id_hint, time)

  unfoldable pub sync_clock_group_handler : ℕ → List (List ℕ) → Outcome
  unfolding sync_clock_group_arguments
  sync_clock_group_handler now_ms arguments =
      if ltb (length arguments) 1 || ltb 2 (length arguments)
      then returned esp_err_invalid_arg
      else or_invalid_arg send_clock (sync_clock_group_arguments now_ms arguments)

  -- The scene starts a delay from now.
  unfoldable pub scheduled_scene_group_arguments : ℕ → List (List ℕ) → ℕ → Option (ℕ × ℕ × Scene)
  unfolding scene_arguments
  scheduled_scene_group_arguments now_ms arguments sequence = do
    group_id ← parse_u16 (argv arguments 0)
    delay_ms ← parse_u64 (argv arguments 1)
    s ←
        scene_arguments (argv arguments 2) (argv arguments 3) (argv arguments 4) (argv arguments 5)
          (leb 7 (length arguments)) (argv arguments 6) sequence false []
    some (
      group_node group_id,
      k_endpoint_id_hint,
      record s { scheduled_start_ms = u64 (now_ms + delay_ms) },
    )

  unfoldable pub scheduled_scene_group_handler : ℕ → List (List ℕ) → ℕ → Outcome × ℕ
  unfolding scheduled_scene_group_arguments
  scheduled_scene_group_handler now_ms arguments sequence =
      if ltb (length arguments) 6 || ltb 7 (length arguments)
      then (returned esp_err_invalid_arg, sequence)
      else (
        or_invalid_arg send_scene (scheduled_scene_group_arguments now_ms arguments sequence),
        u32 (sequence + 1),
      )
