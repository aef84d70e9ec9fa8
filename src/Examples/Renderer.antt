-- ===== src/Examples/Renderer.antt =====
-- The theorems on the renderer at concrete nodes, commands and runs.
use mathlib.Core.Option.{some-ne-none}
use led_orchestra.Base.{
  ℕ, ◌+◌, ◌≤◌, ◌<◌, ◌-◌, ◌≢◌, ◌≡◌, ◌⊎◌, refl, true, false, none, some, ◌++◌, length, get_elem?,
  arith,
}
use led_orchestra.Platform.{esp_ok, is_ok}
use led_orchestra.Scene.{Scene, Calibration}
use led_orchestra.Color.Policy.{identity_policy, IsPolicy}
use led_orchestra.Effects.Registry.{effect_meta, find_effect, effects}
use led_orchestra.Store.{scene_defaults, config_save, scene_save, calibration_save}
use led_orchestra.Renderer.{
  apply_calibration_locked, Renderer, initial_renderer, set_scene, set_node_config, set_calibration,
  renderer_start, sync_clock, is_known,
}
use led_orchestra.Renderer.Frame.{View, frame, render_needed, animated}
use led_orchestra.Renderer.Task.{
  waiting, initial_task, System, drawing, task_step, Snapshot, take_snapshot, synchronized_ms,
  is_due, promote, Event, scene_command, task_event, step, booted, start, next,
}
use led_orchestra.Renderer.Strip.{expected_pixel, frame_complete, frame_limits}
use led_orchestra.Renderer.Virtual.{segment, virtual_strip}
use led_orchestra.Renderer.Hold.{frame_held}
use led_orchestra.Renderer.Latch.{pass_shows}
use led_orchestra.Renderer.Clock.{clocks_agree}
use led_orchestra.Renderer.Commands.{
  set_node_config_durable, set_calibration_durable, set_scene_durable,
}
use led_orchestra.Renderer.Pass.{Starts, waiting_for}
use led_orchestra.Renderer.Schedule.{set_scene-Starts, promote_on_time}
use led_orchestra.Renderer.Policy.{Derived, Reachable-Derived}
use led_orchestra.Examples.Flash.{slots_nvs, slots_laws, erased, build}
use led_orchestra.Examples.Effects.{comet, west, east, comet-IsScene, comet_moves}
use led_orchestra.Examples.Store.{
  scene_saved, calibration_saved, east-ConfigFits, comet-SceneFits, tuned, tuned-CalibFits,
  tuned_override,
}

abbrev plain : Calibration
plain = record {
  time_offset_ms = 0;
  brightness_cap = 255;
  palette_override = 255;
  color_correction = 0x00FFFFFF;
  color_temperature = 0x00FFFFFF;
}

abbrev view : View
view = record { scene = comet; node = west; policy = identity_policy; calib = plain }

virtual_strip_example :
    segment build (record view { node = west }) 90000
      ++ segment build (record view { node = east }) 90000
    ≡ segment
        (record build { led_count = 100 })
        (record view { node = record west { segment_len = 60 + 40 } })
        90000
virtual_strip_example =
    virtual_strip build build (record build { led_count = 100 }) view west east 90000 comet_moves
      refl refl (omega arith) (omega arith) (omega arith)

-- The solid effect does not move.
abbrev still : View
still = record view { scene = record comet { effect = 1 } }

nothing_to_render : render_needed still true still ≡ false
unfolding render_needed animated effect_meta find_effect effects
nothing_to_render = refl

frame_held_example : frame build still 90000 ≡ frame build still 100
frame_held_example = frame_held build still still 90000 100 nothing_to_render

frame_complete_example :
    (length (frame build view 90000) ≡ 60)
    × ((i : ℕ)
        → i < 60
        → get_elem? (frame build view 90000) i ≡ some (expected_pixel build view 90000 i))
frame_complete_example = frame_complete build view 90000

clocks_agree_example :
    synchronized_ms (5000 + 250) (sync_clock 1000000 5000 (initial_renderer build))
    ≡ synchronized_ms (90 + 250) (sync_clock 1000000 90 (initial_renderer build))
clocks_agree_example =
    clocks_agree (initial_renderer build) (initial_renderer build) 1000000 5000 90 250 (omega arith)
      (omega arith)

accepted_config : (set_node_config slots_nvs build east (initial_renderer build, erased)).0 ≡ esp_ok
unfolding set_node_config
accepted_config = refl

set_node_config_durable_example :
    let r = set_node_config slots_nvs build east (initial_renderer build, erased) in
    (r.1.node ≡ east)
    × ((is_ok (config_save slots_nvs east erased).0 ≡ false)
        ⊎ ((renderer_start slots_nvs build r.2 (initial_renderer build)).node ≡ east))
set_node_config_durable_example =
    set_node_config_durable slots_nvs slots_laws build east (initial_renderer build)
      (initial_renderer build) erased east-ConfigFits accepted_config

set_calibration_durable_example :
    let r = set_calibration slots_nvs tuned (initial_renderer build, erased) in
    (r.1.calibration ≡ tuned)
    × ((renderer_start slots_nvs build r.2 (initial_renderer build)).calibration ≡ tuned)
set_calibration_durable_example =
    set_calibration_durable slots_nvs slots_laws build tuned (initial_renderer build)
      (initial_renderer build) erased (calibration_save slots_nvs tuned erased).1 tuned-CalibFits
      tuned_override calibration_saved

accepted_scene : (set_scene slots_nvs comet (initial_renderer build, erased)).0 ≡ esp_ok
unfolding set_scene is_known effect_meta find_effect effects
accepted_scene = refl

set_scene_durable_example :
    let r = set_scene slots_nvs comet (initial_renderer build, erased) in
    (r.1.scene ≡ comet)
    × ((renderer_start slots_nvs build r.2 (initial_renderer build)).scene ≡ comet)
set_scene_durable_example =
    set_scene_durable slots_nvs slots_laws build comet (initial_renderer build)
      (initial_renderer build) erased (scene_save slots_nvs comet erased).1 comet-SceneFits
      accepted_scene refl scene_saved

-- A node with a scene scheduled for the synchronized time 5000.
abbrev waiting_node : Renderer
waiting_node = record (initial_renderer build) {
  pending = record comet { scheduled_start_ms = 5000 };
  has_pending = true;
}

comet_known : effect_meta 5 ≢ none
unfolding effect_meta find_effect effects
comet_known none_at_all = some-ne-none _ none_at_all

-- The controller's time is 4000 ms ahead of this node.
abbrev later_comet : Scene
later_comet = record comet { scheduled_start_ms = 10000 }

-- Another scene for the same time.
abbrev next_comet : Scene
next_comet = record comet { sequence = 8; scheduled_start_ms = 10000 }

set_scene-Starts_example :
    let told =
      (set_scene slots_nvs later_comet (sync_clock 9000 5000 (initial_renderer build), erased)).1 in
    let first = task_step build 6100 waiting initial_task told in
    Starts build later_comet (9000 + (6100 - 5000)) 6100 6101 scene_defaults initial_task told
    × ((task_step build 6101 first.0.phase first.0
          (set_scene slots_nvs next_comet (first.1, erased)).1).1
        ≡ waiting_for next_comet (sync_clock 9000 5000 (initial_renderer build)))
set_scene-Starts_example =
    set_scene-Starts slots_nvs build later_comet next_comet 9000 5000 6100 6101 initial_task
      (initial_renderer build) erased comet_known (λ zero. omega arith) comet_known
      (λ zero. omega arith) refl (omega arith) (omega arith) (omega arith)

abbrev due_snapshot : Snapshot
due_snapshot = record {
  view = view;
  has_pending = true;
  pending = waiting_node.pending;
  now_ms = 6000;
}

due_then : is_due due_snapshot ≡ true
unfolding is_due
due_then = refl

promote_on_time_example :
    let (after, drawn) = promote due_snapshot waiting_node in
    (drawn ≡ after.scene)
    × ((after ≡ waiting_node)
        ⊎ ((waiting_node.has_pending ≡ true)
            × (after ≡ record waiting_node { scene = due_snapshot.pending; has_pending = false })
            × (due_snapshot.pending.scheduled_start_ms ≤ due_snapshot.now_ms)))
promote_on_time_example = promote_on_time due_snapshot waiting_node due_then (λ e. refl)

abbrev AnyEvent : Event → Type 0
AnyEvent e = Unit

Reachable-Derived_example : Derived slots_nvs (
    step slots_nvs build
      (task_event 16)
      (step slots_nvs build (scene_command comet) (booted slots_nvs build erased)))
Reachable-Derived_example =
    Reachable-Derived slots_nvs build AnyEvent
      (step slots_nvs build (task_event 16)
        (step slots_nvs build (scene_command comet) (booted slots_nvs build erased)))
      (next (task_event 16) _ tt (next (scene_command comet) _ tt (start erased)))

bytes-IsPolicy : IsPolicy identity_policy
bytes-IsPolicy = record {
  color_correction = omega arith;
  color_temperature = omega arith;
  master_brightness = omega arith;
}

frame_limits_example :
    let p = expected_pixel build view 90000 3 in
    (p.index ≡ 3)
    × (p.green ≤ 40)
    × (p.red ≤ 40)
    × (p.blue ≤ 40)
    × (p.green ≤ 255)
    × (p.red ≤ 255)
    × (p.blue ≤ 255)
    × (p.green ≤ 255)
    × (p.red ≤ 255)
    × (p.blue ≤ 255)
frame_limits_example =
    frame_limits build view 90000 3 (expected_pixel build view 90000 3) comet-IsScene bytes-IsPolicy
      (omega arith) ((frame_complete build view 90000).1 3 (omega arith))

abbrev fresh : System slots_nvs
fresh = booted slots_nvs build erased

abbrev copied : Snapshot
copied = take_snapshot 16 fresh.renderer

drawing_now :
    (step slots_nvs build (task_event 16) fresh).task.phase ≡ drawing copied.view copied.now_ms
unfolding step booted task_step is_due take_snapshot renderer_start apply_calibration_locked
drawing_now = refl

pass_shows_example :
    (step slots_nvs build (task_event 20) (step slots_nvs build (task_event 16) fresh)).task.shown
    ≡ frame build copied.view copied.now_ms
pass_shows_example =
    pass_shows slots_nvs build AnyEvent (step slots_nvs build (task_event 16) fresh) copied.view
      copied.now_ms 20 (next (task_event 16) _ tt (start erased)) drawing_now
