-- ===== src/Renderer.antt =====
-- matter-prototype/led-node/main/led_orchestra_renderer.cpp: the state behind `g_lock` and the commands
-- that change it. `Renderer.Frame` draws, `Renderer.Task` is the render task and how its critical
-- sections interleave with the commands; the other children are proofs.
pub mod Frame
pub mod Task
pub mod Policy
pub mod Strip
pub mod Virtual
pub mod Clock
pub mod Commands
pub mod Pass
pub mod Schedule
pub mod Hold
pub mod Latch
use led_orchestra.Base.{
  ℕ, ◌+◌, ◌%◌, ◌^◌, Bool, true, false, not, ◌||◌, ◌&&◌, none, some, ◌==◌, if◌then◌else◌,
}
use led_orchestra.Base.Words.{◌>>>◌, sub64, u64}
use led_orchestra.Color.{Crgb, rgb}
use led_orchestra.Color.Policy.{OutputPolicy, identity_policy}
use led_orchestra.Scene.{Scene, NodeConfig, Calibration}
use led_orchestra.Platform.{EspErr, esp_ok, esp_err_invalid_arg, Kconfig, Nvs}
use led_orchestra.Effects.Registry.{effect_meta}
use led_orchestra.Store.{
  compiled_defaults, scene_defaults, calib_defaults, config_load, scene_load, calibration_load,
  config_save, scene_save, calibration_save,
}

unfoldable pub unpack_rgb : ℕ → Crgb
unpack_rgb packed = rgb ((packed >>> 16) % 256) ((packed >>> 8) % 256) (packed % 256)

-- The globals that `g_lock` guards. `clock_offset_ms` is the bit pattern of the `int64_t`.
pub record Renderer : Type 0 where
  pub scene : Scene
  pub pending : Scene
  pub has_pending : Bool
  pub node : NodeConfig
  pub calibration : Calibration
  pub output_policy : OutputPolicy
  pub clock_offset_ms : ℕ

-- `LedOrchestraScene g_pending = {}`.
abbrev pub empty_scene : Scene
empty_scene = record {
  effect = 0;
  red = 0;
  green = 0;
  blue = 0;
  speed = 0;
  brightness = 0;
  sequence = 0;
  scheduled_start_ms = 0;
}

-- The initialisers of the globals.
abbrev pub initial_renderer : Kconfig → Renderer
initial_renderer k = record {
  scene = scene_defaults;
  pending = empty_scene;
  has_pending = false;
  node = compiled_defaults k;
  calibration = calib_defaults;
  output_policy = identity_policy;
  clock_offset_ms = 0;
}

unfoldable pub apply_calibration_locked : Calibration → Renderer → Renderer
apply_calibration_locked calib g = record g {
  calibration = calib;
  output_policy = record g.output_policy {
    master_brightness = calib.brightness_cap;
    color_correction = unpack_rgb calib.color_correction;
    color_temperature = unpack_rgb calib.color_temperature;
  };
}

abbrev pub scenes_equal : Scene → Scene → Bool
scenes_equal a b =
    (a.effect == b.effect)
    && (a.red == b.red)
    && (a.green == b.green)
    && (a.blue == b.blue)
    && (a.speed == b.speed)
    && (a.brightness == b.brightness)
    && (a.sequence == b.sequence)
    && (a.scheduled_start_ms == b.scheduled_start_ms)

abbrev pub configs_equal : NodeConfig → NodeConfig → Bool
configs_equal a b =
    (a.node_id == b.node_id)
    && (a.segment_start == b.segment_start)
    && (a.segment_len == b.segment_len)
    && (a.total_leds == b.total_leds)
    && (a.led_gpio == b.led_gpio)

abbrev pub colors_equal : Crgb → Crgb → Bool
colors_equal a b = (a.r == b.r) && (a.g == b.g) && (a.b == b.b)

abbrev pub policies_equal : OutputPolicy → OutputPolicy → Bool
policies_equal a b =
    colors_equal a.color_correction b.color_correction
    && colors_equal a.color_temperature b.color_temperature
    && (a.master_brightness == b.master_brightness)
    && (a.max_milliamps == b.max_milliamps)
    && (a.milliamps_per_led_full_white == b.milliamps_per_led_full_white)

abbrev pub calibrations_equal : Calibration → Calibration → Bool
calibrations_equal a b =
    (a.time_offset_ms == b.time_offset_ms) && (a.palette_override == b.palette_override)

-- `led_orchestra_effect_meta(…) != nullptr`.
unfoldable pub is_known : ℕ → Bool
is_known effect = elim (effect_meta effect) [ none ↦ false | some m ↦ true ]

-- `led_orchestra_sync_clock` at the monotonic time `now`.
unfoldable pub sync_clock : ℕ → ℕ → Renderer → Renderer
sync_clock controller_time_ms now g = record g { clock_offset_ms = sub64 controller_time_ms now }

module _ (nvs : Nvs) where
  open nvs use {Flash}

  -- The three loads at the head of `led_orchestra_renderer_start`.
  unfoldable pub renderer_start : Kconfig → Flash → Renderer → Renderer
  renderer_start k f g =
      let (config_err, node, node_from_nvs) = config_load nvs k f in
      let (scene_err, scene, scene_from_nvs) = scene_load nvs f in
      let (calib_err, calib, calib_from_nvs) = calibration_load nvs f in
      apply_calibration_locked calib (record g { node = node; scene = scene })

  -- A failed save is only logged: its error goes nowhere.
  unfoldable pub set_scene : Scene → Renderer × Flash → EspErr × Renderer × Flash
  set_scene scene (g, f) =
      if not (is_known scene.effect)
      then (esp_err_invalid_arg, g, f)
      else if scene.scheduled_start_ms == 0
      then (esp_ok, record g { scene = scene; has_pending = false }, (scene_save nvs scene f).1)
      else (esp_ok, record g { pending = scene; has_pending = true }, f)

  unfoldable pub set_node_config :
      Kconfig → NodeConfig → Renderer × Flash → EspErr × Renderer × Flash
  set_node_config k config (g, f) =
      if (config.segment_len == 0)
        || (config.total_leds == 0)
        || not (config.led_gpio == k.led_gpio)
      then (esp_err_invalid_arg, g, f)
      else (esp_ok, record g { node = config }, (config_save nvs config f).1)

  unfoldable pub set_calibration : Calibration → Renderer × Flash → EspErr × Renderer × Flash
  set_calibration calib (g, f) =
      (esp_ok, apply_calibration_locked calib g, (calibration_save nvs calib f).1)
