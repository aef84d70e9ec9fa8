-- ===== src/Scene.antt =====
-- matter-prototype/led-node/main/led_orchestra_renderer.h: the scene, the place of a node in the
-- virtual strip and its field calibration. The prefix LedOrchestra of the types is left off.
-- `time_offset_ms` is the bit pattern of its `int32_t`.
use led_orchestra.Base.{ℕ}

pub record Scene : Type 0 where
  pub effect : ℕ
  pub red : ℕ
  pub green : ℕ
  pub blue : ℕ
  pub speed : ℕ
  pub brightness : ℕ
  pub sequence : ℕ
  pub scheduled_start_ms : ℕ

pub record NodeConfig : Type 0 where
  pub node_id : ℕ
  pub segment_start : ℕ
  pub segment_len : ℕ
  pub total_leds : ℕ
  pub led_gpio : ℕ

abbrev pub calib_no_palette_override : ℕ
calib_no_palette_override = 0xFF

pub record Calibration : Type 0 where
  pub time_offset_ms : ℕ
  pub brightness_cap : ℕ
  pub palette_override : ℕ
  pub color_correction : ℕ
  pub color_temperature : ℕ
