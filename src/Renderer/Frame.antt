-- ===== src/Renderer/Frame.antt =====
-- The drawing half of `render_task` in led_orchestra_renderer.cpp: the calls of `led_strip_set_pixel`
-- that make up one frame, in their order, and the test that decides whether a frame is drawn.
use led_orchestra.Base.{
  ℕ, zero, suc, ◌+◌, ◌-◌, Bool, false, not, ◌||◌, none, some, List, [], ◌∷◌, ◌++◌, ◌==◌, ltb,
  if◌then◌else◌,
}
use led_orchestra.Base.Words.{u16, u64, sign_extend32}
use led_orchestra.Color.{Crgb}
use led_orchestra.Color.Policy.{OutputPolicy, apply_output_policy}
use led_orchestra.Scene.{Scene, NodeConfig, Calibration, calib_no_palette_override}
use led_orchestra.Platform.{Kconfig}
use led_orchestra.Effects.{render_effect}
use led_orchestra.Effects.Registry.{effect_meta, no_palette}
use led_orchestra.Renderer.{scenes_equal, configs_equal, policies_equal, calibrations_equal}

-- One call `led_strip_set_pixel(g_strip, index, red, green, blue)`.
pub record Pixel : Type 0 where
  pub index : ℕ
  pub red : ℕ
  pub green : ℕ
  pub blue : ℕ

-- What one pass of the task draws from.
pub record View : Type 0 where
  pub scene : Scene
  pub node : NodeConfig
  pub policy : OutputPolicy
  pub calib : Calibration

unfoldable pub animated : ℕ → Bool
animated effect = elim (effect_meta effect) [ none ↦ false | some m ↦ m.scrolls ]

unfoldable pub effect_clock : ℕ → Calibration → ℕ
effect_clock now_ms calib = u64 (now_ms + sign_extend32 calib.time_offset_ms)

unfoldable pub palette_choice : ℕ → Calibration → ℕ
palette_choice effect calib =
    if not (calib.palette_override == calib_no_palette_override)
    then calib.palette_override
    else elim (effect_meta effect) [ none ↦ no_palette | some m ↦ m.palette_ref ]

unfoldable pub drawn_len : Kconfig → NodeConfig → ℕ
drawn_len k node =
    if ltb (u16 k.led_count) node.segment_len then u16 k.led_count else node.segment_len

-- The colour of one pixel of the segment.
unfoldable pub pixel_color : View → ℕ → ℕ → Crgb
pixel_color v now_ms local =
    apply_output_policy
      (render_effect v.scene v.node (u16 (v.node.segment_start + local))
        (effect_clock now_ms v.calib) (palette_choice v.scene.effect v.calib))
      v.policy

-- Red and green change places on the wire.
abbrev pub on_wire : ℕ → Crgb → Pixel
on_wire local c = record { index = local; red = c.g; green = c.r; blue = c.b }

-- The loop `for (local = first; …)` over `count` pixels.
unfoldable pub lit_pixels : (ℕ → Crgb) → ℕ → ℕ → List Pixel
lit_pixels color zero first = []
lit_pixels color (suc count) first =
    on_wire first (color first) ∷ lit_pixels color count (suc first)

unfoldable pub dark_pixels : ℕ → ℕ → List Pixel
dark_pixels zero first = []
dark_pixels (suc count) first =
    record { index = first; red = 0; green = 0; blue = 0 } ∷ dark_pixels count (suc first)

-- The two loops before `led_strip_refresh`.
unfoldable pub frame : Kconfig → View → ℕ → List Pixel
frame k v now_ms =
    let len = drawn_len k v.node in
    lit_pixels (pixel_color v now_ms) len 0 ++ dark_pixels (k.led_count - len) len

unfoldable pub render_needed : View → Bool → View → Bool
render_needed v have_rendered_frame last =
    animated v.scene.effect
    || not have_rendered_frame
    || not (scenes_equal v.scene last.scene)
    || not (configs_equal v.node last.node)
    || not (policies_equal v.policy last.policy)
    || not (calibrations_equal v.calib last.calib)
