-- ===== src/Effects/Brightness/Ambient.antt =====
-- The ceiling for the effects of `Effects.Ambient`.
use led_orchestra.Base.{ℕ, ◌*◌, ◌/◌, ◌%◌, arith, ◌==◌, not}
use led_orchestra.Base.Words.{u8, u32, sub64}
use led_orchestra.Color.{scale8, sin8}
use led_orchestra.Color.Waves.{ease8-lt}
use led_orchestra.Scene.{Scene, NodeConfig}
use led_orchestra.Effects.Classic.{ticks, speed_of, strip_len_of}
use led_orchestra.Effects.Ambient.{
  is_segment_end, render_ocean_drift, render_color_wave, render_pulse_reveal, render_celebration,
  render_identify, render_tidal_surge,
}
use led_orchestra.Effects.Ceiling.{
  IsCapped, IsScene, black-IsCapped, if-IsCapped, if_le, grey-IsCapped, level_le, share_le,
  full_hue-IsColor, scaled-IsCapped, levelled-IsCapped, palette-IsCapped, blended-IsCapped,
}

module _ (scene : Scene) (v : IsScene scene) where
  pub ocean_drift-IsCapped :
      (n : NodeConfig) (g t p : ℕ) → IsCapped scene.brightness (render_ocean_drift scene n g t p)
  unfolding render_ocean_drift
  ocean_drift-IsCapped n g t p =
      palette-IsCapped scene v p _ _ _ (omega arith) (scaled-IsCapped scene v _ (omega arith))

  pub color_wave-IsCapped :
      (n : NodeConfig) (g t p : ℕ) → IsCapped scene.brightness (render_color_wave scene n g t p)
  unfolding render_color_wave
  color_wave-IsCapped n g t p =
      let level = level_le scene v _ (
        ease8-lt (
          sin8 (u8 (sub64 (u8 (u32 (g * 255) / strip_len_of n)) (ticks t (speed_of scene) 60))))) in
      palette-IsCapped scene v p _ _ _ level
        (levelled-IsCapped scene v _ _ (full_hue-IsColor _) level)

  pub pulse_reveal-IsCapped :
      (n : NodeConfig) (g t p : ℕ) → IsCapped scene.brightness (render_pulse_reveal scene n g t p)
  unfolding render_pulse_reveal
  pulse_reveal-IsCapped n g t p =
      let wash =
        palette-IsCapped scene v p _ _ _ (level_le scene v 40 (omega arith)) (black-IsCapped _) in
      if-IsCapped _ _ _ _
        (blended-IsCapped scene v _ _ _ (ease8-lt _) wash (
          palette-IsCapped scene v p _ _ _ (level_le scene v _ (ease8-lt _))
            (grey-IsCapped _ _ (level_le scene v _ (ease8-lt _)))))
        wash

  pub celebration-IsCapped :
      (g t p : ℕ) → IsCapped scene.brightness (render_celebration scene g t p)
  unfolding render_celebration
  celebration-IsCapped g t p =
      palette-IsCapped scene v p _ _ _ (level_le scene v _ (ease8-lt _))
        (levelled-IsCapped scene v _ _ (omega arith) (level_le scene v _ (ease8-lt _)))

  pub identify-IsCapped :
      (n : NodeConfig) (g t : ℕ) → IsCapped scene.brightness (render_identify scene n g t)
  unfolding render_identify
  identify-IsCapped n g t =
      let full = scene.brightness in
      let blink =
        if_le full (not (t / 500 % 2 == 0)) full (scale8 full 40) (omega arith)
          (share_le scene v 40 (omega arith)) in
      if-IsCapped _ (is_segment_end n g) _ _ (grey-IsCapped _ _ blink)
        (levelled-IsCapped scene v _ _ (full_hue-IsColor _) blink)

  pub tidal_surge-IsCapped :
      (n : NodeConfig) (g t p : ℕ) → IsCapped scene.brightness (render_tidal_surge scene n g t p)
  unfolding render_tidal_surge
  tidal_surge-IsCapped n g t p =
      if-IsCapped _ _ _ _
        (palette-IsCapped scene v p _ _ _ (level_le scene v _ (omega arith))
          (scaled-IsCapped scene v _ (omega arith)))
        (blended-IsCapped scene v _ _ _ (omega arith)
          (palette-IsCapped scene v p _ _ _ (level_le scene v _ (omega arith))
            (scaled-IsCapped scene v _ (omega arith)))
          (palette-IsCapped scene v p _ _ _ (share_le scene v _ (omega arith))
            (grey-IsCapped _ _ (share_le scene v _ (omega arith)))))
