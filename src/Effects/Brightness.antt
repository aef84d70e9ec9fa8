-- ===== src/Effects/Brightness.antt =====
-- The brightness of a scene and the colours of all effects of led_orchestra_effects.cpp.
mod Classic
mod Ambient
mod Party
use Prim.Native.Nat.{max}
use led_orchestra.Base.{
  get_or, List, [], ◌∷◌, zero, suc, ℕ, ◌+◌, ◌*◌, ◌/◌, ◌%◌, ◌≤◌, ◌<◌, ◌≡◌, ◌⊎◌, inl, inr, true,
  false, Bool, Option, none, some, refl, arith, ◌==◌, leb, ltb, not, if◌then◌else◌,
}
use led_orchestra.Base.Words.{u8, u32, sub64}
use led_orchestra.Color.{
  Crgb, CrgbPalette16, rgb, black, Chsv, hsv, hsv_to_rgb, scale8, nscale8, blend, mix, ease8,
  triangle8, sin8, color_from_palette,
}
use led_orchestra.Color.Channels.{scale8-lt, scale8-le, scale8-le_scale}
use led_orchestra.Color.Waves.{ease8-lt}
use led_orchestra.Color.Hsv.{HasValue, hsv_to_rgb-HasValue}
use led_orchestra.Color.Blending.{IsColor, mix_between}
use led_orchestra.Color.Palettes.{
  AreColors, DimmedTo, nscale8-IsColor, nscale8-DimmedTo, color_from_palette-IsColor, blend-IsColor,
}
use led_orchestra.Scene.{Scene, NodeConfig}
use led_orchestra.Effects.{render_effect}
use led_orchestra.Effects.Palettes.{palette}
use led_orchestra.Effects.Coverage.{palette-AreColors}
use led_orchestra.Effects.Classic.{
  channel, ticks, speed_of, strip_len_of, with_palette, scene_rgb, render_solid, render_rainbow,
  render_fibonacci, render_aurora_breathe, render_comet, render_theater_chase, render_palette_cycle,
  render_twinkle,
}
use led_orchestra.Effects.Ambient.{
  is_segment_end, render_ocean_drift, render_color_wave, render_pulse_reveal, render_celebration,
  render_identify, render_tidal_surge,
}
use led_orchestra.Effects.Party.{
  render_party_confetti, render_champagne_toast, render_independence, stripe_color,
}
use led_orchestra.Effects.Ceiling.{IsCapped, IsScene, black-IsCapped, if-IsCapped}
use led_orchestra.Effects.Registry.{
  effect_off, effect_solid, effect_rainbow, effect_fibonacci, effect_aurora_breathe, effect_comet,
  effect_theater_chase, effect_palette_cycle, effect_twinkle, effect_ocean_drift, effect_color_wave,
  effect_pulse_reveal, effect_celebration, effect_identify, effect_tidal_surge,
  effect_party_confetti, effect_champagne_toast, effect_independence,
}
use Classic.{
  solid-IsCapped, rainbow-IsCapped, fibonacci-IsCapped, aurora-IsCapped, comet-IsCapped,
  chase-IsCapped, palette_cycle-IsCapped, twinkle-IsCapped,
}
use Ambient.{
  ocean_drift-IsCapped, color_wave-IsCapped, pulse_reveal-IsCapped, celebration-IsCapped,
  identify-IsCapped, tidal_surge-IsCapped,
}
use Party.{confetti-IsCapped, champagne-IsCapped, independence-IsCapped}

-- For a scene whose colour and brightness are bytes, whatever the effect, the node, the index, the time
-- and the palette, no channel of the colour exceeds the scene's brightness.
pub render_effect-IsCapped :
    (scene : Scene) (node : NodeConfig) (g t p : ℕ)
    → IsScene scene
    → IsCapped scene.brightness (render_effect scene node g t p)
unfolding render_effect
render_effect-IsCapped scene node g t p v =
    let pick = λ (id : ℕ). if-IsCapped scene.brightness (scene.effect == id) in
    pick effect_off _ _ (black-IsCapped _) (
      pick effect_solid _ _ (solid-IsCapped scene v) (
        pick effect_rainbow _ _ (rainbow-IsCapped scene v node g t) (
          pick effect_fibonacci _ _ (fibonacci-IsCapped scene v node g t) (
            pick effect_aurora_breathe _ _ (aurora-IsCapped scene v g t p) (
              pick effect_comet _ _ (comet-IsCapped scene v node g t) (
                pick effect_theater_chase _ _ (chase-IsCapped scene v g t) (
                  pick effect_palette_cycle _ _ (palette_cycle-IsCapped scene v node g t p) (
                    pick effect_twinkle _ _ (twinkle-IsCapped scene v g t) (
                      pick effect_ocean_drift _ _ (ocean_drift-IsCapped scene v node g t p) (
                        pick effect_color_wave _ _ (color_wave-IsCapped scene v node g t p) (
                          pick effect_pulse_reveal _ _ (pulse_reveal-IsCapped scene v node g t p) (
                            pick effect_celebration _ _ (celebration-IsCapped scene v g t p) (
                              pick effect_identify _ _ (identify-IsCapped scene v node g t) (
                                pick effect_tidal_surge _ _
                                  (tidal_surge-IsCapped scene v node g t p)
                                  (pick effect_party_confetti _ _ (confetti-IsCapped scene v g t p)
                                    (pick effect_champagne_toast _ _
                                      (champagne-IsCapped scene v g t p)
                                      (pick effect_independence _ _
                                        (independence-IsCapped scene v node g t p)
                                        (black-IsCapped _))))))))))))))))))
