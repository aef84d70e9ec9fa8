-- ===== src/Effects/Seamless.antt =====
-- What of a node the effects of led_orchestra_effects.cpp depend on.
use led_orchestra.Base.{ℕ, ◌≡◌, ◌≢◌, refl, inl, inr, ◌==◌, Bool-cases, ==→eq}
use led_orchestra.Scene.{Scene, NodeConfig}
use led_orchestra.Effects.{render_effect}
use led_orchestra.Effects.Registry.{effect_identify}
use led_orchestra.Effects.Classic.{
  render_rainbow, render_fibonacci, render_comet, render_palette_cycle,
}
use led_orchestra.Effects.Ambient.{
  render_ocean_drift, render_color_wave, render_pulse_reveal, render_tidal_surge,
}
use led_orchestra.Effects.Party.{render_independence}

module _ (scene : Scene) (n m : NodeConfig) (g t p : ℕ) (same : n.total_leds ≡ m.total_leds) where
  rainbow_same : render_rainbow scene n g t ≡ render_rainbow scene m g t
  unfolding render_rainbow
  rainbow_same = rw same

  fibonacci_same : render_fibonacci scene n g t ≡ render_fibonacci scene m g t
  unfolding render_fibonacci
  fibonacci_same = rw same

  comet_same : render_comet scene n g t ≡ render_comet scene m g t
  unfolding render_comet
  comet_same = rw same

  palette_cycle_same : render_palette_cycle scene n g t p ≡ render_palette_cycle scene m g t p
  unfolding render_palette_cycle
  palette_cycle_same = rw same

  ocean_drift_same : render_ocean_drift scene n g t p ≡ render_ocean_drift scene m g t p
  unfolding render_ocean_drift
  ocean_drift_same = refl

  color_wave_same : render_color_wave scene n g t p ≡ render_color_wave scene m g t p
  unfolding render_color_wave
  color_wave_same = rw same

  pulse_reveal_same : render_pulse_reveal scene n g t p ≡ render_pulse_reveal scene m g t p
  unfolding render_pulse_reveal
  pulse_reveal_same = rw same

  tidal_surge_same : render_tidal_surge scene n g t p ≡ render_tidal_surge scene m g t p
  unfolding render_tidal_surge
  tidal_surge_same = rw same

  independence_same : render_independence scene n g t p ≡ render_independence scene m g t p
  unfolding render_independence
  independence_same = rw same

  -- Two nodes that agree on the length of the strip draw the same colour at the same global index,
  -- wherever their segments lie, for every effect but `identify`.
  pub render_effect_seamless :
      scene.effect ≢ effect_identify → render_effect scene n g t p ≡ render_effect scene m g t p
  unfolding render_effect
  render_effect_seamless ne = elim (Bool-cases (scene.effect == effect_identify)) [
    | inl e ↦ absurd (ne (==→eq _ _ e))
    | inr e ↦
        rw
          (
            e, rainbow_same, fibonacci_same, comet_same, palette_cycle_same, ocean_drift_same,
            color_wave_same, pulse_reveal_same, tidal_surge_same, independence_same,
          )
          refl
  ]
