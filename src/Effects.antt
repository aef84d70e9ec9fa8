-- ===== src/Effects.antt =====
-- matter-prototype/led-node/main/led_orchestra_effects.cpp: `led_orchestra_render_effect`. The children
-- hold the registries, the shared helpers and the effects, and the proofs about all effects at once.
pub mod Palettes
pub mod Registry
pub mod Field
pub mod Classic
pub mod Ambient
pub mod Party
pub mod Seamless
pub mod Coverage
pub mod Ceiling
pub mod Brightness
pub mod Sparkle
use led_orchestra.Base.{ℕ, ◌==◌, if◌then◌else◌}
use led_orchestra.Color.{Crgb, black}
use led_orchestra.Scene.{Scene, NodeConfig}
use Classic.{
  render_solid, render_rainbow, render_fibonacci, render_aurora_breathe, render_comet,
  render_theater_chase, render_palette_cycle, render_twinkle,
}
use Ambient.{
  render_ocean_drift, render_color_wave, render_pulse_reveal, render_celebration, render_identify,
  render_tidal_surge,
}
use Party.{render_party_confetti, render_champagne_toast, render_independence}
use Registry.{
  effect_off, effect_solid, effect_rainbow, effect_fibonacci, effect_aurora_breathe, effect_comet,
  effect_theater_chase, effect_palette_cycle, effect_twinkle, effect_ocean_drift, effect_color_wave,
  effect_pulse_reveal, effect_celebration, effect_identify, effect_tidal_surge,
  effect_party_confetti, effect_champagne_toast, effect_independence,
}

-- The `switch` on the effect id.
unfoldable pub render_effect : Scene → NodeConfig → ℕ → ℕ → ℕ → Crgb
render_effect scene node global_index time_ms palette_ref =
    let id = scene.effect in
    if id == effect_off
    then black
    else if id == effect_solid
    then render_solid scene
    else if id == effect_rainbow
    then render_rainbow scene node global_index time_ms
    else if id == effect_fibonacci
    then render_fibonacci scene node global_index time_ms
    else if id == effect_aurora_breathe
    then render_aurora_breathe scene global_index time_ms palette_ref
    else if id == effect_comet
    then render_comet scene node global_index time_ms
    else if id == effect_theater_chase
    then render_theater_chase scene global_index time_ms
    else if id == effect_palette_cycle
    then render_palette_cycle scene node global_index time_ms palette_ref
    else if id == effect_twinkle
    then render_twinkle scene global_index time_ms
    else if id == effect_ocean_drift
    then render_ocean_drift scene node global_index time_ms palette_ref
    else if id == effect_color_wave
    then render_color_wave scene node global_index time_ms palette_ref
    else if id == effect_pulse_reveal
    then render_pulse_reveal scene node global_index time_ms palette_ref
    else if id == effect_celebration
    then render_celebration scene global_index time_ms palette_ref
    else if id == effect_identify
    then render_identify scene node global_index time_ms
    else if id == effect_tidal_surge
    then render_tidal_surge scene node global_index time_ms palette_ref
    else if id == effect_party_confetti
    then render_party_confetti scene global_index time_ms palette_ref
    else if id == effect_champagne_toast
    then render_champagne_toast scene global_index time_ms palette_ref
    else if id == effect_independence
    then render_independence scene node global_index time_ms palette_ref
    else black
