-- ===== src/Effects/Party.antt =====
-- led_orchestra_effects.cpp: `render_party_confetti`, `render_champagne_toast` and
-- `render_independence`.
use led_orchestra.Base.{ℕ, ◌+◌, ◌-◌, ◌*◌, ◌/◌, ◌%◌, not, leb, ◌==◌, if◌then◌else◌}
use led_orchestra.Base.Words.{u8, u16, u32, u64, ◌>>>◌}
use led_orchestra.Color.{Crgb, rgb, hsv, hsv_to_rgb, nscale8, scale8, ease8, triangle8, sin8, blend}
use led_orchestra.Scene.{Scene, NodeConfig}
use led_orchestra.Effects.Palettes.{palette}
use led_orchestra.Effects.Classic.{speed_of, strip_len_of, ticks, pixel_seed, with_palette}

unfoldable pub render_party_confetti : Scene → ℕ → ℕ → ℕ → Crgb
render_party_confetti scene global_index time_ms palette_ref =
    let speed = speed_of scene in
    let seed = pixel_seed global_index 0xA511E9B3 (u32 (scene.sequence * 17)) in
    let phase = u8 (u64 (ticks time_ms speed 16 + seed)) in
    let burst = ease8 (triangle8 phase) in
    let active = u64 (ticks time_ms speed 180 + (seed >>> 5)) % 4 == 0 in
    let pal = palette palette_ref in
    let base_level = scale8 scene.brightness 26 in
    let base =
      with_palette pal (u8 (seed + global_index * 7)) base_level
        (hsv_to_rgb (hsv (u8 (seed + global_index * 5)) 255 base_level)) in
    let flash_level = scale8 scene.brightness burst in
    let flash =
      with_palette pal (u8 (u64 (seed + ticks time_ms speed 9))) flash_level
        (hsv_to_rgb (hsv (u8 (seed + phase)) 255 flash_level)) in
    if not active then base else blend base flash burst

unfoldable pub render_champagne_toast : Scene → ℕ → ℕ → ℕ → Crgb
render_champagne_toast scene global_index time_ms palette_ref =
    let speed = speed_of scene in
    let glow = sin8 (u8 (u64 (ticks time_ms speed 55 + global_index * 5))) in
    let sparkle_seed = pixel_seed global_index 0x27d4eb2d scene.sequence in
    let sparkle_wave = sin8 (u8 (u64 (ticks time_ms speed 26 + sparkle_seed))) in
    let base_level = scale8 (u8 (96 + (glow >>> 1))) scene.brightness in
    let pal = palette palette_ref in
    let base =
      with_palette pal (u8 (64 + (glow >>> 1))) base_level
        (rgb base_level (scale8 base_level 86) (scale8 base_level 72)) in
    let glint = u8 ((sparkle_wave - 220) * 255 / 35) in
    let sparkle_level = scale8 scene.brightness glint in
    let sparkle =
      with_palette pal 244 sparkle_level
        (rgb sparkle_level (scale8 sparkle_level 235) (scale8 sparkle_level 210)) in
    if leb sparkle_wave 220 then base else blend base sparkle glint

-- The colours of the three stripes without a palette.
unfoldable pub stripe_color : ℕ → Crgb
stripe_color stripe =
    if stripe == 0 then rgb 30 70 220 else if stripe == 1 then rgb 255 255 255 else rgb 220 20 38

unfoldable pub render_independence : Scene → NodeConfig → ℕ → ℕ → ℕ → Crgb
render_independence scene node global_index time_ms palette_ref =
    let strip_len = strip_len_of node in
    let speed = speed_of scene in
    let scroll = u16 (ticks time_ms speed 1800 % strip_len) in
    let pos = u16 ((global_index + scroll) % strip_len) in
    let stripe = u8 (pos / 6 % 3) in
    let shimmer = u8 (210 + (sin8 (u8 (u64 (ticks time_ms speed 48 + pos * 5))) >>> 3)) in
    let palette_index = if stripe == 0 then 24 else if stripe == 1 then 72 else 136 in
    let level = scale8 scene.brightness shimmer in
    let base =
      with_palette (palette palette_ref) palette_index level
        (nscale8 (stripe_color stripe) level) in
    let seed = pixel_seed global_index 0x9e3779b1 (u32 (scene.sequence * 29)) in
    let star_phase = u8 (u64 (ticks time_ms speed 22 + seed)) in
    let star_wave = ease8 (triangle8 star_phase) in
    let glint = u8 ((star_wave - 190) * 255 / 65) in
    let star_level = scale8 scene.brightness glint in
    if not (seed % 16 == 0)
    then base
    else if leb star_wave 190
    then base
    else blend base (rgb star_level star_level star_level) glint
