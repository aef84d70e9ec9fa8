-- ===== src/Effects/Ambient.antt =====
-- led_orchestra_effects.cpp: the installation effects, from `render_ocean_drift` to
-- `render_tidal_surge`. A subtraction on `uint64_t` that may wrap is `sub64`.
use led_orchestra.Base.{
  ℕ, ◌+◌, ◌-◌, ◌*◌, ◌/◌, ◌%◌, ◌^◌, Bool, not, ◌&&◌, ◌||◌, ltb, leb, ◌==◌, if◌then◌else◌,
}
use led_orchestra.Base.Words.{u8, u16, u32, u64, sub64, ◌>>>◌}
use led_orchestra.Color.{Crgb, rgb, black, hsv, hsv_to_rgb, nscale8, scale8, ease8, sin8, blend}
use led_orchestra.Scene.{Scene, NodeConfig}
use led_orchestra.Effects.Palettes.{palette}
use led_orchestra.Effects.Field.{hash8, ring_distance}
use led_orchestra.Effects.Classic.{speed_of, strip_len_of, ticks, pixel_seed, with_palette}

unfoldable pub render_ocean_drift : Scene → NodeConfig → ℕ → ℕ → ℕ → Crgb
render_ocean_drift scene node global_index time_ms palette_ref =
    let speed = speed_of scene in
    let a = sin8 (u8 (u64 (global_index * 6 + ticks time_ms speed 120))) in
    let b = sin8 (u8 (u64 (sub64 (global_index * 3) (ticks time_ms speed 200) + 64))) in
    let index = u8 ((a >>> 1) + (b >>> 1)) in
    with_palette (palette palette_ref) index scene.brightness
      (nscale8 (rgb 0 (u8 (40 + (index >>> 2))) (u8 (80 + (index >>> 1)))) scene.brightness)

unfoldable pub render_color_wave : Scene → NodeConfig → ℕ → ℕ → ℕ → Crgb
render_color_wave scene node global_index time_ms palette_ref =
    let pos = u8 (u32 (global_index * 255) / strip_len_of node) in
    let crest = sin8 (u8 (sub64 pos (ticks time_ms (speed_of scene) 60))) in
    let level = scale8 (ease8 crest) scene.brightness in
    with_palette (palette palette_ref) pos level (nscale8 (hsv_to_rgb (hsv pos 255 255)) level)

unfoldable pub render_pulse_reveal : Scene → NodeConfig → ℕ → ℕ → ℕ → Crgb
render_pulse_reveal scene node global_index time_ms palette_ref =
    let strip_len = strip_len_of node in
    let pos = u16 (global_index % strip_len) in
    let head = u16 (ticks time_ms (speed_of scene) 5000 % strip_len) in
    let width = u16 (strip_len / 8 + 2) in
    let dist = ring_distance pos head strip_len in
    let base_index = u8 (u32 (pos * 255) / strip_len) in
    let pal = palette palette_ref in
    let color = with_palette pal base_index (scale8 40 scene.brightness) black in
    let t = u8 (255 - dist * 255 / width) in
    let lvl = scale8 (ease8 t) scene.brightness in
    let peak = with_palette pal (u8 (base_index + 128)) lvl (rgb lvl lvl lvl) in
    if leb dist width then blend color peak (ease8 t) else color

unfoldable pub render_celebration : Scene → ℕ → ℕ → ℕ → Crgb
render_celebration scene global_index time_ms palette_ref =
    let speed = speed_of scene in
    let seed = pixel_seed global_index 0x9E3779B1 scene.sequence in
    let shimmer = sin8 (u8 (u64 (ticks time_ms speed 20 + seed))) in
    let index = u8 (u64 (seed + ticks time_ms speed 30)) in
    let level = scale8 (ease8 shimmer) scene.brightness in
    with_palette (palette palette_ref) index level (nscale8 (rgb 255 200 60) level)

-- The first or the last pixel of the node's own segment.
abbrev pub is_segment_end : NodeConfig → ℕ → Bool
is_segment_end node global_index =
    let local = u16 (global_index + 2 ^ 16 - node.segment_start) in
    ltb 0 node.segment_len && (local == 0 || local == u16 (node.segment_len - 1))

unfoldable pub render_identify : Scene → NodeConfig → ℕ → ℕ → Crgb
render_identify scene node global_index time_ms =
    let hue = hash8 (u32 (node.node_id * 2654435761)) in
    let on = not (time_ms / 500 % 2 == 0) in
    let level = if on then scene.brightness else scale8 scene.brightness 40 in
    if is_segment_end node global_index
    then rgb level level level
    else nscale8 (hsv_to_rgb (hsv hue 255 255)) level

unfoldable pub render_tidal_surge : Scene → NodeConfig → ℕ → ℕ → ℕ → Crgb
render_tidal_surge scene node global_index time_ms palette_ref =
    let speed = speed_of scene in
    let pos = u8 (u32 (global_index * 255) / strip_len_of node) in
    let swell = sin8 (u8 (u64 (pos + ticks time_ms speed 90))) in
    let undertow = sin8 (u8 (u64 (sub64 (pos * 3) (ticks time_ms speed 170) + 96))) in
    let foam = sin8 (u8 (sub64 (pos * 5) (ticks time_ms speed 28))) in
    let index = u8 (scale8 swell 160 + scale8 undertow 95) in
    let base_level = scale8 (u8 (96 + (undertow >>> 2))) scene.brightness in
    let pal = palette palette_ref in
    let base =
      with_palette pal index base_level
        (nscale8 (rgb 0 (u8 (28 + (swell >>> 3))) (u8 (74 + (swell >>> 2)))) scene.brightness) in
    let whitecap = u8 ((foam - 180) * 255 / 75) in
    let cap_level = scale8 scene.brightness whitecap in
    let crest = with_palette pal 248 cap_level (rgb cap_level cap_level cap_level) in
    if leb foam 180 then base else blend base crest whitecap
