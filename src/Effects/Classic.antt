-- ===== src/Effects/Classic.antt =====
-- led_orchestra_effects.cpp: the colour, hue and table driven effects, from `render_solid` to
-- `render_palette_cycle`, and `render_twinkle`. Arithmetic on `time_ms` is `uint64_t`.
use Prim.Native.Nat.{max, bit_xor}
use led_orchestra.Base.{
  Option, none, some, ℕ, ◌+◌, ◌-◌, ◌*◌, ◌/◌, ◌%◌, not, none, some, [], ◌∷◌, ltb, ◌==◌,
  if◌then◌else◌, get_or,
}
use led_orchestra.Base.Words.{u8, u16, u32, u64}
use led_orchestra.Color.{
  Crgb, CrgbPalette16, rgb, black, hsv, hsv_to_rgb, nscale8, scale8, ease8, triangle8,
  color_from_palette,
}
use led_orchestra.Scene.{Scene, NodeConfig}
use led_orchestra.Effects.Palettes.{palette}
use led_orchestra.Effects.Field.{fib_mod256, hash8, ring_distance}

-- `std::max<uint8_t>(scene.speed, 1)`.
abbrev pub speed_of : Scene → ℕ
speed_of scene = max scene.speed 1

-- `std::max<uint16_t>(node.total_leds, 1)`.
abbrev pub strip_len_of : NodeConfig → ℕ
strip_len_of node = max node.total_leds 1

-- `(time_ms * speed) / d`.
abbrev pub ticks : ℕ → ℕ → ℕ → ℕ
ticks time_ms speed d = u64 (time_ms * speed) / d

-- `led_orchestra_palette` and what follows it: the palette's colour if there is one, and `other` if
-- there is none.
abbrev pub with_palette : Option CrgbPalette16 → ℕ → ℕ → Crgb → Crgb
with_palette none index level other = other
with_palette (some pal) index level other = color_from_palette pal index level

abbrev pub scene_rgb : Scene → Crgb
scene_rgb scene = rgb scene.red scene.green scene.blue

unfoldable pub render_solid : Scene → Crgb
render_solid scene = nscale8 (scene_rgb scene) scene.brightness

unfoldable pub render_rainbow : Scene → NodeConfig → ℕ → ℕ → Crgb
render_rainbow scene node global_index time_ms =
    let time_hue = u32 (ticks time_ms (speed_of scene) 20) in
    let pos_hue = u32 (global_index * 256) / strip_len_of node in
    nscale8 (hsv_to_rgb (hsv (u8 (u32 (time_hue + pos_hue))) 255 255)) scene.brightness

-- `channels[i]`.
unfoldable pub channel : ℕ → ℕ → ℕ
channel fib_base i =
    get_or (fib_mod256 fib_base ∷ fib_mod256 (fib_base + 1) ∷ fib_mod256 (fib_base + 2) ∷ []) i 0

unfoldable pub render_fibonacci : Scene → NodeConfig → ℕ → ℕ → Crgb
render_fibonacci scene node global_index time_ms =
    let scroll = if scene.speed == 0 then 0 else u32 (ticks time_ms scene.speed 10000) in
    let drift = scroll / 5 in
    let pos = u32 (global_index + scroll + drift) % strip_len_of node in
    let gobacks = pos / 11 in
    let fib_base = pos - gobacks * 2 in
    let rgb_shift = u8 (gobacks % 3) in
    nscale8
      (rgb (channel fib_base (rgb_shift % 3)) (channel fib_base ((rgb_shift + 1) % 3))
        (channel fib_base ((rgb_shift + 2) % 3)))
      scene.brightness

-- The triangle-wave colour that stands in for a missing palette.
abbrev pub aurora_fallback : ℕ → ℕ → ℕ
aurora_fallback phase breath = scale8 (u8 (64 + scale8 (triangle8 phase) 191)) breath

unfoldable pub render_aurora_breathe : Scene → ℕ → ℕ → ℕ → Crgb
render_aurora_breathe scene global_index time_ms palette_ref =
    let phase = u8 (u64 (ticks time_ms (speed_of scene) 35 + global_index * 4)) in
    let breath_phase = u8 (u64 (ticks time_ms (speed_of scene) 80 + global_index * 2)) in
    let breath = u8 (96 + scale8 (triangle8 breath_phase) 159) in
    let fallback =
      rgb (aurora_fallback phase breath) (aurora_fallback (u8 (phase + 85)) breath)
        (aurora_fallback (u8 (phase + 170)) breath) in
    nscale8 (with_palette (palette palette_ref) phase breath fallback) scene.brightness

unfoldable pub render_comet : Scene → NodeConfig → ℕ → ℕ → Crgb
render_comet scene node global_index time_ms =
    let strip_len = strip_len_of node in
    let head = u16 (ticks time_ms (speed_of scene) 8000 % strip_len) in
    let pos = u16 (global_index % strip_len) in
    let dist = ring_distance pos head strip_len in
    let tail = u8 (255 - dist * 28) in
    let level = scale8 (ease8 tail) scene.brightness in
    if ltb 8 dist then black else nscale8 (scene_rgb scene) level

unfoldable pub render_theater_chase : Scene → ℕ → ℕ → Crgb
render_theater_chase scene global_index time_ms =
    let phase = u8 (ticks time_ms (speed_of scene) 1200 % 3) in
    if not ((global_index + phase) % 3 == 0)
    then black
    else nscale8 (scene_rgb scene) scene.brightness

unfoldable pub render_palette_cycle : Scene → NodeConfig → ℕ → ℕ → ℕ → Crgb
render_palette_cycle scene node global_index time_ms palette_ref =
    let pos = u32 (global_index * 256) / strip_len_of node in
    let index = u8 (u64 (pos + ticks time_ms (speed_of scene) 45)) in
    with_palette (palette palette_ref) index scene.brightness black

-- The pixel seed of an effect: the index times an odd constant, mixed with the sequence.
abbrev pub pixel_seed : ℕ → ℕ → ℕ → ℕ
pixel_seed global_index factor key = hash8 (bit_xor (u32 (global_index * factor)) key)

unfoldable pub render_twinkle : Scene → ℕ → ℕ → Crgb
render_twinkle scene global_index time_ms =
    let seed = pixel_seed global_index 0x45d9f3b scene.sequence in
    let phase = u8 (u64 (ticks time_ms (speed_of scene) 24 + seed)) in
    let level = scale8 (ease8 (triangle8 phase)) scene.brightness in
    if not (seed % 8 == 0) then black else nscale8 (scene_rgb scene) level
