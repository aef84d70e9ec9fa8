-- ===== src/Color.antt =====
-- matter-prototype/led-node/main/led_color.h with the default backend (CONFIG_LED_ORCHESTRA_USE_FASTLED
-- off): the 8-bit colour arithmetic, HSV conversion, blending and palettes. A `uint8_t` is a number
-- below 256; the casts that the source writes are `u8`, and products are formed in `int` or
-- `uint16_t`, where they fit.
pub mod Channels
pub mod Waves
pub mod Blending
pub mod Hsv
pub mod Palettes
pub mod Policy
use Prim.Native.Nat.{bit_and}
use led_orchestra.Base.{
  ℕ, ◌+◌, ◌-◌, ◌*◌, ◌/◌, ◌%◌, Bool, ◌&&◌, not, List, ltb, ◌==◌, if◌then◌else◌, get_or,
}
use led_orchestra.Base.Words.{u8, ◌>>>◌}

unfoldable pub scale8 : ℕ → ℕ → ℕ
scale8 i scale = u8 ((i * (scale + 1)) >>> 8)

unfoldable pub scale8_video : ℕ → ℕ → ℕ
scale8_video i scale =
    let j = u8 ((i * scale) >>> 8) in if not (i == 0) && not (scale == 0) then u8 (j + 1) else j

unfoldable pub qadd8 : ℕ → ℕ → ℕ
qadd8 a b = let sum = a + b in if ltb 255 sum then 255 else u8 sum

unfoldable pub qsub8 : ℕ → ℕ → ℕ
qsub8 a b = if ltb b a then u8 (a - b) else 0

unfoldable pub triangle8 : ℕ → ℕ
triangle8 x = if ltb x 128 then u8 (x * 2) else u8 ((255 - x) * 2)

-- `i & 0x80`, as a condition.
abbrev pub has_bits : ℕ → ℕ → Bool
has_bits x mask = not (bit_and x mask == 0)

unfoldable pub ease8 : ℕ → ℕ
unfolding scale8
ease8 i =
    let j = if has_bits i 0x80 then u8 (255 - i) else i in
    let jj = scale8 j j in let jj2 = u8 (jj * 2) in if has_bits i 0x80 then u8 (255 - jj2) else jj2

unfoldable pub sin8 : ℕ → ℕ
unfolding ease8 scale8
sin8 theta =
    let offset = if has_bits theta 0x40 then u8 (255 - (theta - 1)) else theta in
    let t = u8 (bit_and offset 0x7F * 2) in
    let y = scale8 (ease8 t) 255 in
    if has_bits theta 0x80
    then u8 (128 - y / 2 - (if ltb 128 (y / 2) then 128 else 0))
    else u8 (128 + y / 2)

unfoldable pub cos8 : ℕ → ℕ
cos8 theta = sin8 (u8 (theta + 64))

pub record Crgb : Type 0 where
  pub r : ℕ
  pub g : ℕ
  pub b : ℕ

abbrev pub rgb : ℕ → ℕ → ℕ → Crgb
rgb red green blue = record { r = red; g = green; b = blue }

abbrev pub black : Crgb
black = rgb 0 0 0

unfoldable pub nscale8 : Crgb → ℕ → Crgb
nscale8 c s = rgb (scale8 c.r s) (scale8 c.g s) (scale8 c.b s)

pub record Chsv : Type 0 where
  pub h : ℕ
  pub s : ℕ
  pub v : ℕ

abbrev pub hsv : ℕ → ℕ → ℕ → Chsv
hsv hue sat val = record { h = hue; s = sat; v = val }

-- The `switch (region)` of `hsv_to_rgb`.
abbrev pub rainbow_region : ℕ → ℕ → ℕ → ℕ → ℕ → Crgb
rainbow_region region val p q t =
    if region == 0
    then rgb val t p
    else if region == 1
    then rgb q val p
    else if region == 2
    then rgb p val t
    else if region == 3
    then rgb p q val
    else if region == 4
    then rgb t p val
    else rgb val p q

unfoldable pub hsv_to_rgb : Chsv → Crgb
hsv_to_rgb c =
    let region = c.h / 43 in
    let remainder = u8 ((c.h - region * 43) * 6) in
    let p = scale8 c.v (u8 (255 - c.s)) in
    let q = scale8 c.v (u8 (255 - scale8 c.s remainder)) in
    let t = scale8 c.v (u8 (255 - scale8 c.s (u8 (255 - remainder)))) in
    rainbow_region region c.v p q t

-- The lambda `mix` of `blend`.
unfoldable pub mix : ℕ → ℕ → ℕ → ℕ
mix x y f = u8 (scale8 x (u8 (255 - f)) + scale8 y f)

unfoldable pub blend : Crgb → Crgb → ℕ → Crgb
blend a b frac = rgb (mix a.r b.r frac) (mix a.g b.g frac) (mix a.b b.b frac)

unfoldable pub nblend : Crgb → Crgb → ℕ → Crgb
nblend base overlay frac = blend base overlay frac

-- `entries[16]`; `color_from_palette` reads it at `hi` and `(hi + 1) & 0x0F`, both below 16.
pub record CrgbPalette16 : Type 0 where
  pub entries : List Crgb

-- `i * 16` is `i << 4`, and `i % 16` is `i & 0x0F`.
unfoldable pub color_from_palette : CrgbPalette16 → ℕ → ℕ → Crgb
color_from_palette pal index brightness =
    let hi = u8 (index >>> 4) in
    let lo = u8 (index % 16) in
    let frac = u8 (lo * 16) in
    let a = get_or pal.entries hi black in
    let b = get_or pal.entries ((hi + 1) % 16) black in
    let c = blend a b frac in if brightness == 255 then c else nscale8 c brightness
