-- ===== src/Color/Palettes.antt =====
-- `ColorFromPalette` of led_color.h.
use led_orchestra.Base.{
  ℕ, ◌+◌, ◌*◌, ◌%◌, ◌≤◌, ◌<◌, ◌≡◌, List, [], ◌∷◌, get_or, zero, suc, arith, inl, inr, ◌==◌, ==→eq,
  Bool-cases,
}
use led_orchestra.Base.Words.{u8, ◌>>>◌}
use led_orchestra.Color.{
  Crgb, black, CrgbPalette16, scale8, mix, blend, nscale8, color_from_palette,
}
use led_orchestra.Color.Channels.{scale8-le_scale}
use led_orchestra.Color.Blending.{IsColor, mix_between, blend_ends}

-- Every entry is a colour.
abbrev pub AreColors : List Crgb → Type 0
AreColors [] = Unit {0}
AreColors (c ∷ cs) = IsColor c × AreColors cs

black-IsColor : IsColor black
black-IsColor = omega arith

pub get_or-IsColor : (cs : List Crgb) (i : ℕ) → AreColors cs → IsColor (get_or cs i black)
get_or-IsColor [] i h = black-IsColor
get_or-IsColor (c ∷ cs) zero h = h.0
get_or-IsColor (c ∷ cs) (suc i) h = get_or-IsColor cs i h.1

pub mix-lt : (x y f : ℕ) → x < 256 → y < 256 → f < 256 → mix x y f < 256
mix-lt x y f hx hy hf = omega (arith, mix_between x y f hx hy hf)

pub blend-IsColor : (a b : Crgb) (f : ℕ) → IsColor a → IsColor b → f < 256 → IsColor (blend a b f)
unfolding blend
blend-IsColor a b f ha hb hf = record {
  r = mix-lt a.r b.r f ha.r hb.r hf;
  g = mix-lt a.g b.g f ha.g hb.g hf;
  b = mix-lt a.b b.b f ha.b hb.b hf;
}

pub nscale8-IsColor : (c : Crgb) (s : ℕ) → IsColor (nscale8 c s)
unfolding nscale8 scale8
nscale8-IsColor c s = omega arith

-- At a multiple of 16 and full brightness the palette answers with the entry itself.
pub color_from_palette_key :
    (pal : CrgbPalette16) (k : ℕ)
    → AreColors pal.entries
    → k < 16
    → color_from_palette pal (k * 16) 255 ≡ get_or pal.entries k black
unfolding color_from_palette
color_from_palette_key pal k h hk =
    let entry : u8 ((k * 16) >>> 4) ≡ k = omega arith in
    let fraction : u8 (u8 (k * 16 % 16) * 16) ≡ 0 = omega arith in
    rw (entry, fraction)
      (blend_ends _ _ (get_or-IsColor pal.entries k h)
        (get_or-IsColor pal.entries ((k + 1) % 16) h)).0

-- Every channel is a byte and at most the brightness.
abbrev pub DimmedTo : ℕ → Crgb → Type 0
DimmedTo s c = (c.r ≤ s) × (c.g ≤ s) × (c.b ≤ s)

pub nscale8-DimmedTo : (c : Crgb) (s : ℕ) → IsColor c → s < 256 → DimmedTo s (nscale8 c s)
unfolding nscale8
nscale8-DimmedTo c s h hs =
    (scale8-le_scale c.r s h.r hs, scale8-le_scale c.g s h.g hs, scale8-le_scale c.b s h.b hs)

IsColor-DimmedTo : (c : Crgb) → IsColor c → DimmedTo 255 c
IsColor-DimmedTo c h = omega arith

-- Whatever the index, a palette of colours answers with a colour no channel of which exceeds the
-- brightness asked for, if that is a byte.
pub color_from_palette-IsColor :
    (pal : CrgbPalette16) (index brightness : ℕ)
    → AreColors pal.entries
    → brightness < 256
    → IsColor (color_from_palette pal index brightness)
      × DimmedTo brightness (color_from_palette pal index brightness)
unfolding color_from_palette
color_from_palette-IsColor pal index brightness h hb =
    let c =
      blend (get_or pal.entries (u8 (index >>> 4)) black)
        (get_or pal.entries ((u8 (index >>> 4) + 1) % 16) black) (u8 (u8 (index % 16) * 16)) in
    let colored : IsColor c =
      blend-IsColor _ _ _ (get_or-IsColor pal.entries _ h) (get_or-IsColor pal.entries _ h)
        (omega arith) in
    elim (Bool-cases (brightness == 255)) [
      | inl e ↦ rw (e, ==→eq brightness 255 e) (colored, IsColor-DimmedTo c colored)
      | inr e ↦ rw e (nscale8-IsColor c brightness, nscale8-DimmedTo c brightness colored hb)
    ]
