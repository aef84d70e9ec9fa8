-- ===== src/Effects/Ceiling.antt =====
-- Colours under a ceiling: lemmas on scaling, blending, palettes and branches.
use led_orchestra.Base.{
  ℕ, ◌≤◌, ◌<◌, ◌≡◌, true, false, Bool, Option, none, some, refl, arith, if◌then◌else◌,
}
use led_orchestra.Color.{Crgb, CrgbPalette16, rgb, black, hsv, hsv_to_rgb, scale8, nscale8, blend}
use led_orchestra.Color.Channels.{scale8-le, scale8-le_scale}
use led_orchestra.Color.Hsv.{hsv_to_rgb-HasValue}
use led_orchestra.Color.Blending.{IsColor, mix_between}
use led_orchestra.Color.Palettes.{AreColors, nscale8-DimmedTo, color_from_palette-IsColor}
use led_orchestra.Scene.{Scene}
use led_orchestra.Effects.Palettes.{palette}
use led_orchestra.Effects.Coverage.{palette-AreColors}
use led_orchestra.Effects.Classic.{with_palette, scene_rgb}

-- A colour no channel of which exceeds `s`.
pub record IsCapped (s : ℕ) (c : Crgb) : Type 0 where
  pub r : c.r ≤ s
  pub g : c.g ≤ s
  pub b : c.b ≤ s

-- The colour and brightness of a scene are bytes.
pub record IsScene (scene : Scene) : Type 0 where
  pub red : scene.red < 256
  pub green : scene.green < 256
  pub blue : scene.blue < 256
  pub brightness : scene.brightness < 256

pub IsCapped-mono : (s t : ℕ) (c : Crgb) → s ≤ t → IsCapped s c → IsCapped t c
IsCapped-mono s t c h k = omega arith

pub black-IsCapped : (s : ℕ) → IsCapped s black
black-IsCapped s = omega arith

pub nscale8-IsCapped : (c : Crgb) (s : ℕ) → IsColor c → s < 256 → IsCapped s (nscale8 c s)
nscale8-IsCapped c s h hs = let d = nscale8-DimmedTo c s h hs in omega arith

pub hsv-IsCapped : (h s v : ℕ) → v < 256 → IsCapped v (hsv_to_rgb (hsv h s v))
hsv-IsCapped h s v hv = let d = hsv_to_rgb-HasValue h s v hv in omega arith

pub capped-IsColor : (s : ℕ) (c : Crgb) → s < 256 → IsCapped s c → IsColor c
capped-IsColor s c h k = omega arith

-- A blend of two capped colours is capped.
blend-IsCapped :
    (s : ℕ) (a b : Crgb) (f : ℕ)
    → s < 256
    → f < 256
    → IsCapped s a
    → IsCapped s b
    → IsCapped s (blend a b f)
unfolding blend
blend-IsCapped s a b f hs hf ha hb = record {
  r = omega (arith, mix_between a.r b.r f (omega arith) (omega arith) hf);
  g = omega (arith, mix_between a.g b.g f (omega arith) (omega arith) hf);
  b = omega (arith, mix_between a.b b.b f (omega arith) (omega arith) hf);
}

option-IsCapped :
    (s : ℕ) (o : Option CrgbPalette16) (index level : ℕ) (other : Crgb)
    → ((pal : CrgbPalette16) → o ≡ some pal → AreColors pal.entries)
    → level < 256
    → level ≤ s
    → IsCapped s other
    → IsCapped s (with_palette o index level other)
option-IsCapped s none index level other colors hl hs ho = ho
option-IsCapped s (some pal) index level other colors hl hs ho =
    let d = (color_from_palette-IsColor pal index level (colors pal refl) hl).1 in omega arith

pub option-IsColor :
    (o : Option CrgbPalette16) (index level : ℕ) (other : Crgb)
    → ((pal : CrgbPalette16) → o ≡ some pal → AreColors pal.entries)
    → level < 256
    → IsColor other
    → IsColor (with_palette o index level other)
option-IsColor none index level other colors hl ho = ho
option-IsColor (some pal) index level other colors hl ho =
    (color_from_palette-IsColor pal index level (colors pal refl) hl).0

pub if-IsCapped :
    (s : ℕ) (test : Bool) (c d : Crgb)
    → IsCapped s c
    → IsCapped s d
    → IsCapped s (if test then c else d)
if-IsCapped s true c d hc hd = hc
if-IsCapped s false c d hc hd = hd

pub if_le : (s : ℕ) (test : Bool) (x y : ℕ) → x ≤ s → y ≤ s → (if test then x else y) ≤ s
if_le s true x y hx hy = hx
if_le s false x y hx hy = hy

pub grey-IsCapped : (s l : ℕ) → l ≤ s → IsCapped s (rgb l l l)
grey-IsCapped s l h = record { r = h; g = h; b = h }

pub full_hue-IsColor : (h : ℕ) → IsColor (hsv_to_rgb (hsv h 255 255))
full_hue-IsColor h = capped-IsColor 255 _ (omega arith) (hsv-IsCapped h 255 255 (omega arith))

module _ (scene : Scene) (v : IsScene scene) where
  pub scene_rgb-IsColor : IsColor (scene_rgb scene)
  scene_rgb-IsColor = omega arith

  -- A level scaled by the brightness, on either side.
  pub level_le : (x : ℕ) → x < 256 → scale8 x scene.brightness ≤ scene.brightness
  level_le x h = scale8-le_scale x scene.brightness h v.brightness

  pub share_le : (x : ℕ) → x < 256 → scale8 scene.brightness x ≤ scene.brightness
  share_le x h = scale8-le scene.brightness x v.brightness h

  pub scaled-IsCapped :
      (c : Crgb) → IsColor c → IsCapped scene.brightness (nscale8 c scene.brightness)
  scaled-IsCapped c h = nscale8-IsCapped c scene.brightness h v.brightness

  pub levelled-IsCapped :
      (c : Crgb) (l : ℕ)
      → IsColor c
      → l ≤ scene.brightness
      → IsCapped scene.brightness (nscale8 c l)
  levelled-IsCapped c l h k =
      let bound = v.brightness in IsCapped-mono l _ _ k (nscale8-IsCapped c l h (omega arith))

  -- A palette, or another colour, under a level within the brightness.
  pub palette-IsCapped :
      (ref index level : ℕ) (other : Crgb)
      → level ≤ scene.brightness
      → IsCapped scene.brightness other
      → IsCapped scene.brightness (with_palette (palette ref) index level other)
  palette-IsCapped ref index level other h =
      let bound = v.brightness in
      option-IsCapped scene.brightness (palette ref) index level other (palette-AreColors ref)
        (omega arith) h

  pub blended-IsCapped :
      (c d : Crgb) (f : ℕ)
      → f < 256
      → IsCapped scene.brightness c
      → IsCapped scene.brightness d
      → IsCapped scene.brightness (blend c d f)
  blended-IsCapped c d f h = blend-IsCapped scene.brightness c d f v.brightness h
