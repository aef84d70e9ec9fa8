-- ===== src/Color/Hsv.antt =====
-- `hsv_to_rgb` of led_color.h.
use led_orchestra.Base.{ℕ, ◌-◌, ◌*◌, ◌/◌, ◌≤◌, ◌<◌, ◌≡◌, ◌⊎◌, arith}
use led_orchestra.Base.Words.{u8}
use led_orchestra.Color.{Crgb, rgb, hsv, hsv_to_rgb, scale8, rainbow_region}
use led_orchestra.Color.Channels.{scale8-le, scale8_full}

-- Each channel is at most `v`, and one of them is `v`.
abbrev pub HasValue : ℕ → Crgb → Type 0
HasValue v c = ((c.r ≤ v) × (c.g ≤ v) × (c.b ≤ v)) × ((c.r ≡ v) ⊎ ((c.g ≡ v) ⊎ (c.b ≡ v)))

region-HasValue :
    (region v p q t : ℕ) → p ≤ v → q ≤ v → t ≤ v → HasValue v (rainbow_region region v p q t)
region-HasValue region v p q t hp hq ht = ground arith

-- For a value that is a byte, it is the largest channel of the converted colour.
pub hsv_to_rgb-HasValue : (h s v : ℕ) → v < 256 → HasValue v (hsv_to_rgb (hsv h s v))
unfolding hsv_to_rgb
hsv_to_rgb-HasValue h s v hv =
    region-HasValue (h / 43) v _ _ _ (scale8-le v _ hv (omega arith))
      (scale8-le v _ hv (omega arith)) (scale8-le v _ hv (omega arith))

scale8_keep : (v x : ℕ) → v < 256 → x ≡ 0 → scale8 v (u8 (255 - x)) ≡ v
scale8_keep v x hv e = rw e (scale8_full v hv)

region_grey : (region v : ℕ) → rainbow_region region v v v v ≡ rgb v v v
region_grey region v = ground arith

zero-scale8 : (s : ℕ) → scale8 0 s ≡ 0
unfolding scale8
zero-scale8 s = omega arith

-- Without saturation every hue converts to the grey of the value.
pub hsv_to_rgb_grey : (h v : ℕ) → v < 256 → hsv_to_rgb (hsv h 0 v) ≡ rgb v v v
unfolding hsv_to_rgb
hsv_to_rgb_grey h v hv =
    rw
      (
        zero-scale8 (u8 ((h - h / 43 * 43) * 6)),
        zero-scale8 (u8 (255 - u8 ((h - h / 43 * 43) * 6))),
      )
      (rw (scale8_full v hv) (region_grey (h / 43) v))
