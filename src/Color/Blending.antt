-- ===== src/Color/Blending.antt =====
-- Mixing and blending of led_color.h.
use Prim.Native.Nat.{min, max}
use led_orchestra.Base.{ℕ, ◌+◌, ◌-◌, ◌*◌, ◌/◌, ◌≤◌, ◌<◌, ◌≡◌, ap, arith}
use led_orchestra.Base.Words.{u8}
use native.Mathlib.Decide.{dec_le}
use led_orchestra.Color.{Crgb, mix, blend}
use led_orchestra.Color.Channels.{scale8-eq}

-- Every channel is a byte.
pub record IsColor (c : Crgb) : Type 0 where
  pub r : c.r < 256
  pub g : c.g < 256
  pub b : c.b < 256

mul-le : (a b c : ℕ) → a ≤ b → a * c ≤ b * c
mul-le a b c h = grind arith

weights : (m f : ℕ) → f < 256 → m * (255 - f + 1) + m * (f + 1) ≡ m * 257
weights m f h = omega (arith, ap (λ (t : ℕ). m * t) (complement f h))
  where
    complement : (f : ℕ) → f < 256 → 255 - f + 1 + (f + 1) ≡ 257
    complement f h = omega arith

-- What `mix` computes before the casts: both shares fit the byte, and so does their sum.
mix-eq :
    (x y f : ℕ)
    → x < 256
    → y < 256
    → f < 256
    → mix x y f ≡ x * (255 - f + 1) / 256 + y * (f + 1) / 256
unfolding mix
mix-eq x y f hx hy hf =
    let cast : u8 (255 - f) ≡ 255 - f = omega arith in
    rw (cast, scale8-eq x (255 - f) hx (omega arith), scale8-eq y f hy hf)
      (omega (arith, mul-le x 255 (255 - f + 1) (omega arith), mul-le y 255 (f + 1) (omega arith)))

-- A mix lies between its ends, but may fall short of the smaller one by one.
pub mix_between :
    (x y f : ℕ) → x < 256 → y < 256 → f < 256 → (mix x y f ≤ max x y) × (min x y ≤ mix x y f + 1)
mix_between x y f hx hy hf =
    let eq = mix-eq x y f hx hy hf in
    elim (dec_le x y) [
      | yes h ↦
          let wx = weights x f hf in
          let wy = weights y f hf in
          let left = mul-le x y (255 - f + 1) h in
          let right = mul-le x y (f + 1) h in (omega arith, omega arith)
      | no h ↦
          let wx = weights x f hf in
          let wy = weights y f hf in
          let left = mul-le y x (255 - f + 1) (omega arith) in
          let right = mul-le y x (f + 1) (omega arith) in (omega arith, omega arith)
    ]

mix_start : (x y : ℕ) → x < 256 → y < 256 → mix x y 0 ≡ x
mix_start x y hx hy = omega (arith, mix-eq x y 0 hx hy (omega arith))

mix_end : (x y : ℕ) → x < 256 → y < 256 → mix x y 255 ≡ y
mix_end x y hx hy = omega (arith, mix-eq x y 255 hx hy (omega arith))

-- At the ends of the fraction a blend of two colours of bytes is one of the two.
pub blend_ends : (a b : Crgb) → IsColor a → IsColor b → (blend a b 0 ≡ a) × (blend a b 255 ≡ b)
unfolding blend
blend_ends a b ha hb = (
  ground (arith, mix_start a.r b.r, mix_start a.g b.g, mix_start a.b b.b),
  ground (arith, mix_end a.r b.r, mix_end a.g b.g, mix_end a.b b.b),
)
