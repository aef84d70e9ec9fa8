-- ===== src/Color/Channels.antt =====
-- Scaling and saturating arithmetic of single channels (`scale8`, `scale8_video`, `qadd8`, `qsub8`).
use Prim.Native.Nat.{min}
use led_orchestra.Base.{ℕ, ◌+◌, ◌-◌, ◌*◌, ◌/◌, ◌≤◌, ◌<◌, ◌≡◌, arith}
use led_orchestra.Color.{scale8, scale8_video, qadd8, qsub8}

mul_mono : (a b c d : ℕ) → a ≤ b → c ≤ d → a * c ≤ b * d
mul_mono a b c d h k = grind arith

-- The product `i * (scale + 1)` fits the `uint16_t`, so the cast to `uint8_t` cuts nothing off.
pub scale8-eq : (i s : ℕ) → i < 256 → s < 256 → scale8 i s ≡ i * (s + 1) / 256
unfolding scale8
scale8-eq i s hi hs = omega (arith, mul_mono i i (s + 1) 256 (omega arith) (omega arith))

pub scale8-lt : (i s : ℕ) → scale8 i s < 256
unfolding scale8
scale8-lt i s = omega arith

pub scale8-le : (i s : ℕ) → i < 256 → s < 256 → scale8 i s ≤ i
scale8-le i s hi hs =
    omega (arith, scale8-eq i s hi hs, mul_mono i i (s + 1) 256 (omega arith) (omega arith))

pub scale8-le_scale : (i s : ℕ) → i < 256 → s < 256 → scale8 i s ≤ s
scale8-le_scale i s hi hs =
    omega (arith, scale8-eq i s hi hs, mul_mono i 255 (s + 1) (s + 1) (omega arith) (omega arith))

pub scale8_full : (i : ℕ) → i < 256 → scale8 i 255 ≡ i
scale8_full i hi = omega (arith, scale8-eq i 255 hi (omega arith))

pub scale8_off : (i : ℕ) → i < 256 → scale8 i 0 ≡ 0
scale8_off i hi = omega (arith, scale8-eq i 0 hi (omega arith))

-- For bytes, scaling a channel neither brightens it nor lets it past the scale; the full scale keeps it and
-- the zero scale turns it off.
pub scale8_laws :
    (i s : ℕ)
    → i < 256
    → s < 256
    → (scale8 i s ≤ i) × (scale8 i s ≤ s) × (scale8 i 255 ≡ i) × (scale8 i 0 ≡ 0)
scale8_laws i s hi hs =
    (scale8-le i s hi hs, scale8-le_scale i s hi hs, scale8_full i hi, scale8_off i hi)

-- Scaling is monotone in the channel and in the scale.
pub scale8_mono : (i j s t : ℕ) → j < 256 → t < 256 → i ≤ j → s ≤ t → scale8 i s ≤ scale8 j t
scale8_mono i j s t hj ht h k = omega (
  arith,
  scale8-eq i s (omega arith) (omega arith),
  scale8-eq j t hj ht,
  mul_mono i j (s + 1) (t + 1) h (omega arith),
)

-- The video scale never turns a lit channel off, and never brightens one.
pub scale8_video_lit :
    (i s : ℕ) → 0 < i → 0 < s → i < 256 → s < 256 → (0 < scale8_video i s) × (scale8_video i s ≤ i)
unfolding scale8_video
scale8_video_lit i s pi ps hi hs = ground (arith, mul_mono i i s 255 (omega arith) (omega arith))

-- Saturating addition and subtraction are the sum cut at 255 and the difference cut at 0.
pub qadd8-qsub8_saturate :
    (a b : ℕ) → a < 256 → b < 256 → (qadd8 a b ≡ min 255 (a + b)) × (qsub8 a b ≡ a - b)
unfolding qadd8 qsub8
qadd8-qsub8_saturate a b ha hb = (ground arith, ground arith)
