-- ===== src/Color/Waves.antt =====
-- The 8-bit curves `triangle8`, `ease8`, `sin8` and `cos8` of led_color.h.
use led_orchestra.Base.{
  ℕ, ◌+◌, ◌-◌, ◌≤◌, ◌<◌, ◌≡◌, refl, true, arith, ◌&&◌, leb, ◌==◌, all_below, all_below_sound,
}
use led_orchestra.Base.Words.{u8}
use led_orchestra.Color.{triangle8, ease8, sin8, cos8}

-- The triangle wave rises to 254 and comes back the way it went.
pub triangle8_symmetric :
    (x : ℕ) → x < 256 → (triangle8 x ≤ 254) × (triangle8 (255 - x) ≡ triangle8 x)
unfolding triangle8
triangle8_symmetric x h = ground arith

ease8_table : all_below 255 (λ i. leb (ease8 i) (ease8 (i + 1)) && leb (ease8 i) 255) ≡ true
unfolding all_below ease8
ease8_table = refl

ease8_mirror_table :
    all_below 256 (λ i. leb (ease8 i) 255 && (ease8 (255 - i) == 255 - ease8 i)) ≡ true
unfolding all_below ease8
ease8_mirror_table = refl

pub ease8-lt : (i : ℕ) → ease8 i < 256
unfolding ease8
ease8-lt i = ground arith

-- Over the bytes the ease curve never falls, and its second half mirrors its first.
pub ease8_in_out : (i : ℕ) → i < 255 → (ease8 i ≤ ease8 (i + 1)) × (ease8 (255 - i) ≡ 255 - ease8 i)
ease8_in_out i h = ground (
  arith,
  all_below_sound 255 _ i ease8_table h,
  all_below_sound 256 _ i ease8_mirror_table (omega arith),
)

sin8_table :
    all_below 256
      (λ t. leb 64 (sin8 t) && leb (sin8 t) 192 && (sin8 (u8 (t + 128)) + sin8 t == 256))
    ≡ true
unfolding all_below sin8
sin8_table = refl

-- For a byte, the sine stays between 64 and 192, and half a period later it stands as far on the other side
-- of 128.
pub sin8_range :
    (theta : ℕ)
    → theta < 256
    → (64 ≤ sin8 theta) × (sin8 theta ≤ 192) × (sin8 (u8 (theta + 128)) + sin8 theta ≡ 256)
sin8_range theta h = ground (arith, all_below_sound 256 _ theta sin8_table h)

-- The cosine is the sine a quarter of the period ahead, so it has the sine's range.
pub cos8_range : (theta : ℕ) → (64 ≤ cos8 theta) × (cos8 theta ≤ 192)
unfolding cos8
cos8_range theta = ground (arith, sin8_range (u8 (theta + 64)) (omega arith))
