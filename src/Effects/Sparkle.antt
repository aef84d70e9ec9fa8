-- ===== src/Effects/Sparkle.antt =====
-- The glints of `render_champagne_toast` in led_orchestra_effects.cpp.
use led_orchestra.Base.{ℕ, ◌≡◌, true, arith, leb}
use led_orchestra.Base.Words.{u8}
use led_orchestra.Color.{sin8}
use led_orchestra.Color.Waves.{sin8_range}
use led_orchestra.Scene.{Scene}
use led_orchestra.Effects.Party.{render_champagne_toast}

no_glint : (x : ℕ) → leb (sin8 (u8 x)) 220 ≡ true
no_glint x = ground (arith, sin8_range (u8 x) (omega arith))

-- The champagne effect never sparkles: the sequence, which nothing but its glints depends on, leaves
-- every pixel as it is.
pub champagne_never_sparkles :
    (scene : Scene) (sequence g t p : ℕ)
    → render_champagne_toast (record scene { sequence = sequence }) g t p
      ≡ render_champagne_toast scene g t p
unfolding render_champagne_toast
champagne_never_sparkles scene sequence g t p = simp no_glint
