-- ===== src/Effects/Brightness/Party.antt =====
-- The ceiling for the effects of `Effects.Party`.
use led_orchestra.Base.{
  ℕ, ◌+◌, ◌-◌, ◌*◌, ◌/◌, ◌%◌, ◌≤◌, ◌<◌, Bool, arith, ◌==◌, leb, not, if◌then◌else◌,
}
use led_orchestra.Base.Words.{u8, u32, u64}
use led_orchestra.Color.{Crgb, rgb, scale8, blend, ease8, triangle8}
use led_orchestra.Color.Channels.{scale8-lt, scale8-le}
use led_orchestra.Color.Waves.{ease8-lt}
use led_orchestra.Color.Blending.{IsColor}
use led_orchestra.Scene.{Scene, NodeConfig}
use led_orchestra.Effects.Classic.{pixel_seed, ticks, speed_of}
use led_orchestra.Effects.Party.{
  render_party_confetti, render_champagne_toast, render_independence, stripe_color,
}
use led_orchestra.Effects.Ceiling.{
  IsCapped, IsScene, IsCapped-mono, hsv-IsCapped, if-IsCapped, grey-IsCapped, level_le, share_le,
  levelled-IsCapped, palette-IsCapped, blended-IsCapped,
}

module _ (scene : Scene) (v : IsScene scene) where
  pub confetti-IsCapped :
      (g t p : ℕ) → IsCapped scene.brightness (render_party_confetti scene g t p)
  unfolding render_party_confetti
  confetti-IsCapped g t p =
      let base_level = share_le scene v 26 (omega arith) in
      let bound = v.brightness in
      let base =
        palette-IsCapped scene v p _ _ _ base_level
          (IsCapped-mono _ _ _ base_level (hsv-IsCapped _ _ _ (omega arith))) in
      let flash = share_le scene v _ (ease8-lt _) in
      if-IsCapped _ _ _ _ base (
        blended-IsCapped scene v _ _ _ (ease8-lt _) base (
          palette-IsCapped scene v p _ _ _ flash
            (IsCapped-mono _ _ _ flash (hsv-IsCapped _ _ _ (scale8-lt _ _)))))

  -- A colour whose channels are a level and two shares of it.
  tinted-IsCapped :
      (l x y : ℕ)
      → l ≤ scene.brightness
      → x < 256
      → y < 256
      → IsCapped scene.brightness (rgb l (scale8 l x) (scale8 l y))
  tinted-IsCapped l x y h hx hy =
      let bound = v.brightness in
      record {
        r = h;
        g = omega (arith, scale8-le l x (omega arith) hx);
        b = omega (arith, scale8-le l y (omega arith) hy);
      }

  -- A base with a glint over it, unless the test holds.
  glint-IsCapped :
      (test : Bool) (c d : Crgb) (f : ℕ)
      → f < 256
      → IsCapped scene.brightness c
      → IsCapped scene.brightness d
      → IsCapped scene.brightness (if test then c else blend c d f)
  glint-IsCapped test c d f hf hc hd =
      if-IsCapped _ test _ _ hc (blended-IsCapped scene v c d f hf hc hd)

  star-IsCapped :
      (dark low : Bool) (c : Crgb) (l f : ℕ)
      → f < 256
      → l ≤ scene.brightness
      → IsCapped scene.brightness c
      → IsCapped scene.brightness (if dark then c else if low then c else blend c (rgb l l l) f)
  star-IsCapped dark low c l f hf hl hc =
      if-IsCapped _ dark _ _ hc (glint-IsCapped low c _ f hf hc (grey-IsCapped _ l hl))

  pub champagne-IsCapped :
      (g t p : ℕ) → IsCapped scene.brightness (render_champagne_toast scene g t p)
  unfolding render_champagne_toast
  champagne-IsCapped g t p =
      glint-IsCapped _ _ _ _ (omega arith)
        (palette-IsCapped scene v p _ _ _ (level_le scene v _ (omega arith))
          (tinted-IsCapped _ 86 72 (level_le scene v _ (omega arith)) (omega arith) (omega arith)))
        (palette-IsCapped scene v p _ _ _ (share_le scene v _ (omega arith)) (
          tinted-IsCapped _ 235 210 (share_le scene v _ (omega arith)) (omega arith) (omega arith)))

  stripe-IsColor : (stripe : ℕ) → IsColor (stripe_color stripe)
  unfolding stripe_color
  stripe-IsColor stripe = ground arith

  pub independence-IsCapped :
      (n : NodeConfig) (g t p : ℕ) → IsCapped scene.brightness (render_independence scene n g t p)
  unfolding render_independence
  independence-IsCapped n g t p =
      let seed = pixel_seed g 0x9e3779b1 (u32 (scene.sequence * 29)) in
      let wave = ease8 (triangle8 (u8 (u64 (ticks t (speed_of scene) 22 + seed)))) in
      let glint = u8 ((wave - 190) * 255 / 65) in
      star-IsCapped (not (seed % 16 == 0)) (leb wave 190) _ (scale8 scene.brightness glint) glint
        (omega arith) (share_le scene v glint (omega arith))
        (palette-IsCapped scene v p _ _ _ (share_le scene v _ (omega arith))
          (levelled-IsCapped scene v _ _ (stripe-IsColor _) (share_le scene v _ (omega arith))))
