-- ===== src/Effects/Brightness/Classic.antt =====
-- The ceiling for the effects of `Effects.Classic`.
use led_orchestra.Base.{get_or, [], ◌∷◌, zero, suc, ℕ, ◌+◌, ◌<◌, arith}
use led_orchestra.Color.Channels.{scale8-lt}
use led_orchestra.Color.Waves.{ease8-lt}
use led_orchestra.Scene.{Scene, NodeConfig}
use led_orchestra.Effects.Palettes.{palette}
use led_orchestra.Effects.Coverage.{palette-AreColors}
use led_orchestra.Effects.Classic.{
  channel, render_solid, render_rainbow, render_fibonacci, render_aurora_breathe, render_comet,
  render_theater_chase, render_palette_cycle, render_twinkle,
}
use led_orchestra.Effects.Ceiling.{
  IsCapped, IsScene, black-IsCapped, option-IsColor, if-IsCapped, scene_rgb-IsColor, level_le,
  full_hue-IsColor, scaled-IsCapped, levelled-IsCapped, palette-IsCapped,
}
use led_orchestra.Effects.Field.{fib_mod256}
use led_orchestra.Effects.Field.Fibonacci.{fib_mod256-fibonacci}

fib_mod256-lt : (n : ℕ) → fib_mod256 n < 256
fib_mod256-lt n = omega (arith, fib_mod256-fibonacci n)

get_or-channel : (a b c i : ℕ) → a < 256 → b < 256 → c < 256 → get_or (a ∷ b ∷ c ∷ []) i 0 < 256
get_or-channel a b c zero ha hb hc = ha
get_or-channel a b c (suc zero) ha hb hc = hb
get_or-channel a b c (suc (suc zero)) ha hb hc = hc
get_or-channel a b c (suc (suc (suc i))) ha hb hc = omega arith

channel-lt : (base i : ℕ) → channel base i < 256
unfolding channel
channel-lt base i =
    get_or-channel (fib_mod256 base) (fib_mod256 (base + 1)) (fib_mod256 (base + 2)) i
      (fib_mod256-lt _) (fib_mod256-lt _) (fib_mod256-lt _)

module _ (scene : Scene) (v : IsScene scene) where
  pub solid-IsCapped : IsCapped scene.brightness (render_solid scene)
  unfolding render_solid
  solid-IsCapped = scaled-IsCapped scene v _ (scene_rgb-IsColor scene v)

  pub rainbow-IsCapped :
      (n : NodeConfig) (g t : ℕ) → IsCapped scene.brightness (render_rainbow scene n g t)
  unfolding render_rainbow
  rainbow-IsCapped n g t = scaled-IsCapped scene v _ (full_hue-IsColor _)

  pub fibonacci-IsCapped :
      (n : NodeConfig) (g t : ℕ) → IsCapped scene.brightness (render_fibonacci scene n g t)
  unfolding render_fibonacci
  fibonacci-IsCapped n g t =
      scaled-IsCapped scene v _
        (record { r = channel-lt _ _; g = channel-lt _ _; b = channel-lt _ _ })

  pub aurora-IsCapped : (g t p : ℕ) → IsCapped scene.brightness (render_aurora_breathe scene g t p)
  unfolding render_aurora_breathe
  aurora-IsCapped g t p = scaled-IsCapped scene v _ (
      option-IsColor (palette p) _ _ _ (palette-AreColors p) (omega arith)
        (record { r = scale8-lt _ _; g = scale8-lt _ _; b = scale8-lt _ _ }))

  pub comet-IsCapped :
      (n : NodeConfig) (g t : ℕ) → IsCapped scene.brightness (render_comet scene n g t)
  unfolding render_comet
  comet-IsCapped n g t =
      if-IsCapped _ _ _ _ (black-IsCapped _) (
        levelled-IsCapped scene v _ _ (scene_rgb-IsColor scene v) (level_le scene v _ (ease8-lt _)))

  pub chase-IsCapped : (g t : ℕ) → IsCapped scene.brightness (render_theater_chase scene g t)
  unfolding render_theater_chase
  chase-IsCapped g t =
      if-IsCapped _ _ _ _ (black-IsCapped _) (scaled-IsCapped scene v _ (scene_rgb-IsColor scene v))

  pub palette_cycle-IsCapped :
      (n : NodeConfig) (g t p : ℕ) → IsCapped scene.brightness (render_palette_cycle scene n g t p)
  unfolding render_palette_cycle
  palette_cycle-IsCapped n g t p = palette-IsCapped scene v p _ _ _ (omega arith) (black-IsCapped _)

  pub twinkle-IsCapped : (g t : ℕ) → IsCapped scene.brightness (render_twinkle scene g t)
  unfolding render_twinkle
  twinkle-IsCapped g t =
      if-IsCapped _ _ _ _ (black-IsCapped _) (
        levelled-IsCapped scene v _ _ (scene_rgb-IsColor scene v) (level_le scene v _ (ease8-lt _)))
