-- ===== src/Renderer/Hold.antt =====
-- The test of `render_task` that skips a pass, and the frame of a pass that it skips.
use led_orchestra.Base.{
  ℕ, zero, suc, ◌+◌, ◌-◌, ◌≤◌, ◌<◌, ◌≡◌, ◌⊎◌, inl, inr, refl, sym, ap, ap₂, ◌∙◌, true, false, arith,
  ◌==◌, ==→eq, leb, leb→le, all_below, all_below_sound, ◌∷◌, ◌++◌, Bool-cases,
}
use mathlib.Core.Bool.{true≢false}
use led_orchestra.Base.Words.{u16}
use led_orchestra.Color.{Crgb}
use led_orchestra.Color.Policy.{OutputPolicy, apply_output_policy}
use led_orchestra.Scene.{Scene, NodeConfig}
use led_orchestra.Platform.{Kconfig}
use led_orchestra.Effects.{render_effect}
use led_orchestra.Effects.Registry.{effect_meta, find_effect, effects}
use led_orchestra.Renderer.{scenes_equal, configs_equal, policies_equal}
use led_orchestra.Renderer.Frame.{
  View, frame, lit_pixels, dark_pixels, drawn_len, pixel_color, on_wire, effect_clock,
  palette_choice, animated, render_needed,
}

-- The effects from 2 on are animated.
animated_table : all_below 16 (λ i. animated (i + 2)) ≡ true
unfolding all_below animated effect_meta find_effect effects
animated_table = refl

moving : (id : ℕ) → 2 ≤ id → id < 18 → animated id ≡ true
moving id low high =
    let back : id ≡ id - 2 + 2 = omega arith in
    ap animated back
    ∙ all_below_sound 16 (λ i. animated (i + 2)) (id - 2) animated_table (omega arith)

still_effects : (id : ℕ) → animated id ≡ false → (id ≡ 0) ⊎ ((id ≡ 1) ⊎ (18 ≤ id))
still_effects id h = elim (Bool-cases (id == 0)) [
  | inl e ↦ inl (==→eq _ _ e)
  | inr e0 ↦ elim (Bool-cases (id == 1)) [
    | inl e ↦ inr (inl (==→eq _ _ e))
    | inr e1 ↦ elim (Bool-cases (leb 18 id)) [
      | inl e ↦ inr (inr (leb→le _ _ e))
      | inr e ↦ absurd (true≢false (sym (moving id (ground arith) (ground arith)) ∙ h))
    ]
  ]
]

-- The colour of an effect that does not scroll depends on neither the time nor the palette.
render_effect_still :
    (scene : Scene) (node : NodeConfig) (g t u p q : ℕ)
    → animated scene.effect ≡ false
    → render_effect scene node g t p ≡ render_effect scene node g u q
unfolding render_effect
render_effect_still scene node g t u p q h = ground (arith, still_effects scene.effect h)

scenes_equal-eq : (a b : Scene) → scenes_equal a b ≡ true → a ≡ b
scenes_equal-eq a b h = ground arith

configs_equal-eq : (a b : NodeConfig) → configs_equal a b ≡ true → a ≡ b
configs_equal-eq a b h = ground arith

policies_equal-eq : (a b : OutputPolicy) → policies_equal a b ≡ true → a ≡ b
policies_equal-eq a b h = ground arith

lit_pixels-cong :
    (color other : ℕ → Crgb) (n i : ℕ)
    → ((l : ℕ) → color l ≡ other l)
    → lit_pixels color n i ≡ lit_pixels other n i
unfolding lit_pixels
lit_pixels-cong color other zero i h = refl
lit_pixels-cong color other (suc n) i h =
    ap₂ (λ c ps. on_wire i c ∷ ps) (h i) (lit_pixels-cong color other n (suc i) h)

-- What a skipped pass knows.
record IsStill (v last : View) : Type 0 where
  quiet : animated v.scene.effect ≡ false
  scene : v.scene ≡ last.scene
  node : v.node ≡ last.node
  policy : v.policy ≡ last.policy
  override : v.calib.palette_override ≡ last.calib.palette_override

skipped-IsStill : (v last : View) → render_needed v true last ≡ false → IsStill v last
unfolding render_needed
skipped-IsStill v last h = record {
  quiet = ground arith;
  scene = scenes_equal-eq v.scene last.scene (ground arith);
  node = configs_equal-eq v.node last.node (ground arith);
  policy = policies_equal-eq v.policy last.policy (ground arith);
  override = ground arith;
}

still_color :
    (v last : View) (t u l : ℕ) → IsStill v last → pixel_color v t l ≡ pixel_color last u l
unfolding pixel_color
still_color v last t u l h =
    let place = λ (n : NodeConfig). u16 (n.segment_start + l) in
    let palette = palette_choice last.scene.effect last.calib in
    ap₂ apply_output_policy
      (render_effect_still v.scene v.node (place v.node) (effect_clock t v.calib)
          (effect_clock u last.calib) _ palette h.quiet
        ∙ ap₂ (λ s n. render_effect s n (place n) (effect_clock u last.calib) palette) h.scene
            h.node)
      h.policy

-- When a pass finds nothing to render, the frame that it would have drawn at its own time is, pixel
-- for pixel, the frame of the last pass that drew, whenever that was.
pub frame_held :
    (k : Kconfig) (v last : View) (now_ms last_ms : ℕ)
    → render_needed v true last ≡ false
    → frame k v now_ms ≡ frame k last last_ms
unfolding frame
frame_held k v last now_ms last_ms h =
    let still = skipped-IsStill v last h in
    ap
      (λ (n : NodeConfig).
        lit_pixels (pixel_color v now_ms) (drawn_len k n) 0
        ++ dark_pixels (k.led_count - drawn_len k n) (drawn_len k n))
      still.node
    ∙ ap (λ ps. ps ++ dark_pixels (k.led_count - drawn_len k last.node) (drawn_len k last.node))
        (lit_pixels-cong _ _ (drawn_len k last.node) 0
          (λ l. still_color v last now_ms last_ms l still))
