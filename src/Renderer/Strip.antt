-- ===== src/Renderer/Strip.antt =====
-- The frame of led_orchestra_renderer.cpp pixel by pixel.
use led_orchestra.Base.{
  ℕ, zero, suc, ◌+◌, ◌-◌, ◌<◌, ◌≤◌, ◌≡◌, inl, inr, refl, ap, some, List, ◌++◌, arith, length,
  get_elem?, ltb, if◌then◌else◌, length-append, ◌∙◌, get_elem?-append_left, get_elem?-append_right,
  ltb→lt, Bool-cases,
}
use led_orchestra.Base.Words.{u16}
use led_orchestra.Color.{Crgb}
use led_orchestra.Color.Policy.{IsPolicy, apply_output_policy_limits}
use led_orchestra.Scene.{NodeConfig}
use led_orchestra.Platform.{Kconfig}
use led_orchestra.Effects.{render_effect}
use led_orchestra.Effects.Ceiling.{IsScene, capped-IsColor}
use led_orchestra.Effects.Brightness.{render_effect-IsCapped}
use led_orchestra.Renderer.Frame.{
  View, Pixel, frame, lit_pixels, dark_pixels, drawn_len, pixel_color, on_wire, effect_clock,
  palette_choice,
}

pub length-lit_pixels : (color : ℕ → Crgb) (n i : ℕ) → length (lit_pixels color n i) ≡ n
unfolding lit_pixels
length-lit_pixels color zero i = refl
length-lit_pixels color (suc n) i = ap suc (length-lit_pixels color n (suc i))

length-dark_pixels : (n i : ℕ) → length (dark_pixels n i) ≡ n
unfolding dark_pixels
length-dark_pixels zero i = refl
length-dark_pixels (suc n) i = ap suc (length-dark_pixels n (suc i))

drawn_len_le : (k : Kconfig) (node : NodeConfig) → drawn_len k node ≤ k.led_count
unfolding drawn_len
drawn_len_le k node = ground arith

lit_at :
    (color : ℕ → Crgb) (n i j : ℕ)
    → j < n
    → get_elem? (lit_pixels color n i) j ≡ some (on_wire (i + j) (color (i + j)))
unfolding lit_pixels
lit_at color (suc n) i zero h = ap (λ l. some (on_wire l (color l))) (omega arith)
lit_at color (suc n) i (suc j) h =
    let e : suc i + j ≡ i + suc j = omega arith in
    lit_at color n (suc i) j (omega arith) ∙ ap (λ l. some (on_wire l (color l))) e
lit_at color zero i j h = absurd (omega arith)

abbrev dark : ℕ → Pixel
dark i = record { index = i; red = 0; green = 0; blue = 0 }

dark_at : (n i j : ℕ) → j < n → get_elem? (dark_pixels n i) j ≡ some (dark (i + j))
unfolding dark_pixels
dark_at (suc n) i zero h = ap (λ l. some (dark l)) (omega arith)
dark_at (suc n) i (suc j) h =
    let e : suc i + j ≡ i + suc j = omega arith in
    dark_at n (suc i) j (omega arith) ∙ ap (λ l. some (dark l)) e
dark_at zero i j h = absurd (omega arith)

-- What the pixel `i` of a frame shows: its colour inside the segment, black past it.
abbrev pub expected_pixel : Kconfig → View → ℕ → ℕ → Pixel
expected_pixel k v now_ms i =
    if ltb i (drawn_len k v.node) then on_wire i (pixel_color v now_ms i) else dark i

module _ (k : Kconfig) (v : View) (t : ℕ) where
  abbrev len : ℕ
  len = drawn_len k v.node

  abbrev lit : List Pixel
  lit = lit_pixels (pixel_color v t) len 0

  abbrev rest : List Pixel
  rest = dark_pixels (k.led_count - len) len

  frame_lit : (i : ℕ) → i < len → get_elem? (frame k v t) i ≡ some (expected_pixel k v t i)
  unfolding frame
  frame_lit i h =
      get_elem?-append_left lit rest i (omega (arith, length-lit_pixels (pixel_color v t) len 0))
      ∙ lit_at (pixel_color v t) len 0 i h
      ∙ ground arith

  frame_past :
      (i : ℕ)
      → len ≤ i
      → i < k.led_count
      → get_elem? (frame k v t) i ≡ some (expected_pixel k v t i)
  unfolding frame
  frame_past i past h =
      let step : len + (i - len) ≡ i = omega arith in
      get_elem?-append_right lit rest (i - len) i
        (omega (arith, length-lit_pixels (pixel_color v t) len 0))
      ∙ dark_at (k.led_count - len) len (i - len) (omega arith)
      ∙ ground (arith, step)

  -- A frame sets each pixel of the node's strip exactly once, in order: those of the segment to the
  -- effect's colour through the output policy, those past it to black.
  pub frame_complete :
      (length (frame k v t) ≡ k.led_count)
      × ((i : ℕ) → i < k.led_count → get_elem? (frame k v t) i ≡ some (expected_pixel k v t i))
  unfolding frame
  frame_complete = (count, at)
    where
      count : length (lit ++ rest) ≡ k.led_count
      count = omega (
        arith,
        length-append lit rest,
        length-lit_pixels (pixel_color v t) len 0,
        length-dark_pixels (k.led_count - len) len,
        drawn_len_le k v.node,
      )

      at : (i : ℕ) → i < k.led_count → get_elem? (frame k v t) i ≡ some (expected_pixel k v t i)
      at i h = elim (Bool-cases (ltb i len)) [
        | inl e ↦ frame_lit i (ltb→lt i len e)
        | inr e ↦ frame_past i (ground arith) h
      ]

-- For a scene and a policy of bytes, no pixel of a frame is brighter than the scene or than the node's brightness cap, or than the colour
-- correction in its channel (red and green have changed places on the wire).
pub frame_limits :
    (k : Kconfig) (v : View) (t i : ℕ) (p : Pixel)
    → IsScene v.scene
    → IsPolicy v.policy
    → i < k.led_count
    → get_elem? (frame k v t) i ≡ some p
    → (p.index ≡ i)
      × (p.green ≤ v.scene.brightness)
      × (p.red ≤ v.scene.brightness)
      × (p.blue ≤ v.scene.brightness)
      × (p.green ≤ v.policy.master_brightness)
      × (p.red ≤ v.policy.master_brightness)
      × (p.blue ≤ v.policy.master_brightness)
      × (p.green ≤ v.policy.color_correction.r)
      × (p.red ≤ v.policy.color_correction.g)
      × (p.blue ≤ v.policy.color_correction.b)
unfolding pixel_color
frame_limits k v t i p hs hp h got =
    let drawn =
      render_effect v.scene v.node (u16 (v.node.segment_start + i)) (effect_clock t v.calib)
        (palette_choice v.scene.effect v.calib) in
    let capped = render_effect-IsCapped v.scene v.node _ _ _ hs in
    let limits =
      apply_output_policy_limits drawn v.policy (capped-IsColor _ drawn hs.brightness capped) hp in
    let same : expected_pixel k v t i ≡ p = ground (arith, (frame_complete k v t).1 i h) in
    elim (Bool-cases (ltb i (drawn_len k v.node))) [
      | inl e ↦ ground (arith, capped, limits)
      | inr e ↦ ground arith
    ]
