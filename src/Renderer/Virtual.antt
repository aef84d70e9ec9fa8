-- ===== src/Renderer/Virtual.antt =====
-- The segments of two neighbouring nodes and the virtual strip.
use led_orchestra.Base.{
  ℕ, zero, suc, ◌+◌, ◌≤◌, ◌≡◌, ◌≢◌, refl, sym, ap, ap₂, List, [], ◌∷◌, ◌++◌, map, arith, ◌∙◌, take,
}
use led_orchestra.Base.Words.{u16}
use led_orchestra.Color.{Crgb, rgb}
use led_orchestra.Color.Policy.{apply_output_policy}
use led_orchestra.Scene.{NodeConfig}
use led_orchestra.Platform.{Kconfig}
use led_orchestra.Effects.{render_effect}
use led_orchestra.Effects.Registry.{effect_identify}
use led_orchestra.Effects.Seamless.{render_effect_seamless}
use led_orchestra.Renderer.Frame.{
  View, Pixel, frame, lit_pixels, drawn_len, pixel_color, on_wire, effect_clock, palette_choice,
}

-- The colours that a node's segment shows.
abbrev pub segment : Kconfig → View → ℕ → List Crgb
segment k v t =
    map (λ (p : Pixel). rgb p.green p.red p.blue) (take (drawn_len k v.node) (frame k v t))

unfoldable colors_from : (ℕ → Crgb) → ℕ → ℕ → List Crgb
colors_from color zero i = []
colors_from color (suc n) i = color i ∷ colors_from color n (suc i)

map-lit_pixels :
    (color : ℕ → Crgb) (n i : ℕ)
    → map (λ (p : Pixel). rgb p.green p.red p.blue) (lit_pixels color n i) ≡ colors_from color n i
unfolding colors_from lit_pixels
map-lit_pixels color zero i = refl
map-lit_pixels color (suc n) i = ap (λ cs. color i ∷ cs) (map-lit_pixels color n (suc i))

take-lit_pixels :
    (color : ℕ → Crgb) (n i : ℕ) (rest : List Pixel)
    → take n (lit_pixels color n i ++ rest) ≡ lit_pixels color n i
unfolding lit_pixels
take-lit_pixels color zero i [] = refl
take-lit_pixels color zero i (p ∷ rest) = refl
take-lit_pixels color (suc n) i rest =
    ap (λ ps. on_wire i (color i) ∷ ps) (take-lit_pixels color n (suc i) rest)

segment-eq :
    (k : Kconfig) (v : View) (t : ℕ)
    → segment k v t ≡ colors_from (pixel_color v t) (drawn_len k v.node) 0
unfolding frame
segment-eq k v t =
    ap (map (λ (p : Pixel). rgb p.green p.red p.blue))
      (take-lit_pixels (pixel_color v t) (drawn_len k v.node) 0 _)
    ∙ map-lit_pixels (pixel_color v t) (drawn_len k v.node) 0

-- Two runs with the same colours, counted from their own starts.
colors_from-cong :
    (color other : ℕ → Crgb) (n i j : ℕ)
    → ((l : ℕ) → other (j + l) ≡ color (i + l))
    → colors_from color n i ≡ colors_from other n j
unfolding colors_from
colors_from-cong color other zero i j h = refl
colors_from-cong color other (suc n) i j h =
    let first : color i ≡ other j = ap color (omega arith) ∙ sym (h 0) ∙ ap other (omega arith) in
    let later : (l : ℕ) → other (suc j + l) ≡ color (suc i + l) =
      λ l. ap other (omega arith) ∙ h (suc l) ∙ ap color (omega arith) in
    ap₂ (λ c cs. c ∷ cs) first (colors_from-cong color other n (suc i) (suc j) later)

-- The colours of a longer run split into those of its two parts; `other` draws the second part.
colors_from-append :
    (color other : ℕ → Crgb) (n m total i j : ℕ)
    → total ≡ n + m
    → ((l : ℕ) → other (j + l) ≡ color (i + n + l))
    → colors_from color n i ++ colors_from other m j ≡ colors_from color total i
unfolding colors_from
colors_from-append color other zero m total i j e h = sym (
    ap (λ n. colors_from color n i) (omega (arith, e))
    ∙ colors_from-cong color other m i j (λ l. h l ∙ ap color (omega arith)))
colors_from-append color other (suc n) m zero i j e h = absurd (omega arith)
colors_from-append color other (suc n) m (suc total) i j e h =
    ap (λ cs. color i ∷ cs)
      (colors_from-append color other n m total (suc i) j (omega arith)
        (λ l. h l ∙ ap color (omega arith)))

drawn_all :
    (k : Kconfig) (n : NodeConfig) → n.segment_len ≤ u16 k.led_count → drawn_len k n ≡ n.segment_len
unfolding drawn_len
drawn_all k n h = ground arith

abbrev at_node : View → NodeConfig → View
at_node v n = record v { node = n }

-- Two nodes show the same colour at the same place of the strip.
same_place :
    (v : View) (n m : NodeConfig) (t l o : ℕ)
    → v.scene.effect ≢ effect_identify
    → n.total_leds ≡ m.total_leds
    → n.segment_start + l ≡ m.segment_start + o
    → pixel_color (at_node v n) t l ≡ pixel_color (at_node v m) t o
unfolding pixel_color
same_place v n m t l o ne total place =
    let clock = effect_clock t v.calib in
    let palette = palette_choice v.scene.effect v.calib in
    ap (λ c. apply_output_policy c v.policy)
      (render_effect_seamless v.scene n m (u16 (n.segment_start + l)) clock palette total ne
        ∙ ap (λ place. render_effect v.scene m (u16 place) clock palette) place)

-- Two neighbouring nodes draw one virtual strip: with the same time, scene, policy, calibration
-- and length of the whole strip, the second starting where the first ends, their segments one after the
-- other are the segment of one node that is as long as both, for every effect but `identify`, if
-- each segment fits its node's strip.
pub virtual_strip :
    (ka kb kw : Kconfig) (v : View) (first second : NodeConfig) (t : ℕ)
    → v.scene.effect ≢ effect_identify
    → second.total_leds ≡ first.total_leds
    → second.segment_start ≡ first.segment_start + first.segment_len
    → first.segment_len ≤ u16 ka.led_count
    → second.segment_len ≤ u16 kb.led_count
    → first.segment_len + second.segment_len ≤ u16 kw.led_count
    → segment ka (at_node v first) t ++ segment kb (at_node v second) t
      ≡ segment kw
          (at_node v (record first { segment_len = first.segment_len + second.segment_len }))
          t
virtual_strip ka kb kw v first second t ne total start ha hb hw =
    let n = first.segment_len in
    let m = second.segment_len in
    let both : NodeConfig = record first { segment_len = n + m } in
    let colors = λ (node : NodeConfig). colors_from (pixel_color (at_node v node) t) in
    let left : segment ka (at_node v first) t ≡ colors both n 0 =
      segment-eq ka (at_node v first) t
      ∙ ap (λ len. colors first len 0) (drawn_all ka first ha)
      ∙ colors_from-cong _ _ n 0 0 (λ l. same_place v both first t (0 + l) (0 + l) ne refl refl) in
    let right : segment kb (at_node v second) t ≡ colors second m 0 =
      segment-eq kb (at_node v second) t
      ∙ ap (λ len. colors second len 0) (drawn_all kb second hb) in
    ap₂ (λ xs ys. xs ++ ys) left right
    ∙ colors_from-append (pixel_color (at_node v both) t) (pixel_color (at_node v second) t) n m
        (n + m) 0 0 refl
        (λ l. same_place v second both t (0 + l) (0 + n + l) ne total (omega arith))
    ∙ sym (segment-eq kw (at_node v both) t ∙ ap (λ len. colors both len 0) (drawn_all kw both hw))
