-- ===== src/Cluster/Fields.antt =====
-- The loops of led_orchestra_cluster.cpp over the elements of a payload.
use led_orchestra.Base.{
  ℕ, ◌≡◌, refl, ap, ◌∙◌, true, false, Option, none, some, inl, inr, arith, ◌==◌, if◌then◌else◌,
  Option-cases,
}
use led_orchestra.Scene.{Scene, NodeConfig, Calibration}
use led_orchestra.Cluster.{
  Elements, end_of_tlv, tlv_error, element, decode_fields, scene_field, config_field,
  calibration_field,
}

abbrev value_or : Option ℕ → ℕ → ℕ
value_or none old = old
value_or (some v) old = v

-- The value of the last element with the tag, or `old` if there is none.
unfoldable pub last_value : ℕ → ℕ → Elements → ℕ → ℕ
last_value tag bits (end_of_tlv exits) old = old
last_value tag bits tlv_error old = old
last_value tag bits (element none decode rest) old = last_value tag bits rest old
last_value tag bits (element (some t) decode rest) old =
    last_value tag bits rest (if t == tag then value_or (decode bits) old else old)

module _ {A : Type 0} (field : ℕ → (ℕ → Option ℕ) → A → Option A) (get : A → ℕ) (tag bits : ℕ)
    (one : (t : ℕ) (decode : ℕ → Option ℕ) (a b : A)
      → field t decode a ≡ some b
      → get b ≡ (if t == tag then value_or (decode bits) (get a) else get a)) where
  decode_fields-get :
      (es : Elements) (a b : A)
      → decode_fields field es a ≡ some b
      → get b ≡ last_value tag bits es (get a)
  unfolding decode_fields last_value
  decode_fields-get (end_of_tlv true) a b h = ap get (ground arith) ∙ refl
  decode_fields-get (end_of_tlv false) a b h = absurd (ground arith)
  decode_fields-get tlv_error a b h = absurd (ground arith)
  decode_fields-get (element none decode rest) a b h = absurd (ground arith)
  decode_fields-get (element (some t) decode rest) a b h = elim (Option-cases (field t decode a)) [
    | inl e ↦ absurd (ground arith)
    | inr (c, e) ↦
        decode_fields-get rest c b (ground arith)
        ∙ ap (last_value tag bits rest) (one t decode a c e)
  ]

-- A SetScene payload that decodes gives each field of the scene the value of the last element with its
-- tag, or leaves it as it was; elements with other tags change nothing.
pub decode_fields-scene :
    (es : Elements) (s r : Scene)
    → decode_fields scene_field es s ≡ some r
    → (r.effect ≡ last_value 0 8 es s.effect)
      × (r.red ≡ last_value 1 8 es s.red)
      × (r.green ≡ last_value 2 8 es s.green)
      × (r.blue ≡ last_value 3 8 es s.blue)
      × (r.speed ≡ last_value 4 8 es s.speed)
      × (r.brightness ≡ last_value 5 8 es s.brightness)
      × (r.sequence ≡ last_value 6 32 es s.sequence)
      × (r.scheduled_start_ms ≡ last_value 7 64 es s.scheduled_start_ms)
unfolding scene_field
decode_fields-scene es s r h = (
  decode_fields-get scene_field (λ x. x.effect) 0 8 (λ t d a b e. ground arith) es s r h,
  decode_fields-get scene_field (λ x. x.red) 1 8 (λ t d a b e. ground arith) es s r h,
  decode_fields-get scene_field (λ x. x.green) 2 8 (λ t d a b e. ground arith) es s r h,
  decode_fields-get scene_field (λ x. x.blue) 3 8 (λ t d a b e. ground arith) es s r h,
  decode_fields-get scene_field (λ x. x.speed) 4 8 (λ t d a b e. ground arith) es s r h,
  decode_fields-get scene_field (λ x. x.brightness) 5 8 (λ t d a b e. ground arith) es s r h,
  decode_fields-get scene_field (λ x. x.sequence) 6 32 (λ t d a b e. ground arith) es s r h,
  decode_fields-get scene_field (λ x. x.scheduled_start_ms) 7 64 (λ t d a b e. ground arith) es s r
      h,
)

-- A SetNodeConfig payload that decodes gives each field of the configuration the value of the last element with
-- its tag, or leaves it as it was; elements with other tags change nothing.
pub decode_fields-config :
    (es : Elements) (c r : NodeConfig)
    → decode_fields config_field es c ≡ some r
    → (r.node_id ≡ last_value 0 16 es c.node_id)
      × (r.segment_start ≡ last_value 1 16 es c.segment_start)
      × (r.segment_len ≡ last_value 2 16 es c.segment_len)
      × (r.total_leds ≡ last_value 3 16 es c.total_leds)
      × (r.led_gpio ≡ last_value 4 8 es c.led_gpio)
unfolding config_field
decode_fields-config es c r h = (
  decode_fields-get config_field (λ x. x.node_id) 0 16 (λ t d a b e. ground arith) es c r h,
  decode_fields-get config_field (λ x. x.segment_start) 1 16 (λ t d a b e. ground arith) es c r h,
  decode_fields-get config_field (λ x. x.segment_len) 2 16 (λ t d a b e. ground arith) es c r h,
  decode_fields-get config_field (λ x. x.total_leds) 3 16 (λ t d a b e. ground arith) es c r h,
  decode_fields-get config_field (λ x. x.led_gpio) 4 8 (λ t d a b e. ground arith) es c r h,
)

-- A SetCalibration payload that decodes gives each field of the calibration the value of the last element with
-- its tag, or leaves it as it was; elements with other tags change nothing.
pub decode_fields-calibration :
    (es : Elements) (c r : Calibration)
    → decode_fields calibration_field es c ≡ some r
    → (r.time_offset_ms ≡ last_value 0 32 es c.time_offset_ms)
      × (r.brightness_cap ≡ last_value 1 8 es c.brightness_cap)
      × (r.palette_override ≡ last_value 2 8 es c.palette_override)
      × (r.color_correction ≡ last_value 3 32 es c.color_correction)
      × (r.color_temperature ≡ last_value 4 32 es c.color_temperature)
unfolding calibration_field
decode_fields-calibration es c r h = (
  decode_fields-get calibration_field (λ x. x.time_offset_ms) 0 32 (λ t d a b e. ground arith) es c
      r h,
  decode_fields-get calibration_field (λ x. x.brightness_cap) 1 8 (λ t d a b e. ground arith) es c r
      h,
  decode_fields-get calibration_field (λ x. x.palette_override) 2 8 (λ t d a b e. ground arith) es c
      r h,
  decode_fields-get calibration_field (λ x. x.color_correction) 3 32 (λ t d a b e. ground arith) es
      c r h,
  decode_fields-get calibration_field (λ x. x.color_temperature) 4 32 (λ t d a b e. ground arith) es
      c r h,
)
