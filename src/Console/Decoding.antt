-- ===== src/Console/Decoding.antt =====
-- What a node decodes of the objects that the console builds.
use led_orchestra.Base.{
  ℕ, ◌^◌, ◌<◌, ◌≡◌, refl, ap, ◌∙◌, Option, none, some, List, [], ◌∷◌, arith, ltb, drop,
  if◌then◌else◌,
}
use led_orchestra.Scene.{Scene, NodeConfig, Calibration}
use led_orchestra.Cluster.{
  decode_fields, decode_payload, scene_field, config_field, clock_field, calibration_field, stored,
}
use led_orchestra.Console.Json.{Tuning}
use led_orchestra.Console.Objects.{
  Field, Width, bits_of, Fit, elements_of, payload_of, scene_fields, config_fields, clock_fields,
  w8, w16, w32, w64,
}
use led_orchestra.Console.Tunings.{included, tuning_fields}
use led_orchestra.Console.Tunings.Fits.{Fits, TuningFits}

-- What `DataModel::Decode` makes of a value.
abbrev decoded : ℕ → ℕ → Option ℕ
decoded v bits = if ltb v (2 ^ bits) then some v else none

decode_fields-one :
    {A : Type 0} (field : ℕ → (ℕ → Option ℕ) → A → Option A) (f : Field) (fs : List Field) (a b : A)
    → field f.tag (decoded f.value) a ≡ some b
    → decode_fields field (elements_of (f ∷ fs)) a ≡ decode_fields field (elements_of fs) b
unfolding decode_fields
decode_fields-one field f fs a b h = rw h refl

decoded-fits : (v bits : ℕ) → v < 2 ^ bits → decoded v bits ≡ some v
decoded-fits v bits h = ground arith

stored-fits :
    {A : Type 0} (set : ℕ → A) (v bits : ℕ)
    → v < 2 ^ bits
    → stored set (decoded v bits) ≡ some (set v)
stored-fits set v bits h = ap (stored set) (decoded-fits v bits h)

-- The fields of a SetScene give the node exactly the scene, whatever it had.
pub decode_payload-scene :
    (s before : Scene)
    → Fit (scene_fields s)
    → decode_payload scene_field (payload_of (scene_fields s)) before ≡ some s
unfolding decode_payload decode_fields scene_field
decode_payload-scene s before (h0, (h1, (h2, (h3, (h4, (h5, (h6, (h7, end)))))))) =
    let a0 : Scene = record before { effect = s.effect } in
    let a1 : Scene = record a0 { red = s.red } in
    let a2 : Scene = record a1 { green = s.green } in
    let a3 : Scene = record a2 { blue = s.blue } in
    let a4 : Scene = record a3 { speed = s.speed } in
    let a5 : Scene = record a4 { brightness = s.brightness } in
    let a6 : Scene = record a5 { sequence = s.sequence } in
    let a7 : Scene = record a6 { scheduled_start_ms = s.scheduled_start_ms } in
    decode_fields-one scene_field (record { tag = 0; width = w8; value = s.effect })
      (drop 1 (scene_fields s)) before a0
      (stored-fits (λ v. record before { effect = v }) s.effect 8 h0)
    ∙ decode_fields-one scene_field (record { tag = 1; width = w8; value = s.red })
        (drop 2 (scene_fields s)) a0 a1 (stored-fits (λ v. record a0 { red = v }) s.red 8 h1)
    ∙ decode_fields-one scene_field (record { tag = 2; width = w8; value = s.green })
        (drop 3 (scene_fields s)) a1 a2 (stored-fits (λ v. record a1 { green = v }) s.green 8 h2)
    ∙ decode_fields-one scene_field (record { tag = 3; width = w8; value = s.blue })
        (drop 4 (scene_fields s)) a2 a3 (stored-fits (λ v. record a2 { blue = v }) s.blue 8 h3)
    ∙ decode_fields-one scene_field (record { tag = 4; width = w8; value = s.speed })
        (drop 5 (scene_fields s)) a3 a4 (stored-fits (λ v. record a3 { speed = v }) s.speed 8 h4)
    ∙ decode_fields-one scene_field (record { tag = 5; width = w8; value = s.brightness })
        (drop 6 (scene_fields s)) a4 a5
        (stored-fits (λ v. record a4 { brightness = v }) s.brightness 8 h5)
    ∙ decode_fields-one scene_field (record { tag = 6; width = w32; value = s.sequence })
        (drop 7 (scene_fields s)) a5 a6
        (stored-fits (λ v. record a5 { sequence = v }) s.sequence 32 h6)
    ∙ decode_fields-one scene_field (record { tag = 7; width = w64; value = s.scheduled_start_ms })
        (drop 8 (scene_fields s)) a6 a7
        (stored-fits (λ v. record a6 { scheduled_start_ms = v }) s.scheduled_start_ms 64 h7)

-- The fields of a SetNodeConfig give exactly the configuration.
pub decode_payload-config :
    (c before : NodeConfig)
    → Fit (config_fields c)
    → decode_payload config_field (payload_of (config_fields c)) before ≡ some c
unfolding decode_payload decode_fields config_field
decode_payload-config c before (h0, (h1, (h2, (h3, (h4, end))))) =
    let a0 : NodeConfig = record before { node_id = c.node_id } in
    let a1 : NodeConfig = record a0 { segment_start = c.segment_start } in
    let a2 : NodeConfig = record a1 { segment_len = c.segment_len } in
    let a3 : NodeConfig = record a2 { total_leds = c.total_leds } in
    let a4 : NodeConfig = record a3 { led_gpio = c.led_gpio } in
    decode_fields-one config_field (record { tag = 0; width = w16; value = c.node_id })
      (drop 1 (config_fields c)) before a0
      (stored-fits (λ v. record before { node_id = v }) c.node_id 16 h0)
    ∙ decode_fields-one config_field (record { tag = 1; width = w16; value = c.segment_start })
        (drop 2 (config_fields c)) a0 a1
        (stored-fits (λ v. record a0 { segment_start = v }) c.segment_start 16 h1)
    ∙ decode_fields-one config_field (record { tag = 2; width = w16; value = c.segment_len })
        (drop 3 (config_fields c)) a1 a2
        (stored-fits (λ v. record a1 { segment_len = v }) c.segment_len 16 h2)
    ∙ decode_fields-one config_field (record { tag = 3; width = w16; value = c.total_leds })
        (drop 4 (config_fields c)) a2 a3
        (stored-fits (λ v. record a2 { total_leds = v }) c.total_leds 16 h3)
    ∙ decode_fields-one config_field (record { tag = 4; width = w8; value = c.led_gpio })
        (drop 5 (config_fields c)) a3 a4
        (stored-fits (λ v. record a3 { led_gpio = v }) c.led_gpio 8 h4)

pub decode_payload-clock :
    (time before : ℕ)
    → time < 2 ^ 64
    → decode_payload clock_field (payload_of (clock_fields time)) before ≡ some time
unfolding decode_payload decode_fields clock_field
decode_payload-clock time before h =
    decode_fields-one clock_field (record { tag = 0; width = w64; value = time }) [] before time
      (stored-fits (λ v. v) time 64 h)

abbrev pub value_or : Option ℕ → ℕ → ℕ
value_or none old = old
value_or (some v) old = v

-- The calibration with the values that are included, and its own for the others.
abbrev pub tuned : Tuning → Calibration → Calibration
tuned t c = record {
  time_offset_ms = value_or t.time_offset_bits c.time_offset_ms;
  brightness_cap = value_or t.brightness_cap c.brightness_cap;
  palette_override = value_or t.palette_override c.palette_override;
  color_correction = value_or t.color_correction c.color_correction;
  color_temperature = value_or t.color_temperature c.color_temperature;
}

-- One field that may be included; `set` gives the calibration the value.
decode_fields-included :
    (tag : ℕ) (w : Width) (o : Option ℕ) (fs : List Field) (c : Calibration) (set : ℕ → Calibration)
    (old : ℕ)
    → Fits (bits_of w) o
    → ((v : ℕ) → calibration_field tag (decoded v) c ≡ stored set (decoded v (bits_of w)))
    → c ≡ set old
    → decode_fields calibration_field (elements_of (included tag w o fs)) c
      ≡ decode_fields calibration_field (elements_of fs) (set (value_or o old))
decode_fields-included tag w none fs c set old h one same =
    ap (decode_fields calibration_field (elements_of fs)) same
decode_fields-included tag w (some v) fs c set old h one same =
    decode_fields-one calibration_field (record { tag = tag; width = w; value = v }) fs c (set v)
      (one v ∙ stored-fits set v (bits_of w) h)

-- The fields of a SetCalibration change the values that are included, and keep the others.
pub decode_payload-tuning :
    (t : Tuning) (c : Calibration)
    → TuningFits t
    → decode_payload calibration_field (payload_of (tuning_fields t)) c ≡ some (tuned t c)
unfolding decode_payload decode_fields calibration_field
decode_payload-tuning t c (h0, h1, h2, h3, h4) =
    let c0 : Calibration = record c {
      time_offset_ms = value_or t.time_offset_bits c.time_offset_ms;
    } in
    let c1 : Calibration = record c0 {
      brightness_cap = value_or t.brightness_cap c.brightness_cap;
    } in
    let c2 : Calibration = record c1 {
      palette_override = value_or t.palette_override c.palette_override;
    } in
    let c3 : Calibration = record c2 {
      color_correction = value_or t.color_correction c.color_correction;
    } in
    let c4 : Calibration = record c3 {
      color_temperature = value_or t.color_temperature c.color_temperature;
    } in
    decode_fields-included 0 w32 t.time_offset_bits
      (included 1 w8 t.brightness_cap (
        included 2 w8 t.palette_override
          (included 3 w32 t.color_correction (included 4 w32 t.color_temperature []))))
      c (λ v. record c { time_offset_ms = v }) c.time_offset_ms h0 (λ v. refl) refl
    ∙ decode_fields-included 1 w8 t.brightness_cap
        (included 2 w8 t.palette_override
          (included 3 w32 t.color_correction (included 4 w32 t.color_temperature [])))
        c0 (λ v. record c0 { brightness_cap = v }) c.brightness_cap h1 (λ v. refl) refl
    ∙ decode_fields-included 2 w8 t.palette_override
        (included 3 w32 t.color_correction (included 4 w32 t.color_temperature [])) c1
        (λ v. record c1 { palette_override = v }) c.palette_override h2 (λ v. refl) refl
    ∙ decode_fields-included 3 w32 t.color_correction (included 4 w32 t.color_temperature []) c2
        (λ v. record c2 { color_correction = v }) c.color_correction h3 (λ v. refl) refl
    ∙ decode_fields-included 4 w32 t.color_temperature [] c3
        (λ v. record c3 { color_temperature = v }) c.color_temperature h4 (λ v. refl) refl
