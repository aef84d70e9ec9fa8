-- ===== src/Cluster.antt =====
-- matter-prototype/led-node/main/led_orchestra_cluster.cpp: the handlers of the commands of the custom
-- cluster. What the TLV reader of the Matter SDK answers is given as data; a handler's calls of
-- `attribute::update` are listed in their order.
pub mod Fields
pub mod Errors
pub mod Valid
pub mod Server
use led_orchestra.Base.{
  ℕ, ◌^◌, Bool, true, false, not, ◌&&◌, Option, none, some, List, [], ◌∷◌, ◌==◌, if◌then◌else◌,
}
use led_orchestra.Scene.{Scene, NodeConfig, Calibration}
use led_orchestra.Platform.{
  EspErr, esp_ok, esp_fail, esp_err_invalid_arg, esp_err_not_supported, is_ok, Kconfig, Nvs,
}
use led_orchestra.Store.{unknown_override}
use led_orchestra.Renderer.{Renderer, set_scene, set_node_config, set_calibration, sync_clock}

-- What successive calls of `Next` answer until one is not CHIP_NO_ERROR: elements, then the end, with
-- whether `ExitContainer` succeeds there, or an error. An element has its context tag, if its tag is one,
-- and what `DataModel::Decode` makes of it for an unsigned integer of so many bits.
pub data Elements : Type 0 where
  end_of_tlv : Bool → Elements
  tlv_error : Elements
  element : Option ℕ → (ℕ → Option ℕ) → Elements → Elements

pub record Payload : Type 0 where
  pub is_structure : Bool
  pub enters : Bool
  pub elements : Elements

-- `ConcreteCommandPath`.
pub record CommandPath : Type 0 where
  pub endpoint_id : ℕ
  pub cluster_id : ℕ
  pub command_id : ℕ

abbrev pub cluster_id : ℕ
cluster_id = 0xFFF1FC00

-- The loop over the elements, `field` being the switch on a context tag: `none` is ESP_FAIL.
unfoldable pub decode_fields {ℓ} :
    {A : Type ℓ} → (ℕ → (ℕ → Option ℕ) → A → Option A) → Elements → A → Option A
decode_fields field (end_of_tlv exits) a = if exits then some a else none
decode_fields field tlv_error a = none
decode_fields field (element none decode rest) a = none
decode_fields field (element (some tag) decode rest) a = elim (field tag decode a) [
  | none ↦ none
  | some b ↦ decode_fields field rest b
]

-- `enter_struct`, then the loop.
unfoldable pub decode_payload {ℓ} :
    {A : Type ℓ} → (ℕ → (ℕ → Option ℕ) → A → Option A) → Payload → A → Option A
decode_payload field p a =
    if not p.is_structure
    then none
    else if not p.enters
    then none
    else decode_fields field p.elements a

-- Decoding into one field: `decode_value` and the assignment.
abbrev pub stored {ℓ} : {A : Type ℓ} → (ℕ → A) → Option ℕ → Option A
stored set none = none
stored set (some value) = some (set value)

unfoldable pub scene_field : ℕ → (ℕ → Option ℕ) → Scene → Option Scene
scene_field tag decode s =
    if tag == 0
    then stored (λ v. record s { effect = v }) (decode 8)
    else if tag == 1
    then stored (λ v. record s { red = v }) (decode 8)
    else if tag == 2
    then stored (λ v. record s { green = v }) (decode 8)
    else if tag == 3
    then stored (λ v. record s { blue = v }) (decode 8)
    else if tag == 4
    then stored (λ v. record s { speed = v }) (decode 8)
    else if tag == 5
    then stored (λ v. record s { brightness = v }) (decode 8)
    else if tag == 6
    then stored (λ v. record s { sequence = v }) (decode 32)
    else if tag == 7
    then stored (λ v. record s { scheduled_start_ms = v }) (decode 64)
    else some s

unfoldable pub config_field : ℕ → (ℕ → Option ℕ) → NodeConfig → Option NodeConfig
config_field tag decode c =
    if tag == 0
    then stored (λ v. record c { node_id = v }) (decode 16)
    else if tag == 1
    then stored (λ v. record c { segment_start = v }) (decode 16)
    else if tag == 2
    then stored (λ v. record c { segment_len = v }) (decode 16)
    else if tag == 3
    then stored (λ v. record c { total_leds = v }) (decode 16)
    else if tag == 4
    then stored (λ v. record c { led_gpio = v }) (decode 8)
    else some c

unfoldable pub clock_field : ℕ → (ℕ → Option ℕ) → ℕ → Option ℕ
clock_field tag decode time = if tag == 0 then stored (λ v. v) (decode 64) else some time

-- The offset is carried as the bit pattern that `time_offset_ms` is here.
unfoldable pub calibration_field : ℕ → (ℕ → Option ℕ) → Calibration → Option Calibration
calibration_field tag decode c =
    if tag == 0
    then stored (λ v. record c { time_offset_ms = v }) (decode 32)
    else if tag == 1
    then stored (λ v. record c { brightness_cap = v }) (decode 8)
    else if tag == 2
    then stored (λ v. record c { palette_override = v }) (decode 8)
    else if tag == 3
    then stored (λ v. record c { color_correction = v }) (decode 32)
    else if tag == 4
    then stored (λ v. record c { color_temperature = v }) (decode 32)
    else some c

-- `expect_target`; `light_endpoint_id` is the endpoint of the node.
unfoldable pub expect_target : ℕ → CommandPath → ℕ → Bool
expect_target light_endpoint_id path command_id =
    (path.endpoint_id == light_endpoint_id)
    && (path.cluster_id == cluster_id)
    && (path.command_id == command_id)

-- One call `attribute::update` on the cluster: the attribute and its new value.
pub record Update : Type 0 where
  pub attribute : ℕ
  pub value : ℕ

module _ (nvs : Nvs) where
  open nvs use {Flash}

  -- The error, the state, and the updates of the attributes.
  abbrev pub Outcome : Type 0
  Outcome = EspErr × (Renderer × Flash) × List Update

  -- `ESP_RETURN_ON_ERROR` on the renderer's answer, then the updates.
  unfoldable pub applied : EspErr × Renderer × Flash → List Update → Outcome
  applied (err, g, f) updates = (err, (g, f), if is_ok err then updates else [])

  unfoldable pub handle_set_scene : ℕ → CommandPath → Payload → Renderer × Flash → Outcome
  handle_set_scene endpoint path p (g, f) =
      if not (expect_target endpoint path 0)
      then (esp_fail, (g, f), [])
      else elim (decode_payload scene_field p g.scene) [
        | none ↦ (esp_fail, (g, f), [])
        | some s ↦ applied (set_scene nvs s (g, f)) (
            record { attribute = 0; value = s.effect }
            ∷ record { attribute = 6; value = s.sequence }
            ∷ [])
      ]

  unfoldable pub handle_set_node_config :
      Kconfig → ℕ → CommandPath → Payload → Renderer × Flash → Outcome
  handle_set_node_config k endpoint path p (g, f) =
      if not (expect_target endpoint path 1)
      then (esp_fail, (g, f), [])
      else elim (decode_payload config_field p g.node) [
        | none ↦ (esp_fail, (g, f), [])
        | some c ↦ applied (set_node_config nvs k c (g, f)) (
            record { attribute = 1; value = c.segment_start }
            ∷ record { attribute = 2; value = c.segment_len }
            ∷ record { attribute = 3; value = c.total_leds }
            ∷ record { attribute = 4; value = c.led_gpio }
            ∷ [])
      ]

  -- At the monotonic time `now`.
  unfoldable pub handle_sync_clock : ℕ → ℕ → CommandPath → Payload → Renderer × Flash → Outcome
  handle_sync_clock now endpoint path p (g, f) =
      if not (expect_target endpoint path 2)
      then (esp_fail, (g, f), [])
      else elim (decode_payload clock_field p 0) [
        | none ↦ (esp_fail, (g, f), [])
        | some time ↦ (esp_ok, (sync_clock time now g, f), [])
      ]

  unfoldable pub handle_set_calibration : ℕ → CommandPath → Payload → Renderer × Flash → Outcome
  handle_set_calibration endpoint path p (g, f) =
      if not (expect_target endpoint path 3)
      then (esp_fail, (g, f), [])
      else elim (decode_payload calibration_field p g.calibration) [
        | none ↦ (esp_fail, (g, f), [])
        | some c ↦
            if unknown_override c.palette_override
            then (esp_err_invalid_arg, (g, f), [])
            else applied (set_calibration nvs c (g, f)) (
                record { attribute = 7; value = c.brightness_cap }
                ∷ record { attribute = 8; value = c.palette_override }
                ∷ record { attribute = 9; value = c.time_offset_ms }
                ∷ [])
      ]

  unfoldable pub command_callback :
      Kconfig → ℕ → ℕ → CommandPath → Payload → Renderer × Flash → Outcome
  command_callback k now endpoint path p state =
      if path.command_id == 0
      then handle_set_scene endpoint path p state
      else if path.command_id == 1
      then handle_set_node_config k endpoint path p state
      else if path.command_id == 2
      then handle_sync_clock now endpoint path p state
      else if path.command_id == 3
      then handle_set_calibration endpoint path p state
      else (esp_err_not_supported, state, [])
