-- ===== src/Store.antt =====
-- matter-prototype/led-node/main/led_orchestra_config_store.cpp: the three records that survive a power
-- cycle. `Store.Layout` has the packed layouts; here are the integrity checks, the loaders and the
-- savers. A loader answers with the error, what it leaves in `out`, and `from_nvs`.
pub mod Layout
pub mod Bytes
pub mod RoundTrip
pub mod Integrity
use led_orchestra.Base.{
  ℕ, ◌+◌, ◌*◌, Bool, true, false, not, ◌&&◌, ◌||◌, Option, none, some, List, [], ◌∷◌, ◌++◌, length,
  ◌==◌, if◌then◌else◌,
}
use led_orchestra.Platform.{
  EspErr, esp_ok, esp_fail, esp_err_invalid_arg, esp_err_not_supported, esp_err_nvs_not_found,
  other_error, is_ok, Kconfig, Key, node_key, scene_key, calib_key, Nvs,
}
use led_orchestra.Scene.{Scene, NodeConfig, Calibration, calib_no_palette_override}
use led_orchestra.Effects.Registry.{effect_rainbow}
use led_orchestra.Effects.Palettes.{palette_meta}
use Layout.{
  ConfigRecord, SceneRecord, CalibRecord, config_prefix, scene_prefix, calib_prefix, config_bytes,
  scene_bytes, calib_bytes, read_config, read_scene, read_calib, config_size, scene_size,
  calib_size,
}

abbrev pub config_magic : ℕ
config_magic = 0x4C45444F

abbrev pub scene_magic : ℕ
scene_magic = 0x4C45444E

abbrev pub calib_magic : ℕ
calib_magic = 0x4C454443

-- `kConfigVersion`, `kSceneVersion` and `kCalibVersion`.
abbrev pub record_version : ℕ
record_version = 1

unfoldable pub compiled_defaults : Kconfig → NodeConfig
compiled_defaults k = record {
  node_id = k.node_id;
  segment_start = k.segment_start;
  segment_len = k.segment_length;
  total_leds = k.total_leds;
  led_gpio = k.led_gpio;
}

unfoldable pub scene_defaults : Scene
scene_defaults = record {
  effect = effect_rainbow;
  red = 0;
  green = 0;
  blue = 0;
  speed = 128;
  brightness = 40;
  sequence = 0;
  scheduled_start_ms = 0;
}

unfoldable pub calib_defaults : Calibration
calib_defaults = record {
  time_offset_ms = 0;
  brightness_cap = 255;
  palette_override = calib_no_palette_override;
  color_correction = 0x00FFFFFF;
  color_temperature = 0x00FFFFFF;
}

-- `palette_override != kCalibNoPaletteOverride && led_orchestra_palette_meta(…) == nullptr`.
unfoldable pub unknown_override : ℕ → Bool
unknown_override ref =
    not (ref == calib_no_palette_override)
    && elim (palette_meta ref) [ none ↦ true | some m ↦ false ]

module _ (nvs : Nvs) where
  open nvs use {Flash, open_readonly, open_readwrite, get_blob, set_blob, commit, crc32_le}

  unfoldable pub record_crc : ConfigRecord → ℕ
  record_crc r = crc32_le (config_prefix r)

  unfoldable pub scene_record_crc : SceneRecord → ℕ
  scene_record_crc r = crc32_le (scene_prefix r)

  unfoldable pub calib_record_crc : CalibRecord → ℕ
  calib_record_crc r = crc32_le (calib_prefix r)

  unfoldable pub record_is_sane : ConfigRecord → Bool
  record_is_sane r =
      (r.magic == config_magic)
      && (r.version == record_version)
      && (r.crc32 == record_crc r)
      && not ((r.segment_len == 0) || (r.total_leds == 0))

  unfoldable pub scene_record_is_sane : SceneRecord → Bool
  scene_record_is_sane r =
      (r.magic == scene_magic) && (r.version == record_version) && (r.crc32 == scene_record_crc r)

  unfoldable pub calib_record_is_sane : CalibRecord → Bool
  calib_record_is_sane r =
      (r.magic == calib_magic)
      && (r.version == record_version)
      && (r.crc32 == calib_record_crc r)
      && not (unknown_override r.palette_override)

  -- The body that the three loaders share: `accept` is what follows a successful read, and `none`
  -- there keeps the defaults.
  load_opened {ℓ} : {A : Type ℓ} → (List ℕ → Option A) → A → EspErr × List ℕ → EspErr × A × Bool
  load_opened accept defaults (esp_ok, blob) = elim (accept blob) [
    | none ↦ (esp_ok, defaults, false)
    | some a ↦ (esp_ok, a, true)
  ]
  load_opened accept defaults (err, blob) = (esp_ok, defaults, false)

  load_record {ℓ} :
      {A : Type ℓ} → Flash → Key → ℕ → (List ℕ → Option A) → A → EspErr → EspErr × A × Bool
  load_record f key size accept defaults esp_ok = load_opened accept defaults (get_blob f key size)
  load_record f key size accept defaults esp_err_nvs_not_found = (esp_ok, defaults, false)
  load_record f key size accept defaults err = (err, defaults, false)

  abbrev pub config_of : Kconfig → ConfigRecord → NodeConfig
  config_of k r = record {
    node_id = r.node_id;
    segment_start = r.segment_start;
    segment_len = r.segment_len;
    total_leds = r.total_leds;
    led_gpio = if not (r.led_gpio == k.led_gpio) then k.led_gpio else r.led_gpio;
  }

  abbrev pub accept_config : Kconfig → List ℕ → Option NodeConfig
  accept_config k blob =
      let r = read_config blob in
      if not (length blob == config_size) || not (record_is_sane r)
      then none
      else some (config_of k r)

  abbrev pub accept_scene : List ℕ → Option Scene
  accept_scene blob =
      let r = read_scene blob in
      if not (length blob == scene_size) || not (scene_record_is_sane r)
      then none
      else some (record {
        effect = r.effect;
        red = r.red;
        green = r.green;
        blue = r.blue;
        speed = r.speed;
        brightness = r.brightness;
        sequence = r.sequence;
        scheduled_start_ms = 0;
      })

  abbrev pub accept_calib : List ℕ → Option Calibration
  accept_calib blob =
      let r = read_calib blob in
      if not (length blob == calib_size) || not (calib_record_is_sane r)
      then none
      else some (record {
        time_offset_ms = r.time_offset_ms;
        brightness_cap = r.brightness_cap;
        palette_override = r.palette_override;
        color_correction = r.color_correction;
        color_temperature = r.color_temperature;
      })

  unfoldable pub config_load : Kconfig → Flash → EspErr × NodeConfig × Bool
  unfolding load_record load_opened compiled_defaults
  config_load k f =
      load_record f node_key config_size (accept_config k) (compiled_defaults k) (open_readonly f)

  unfoldable pub scene_load : Flash → EspErr × Scene × Bool
  unfolding load_record load_opened scene_defaults
  scene_load f = load_record f scene_key scene_size accept_scene scene_defaults (open_readonly f)

  unfoldable pub calibration_load : Flash → EspErr × Calibration × Bool
  unfolding load_record load_opened calib_defaults
  calibration_load f =
      load_record f calib_key calib_size accept_calib calib_defaults (open_readonly f)

  -- The tail that the three savers share: open, write the blob, and commit if that went well.
  unfoldable pub commit_if : EspErr × Flash → EspErr × Flash
  commit_if (esp_ok, f) = commit f
  commit_if (err, f) = (err, f)

  unfoldable pub save_opened : Key → List ℕ → EspErr × Flash → EspErr × Flash
  save_opened key blob (esp_ok, f) = commit_if (set_blob f key blob)
  save_opened key blob (err, f) = (err, f)

  -- What `config_save` writes, its checksum filled in last.
  abbrev pub config_record : NodeConfig → ConfigRecord
  config_record c =
      let r : ConfigRecord = record {
        magic = config_magic;
        version = record_version;
        reserved = 0;
        node_id = c.node_id;
        segment_start = c.segment_start;
        segment_len = c.segment_len;
        total_leds = c.total_leds;
        led_gpio = c.led_gpio;
        pad = 0;
        crc32 = 0;
      } in
      record r { crc32 = record_crc r }

  abbrev pub scene_record : Scene → SceneRecord
  scene_record s =
      let r : SceneRecord = record {
        magic = scene_magic;
        version = record_version;
        reserved = 0;
        effect = s.effect;
        red = s.red;
        green = s.green;
        blue = s.blue;
        speed = s.speed;
        brightness = s.brightness;
        pad0 = 0;
        pad1 = 0;
        sequence = s.sequence;
        crc32 = 0;
      } in
      record r { crc32 = scene_record_crc r }

  abbrev pub calib_record : Calibration → CalibRecord
  calib_record c =
      let r : CalibRecord = record {
        magic = calib_magic;
        version = record_version;
        reserved = 0;
        time_offset_ms = c.time_offset_ms;
        brightness_cap = c.brightness_cap;
        palette_override = c.palette_override;
        pad0 = 0;
        pad1 = 0;
        color_correction = c.color_correction;
        color_temperature = c.color_temperature;
        crc32 = 0;
      } in
      record r { crc32 = calib_record_crc r }

  unfoldable pub config_save : NodeConfig → Flash → EspErr × Flash
  unfolding save_opened commit_if
  config_save c f = save_opened node_key (config_bytes (config_record c)) (open_readwrite f)

  unfoldable pub scene_save : Scene → Flash → EspErr × Flash
  unfolding save_opened commit_if
  scene_save s f = save_opened scene_key (scene_bytes (scene_record s)) (open_readwrite f)

  unfoldable pub calibration_save : Calibration → Flash → EspErr × Flash
  unfolding save_opened commit_if
  calibration_save c f = save_opened calib_key (calib_bytes (calib_record c)) (open_readwrite f)
