-- ===== src/Examples/Store.antt =====
-- The theorems on the stores at a concrete flash.
use led_orchestra.Base.{ℕ, ◌<◌, ◌≡◌, ◌⊎◌, refl, true, false, List, length, arith}
use led_orchestra.Platform.{esp_ok, node_key}
use led_orchestra.Scene.{Calibration, calib_no_palette_override}
use led_orchestra.Store.{
  config_load, config_save, scene_load, scene_save, calibration_load, calibration_save,
  unknown_override, compiled_defaults, config_magic, record_crc, save_opened, commit_if,
}
use led_orchestra.Store.Layout.{read_config, config_size}
use led_orchestra.Store.RoundTrip.{
  ConfigFits, SceneFits, CalibFits, config_load-save, scene_load-save, calibration_load-save,
}
use led_orchestra.Store.Integrity.{config_load_sound}
use led_orchestra.Examples.Flash.{slots_nvs, slots_laws, erased, build}
use led_orchestra.Examples.Effects.{comet, east}

pub config_saved :
    config_save slots_nvs east erased ≡ (esp_ok, (config_save slots_nvs east erased).1)
unfolding config_save save_opened commit_if
config_saved = refl

pub east-ConfigFits : ConfigFits east
east-ConfigFits = omega arith

config_load-save_example :
    config_load slots_nvs build (config_save slots_nvs east erased).1 ≡ (esp_ok, east, true)
config_load-save_example =
    config_load-save slots_nvs slots_laws build east erased (config_save slots_nvs east erased).1
      east-ConfigFits (omega arith) (omega arith) refl config_saved

pub scene_saved :
    scene_save slots_nvs comet erased ≡ (esp_ok, (scene_save slots_nvs comet erased).1)
unfolding scene_save save_opened commit_if
scene_saved = refl

pub comet-SceneFits : SceneFits comet
comet-SceneFits = omega arith

scene_load-save_example :
    scene_load slots_nvs (scene_save slots_nvs comet erased).1
    ≡ (esp_ok, record comet { scheduled_start_ms = 0 }, true)
scene_load-save_example =
    scene_load-save slots_nvs slots_laws comet erased (scene_save slots_nvs comet erased).1
      comet-SceneFits scene_saved

abbrev pub tuned : Calibration
tuned = record {
  time_offset_ms = 0xFFFFFFE2;
  brightness_cap = 100;
  palette_override = calib_no_palette_override;
  color_correction = 0x00FFC0B0;
  color_temperature = 0x00FFFFFF;
}

pub calibration_saved :
    calibration_save slots_nvs tuned erased ≡ (esp_ok, (calibration_save slots_nvs tuned erased).1)
unfolding calibration_save save_opened commit_if
calibration_saved = refl

pub tuned-CalibFits : CalibFits tuned
tuned-CalibFits = omega arith

pub tuned_override : unknown_override tuned.palette_override ≡ false
unfolding unknown_override
tuned_override = refl

calibration_load-save_example :
    calibration_load slots_nvs (calibration_save slots_nvs tuned erased).1 ≡ (esp_ok, tuned, true)
calibration_load-save_example =
    calibration_load-save slots_nvs slots_laws tuned erased
      (calibration_save slots_nvs tuned erased).1 tuned-CalibFits tuned_override calibration_saved

config_load_sound_example :
    let r = config_load slots_nvs build (config_save slots_nvs east erased).1 in
    ((r.2 ≡ false) × (r.1 ≡ compiled_defaults build))
    ⊎ ((blob : List ℕ) × (slots_nvs.get_blob
            (config_save slots_nvs east erased).1
            node_key
            config_size
          ≡ (esp_ok, blob))
        × ((length blob ≡ config_size)
            × ((read_config blob).magic ≡ config_magic)
            × ((read_config blob).version ≡ 1)
            × ((read_config blob).crc32 ≡ record_crc slots_nvs (read_config blob))
            × (r.1.node_id ≡ (read_config blob).node_id)
            × (r.1.segment_start ≡ (read_config blob).segment_start)
            × (r.1.segment_len ≡ (read_config blob).segment_len)
            × (r.1.total_leds ≡ (read_config blob).total_leds)
            × (0 < r.1.segment_len)
            × (0 < r.1.total_leds)
            × (r.1.led_gpio ≡ 8))
        × (r.2 ≡ true)
        × (r.0 ≡ esp_ok))
config_load_sound_example = config_load_sound slots_nvs build (config_save slots_nvs east erased).1
