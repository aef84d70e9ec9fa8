-- ===== src/Store/RoundTrip.antt =====
-- Saving and loading again, for each of the three records of led_orchestra_config_store.cpp.
use led_orchestra.Base.{ℕ, ◌^◌, ◌<◌, ◌≤◌, ◌≡◌, refl, true, false, Option, some, List, arith, length}
use led_orchestra.Platform.{
  EspErr, esp_ok, Kconfig, Key, node_key, scene_key, calib_key, Nvs, NvsLaws,
}
use led_orchestra.Scene.{Scene, NodeConfig, Calibration}
use led_orchestra.Store.{
  config_load, config_save, scene_load, scene_save, calibration_load, calibration_save,
  unknown_override, record_is_sane, scene_record_is_sane, calib_record_is_sane, record_crc,
  scene_record_crc, calib_record_crc, config_record, scene_record, calib_record, save_opened,
  commit_if, load_record, load_opened, accept_config, accept_scene, accept_calib,
}
use led_orchestra.Store.Bytes.{
  ConfigRecordFits, read_config-config_bytes, length-config_bytes, SceneRecordFits,
  read_scene-scene_bytes, length-scene_bytes, CalibRecordFits, read_calib-calib_bytes,
  length-calib_bytes,
}
use led_orchestra.Store.Layout.{
  ConfigRecord, SceneRecord, CalibRecord, config_bytes, scene_bytes, calib_bytes, config_prefix,
  scene_prefix, calib_prefix,
}

-- The fields fit their widths.
pub record ConfigFits (c : NodeConfig) : Type 0 where
  pub node_id : c.node_id < 2 ^ 16
  pub segment_start : c.segment_start < 2 ^ 16
  pub segment_len : c.segment_len < 2 ^ 16
  pub total_leds : c.total_leds < 2 ^ 16
  pub led_gpio : c.led_gpio < 2 ^ 8

pub record SceneFits (s : Scene) : Type 0 where
  pub effect : s.effect < 2 ^ 8
  pub red : s.red < 2 ^ 8
  pub green : s.green < 2 ^ 8
  pub blue : s.blue < 2 ^ 8
  pub speed : s.speed < 2 ^ 8
  pub brightness : s.brightness < 2 ^ 8
  pub sequence : s.sequence < 2 ^ 32

pub record CalibFits (c : Calibration) : Type 0 where
  pub time_offset_ms : c.time_offset_ms < 2 ^ 32
  pub brightness_cap : c.brightness_cap < 2 ^ 8
  pub palette_override : c.palette_override < 2 ^ 8
  pub color_correction : c.color_correction < 2 ^ 32
  pub color_temperature : c.color_temperature < 2 ^ 32

module _ (nvs : Nvs) where
  commit_step :
      (o : EspErr × nvs.Flash) (g : nvs.Flash)
      → commit_if nvs o ≡ (esp_ok, g)
      → (f : nvs.Flash) × (o ≡ (esp_ok, f)) × (nvs.commit f ≡ (esp_ok, g))
  unfolding commit_if
  commit_step (esp_ok, f) g h = (f, refl, h)
  commit_step (err, f) g h = cc

  save_step :
      (key : Key) (blob : List ℕ) (o : EspErr × nvs.Flash) (g : nvs.Flash)
      → save_opened nvs key blob o ≡ (esp_ok, g)
      → (f : nvs.Flash) × (o ≡ (esp_ok, f))
        × (commit_if nvs (nvs.set_blob f key blob) ≡ (esp_ok, g))
  unfolding save_opened
  save_step key blob (esp_ok, f) g h = (f, refl, h)
  save_step key blob (err, f) g h = cc

-- A save that succeeds went through all three calls, so the blob can be read back.
save_read_back :
    (nvs : Nvs) (laws : NvsLaws nvs) (f g : nvs.Flash) (key : Key) (blob : List ℕ) (capacity : ℕ)
    → save_opened nvs key blob (nvs.open_readwrite f) ≡ (esp_ok, g)
    → length blob ≤ capacity
    → (nvs.open_readonly g ≡ esp_ok) × (nvs.get_blob g key capacity ≡ (esp_ok, blob))
save_read_back nvs laws f g key blob capacity h fits =
    let (f1, opened, rest) = save_step nvs key blob (nvs.open_readwrite f) g h in
    let (f2, written, committed) = commit_step nvs (nvs.set_blob f1 key blob) g rest in
    laws.read_back f f1 f2 g key blob capacity opened written committed fits

module _ (nvs : Nvs) where
  -- A blob that is there and accepted is what the loader answers with.
  load_accepted {ℓ} :
      {A : Type ℓ} (f : nvs.Flash) (key : Key) (size : ℕ) (blob : List ℕ)
      (accept : List ℕ → Option A) (defaults a : A)
      → (nvs.open_readonly f ≡ esp_ok) × (nvs.get_blob f key size ≡ (esp_ok, blob))
      → accept blob ≡ some a
      → load_record nvs f key size accept defaults (nvs.open_readonly f) ≡ (esp_ok, a, true)
  unfolding load_record load_opened
  load_accepted f key size blob accept defaults a (opened, stored) h =
      rw (opened, load_record, stored, load_opened, h) refl

  config_record-sane :
      (c : NodeConfig)
      → 0 < c.segment_len
      → 0 < c.total_leds
      → record_is_sane nvs (config_record nvs c) ≡ true
  unfolding record_is_sane record_crc config_prefix
  config_record-sane c hl ht = ground arith

  scene_record-sane : (s : Scene) → scene_record_is_sane nvs (scene_record nvs s) ≡ true
  unfolding scene_record_is_sane scene_record_crc scene_prefix
  scene_record-sane s = ground arith

  calib_record-sane :
      (c : Calibration)
      → unknown_override c.palette_override ≡ false
      → calib_record_is_sane nvs (calib_record nvs c) ≡ true
  unfolding calib_record_is_sane calib_record_crc calib_prefix
  calib_record-sane c h = ground arith

module _ (nvs : Nvs) (laws : NvsLaws nvs) where
  record_crc-lt : (r : ConfigRecord) → record_crc nvs r < 2 ^ 32
  unfolding record_crc
  record_crc-lt r = laws.crc_word (config_prefix r)

  scene_record_crc-lt : (r : SceneRecord) → scene_record_crc nvs r < 2 ^ 32
  unfolding scene_record_crc
  scene_record_crc-lt r = laws.crc_word (scene_prefix r)

  calib_record_crc-lt : (r : CalibRecord) → calib_record_crc nvs r < 2 ^ 32
  unfolding calib_record_crc
  calib_record_crc-lt r = laws.crc_word (calib_prefix r)

  accept_config-saved :
      (k : Kconfig) (c : NodeConfig)
      → ConfigFits c
      → 0 < c.segment_len
      → 0 < c.total_leds
      → c.led_gpio ≡ k.led_gpio
      → accept_config nvs k (config_bytes (config_record nvs c)) ≡ some c
  accept_config-saved k c v hl ht hg =
      let r = config_record nvs c in
      let crc = record_crc-lt (record r { crc32 = 0 }) in
      let fits : ConfigRecordFits r = omega arith in
      rw (length-config_bytes r, read_config-config_bytes r fits, config_record-sane nvs c hl ht)
        (ground arith)

  accept_scene-saved :
      (s : Scene)
      → SceneFits s
      → accept_scene nvs (scene_bytes (scene_record nvs s))
        ≡ some (record s { scheduled_start_ms = 0 })
  accept_scene-saved s v =
      let r = scene_record nvs s in
      let crc = scene_record_crc-lt (record r { crc32 = 0 }) in
      let fits : SceneRecordFits r = omega arith in
      rw (length-scene_bytes r, read_scene-scene_bytes r fits, scene_record-sane nvs s) refl

  accept_calib-saved :
      (c : Calibration)
      → CalibFits c
      → unknown_override c.palette_override ≡ false
      → accept_calib nvs (calib_bytes (calib_record nvs c)) ≡ some c
  accept_calib-saved c v h =
      let r = calib_record nvs c in
      let crc = calib_record_crc-lt (record r { crc32 = 0 }) in
      let fits : CalibRecordFits r = omega arith in
      rw (length-calib_bytes r, read_calib-calib_bytes r fits, calib_record-sane nvs c h) refl

  -- A configuration that was saved is loaded after the power cycle, marked as stored, if it is one
  -- that the renderer accepts: fields within their widths, a segment and a strip that are not empty,
  -- and the pin of the build.
  pub config_load-save :
      (k : Kconfig) (c : NodeConfig) (f g : nvs.Flash)
      → ConfigFits c
      → 0 < c.segment_len
      → 0 < c.total_leds
      → c.led_gpio ≡ k.led_gpio
      → config_save nvs c f ≡ (esp_ok, g)
      → config_load nvs k g ≡ (esp_ok, c, true)
  unfolding config_load config_save
  config_load-save k c f g v hl ht hg h =
      let r = config_record nvs c in
      load_accepted nvs g node_key 22 (config_bytes r) (accept_config nvs k) _ c
        (save_read_back nvs laws f g node_key (config_bytes r) 22 h
          (omega (arith, length-config_bytes r)))
        (accept_config-saved k c v hl ht hg)

  -- A scene with fields within their widths that was saved is loaded after the power cycle, marked as
  -- stored, but for its deadline, which is cleared.
  pub scene_load-save :
      (s : Scene) (f g : nvs.Flash)
      → SceneFits s
      → scene_save nvs s f ≡ (esp_ok, g)
      → scene_load nvs g ≡ (esp_ok, record s { scheduled_start_ms = 0 }, true)
  unfolding scene_load scene_save
  scene_load-save s f g v h =
      let r = scene_record nvs s in
      load_accepted nvs g scene_key 24 (scene_bytes r) (accept_scene nvs) _ _
        (save_read_back nvs laws f g scene_key (scene_bytes r) 24 h
          (omega (arith, length-scene_bytes r)))
        (accept_scene-saved s v)

  -- A calibration with fields within their widths and a known palette override, or none, is loaded
  -- after the power cycle as it was saved, marked as stored.
  pub calibration_load-save :
      (c : Calibration) (f g : nvs.Flash)
      → CalibFits c
      → unknown_override c.palette_override ≡ false
      → calibration_save nvs c f ≡ (esp_ok, g)
      → calibration_load nvs g ≡ (esp_ok, c, true)
  unfolding calibration_load calibration_save
  calibration_load-save c f g v k h =
      let r = calib_record nvs c in
      load_accepted nvs g calib_key 28 (calib_bytes r) (accept_calib nvs) _ c
        (save_read_back nvs laws f g calib_key (calib_bytes r) 28 h
          (omega (arith, length-calib_bytes r)))
        (accept_calib-saved c v k)
