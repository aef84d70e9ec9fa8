-- ===== src/Store/Integrity.antt =====
-- The loaders of led_orchestra_config_store.cpp over an arbitrary flash.
use led_orchestra.Base.{
  ℕ, ◌<◌, ◌≡◌, ◌⊎◌, inl, inr, refl, true, false, Bool, Option, none, some, List, arith, length,
  Option-cases, sym,
}
use mathlib.Core.Path.{subst}
use led_orchestra.Platform.{
  EspErr, esp_ok, Kconfig, Key, node_key, scene_key, calib_key, Nvs, esp_err_nvs_not_found,
}
use led_orchestra.Scene.{Scene, NodeConfig, Calibration}
use led_orchestra.Store.{
  config_load, scene_load, calibration_load, unknown_override, record_is_sane, scene_record_is_sane,
  calib_record_is_sane, record_crc, scene_record_crc, calib_record_crc, load_record, load_opened,
  accept_config, accept_scene, accept_calib, compiled_defaults, scene_defaults, calib_defaults,
  config_magic, scene_magic, calib_magic,
}
use led_orchestra.Store.Layout.{
  read_config, read_scene, read_calib, config_size, scene_size, calib_size,
}

module _ (nvs : Nvs) where
  -- The answer keeps the defaults, or comes from a blob that was read and accepted.
  abbrev Loaded {ℓ} :
      {A : Type ℓ} → nvs.Flash → Key → ℕ → (List ℕ → Option A) → A → EspErr × A × Bool → Type ℓ
  Loaded f key size accept defaults r =
      ((r.2 ≡ false) × (r.1 ≡ defaults))
      ⊎ ((blob : List ℕ) × (nvs.get_blob f key size ≡ (esp_ok, blob))
          × (accept blob ≡ some r.1)
          × (r.2 ≡ true)
          × (r.0 ≡ esp_ok))

  load_opened-none {ℓ} :
      {A : Type ℓ} (accept : List ℕ → Option A) (defaults : A) (blob : List ℕ)
      → accept blob ≡ none
      → load_opened nvs accept defaults (esp_ok, blob) ≡ (esp_ok, defaults, false)
  unfolding load_opened
  load_opened-none accept defaults blob e = rw (e, load_opened)

  load_opened-some {ℓ} :
      {A : Type ℓ} (accept : List ℕ → Option A) (defaults : A) (blob : List ℕ) (a : A)
      → accept blob ≡ some a
      → load_opened nvs accept defaults (esp_ok, blob) ≡ (esp_ok, a, true)
  unfolding load_opened
  load_opened-some accept defaults blob a e = rw (e, load_opened)

  load_opened-Loaded {ℓ} :
      {A : Type ℓ} (f : nvs.Flash) (key : Key) (size : ℕ) (accept : List ℕ → Option A)
      (defaults : A) (o : EspErr × List ℕ)
      → nvs.get_blob f key size ≡ o
      → Loaded f key size accept defaults (load_opened nvs accept defaults o)
  unfolding load_opened
  load_opened-Loaded f key size accept defaults (esp_ok, blob) h =
      elim (Option-cases (accept blob)) [
        | inl e ↦
            subst (λ r. Loaded f key size accept defaults r)
              (sym (load_opened-none accept defaults blob e)) (inl (refl, refl))
        | inr (a, e) ↦
            subst (λ r. Loaded f key size accept defaults r)
              (sym (load_opened-some accept defaults blob a e)) (inr (blob, h, e, refl, refl))
      ]
  load_opened-Loaded f key size accept defaults (err, blob) h = inl (refl, refl)

  load_record-Loaded {ℓ} :
      {A : Type ℓ} (f : nvs.Flash) (key : Key) (size : ℕ) (accept : List ℕ → Option A)
      (defaults : A) (err : EspErr)
      → Loaded f key size accept defaults (load_record nvs f key size accept defaults err)
  unfolding load_record
  load_record-Loaded f key size accept defaults esp_ok =
      load_opened-Loaded f key size accept defaults _ refl
  load_record-Loaded f key size accept defaults esp_err_nvs_not_found = inl (refl, refl)
  load_record-Loaded f key size accept defaults err = inl (refl, refl)

  accept_config_sound :
      (k : Kconfig) (blob : List ℕ) (c : NodeConfig)
      → accept_config nvs k blob ≡ some c
      → (length blob ≡ config_size)
        × ((read_config blob).magic ≡ config_magic)
        × ((read_config blob).version ≡ 1)
        × ((read_config blob).crc32 ≡ record_crc nvs (read_config blob))
        × (c.node_id ≡ (read_config blob).node_id)
        × (c.segment_start ≡ (read_config blob).segment_start)
        × (c.segment_len ≡ (read_config blob).segment_len)
        × (c.total_leds ≡ (read_config blob).total_leds)
        × (0 < c.segment_len)
        × (0 < c.total_leds)
        × (c.led_gpio ≡ k.led_gpio)
  unfolding record_is_sane
  accept_config_sound k blob c h = ground arith

  -- Whatever the flash holds, the configuration is the compiled one, or has the node, the segment and the
  -- length of the strip that a blob of the right size, magic, version and checksum holds; then its
  -- segment and strip are not empty. In that case its pin is the one of the build.
  pub config_load_sound :
      (k : Kconfig) (f : nvs.Flash)
      → let r = config_load nvs k f in
        ((r.2 ≡ false) × (r.1 ≡ compiled_defaults k))
        ⊎ ((blob : List ℕ) × (nvs.get_blob f node_key config_size ≡ (esp_ok, blob))
            × ((length blob ≡ config_size)
                × ((read_config blob).magic ≡ config_magic)
                × ((read_config blob).version ≡ 1)
                × ((read_config blob).crc32 ≡ record_crc nvs (read_config blob))
                × (r.1.node_id ≡ (read_config blob).node_id)
                × (r.1.segment_start ≡ (read_config blob).segment_start)
                × (r.1.segment_len ≡ (read_config blob).segment_len)
                × (r.1.total_leds ≡ (read_config blob).total_leds)
                × (0 < r.1.segment_len)
                × (0 < r.1.total_leds)
                × (r.1.led_gpio ≡ k.led_gpio))
            × (r.2 ≡ true)
            × (r.0 ≡ esp_ok))
  unfolding config_load
  config_load_sound k f =
      elim (load_record-Loaded f node_key config_size (accept_config nvs k) (compiled_defaults k)
        (nvs.open_readonly f)) [
          | inl d ↦ inl d
          | inr (blob, got, ok, stored, fine) ↦
              inr (blob, got, accept_config_sound k blob _ ok, stored, fine)
        ]

  accept_scene_sound :
      (blob : List ℕ) (s : Scene)
      → accept_scene nvs blob ≡ some s
      → (length blob ≡ scene_size)
        × ((read_scene blob).magic ≡ scene_magic)
        × ((read_scene blob).version ≡ 1)
        × ((read_scene blob).crc32 ≡ scene_record_crc nvs (read_scene blob))
        × (s.scheduled_start_ms ≡ 0)
  unfolding scene_record_is_sane
  accept_scene_sound blob s h = ground arith

  -- Whatever the flash holds, the scene that a node boots with is the default one, or one from a blob
  -- of the right size, magic, version and checksum; it is never a scheduled one.
  pub scene_load_sound :
      (f : nvs.Flash)
      → let r = scene_load nvs f in
        ((r.2 ≡ false) × (r.1 ≡ scene_defaults))
        ⊎ ((blob : List ℕ) × (nvs.get_blob f scene_key scene_size ≡ (esp_ok, blob))
            × ((length blob ≡ scene_size)
                × ((read_scene blob).magic ≡ scene_magic)
                × ((read_scene blob).version ≡ 1)
                × ((read_scene blob).crc32 ≡ scene_record_crc nvs (read_scene blob))
                × (r.1.scheduled_start_ms ≡ 0))
            × (r.2 ≡ true)
            × (r.0 ≡ esp_ok))
  unfolding scene_load
  scene_load_sound f =
      elim (load_record-Loaded f scene_key scene_size (accept_scene nvs) scene_defaults
        (nvs.open_readonly f)) [
          | inl d ↦ inl d
          | inr (blob, got, ok, stored, fine) ↦
              inr (blob, got, accept_scene_sound blob _ ok, stored, fine)
        ]

  accept_calib_sound :
      (blob : List ℕ) (c : Calibration)
      → accept_calib nvs blob ≡ some c
      → (length blob ≡ calib_size)
        × ((read_calib blob).magic ≡ calib_magic)
        × ((read_calib blob).version ≡ 1)
        × ((read_calib blob).crc32 ≡ calib_record_crc nvs (read_calib blob))
        × (unknown_override c.palette_override ≡ false)
  unfolding calib_record_is_sane
  accept_calib_sound blob c h = ground arith

  -- Whatever the flash holds, the calibration is the identity, or one from a blob of the right size,
  -- magic, version and checksum whose palette override is a registered palette or the mark for none.
  pub calibration_load_sound :
      (f : nvs.Flash)
      → let r = calibration_load nvs f in
        ((r.2 ≡ false) × (r.1 ≡ calib_defaults))
        ⊎ ((blob : List ℕ) × (nvs.get_blob f calib_key calib_size ≡ (esp_ok, blob))
            × ((length blob ≡ calib_size)
                × ((read_calib blob).magic ≡ calib_magic)
                × ((read_calib blob).version ≡ 1)
                × ((read_calib blob).crc32 ≡ calib_record_crc nvs (read_calib blob))
                × (unknown_override r.1.palette_override ≡ false))
            × (r.2 ≡ true)
            × (r.0 ≡ esp_ok))
  unfolding calibration_load
  calibration_load_sound f =
      elim (load_record-Loaded f calib_key calib_size (accept_calib nvs) calib_defaults
        (nvs.open_readonly f)) [
          | inl d ↦ inl d
          | inr (blob, got, ok, stored, fine) ↦
              inr (blob, got, accept_calib_sound blob _ ok, stored, fine)
        ]
