-- ===== src/Platform.antt =====
-- What the firmware takes from outside the repository: the error codes and the non-volatile storage
-- of ESP-IDF, the checksum of the boot ROM, and the settings of the build (Kconfig).
use led_orchestra.Base.{ℕ, ◌≤◌, ◌<◌, ◌^◌, ◌≡◌, ◌≢◌, Bool, true, false, List, length}

pub data EspErr : Type 0 where
  esp_ok esp_fail esp_err_invalid_arg esp_err_not_supported esp_err_nvs_not_found : EspErr
  esp_err_no_mem esp_err_invalid_state esp_err_invalid_size esp_err_not_found : EspErr
  other_error : ℕ → EspErr

abbrev pub is_ok : EspErr → Bool
is_ok esp_ok = true
is_ok esp_fail = false
is_ok esp_err_invalid_arg = false
is_ok esp_err_not_supported = false
is_ok esp_err_nvs_not_found = false
is_ok esp_err_no_mem = false
is_ok esp_err_invalid_state = false
is_ok esp_err_invalid_size = false
is_ok esp_err_not_found = false
is_ok (other_error code) = false

-- CONFIG_LED_ORCHESTRA_*.
pub record Kconfig : Type 0 where
  pub node_id : ℕ
  pub segment_start : ℕ
  pub segment_length : ℕ
  pub total_leds : ℕ
  pub led_gpio : ℕ
  pub led_count : ℕ

-- The keys of the namespace "lo_cfg".
pub data Key : Type 0 where
  node_key scene_key calib_key : Key

-- The calls of nvs.h on the namespace "lo_cfg", and `esp_rom_crc32_le` from 0. `get_blob` is given
-- the size of the buffer, and answers with the bytes that it wrote there.
pub record Nvs : Type 1 where
  pub Flash : Type 0
  pub open_readonly : Flash → EspErr
  pub open_readwrite : Flash → EspErr × Flash
  pub get_blob : Flash → Key → ℕ → EspErr × List ℕ
  pub set_blob : Flash → Key → List ℕ → EspErr × Flash
  pub commit : Flash → EspErr × Flash
  pub crc32_le : List ℕ → ℕ

-- The documented behaviour that the stores rely on: a committed blob is what a later read finds,
-- if the buffer holds it, other keys keep theirs, and the checksum is a `uint32_t`.
pub record NvsLaws (nvs : Nvs) : Type 0 where
  pub read_back :
      (f0 f1 f2 f3 : nvs.Flash) (key : Key) (blob : List ℕ) (capacity : ℕ)
      → nvs.open_readwrite f0 ≡ (esp_ok, f1)
      → nvs.set_blob f1 key blob ≡ (esp_ok, f2)
      → nvs.commit f2 ≡ (esp_ok, f3)
      → length blob ≤ capacity
      → (nvs.open_readonly f3 ≡ esp_ok) × (nvs.get_blob f3 key capacity ≡ (esp_ok, blob))
  pub other_keys :
      (f0 f1 f2 f3 : nvs.Flash) (key other : Key) (blob : List ℕ) (capacity : ℕ)
      → nvs.open_readwrite f0 ≡ (esp_ok, f1)
      → nvs.set_blob f1 key blob ≡ (esp_ok, f2)
      → nvs.commit f2 ≡ (esp_ok, f3)
      → other ≢ key
      → nvs.get_blob f3 other capacity ≡ nvs.get_blob f0 other capacity
  pub crc_word : (bytes : List ℕ) → nvs.crc32_le bytes < 2 ^ 32
