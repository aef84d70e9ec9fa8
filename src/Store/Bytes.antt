-- ===== src/Store/Bytes.antt =====
-- The packed layouts of led_orchestra_config_store.cpp: a record and its bytes.
use led_orchestra.Base.{ℕ, ◌<◌, ◌^◌, ◌≡◌, refl, arith, length, ◌*◌, ◌+◌, ◌/◌, ◌%◌}
use led_orchestra.Store.Layout.{
  ConfigRecord, SceneRecord, CalibRecord, config_bytes, scene_bytes, calib_bytes, read_config,
  read_scene, read_calib, config_size, scene_size, calib_size,
}

pub record ConfigRecordFits (r : ConfigRecord) : Type 0 where
  pub magic : r.magic < 2 ^ 32
  pub version : r.version < 2 ^ 16
  pub reserved : r.reserved < 2 ^ 16
  pub node_id : r.node_id < 2 ^ 16
  pub segment_start : r.segment_start < 2 ^ 16
  pub segment_len : r.segment_len < 2 ^ 16
  pub total_leds : r.total_leds < 2 ^ 16
  pub led_gpio : r.led_gpio < 2 ^ 8
  pub pad : r.pad < 2 ^ 8
  pub crc32 : r.crc32 < 2 ^ 32

pub record SceneRecordFits (r : SceneRecord) : Type 0 where
  pub magic : r.magic < 2 ^ 32
  pub version : r.version < 2 ^ 16
  pub reserved : r.reserved < 2 ^ 16
  pub effect : r.effect < 2 ^ 8
  pub red : r.red < 2 ^ 8
  pub green : r.green < 2 ^ 8
  pub blue : r.blue < 2 ^ 8
  pub speed : r.speed < 2 ^ 8
  pub brightness : r.brightness < 2 ^ 8
  pub pad0 : r.pad0 < 2 ^ 8
  pub pad1 : r.pad1 < 2 ^ 8
  pub sequence : r.sequence < 2 ^ 32
  pub crc32 : r.crc32 < 2 ^ 32

pub record CalibRecordFits (r : CalibRecord) : Type 0 where
  pub magic : r.magic < 2 ^ 32
  pub version : r.version < 2 ^ 16
  pub reserved : r.reserved < 2 ^ 16
  pub time_offset_ms : r.time_offset_ms < 2 ^ 32
  pub brightness_cap : r.brightness_cap < 2 ^ 8
  pub palette_override : r.palette_override < 2 ^ 8
  pub pad0 : r.pad0 < 2 ^ 8
  pub pad1 : r.pad1 < 2 ^ 8
  pub color_correction : r.color_correction < 2 ^ 32
  pub color_temperature : r.color_temperature < 2 ^ 32
  pub crc32 : r.crc32 < 2 ^ 32

word_bytes :
    (n : ℕ)
    → n < 2 ^ 32
    → n % 256 + 256 * (n / 256 % 256) + 65536 * (n / 65536 % 256) + 16777216 * (n / 16777216 % 256)
      ≡ n
word_bytes n h = omega arith

half_bytes : (n : ℕ) → n < 2 ^ 16 → n % 256 + 256 * (n / 256 % 256) ≡ n
half_bytes n h = omega arith

byte : (n : ℕ) → n < 2 ^ 8 → n % 256 ≡ n
byte n h = omega arith

pub read_config-config_bytes :
    (r : ConfigRecord) → ConfigRecordFits r → read_config (config_bytes r) ≡ r
unfolding read_config config_bytes
read_config-config_bytes r v = λ i. record {
  magic = word_bytes r.magic v.magic i;
  version = half_bytes r.version v.version i;
  reserved = half_bytes r.reserved v.reserved i;
  node_id = half_bytes r.node_id v.node_id i;
  segment_start = half_bytes r.segment_start v.segment_start i;
  segment_len = half_bytes r.segment_len v.segment_len i;
  total_leds = half_bytes r.total_leds v.total_leds i;
  led_gpio = byte r.led_gpio v.led_gpio i;
  pad = byte r.pad v.pad i;
  crc32 = word_bytes r.crc32 v.crc32 i;
}

pub length-config_bytes : (r : ConfigRecord) → length (config_bytes r) ≡ config_size
unfolding config_bytes
length-config_bytes r = refl

pub read_scene-scene_bytes : (r : SceneRecord) → SceneRecordFits r → read_scene (scene_bytes r) ≡ r
unfolding read_scene scene_bytes
read_scene-scene_bytes r v = λ i. record {
  magic = word_bytes r.magic v.magic i;
  version = half_bytes r.version v.version i;
  reserved = half_bytes r.reserved v.reserved i;
  effect = byte r.effect v.effect i;
  red = byte r.red v.red i;
  green = byte r.green v.green i;
  blue = byte r.blue v.blue i;
  speed = byte r.speed v.speed i;
  brightness = byte r.brightness v.brightness i;
  pad0 = byte r.pad0 v.pad0 i;
  pad1 = byte r.pad1 v.pad1 i;
  sequence = word_bytes r.sequence v.sequence i;
  crc32 = word_bytes r.crc32 v.crc32 i;
}

pub length-scene_bytes : (r : SceneRecord) → length (scene_bytes r) ≡ scene_size
unfolding scene_bytes
length-scene_bytes r = refl

pub read_calib-calib_bytes : (r : CalibRecord) → CalibRecordFits r → read_calib (calib_bytes r) ≡ r
unfolding read_calib calib_bytes
read_calib-calib_bytes r v = λ i. record {
  magic = word_bytes r.magic v.magic i;
  version = half_bytes r.version v.version i;
  reserved = half_bytes r.reserved v.reserved i;
  time_offset_ms = word_bytes r.time_offset_ms v.time_offset_ms i;
  brightness_cap = byte r.brightness_cap v.brightness_cap i;
  palette_override = byte r.palette_override v.palette_override i;
  pad0 = byte r.pad0 v.pad0 i;
  pad1 = byte r.pad1 v.pad1 i;
  color_correction = word_bytes r.color_correction v.color_correction i;
  color_temperature = word_bytes r.color_temperature v.color_temperature i;
  crc32 = word_bytes r.crc32 v.crc32 i;
}

pub length-calib_bytes : (r : CalibRecord) → length (calib_bytes r) ≡ calib_size
unfolding calib_bytes
length-calib_bytes r = refl
