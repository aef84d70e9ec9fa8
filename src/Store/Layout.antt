-- ===== src/Store/Layout.antt =====
-- The packed records of led_orchestra_config_store.cpp as bytes. The chip is little-endian. A record is
-- read over zeros (`= {}`), so bytes that are missing count as 0.
use led_orchestra.Base.{ℕ, ◌+◌, ◌*◌, ◌/◌, ◌%◌, List, [], ◌∷◌, get_or}

pub record ConfigRecord : Type 0 where
  pub magic : ℕ
  pub version : ℕ
  pub reserved : ℕ
  pub node_id : ℕ
  pub segment_start : ℕ
  pub segment_len : ℕ
  pub total_leds : ℕ
  pub led_gpio : ℕ
  pub pad : ℕ
  pub crc32 : ℕ

pub record SceneRecord : Type 0 where
  pub magic : ℕ
  pub version : ℕ
  pub reserved : ℕ
  pub effect : ℕ
  pub red : ℕ
  pub green : ℕ
  pub blue : ℕ
  pub speed : ℕ
  pub brightness : ℕ
  pub pad0 : ℕ
  pub pad1 : ℕ
  pub sequence : ℕ
  pub crc32 : ℕ

pub record CalibRecord : Type 0 where
  pub magic : ℕ
  pub version : ℕ
  pub reserved : ℕ
  pub time_offset_ms : ℕ
  pub brightness_cap : ℕ
  pub palette_override : ℕ
  pub pad0 : ℕ
  pub pad1 : ℕ
  pub color_correction : ℕ
  pub color_temperature : ℕ
  pub crc32 : ℕ

-- `sizeof` of each.
abbrev pub config_size : ℕ
config_size = 22

abbrev pub scene_size : ℕ
scene_size = 24

abbrev pub calib_size : ℕ
calib_size = 28

-- A `uint16_t` and a `uint32_t` in front of the bytes that follow.
abbrev pub put16 : ℕ → List ℕ → List ℕ
put16 n rest = n % 256 ∷ n / 256 % 256 ∷ rest

abbrev pub put32 : ℕ → List ℕ → List ℕ
put32 n rest = n % 256 ∷ n / 256 % 256 ∷ n / 65536 % 256 ∷ n / 16777216 % 256 ∷ rest

abbrev pub get8 : List ℕ → ℕ → ℕ
get8 bs i = get_or bs i 0

abbrev pub get16 : List ℕ → ℕ → ℕ → ℕ
get16 bs i j = get8 bs i + 256 * get8 bs j

abbrev pub get32 : List ℕ → ℕ → ℕ → ℕ → ℕ → ℕ
get32 bs i j k l = get8 bs i + 256 * get8 bs j + 65536 * get8 bs k + 16777216 * get8 bs l

-- Every byte before `crc32`.
abbrev config_fields : ConfigRecord → List ℕ → List ℕ
config_fields r rest = put32 r.magic (
    put16 r.version (
      put16 r.reserved (
        put16 r.node_id (
          put16 r.segment_start
            (put16 r.segment_len (put16 r.total_leds (r.led_gpio % 256 ∷ r.pad % 256 ∷ rest)))))))

abbrev scene_fields : SceneRecord → List ℕ → List ℕ
scene_fields r rest = put32 r.magic (
    put16 r.version (
      put16 r.reserved (
        r.effect % 256
        ∷ r.red % 256
        ∷ r.green % 256
        ∷ r.blue % 256
        ∷ r.speed % 256
        ∷ r.brightness % 256
        ∷ r.pad0 % 256
        ∷ r.pad1 % 256
        ∷ put32 r.sequence rest)))

abbrev calib_fields : CalibRecord → List ℕ → List ℕ
calib_fields r rest = put32 r.magic (
    put16 r.version (
      put16 r.reserved (
        put32 r.time_offset_ms (
          r.brightness_cap % 256
          ∷ r.palette_override % 256
          ∷ r.pad0 % 256
          ∷ r.pad1 % 256
          ∷ put32 r.color_correction (put32 r.color_temperature rest)))))

unfoldable pub config_prefix : ConfigRecord → List ℕ
config_prefix r = config_fields r []

unfoldable pub scene_prefix : SceneRecord → List ℕ
scene_prefix r = scene_fields r []

unfoldable pub calib_prefix : CalibRecord → List ℕ
calib_prefix r = calib_fields r []

-- The whole record.
unfoldable pub config_bytes : ConfigRecord → List ℕ
config_bytes r = config_fields r (put32 r.crc32 [])

unfoldable pub scene_bytes : SceneRecord → List ℕ
scene_bytes r = scene_fields r (put32 r.crc32 [])

unfoldable pub calib_bytes : CalibRecord → List ℕ
calib_bytes r = calib_fields r (put32 r.crc32 [])

unfoldable pub read_config : List ℕ → ConfigRecord
read_config bs = record {
  magic = get32 bs 0 1 2 3;
  version = get16 bs 4 5;
  reserved = get16 bs 6 7;
  node_id = get16 bs 8 9;
  segment_start = get16 bs 10 11;
  segment_len = get16 bs 12 13;
  total_leds = get16 bs 14 15;
  led_gpio = get8 bs 16;
  pad = get8 bs 17;
  crc32 = get32 bs 18 19 20 21;
}

unfoldable pub read_scene : List ℕ → SceneRecord
read_scene bs = record {
  magic = get32 bs 0 1 2 3;
  version = get16 bs 4 5;
  reserved = get16 bs 6 7;
  effect = get8 bs 8;
  red = get8 bs 9;
  green = get8 bs 10;
  blue = get8 bs 11;
  speed = get8 bs 12;
  brightness = get8 bs 13;
  pad0 = get8 bs 14;
  pad1 = get8 bs 15;
  sequence = get32 bs 16 17 18 19;
  crc32 = get32 bs 20 21 22 23;
}

unfoldable pub read_calib : List ℕ → CalibRecord
read_calib bs = record {
  magic = get32 bs 0 1 2 3;
  version = get16 bs 4 5;
  reserved = get16 bs 6 7;
  time_offset_ms = get32 bs 8 9 10 11;
  brightness_cap = get8 bs 12;
  palette_override = get8 bs 13;
  pad0 = get8 bs 14;
  pad1 = get8 bs 15;
  color_correction = get32 bs 16 17 18 19;
  color_temperature = get32 bs 20 21 22 23;
  crc32 = get32 bs 24 25 26 27;
}
