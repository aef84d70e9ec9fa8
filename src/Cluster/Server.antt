-- ===== src/Cluster/Server.antt =====
-- `led_orchestra_cluster_create` of led_orchestra_cluster.cpp: what the node serves, with the values that its
-- attributes are created with.
pub mod Mirror
use led_orchestra.Base.{ℕ, Bool, true, false, not, Option, none, some, List, [], ◌∷◌, if◌then◌else◌}
use led_orchestra.Scene.{Scene, NodeConfig, Calibration}
use led_orchestra.Platform.{EspErr, esp_ok, esp_fail, esp_err_invalid_arg}
use led_orchestra.Libc.{codes}
use led_orchestra.Cluster.{Update}

-- The server of the cluster as it is created: the global attributes, the numeric ones, the text of
-- `kFirmwareVersion`, and the commands that `command_callback` takes.
pub record Server : Type 0 where
  pub cluster_revision : ℕ
  pub feature_map : ℕ
  pub attributes : List Update
  pub firmware_version : List ℕ
  pub commands : List ℕ

abbrev pub k_cluster_revision : ℕ
k_cluster_revision = 1

abbrev pub k_firmware_version : List ℕ
k_firmware_version = codes "0.1.0"

-- The calls of `attribute::create` for a number.
abbrev pub created_attributes : Scene → NodeConfig → Calibration → List Update
created_attributes scene config calib =
    record { attribute = 0; value = scene.effect }
    ∷ record { attribute = 1; value = config.segment_start }
    ∷ record { attribute = 2; value = config.segment_len }
    ∷ record { attribute = 3; value = config.total_leds }
    ∷ record { attribute = 4; value = config.led_gpio }
    ∷ record { attribute = 6; value = scene.sequence }
    ∷ record { attribute = 7; value = calib.brightness_cap }
    ∷ record { attribute = 8; value = calib.palette_override }
    ∷ record { attribute = 9; value = calib.time_offset_ms }
    ∷ []

-- Whether there is an endpoint, whether the SDK makes the cluster, and what the three getters of the
-- renderer answer.
unfoldable pub led_orchestra_cluster_create :
    Bool → Bool → Scene → NodeConfig → Calibration → EspErr × Option Server
led_orchestra_cluster_create endpoint made scene config calib =
    if not endpoint then (esp_err_invalid_arg, none) else if not made then (esp_fail, none) else (
      esp_ok,
      some (record {
        cluster_revision = k_cluster_revision;
        feature_map = 0;
        attributes = created_attributes scene config calib;
        firmware_version = k_firmware_version;
        commands = 0 ∷ 1 ∷ 2 ∷ 3 ∷ [];
      }),
    )
