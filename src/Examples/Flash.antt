-- ===== src/Examples/Flash.antt =====
-- A flash of three slots that meets the assumptions on the non-volatile storage.
use led_orchestra.Base.{
  ℕ, ◌+◌, ◌%◌, ◌^◌, ◌≤◌, ◌≡◌, ◌≢◌, refl, sym, ap, ◌∙◌, Option, none, some, List, [], ◌∷◌, length,
  leb, if◌then◌else◌, arith,
}
use led_orchestra.Platform.{
  EspErr, esp_ok, esp_fail, esp_err_nvs_not_found, Key, node_key, scene_key, calib_key, Nvs,
  NvsLaws, Kconfig,
}
use native.Mathlib.Nat.{mod-lt}

pub record Slots : Type 0 where
  pub node : Option (List ℕ)
  pub scene : Option (List ℕ)
  pub calib : Option (List ℕ)

abbrev slot : Slots → Key → Option (List ℕ)
slot f node_key = f.node
slot f scene_key = f.scene
slot f calib_key = f.calib

abbrev write : Slots → Key → List ℕ → Slots
write f node_key b = record f { node = some b }
write f scene_key b = record f { scene = some b }
write f calib_key b = record f { calib = some b }

abbrev read : ℕ → Option (List ℕ) → EspErr × List ℕ
read size none = (esp_err_nvs_not_found, [])
read size (some b) = if leb (length b) size then (esp_ok, b) else (esp_fail, [])

abbrev sum : List ℕ → ℕ
sum [] = 0
sum (x ∷ xs) = x + sum xs

abbrev pub slots_nvs : Nvs
slots_nvs = record {
  Flash = Slots;
  open_readonly = λ f. esp_ok;
  open_readwrite = λ f. (esp_ok, f);
  get_blob = λ f key size. read size (slot f key);
  set_blob = λ f key b. (esp_ok, write f key b);
  commit = λ f. (esp_ok, f);
  crc32_le = λ bytes. sum bytes % 2 ^ 32;
}

slot-write : (f : Slots) (key : Key) (b : List ℕ) → slot (write f key b) key ≡ some b
slot-write f node_key b = refl
slot-write f scene_key b = refl
slot-write f calib_key b = refl

slot-write_other :
    (f : Slots) (key other : Key) (b : List ℕ)
    → other ≢ key
    → slot (write f key b) other ≡ slot f other
slot-write_other f node_key node_key b h = absurd (h refl)
slot-write_other f node_key scene_key b h = refl
slot-write_other f node_key calib_key b h = refl
slot-write_other f scene_key node_key b h = refl
slot-write_other f scene_key scene_key b h = absurd (h refl)
slot-write_other f scene_key calib_key b h = refl
slot-write_other f calib_key node_key b h = refl
slot-write_other f calib_key scene_key b h = refl
slot-write_other f calib_key calib_key b h = absurd (h refl)

written :
    {f0 f1 f2 f3 : Slots} (key : Key) (b : List ℕ)
    → ◌≡◌ {A = EspErr × Slots} (esp_ok, f0) (esp_ok, f1)
    → ◌≡◌ {A = EspErr × Slots} (esp_ok, write f1 key b) (esp_ok, f2)
    → ◌≡◌ {A = EspErr × Slots} (esp_ok, f2) (esp_ok, f3)
    → write f0 key b ≡ f3
written key b o s c =
    ap (λ (r : EspErr × Slots). write r.1 key b) o
    ∙ ap (λ (r : EspErr × Slots). r.1) s
    ∙ ap (λ (r : EspErr × Slots). r.1) c

fitting : (size : ℕ) (b : List ℕ) → length b ≤ size → read size (some b) ≡ (esp_ok, b)
fitting size b h = ground arith

pub slots_laws : NvsLaws slots_nvs
slots_laws = record {
  read_back = λ f0 f1 f2 f3 key blob size o s c fits. (
    refl,
    ap (λ f. read size (slot f key)) (sym (written key blob o s c))
        ∙ ap (read size) (slot-write f0 key blob)
        ∙ fitting size blob fits,
  );
  other_keys = λ f0 f1 f2 f3 key other blob size o s c ne.
      ap (λ f. read size (slot f other)) (sym (written key blob o s c))
      ∙ ap (read size) (slot-write_other f0 key other blob ne);
  crc_word = λ bytes. mod-lt (sum bytes) (omega arith);
}

abbrev pub erased : Slots
erased = record { node = none; scene = none; calib = none }

abbrev pub build : Kconfig
build = record {
  node_id = 1;
  segment_start = 0;
  segment_length = 60;
  total_leds = 120;
  led_gpio = 8;
  led_count = 60;
}
