-- ===== src/Color/Policy.antt =====
-- The output policy of led_color.h: colour correction, temperature, master brightness and the
-- power scale.
use led_orchestra.Base.{ℕ, ◌+◌, ◌*◌, ◌/◌, ◌≤◌, ◌<◌, ◌≡◌, ◌||◌, arith, leb, ◌==◌, if◌then◌else◌}
use led_orchestra.Base.Words.{u8}
use led_orchestra.Color.{Crgb, rgb, scale8, nscale8}
use led_orchestra.Color.Channels.{scale8-lt, scale8-le, scale8-le_scale, scale8_full}
use led_orchestra.Color.Blending.{IsColor}
use led_orchestra.Color.Palettes.{DimmedTo}
use native.Mathlib.Nat.{div-add-mod, mod-lt}

pub record OutputPolicy : Type 0 where
  pub color_correction : Crgb
  pub color_temperature : Crgb
  pub master_brightness : ℕ
  pub max_milliamps : ℕ
  pub milliamps_per_led_full_white : ℕ

-- The member initialisers.
abbrev pub identity_policy : OutputPolicy
identity_policy = record {
  color_correction = rgb 0xFF 0xFF 0xFF;
  color_temperature = rgb 0xFF 0xFF 0xFF;
  master_brightness = 255;
  max_milliamps = 0;
  milliamps_per_led_full_white = 60;
}

abbrev correct : Crgb → Crgb → Crgb
correct c by = rgb (scale8 c.r by.r) (scale8 c.g by.g) (scale8 c.b by.b)

unfoldable pub apply_output_policy : Crgb → OutputPolicy → Crgb
apply_output_policy c p =
    let corrected = correct (correct c p.color_correction) p.color_temperature in
    if p.master_brightness == 255 then corrected else nscale8 corrected p.master_brightness

unfoldable pub compute_power_scale : ℕ → ℕ → ℕ
compute_power_scale estimated_milliamps budget_milliamps =
    if budget_milliamps == 0 || leb estimated_milliamps budget_milliamps
    then 255
    else u8 (budget_milliamps * 255 / estimated_milliamps)

-- The settings are bytes.
pub record IsPolicy (p : OutputPolicy) : Type 0 where
  pub color_correction : IsColor p.color_correction
  pub color_temperature : IsColor p.color_temperature
  pub master_brightness : p.master_brightness < 256

-- The policy of an uncalibrated node changes no colour of three bytes.
pub apply_output_policy_identity :
    (c : Crgb) → IsColor c → apply_output_policy c identity_policy ≡ c
unfolding apply_output_policy
apply_output_policy_identity c h =
    ground (arith, scale8_full c.r h.r, scale8_full c.g h.g, scale8_full c.b h.b)

-- One colour is at most another in every channel.
abbrev pub NoBrighter : Crgb → Crgb → Type 0
NoBrighter c d = (c.r ≤ d.r) × (c.g ≤ d.g) × (c.b ≤ d.b)

-- One channel through the whole policy: correction `k`, temperature `t` and brightness `m`.
channel_limits :
    (i k t m : ℕ)
    → i < 256
    → k < 256
    → t < 256
    → m < 256
    → (scale8 (scale8 (scale8 i k) t) m ≤ i)
      × (scale8 (scale8 (scale8 i k) t) m ≤ k)
      × (scale8 (scale8 (scale8 i k) t) m ≤ t)
      × (scale8 (scale8 (scale8 i k) t) m ≤ m)
channel_limits i k t m hi hk ht hm =
    let a = scale8-le i k hi hk in
    let b = scale8-le_scale i k hi hk in
    let c = scale8-le (scale8 i k) t (scale8-lt i k) ht in
    let d = scale8-le_scale (scale8 i k) t (scale8-lt i k) ht in
    let e = scale8-le (scale8 (scale8 i k) t) m (scale8-lt _ _) hm in
    let f = scale8-le_scale (scale8 (scale8 i k) t) m (scale8-lt _ _) hm in
    (omega arith, omega arith, omega arith, omega arith)

-- At full master brightness the branch that skips the scaling agrees with it.
apply_output_policy-eq :
    (c : Crgb) (p : OutputPolicy)
    → apply_output_policy c p
      ≡ nscale8 (correct (correct c p.color_correction) p.color_temperature) p.master_brightness
unfolding apply_output_policy nscale8
apply_output_policy-eq c p =
    let full = λ (i s : ℕ). scale8_full (scale8 i s) (scale8-lt i s) in
    ground (
      arith,
      full (scale8 c.r p.color_correction.r) p.color_temperature.r,
      full (scale8 c.g p.color_correction.g) p.color_temperature.g,
      full (scale8 c.b p.color_correction.b) p.color_temperature.b,
    )

-- For a colour and a policy of bytes, the policy never brightens a pixel, and keeps every channel
-- within the correction, the temperature and the master brightness.
pub apply_output_policy_limits :
    (c : Crgb) (p : OutputPolicy)
    → IsColor c
    → IsPolicy p
    → NoBrighter (apply_output_policy c p) c
      × NoBrighter (apply_output_policy c p) p.color_correction
      × NoBrighter (apply_output_policy c p) p.color_temperature
      × DimmedTo p.master_brightness (apply_output_policy c p)
unfolding nscale8
apply_output_policy_limits c p h v =
    let limits = λ (i k t : ℕ). channel_limits i k t p.master_brightness in
    let r =
      limits c.r p.color_correction.r p.color_temperature.r h.r v.color_correction.r
        v.color_temperature.r v.master_brightness in
    let g =
      limits c.g p.color_correction.g p.color_temperature.g h.g v.color_correction.g
        v.color_temperature.g v.master_brightness in
    let b =
      limits c.b p.color_correction.b p.color_temperature.b h.b v.color_correction.b
        v.color_temperature.b v.master_brightness in
    rw (apply_output_policy-eq c p)
      ((r.0, g.0, b.0), (r.1, g.1, b.1), (r.2, g.2, b.2), (r.3, g.3, b.3))

mul-one_more : (a b : ℕ) → a * (b + 1) ≡ a * b + a
mul-one_more a b = omega arith

quotient_byte : (e b : ℕ) → b < e → b * 255 / e < 256
quotient_byte e b h = grind (arith, div-add-mod (b * 255) e)

-- When the estimate exceeds a budget that is not 0, the scale brings it within the budget, and is the
-- largest that does.
pub compute_power_scale_budget :
    (estimated budget : ℕ)
    → 0 < budget
    → budget < estimated
    → (estimated * compute_power_scale estimated budget ≤ budget * 255)
      × (budget * 255 < estimated * (compute_power_scale estimated budget + 1))
unfolding compute_power_scale
compute_power_scale_budget estimated budget hb he = ground (
  arith,
  div-add-mod (budget * 255) estimated,
  mod-lt (budget * 255) {m = estimated} (omega arith),
  mul-one_more estimated (budget * 255 / estimated),
  quotient_byte estimated budget he,
)
