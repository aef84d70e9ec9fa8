-- ===== src/Effects/Registry.antt =====
-- The effect ids of matter-prototype/common/led_orchestra_matter.h and the effect metadata table of
-- led_orchestra_effects.cpp.
use Prim.Native.String.{String}
use led_orchestra.Base.{
  ℕ, Bool, true, false, Option, none, some, List, [], ◌∷◌, ◌==◌, if◌then◌else◌, get_elem?, length,
}
use led_orchestra.Effects.Palettes.{
  palette_aurora, palette_ocean, palette_coral, palette_neon_party, palette_gold_score,
  palette_seafoam_surf, palette_champagne_rose, palette_independence,
}

abbrev pub effect_off : ℕ
effect_off = 0

abbrev pub effect_solid : ℕ
effect_solid = 1

abbrev pub effect_rainbow : ℕ
effect_rainbow = 2

abbrev pub effect_fibonacci : ℕ
effect_fibonacci = 3

abbrev pub effect_aurora_breathe : ℕ
effect_aurora_breathe = 4

abbrev pub effect_comet : ℕ
effect_comet = 5

abbrev pub effect_theater_chase : ℕ
effect_theater_chase = 6

abbrev pub effect_palette_cycle : ℕ
effect_palette_cycle = 7

abbrev pub effect_twinkle : ℕ
effect_twinkle = 8

abbrev pub effect_ocean_drift : ℕ
effect_ocean_drift = 9

abbrev pub effect_color_wave : ℕ
effect_color_wave = 10

abbrev pub effect_pulse_reveal : ℕ
effect_pulse_reveal = 11

abbrev pub effect_celebration : ℕ
effect_celebration = 12

abbrev pub effect_identify : ℕ
effect_identify = 13

abbrev pub effect_tidal_surge : ℕ
effect_tidal_surge = 14

abbrev pub effect_party_confetti : ℕ
effect_party_confetti = 15

abbrev pub effect_champagne_toast : ℕ
effect_champagne_toast = 16

abbrev pub effect_independence : ℕ
effect_independence = 17

-- How a scene parameter is used.
pub data LoParamUse : Type 0 where
  param_ignored param_color param_speed param_palette : LoParamUse

pub record EffectMeta : Type 0 where
  pub id : ℕ
  pub name : String
  pub description : String
  pub color_use : LoParamUse
  pub scrolls : Bool
  pub palette_ref : ℕ

abbrev pub no_palette : ℕ
no_palette = 0xFF

abbrev pub effect_entry : ℕ → String → String → LoParamUse → Bool → ℕ → EffectMeta
effect_entry id name description color_use scrolls palette_ref = record {
  id = id;
  name = name;
  description = description;
  color_use = color_use;
  scrolls = scrolls;
  palette_ref = palette_ref;
}

unfoldable pub effects : List EffectMeta
effects =
    effect_entry effect_off "off" "All LEDs dark." param_ignored false no_palette
    ∷ effect_entry effect_solid "solid" "Single color from red/green/blue at brightness."
        param_color false no_palette
    ∷ effect_entry effect_rainbow "rainbow"
        "Hue sweep across the virtual strip; scrolls with speed." param_ignored true no_palette
    ∷ effect_entry effect_fibonacci "fibonacci"
        "Per-pixel R/G/B are consecutive Fibonacci numbers (mod 256) along the strip; scrolls with speed."
        param_ignored true no_palette
    ∷ effect_entry effect_aurora_breathe "aurora-breathe"
        "Soft overlapping color waves with a breathing intensity curve; scrolls with speed."
        param_palette true palette_aurora
    ∷ effect_entry effect_comet "comet"
        "Single-color comet with a smooth fading tail; scrolls with speed." param_color true
        no_palette
    ∷ effect_entry effect_theater_chase "theater-chase"
        "Three-phase single-color chase pattern; scrolls with speed." param_color true no_palette
    ∷ effect_entry effect_palette_cycle "palette-cycle"
        "Aurora palette gradient across the virtual strip; scrolls with speed." param_palette true
        palette_aurora
    ∷ effect_entry effect_twinkle "twinkle"
        "Deterministic sparse single-color twinkles keyed by global LED index and synchronized time."
        param_color true no_palette
    ∷ effect_entry effect_ocean_drift "ocean-drift"
        "Ambient layered underwater drift sampled from a palette (default ocean); slow and band-free."
        param_palette true palette_ocean
    ∷ effect_entry effect_color_wave "color-wave"
        "Luminous palette crest that travels the whole virtual strip; tune hole-to-hole with the per-node time offset for one continuous wave across gaps."
        param_palette true palette_aurora
    ∷ effect_entry effect_pulse_reveal "pulse-reveal"
        "Bright palette pulse sweeping over a dim wash; an attraction reveal cue. Default coral palette."
        param_palette true palette_coral
    ∷ effect_entry effect_celebration "celebration"
        "Celebratory gold sparkle and shimmer for a scoring moment; default gold-score palette."
        param_palette true palette_gold_score
    ∷ effect_entry effect_identify "identify"
        "Install/diagnostics: this node's segment in a color keyed to its node id, white-tipped ends, slow blink, for mapping physical strips to node ids."
        param_ignored true no_palette
    ∷ effect_entry effect_tidal_surge "tidal-surge"
        "Layered tide motion with bright whitecaps and deep undertow; default seafoam-surf palette."
        param_palette true palette_seafoam_surf
    ∷ effect_entry effect_party_confetti "party-confetti"
        "High-energy palette confetti bursts over a dim wash for birthday and full-venue party scenes."
        param_palette true palette_neon_party
    ∷ effect_entry effect_champagne_toast "champagne-toast"
        "Soft champagne shimmer with elegant glints for anniversaries and other occasion scenes."
        param_palette true palette_champagne_rose
    ∷ effect_entry effect_independence "independence"
        "Red, white, and blue moving bands with bright white star glints for patriotic scenes."
        param_palette true palette_independence
    ∷ []

unfoldable pub effect_count : ℕ
unfolding effects
effect_count = length effects

unfoldable pub effect_at : ℕ → Option EffectMeta
unfolding effects
effect_at index = get_elem? effects index

unfoldable pub find_effect : List EffectMeta → ℕ → Option EffectMeta
find_effect [] effect_id = none
find_effect (m ∷ ms) effect_id = if m.id == effect_id then some m else find_effect ms effect_id

unfoldable pub effect_meta : ℕ → Option EffectMeta
effect_meta effect_id = find_effect effects effect_id
