-- ===== src/Effects/Palettes.antt =====
-- led_orchestra_effects.cpp, the palette registry: sixteen colours for each reference, and the lookups
-- over the table. A lookup that returns a null pointer is `none`.
mod Nature
mod Occasion
use Prim.Native.String.{String}
use led_orchestra.Base.{
  ℕ, Option, none, some, List, [], ◌∷◌, ◌==◌, if◌then◌else◌, get_elem?, length,
}
use led_orchestra.Color.{Crgb, rgb, CrgbPalette16}
use Nature.{aurora_colors, ember_colors, ocean_colors, coral_colors, jungle_colors, ice_colors}
use Occasion.{
  neon_party_colors, gold_score_colors, maintenance_colors, seafoam_surf_colors,
  champagne_rose_colors, independence_colors,
}

abbrev pub palette_aurora : ℕ
palette_aurora = 0

abbrev pub palette_ember : ℕ
palette_ember = 1

abbrev pub palette_ocean : ℕ
palette_ocean = 2

abbrev pub palette_coral : ℕ
palette_coral = 3

abbrev pub palette_jungle : ℕ
palette_jungle = 4

abbrev pub palette_ice : ℕ
palette_ice = 5

abbrev pub palette_neon_party : ℕ
palette_neon_party = 6

abbrev pub palette_gold_score : ℕ
palette_gold_score = 7

abbrev pub palette_maintenance : ℕ
palette_maintenance = 8

abbrev pub palette_seafoam_surf : ℕ
palette_seafoam_surf = 9

abbrev pub palette_champagne_rose : ℕ
palette_champagne_rose = 10

abbrev pub palette_independence : ℕ
palette_independence = 11

pub record PaletteMeta : Type 0 where
  pub ref : ℕ
  pub name : String
  pub description : String

pub record PaletteEntry : Type 0 where
  pub meta : PaletteMeta
  pub colors : List Crgb

abbrev pub palette_entry : ℕ → String → String → List Crgb → PaletteEntry
palette_entry ref name description colors = record {
  meta = record { ref = ref; name = name; description = description };
  colors = colors;
}

unfoldable pub palettes : List PaletteEntry
palettes =
    palette_entry palette_aurora "aurora"
      "Soft teal, green, and blue waves for ambient course lighting." aurora_colors
    ∷ palette_entry palette_ember "ember"
        "Warm ember and lava tones for hazards and dramatic transitions." ember_colors
    ∷ palette_entry palette_ocean "ocean" "Deep blue-green water with bright whitecap accents."
        ocean_colors
    ∷ palette_entry palette_coral "coral" "Coral reef pinks, oranges, sand, and turquoise."
        coral_colors
    ∷ palette_entry palette_jungle "jungle" "Layered greens with lime and gold highlights."
        jungle_colors
    ∷ palette_entry palette_ice "ice" "Cool blue, cyan, and white for crisp high-contrast scenes."
        ice_colors
    ∷ palette_entry palette_neon_party "neon-party"
        "High-energy magenta, cyan, lime, yellow, and blue." neon_party_colors
    ∷ palette_entry palette_gold_score "gold-score"
        "Black-to-gold celebratory scoring palette with white glints." gold_score_colors
    ∷ palette_entry palette_maintenance "maintenance-white-blue"
        "Blue and white diagnostic palette for alignment checks." maintenance_colors
    ∷ palette_entry palette_seafoam_surf "seafoam-surf"
        "Aqua surf tones with bright foamy whitecaps for ocean-theme runs." seafoam_surf_colors
    ∷ palette_entry palette_champagne_rose "champagne-rose"
        "Warm champagne, blush, and rose-gold for birthdays and anniversaries."
        champagne_rose_colors
    ∷ palette_entry palette_independence "independence"
        "Red, white, and blue bands with bright white star glints." independence_colors
    ∷ []

unfoldable pub palette_count : ℕ
unfolding palettes
palette_count = length palettes

unfoldable pub palette_at : ℕ → Option PaletteMeta
unfolding palettes
palette_at index = elim (get_elem? palettes index) [ none ↦ none | some entry ↦ some entry.meta ]

-- The loops of the two lookups, over a table.
unfoldable pub find_palette : List PaletteEntry → ℕ → Option PaletteEntry
find_palette [] palette_ref = none
find_palette (p ∷ ps) palette_ref =
    if p.meta.ref == palette_ref then some p else find_palette ps palette_ref

unfoldable pub palette_meta : ℕ → Option PaletteMeta
palette_meta palette_ref = elim (find_palette palettes palette_ref) [
  | none ↦ none
  | some entry ↦ some entry.meta
]

-- `led_orchestra_palette`: `none` is `false`, and `some` the palette written to `out`.
unfoldable pub palette : ℕ → Option CrgbPalette16
palette palette_ref = elim (find_palette palettes palette_ref) [
  | none ↦ none
  | some entry ↦ some (record { entries = entry.colors })
]
