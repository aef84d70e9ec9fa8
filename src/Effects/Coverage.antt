-- ===== src/Effects/Coverage.antt =====
-- The registries of led_orchestra_effects.cpp: ids, references and default palettes.
use mathlib.Core.Path.{subst}
use led_orchestra.Base.{
  ℕ, ◌≤◌, ◌<◌, ◌≡◌, ◌≢◌, ◌⊎◌, inl, inr, Bool, true, false, Option, none, some, ◌&&◌, refl, arith,
  ◌==◌, ltb, List, [], ◌∷◌, all_below, all_below_sound, length, Option-cases,
}
use led_orchestra.Scene.{Scene, NodeConfig}
use led_orchestra.Color.{Crgb, black, CrgbPalette16}
use led_orchestra.Color.Palettes.{AreColors}
use led_orchestra.Effects.{render_effect}
use led_orchestra.Effects.Palettes.{
  palette_meta, palette, find_palette, palettes, PaletteMeta, PaletteEntry,
}
use led_orchestra.Effects.Registry.{
  EffectMeta, effect_meta, effect_count, no_palette, find_effect, effects, LoParamUse,
  param_ignored, param_color, param_speed, param_palette,
}

is_some {ℓ} : {A : Type ℓ} → Option A → Bool
is_some none = false
is_some (some a) = true

all_effects : (EffectMeta → Bool) → List EffectMeta → Bool
all_effects test [] = true
all_effects test (m ∷ ms) = test m && all_effects test ms

-- What the search returns has the id asked for, and passes a test that the whole table passes.
find_effect_sound :
    (test : EffectMeta → Bool) (ms : List EffectMeta) (id : ℕ) (m : EffectMeta)
    → all_effects test ms ≡ true
    → find_effect ms id ≡ some m
    → (m.id ≡ id) × (test m ≡ true)
unfolding find_effect all_effects
find_effect_sound test [] id m ok h = absurd (ground arith)
find_effect_sound test (n ∷ ms) id m ok h = ground (arith, find_effect_sound test ms id m)

id_below : EffectMeta → Bool
id_below m = ltb m.id 18

ids_below_table : all_effects id_below effects ≡ true
unfolding all_effects effects id_below
ids_below_table = refl

found_table : all_below 18 (λ id. is_some (find_effect effects id)) ≡ true
unfolding all_below is_some find_effect effects
found_table = refl

some_of_is_some {ℓ} : {A : Type ℓ} (o : Option A) → is_some o ≡ true → (a : A) × (o ≡ some a)
unfolding is_some
some_of_is_some none h = absurd (ground arith)
some_of_is_some (some a) h = (a, refl)

effect_meta_below : (id : ℕ) → id < 18 → (m : EffectMeta) × (effect_meta id ≡ some m)
unfolding effect_meta
effect_meta_below id h =
    some_of_is_some (find_effect effects id) (all_below_sound 18 _ id found_table h)

effect_meta_sound : (id : ℕ) (m : EffectMeta) → effect_meta id ≡ some m → (m.id ≡ id) × (id < 18)
unfolding effect_meta id_below
effect_meta_sound id m h = ground (arith, find_effect_sound id_below effects id m ids_below_table h)

-- The known ids are those below the number of effects, and each is registered under its own id.
pub effect_meta_known :
    (id : ℕ)
    → (id < effect_count → (m : EffectMeta) × (effect_meta id ≡ some m) × (m.id ≡ id))
      × ((m : EffectMeta) → effect_meta id ≡ some m → id < effect_count)
unfolding effect_count
effect_meta_known id = (found, λ m e. (effect_meta_sound id m e).1)
  where
    found : id < 18 → (m : EffectMeta) × (effect_meta id ≡ some m) × (m.id ≡ id)
    found h = let (m, e) = effect_meta_below id h in (m, e, (effect_meta_sound id m e).0)

unknown_above : (id : ℕ) → effect_meta id ≡ none → 18 ≤ id
unknown_above id h = ground (arith, effect_meta_below id)

-- An id that the registry does not know renders black.
pub render_effect_unknown :
    (scene : Scene) (node : NodeConfig) (g t p : ℕ)
    → effect_meta scene.effect ≡ none
    → render_effect scene node g t p ≡ black
unfolding render_effect
render_effect_unknown scene node g t p h = ground (arith, unknown_above scene.effect h)

is_color : Crgb → Bool
is_color c = ltb c.r 256 && (ltb c.g 256 && ltb c.b 256)

all_colors : List Crgb → Bool
all_colors [] = true
all_colors (c ∷ cs) = is_color c && all_colors cs

all_colors-AreColors : (cs : List Crgb) → all_colors cs ≡ true → AreColors cs
unfolding all_colors is_color
all_colors-AreColors [] h = tt
all_colors-AreColors (c ∷ cs) h = ground (arith, all_colors-AreColors cs)

all_palettes : List PaletteEntry → Bool
all_palettes [] = true
all_palettes (p ∷ ps) = (all_colors p.colors && (length p.colors == 16)) && all_palettes ps

find_palette_sound :
    (ps : List PaletteEntry) (ref : ℕ) (p : PaletteEntry)
    → all_palettes ps ≡ true
    → find_palette ps ref ≡ some p
    → (p.meta.ref ≡ ref) × (all_colors p.colors ≡ true) × (length p.colors ≡ 16)
unfolding find_palette all_palettes
find_palette_sound [] ref p ok h = absurd (ground arith)
find_palette_sound (q ∷ ps) ref p ok h = ground (arith, find_palette_sound ps ref p)

palettes_table : all_palettes palettes ≡ true
unfolding all_palettes palettes all_colors is_color
palettes_table = refl

-- The two palette lookups agree: a reference has a palette exactly if it has metadata, and then the
-- palette is sixteen colours.
pub palette_registered :
    (ref : ℕ)
    → ((palette_meta ref ≡ none) × (palette ref ≡ none))
      ⊎ ((m : PaletteMeta) × (pal : CrgbPalette16) × (palette_meta ref ≡ some m)
          × (m.ref ≡ ref)
          × (palette ref ≡ some pal)
          × AreColors pal.entries
          × (length pal.entries ≡ 16))
unfolding palette_meta palette
palette_registered ref = elim (Option-cases (find_palette palettes ref)) [
  | inl e ↦ inl (ground arith, ground arith)
  | inr (p, e) ↦
      let sound = find_palette_sound palettes ref p palettes_table e in
      inr (
        p.meta,
        record { entries = p.colors },
        ground arith,
        sound.0,
        ground arith,
        all_colors-AreColors p.colors sound.1,
        sound.2,
      )
]

-- A palette that a lookup returns is a palette of colours.
pub palette-AreColors :
    (ref : ℕ) (pal : CrgbPalette16) → palette ref ≡ some pal → AreColors pal.entries
unfolding palette
palette-AreColors ref pal h = elim (Option-cases (find_palette palettes ref)) [
  | inl e ↦ absurd (ground arith)
  | inr (p, e) ↦
      let same : record { entries = p.colors } ≡ pal = ground arith in
      subst (λ (q : CrgbPalette16). AreColors q.entries) same
        (all_colors-AreColors p.colors (find_palette_sound palettes ref p palettes_table e).1)
]

has_default : LoParamUse → EffectMeta → Bool
has_default param_palette m = is_some (palette_meta m.palette_ref)
has_default param_ignored m = m.palette_ref == no_palette
has_default param_color m = m.palette_ref == no_palette
has_default param_speed m = m.palette_ref == no_palette

defaults_table : all_effects (λ m. has_default m.color_use m) effects ≡ true
unfolding all_effects effects has_default is_some palette_meta find_palette palettes
defaults_table = refl

default_cases :
    (kind : LoParamUse) (m : EffectMeta)
    → has_default kind m ≡ true
    → ((kind ≡ param_palette) × ((q : PaletteMeta) × (palette_meta m.palette_ref ≡ some q)))
      ⊎ ((kind ≢ param_palette) × (m.palette_ref ≡ no_palette))
unfolding has_default
default_cases param_palette m h = inl (refl, some_of_is_some (palette_meta m.palette_ref) h)
default_cases param_ignored m h = inr (λ e. cc, ground arith)
default_cases param_color m h = inr (λ e. cc, ground arith)
default_cases param_speed m h = inr (λ e. cc, ground arith)

-- An effect that takes its colour from a palette has a registered default palette, and no other
-- effect names one.
pub default_palette_registered :
    (id : ℕ) (m : EffectMeta)
    → effect_meta id ≡ some m
    → ((m.color_use ≡ param_palette) × ((q : PaletteMeta) × (palette_meta m.palette_ref ≡ some q)))
      ⊎ ((m.color_use ≢ param_palette) × (m.palette_ref ≡ no_palette))
unfolding effect_meta
default_palette_registered id m h =
    default_cases m.color_use m
      (find_effect_sound (λ m. has_default m.color_use m) effects id m defaults_table h).1
