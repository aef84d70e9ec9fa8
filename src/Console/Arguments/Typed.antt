-- ===== src/Console/Arguments/Typed.antt =====
-- The values of a `lo-set-calibration` of led_orchestra_console.cpp and the texts they are typed as.
use mathlib.Core.Option.{none-ne-some}
use mathlib.Core.Bool.{false≢true}
use led_orchestra.Base.{
  ℕ, suc, ◌≡◌, refl, sym, ap, ◌∙◌, inl, inr, Bool, true, not, ◌||◌, Option, none, some, List, [],
  ◌∷◌, leb, length, Bool-cases, ==→eq,
}
use led_orchestra.Libc.{
  codes, strtoull, strtoul, strtoll, digit_value, skip_spaces, read_sign, base_of, read_digits,
}
use led_orchestra.Console.{
  parse_u64, parse_u16, parse_u8, parse_i32_bits, parse_rgb_packed, arg_is_keep, argv,
}
use led_orchestra.Console.Json.{Tuning}
use led_orchestra.Console.Calibration.{
  unless_kept, changes_something, tuning_arguments, set_calibration_arguments,
}

-- How a value is typed: none as `-`, another as a text that is read as this value.
abbrev pub Typed : (List ℕ → Option ℕ) → List ℕ → Option ℕ → Type 0
Typed parse text none = text ≡ codes "-"
Typed parse text (some value) = parse text ≡ some value

-- How the colour correction and the colour temperature are typed: one that the line ends before is none.
abbrev pub TypedRest : List (List ℕ) → Option ℕ → Option ℕ → Type 0
TypedRest [] correction temperature = (correction ≡ none) × (temperature ≡ none)
TypedRest (first ∷ []) correction temperature =
    Typed parse_rgb_packed first correction × (temperature ≡ none)
TypedRest (first ∷ (second ∷ [])) correction temperature =
    Typed parse_rgb_packed first correction × Typed parse_rgb_packed second temperature
TypedRest (first ∷ (second ∷ (third ∷ more))) correction temperature = ⊥

-- How the five values of a tuning are typed.
abbrev pub TypedTuning : List ℕ → List ℕ → List ℕ → List (List ℕ) → Tuning → Type 0
TypedTuning offset brightness palette rest t =
    Typed parse_i32_bits offset t.time_offset_bits
    × Typed parse_u8 brightness t.brightness_cap
    × Typed parse_u8 palette t.palette_override
    × TypedRest rest t.color_correction t.color_temperature

minus_is_keep : arg_is_keep (codes "-") ≡ true
unfolding arg_is_keep
minus_is_keep = refl

arg_is_keep-minus : (text : List ℕ) → arg_is_keep text ≡ true → text ≡ codes "-"
unfolding arg_is_keep
arg_is_keep-minus [] h = absurd (false≢true h)
arg_is_keep-minus (c ∷ []) h = ap (λ (x : ℕ). x ∷ []) (==→eq c b'-' h)
arg_is_keep-minus (c ∷ (d ∷ text)) h = absurd (false≢true h)

minus_is_no_number :
    (parse_i32_bits (codes "-") ≡ none)
    × (parse_u8 (codes "-") ≡ none)
    × (parse_rgb_packed (codes "-") ≡ none)
unfolding parse_i32_bits parse_u8 parse_u64 parse_rgb_packed strtoull strtoul strtoll digit_value
    skip_spaces read_sign base_of read_digits
minus_is_no_number = (refl, refl, refl)

read-Typed :
    (parse : List ℕ → Option ℕ) (text : List ℕ) (value : Option ℕ)
    → parse (codes "-") ≡ none
    → Typed parse text value
    → unless_kept (arg_is_keep text) (parse text) ≡ some value
read-Typed parse text none minus h =
    ap (λ (s : List ℕ). unless_kept (arg_is_keep s) (parse s)) h ∙ rw minus_is_keep refl
read-Typed parse text (some value) minus h = elim (Bool-cases (arg_is_keep text)) [
  | inl keep ↦
      absurd (none-ne-some value (sym minus ∙ ap parse (sym (arg_is_keep-minus text keep)) ∙ h))
  | inr number ↦ rw (number, h) refl
]

tuning_arguments-read :
    (offset brightness palette : List ℕ) (has_correction : Bool) (correction : List ℕ)
    (has_temperature : Bool) (temperature : List ℕ) (t : Tuning)
    → unless_kept (arg_is_keep offset) (parse_i32_bits offset) ≡ some t.time_offset_bits
    → unless_kept (arg_is_keep brightness) (parse_u8 brightness) ≡ some t.brightness_cap
    → unless_kept (arg_is_keep palette) (parse_u8 palette) ≡ some t.palette_override
    → unless_kept (not has_correction || arg_is_keep correction) (parse_rgb_packed correction)
      ≡ some t.color_correction
    → unless_kept (not has_temperature || arg_is_keep temperature) (parse_rgb_packed temperature)
      ≡ some t.color_temperature
    → changes_something t ≡ true
    → tuning_arguments offset brightness palette has_correction correction has_temperature
        temperature
      ≡ some t
unfolding tuning_arguments
tuning_arguments-read offset brightness palette has_correction correction has_temperature
      temperature t o b p c w changes =
    rw (o, b, p, c, w, changes) refl

-- The length of a line of five texts and the rest.
abbrev line_length : List (List ℕ) → ℕ
line_length rest = suc (suc (suc (suc (suc (length rest)))))

rest_read :
    (rest : List (List ℕ)) (correction temperature : Option ℕ)
    → TypedRest rest correction temperature
    → (unless_kept
          (not (leb 6 (line_length rest)) || arg_is_keep (argv rest 0))
          (parse_rgb_packed (argv rest 0))
        ≡ some correction)
      × (unless_kept
            (not (leb 7 (line_length rest)) || arg_is_keep (argv rest 1))
            (parse_rgb_packed (argv rest 1))
          ≡ some temperature)
rest_read [] correction temperature (c, w) = (ap some (sym c), ap some (sym w))
rest_read (first ∷ []) correction temperature (c, w) =
    (read-Typed parse_rgb_packed first correction minus_is_no_number.2 c, ap some (sym w))
rest_read (first ∷ (second ∷ [])) correction temperature (c, w) = (
  read-Typed parse_rgb_packed first correction minus_is_no_number.2 c,
  read-Typed parse_rgb_packed second temperature minus_is_no_number.2 w,
)
rest_read (first ∷ (second ∷ (third ∷ more))) correction temperature h = absurd h

tuning_arguments-TypedTuning :
    (offset brightness palette : List ℕ) (rest : List (List ℕ)) (t : Tuning)
    → TypedTuning offset brightness palette rest t
    → changes_something t ≡ true
    → tuning_arguments offset brightness palette
        (leb 6 (line_length rest))
        (argv rest 0)
        (leb 7 (line_length rest))
        (argv rest 1)
      ≡ some t
tuning_arguments-TypedTuning offset brightness palette rest t (o, b, p, last) changes =
    let (no_offset, no_number, no_colour) = minus_is_no_number in
    let (c, w) = rest_read rest t.color_correction t.color_temperature last in
    tuning_arguments-read offset brightness palette _ _ _ _ t
      (read-Typed parse_i32_bits offset t.time_offset_bits no_offset o)
      (read-Typed parse_u8 brightness t.brightness_cap no_number b)
      (read-Typed parse_u8 palette t.palette_override no_number p) c w changes

-- A line whose values are typed so is read as its destination, its endpoint and its tuning.
pub set_calibration_arguments-TypedTuning :
    (node endpoint offset brightness palette : List ℕ) (rest : List (List ℕ))
    (destination light : ℕ) (t : Tuning)
    → parse_u64 node ≡ some destination
    → parse_u16 endpoint ≡ some light
    → TypedTuning offset brightness palette rest t
    → changes_something t ≡ true
    → set_calibration_arguments (node ∷ (endpoint ∷ (offset ∷ (brightness ∷ (palette ∷ rest)))))
      ≡ some (destination, light, t)
unfolding set_calibration_arguments
set_calibration_arguments-TypedTuning node endpoint offset brightness palette rest destination light
      t to_node to_light typed changes =
    rw
      (
        to_node,
        to_light,
        tuning_arguments-TypedTuning offset brightness palette rest t typed changes,
      )
      refl
