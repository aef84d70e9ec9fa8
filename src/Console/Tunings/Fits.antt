-- ===== src/Console/Tunings/Fits.antt =====
-- The payload of a calibration fits its buffer.
use mathlib.Core.Path.{subst}
use led_orchestra.Base.{
  ℕ, ◌+◌, ◌^◌, ◌≤◌, ◌<◌, ◌≡◌, refl, sym, ap, ◌∙◌, Bool, true, false, ◌||◌, Option, none, some, List,
  [], ◌∷◌, arith, ◌>>=◌,
}
use led_orchestra.Libc.{codes}
use led_orchestra.Console.Json.{Tuning, close_json, build_set_calibration_json}
use led_orchestra.Console.Objects.{
  Field, Width, w8, w32, Fit, json_object, field_room, room, bits_of,
}
use led_orchestra.Console.Tunings.{
  included, tuning_fields, append_all, append_all-members, append_all-tuning,
}
use led_orchestra.Console.Calibration.{changes_something, is_given}
use led_orchestra.Console.Widths.{AllOf}

build_set_calibration_json-cons :
    (t : Tuning) (f : Field) (fs : List Field)
    → tuning_fields t ≡ f ∷ fs
    → Fit (f ∷ fs)
    → room (f ∷ fs) + 2 ≤ 160
    → build_set_calibration_json 160 t ≡ some (json_object (f ∷ fs))
unfolding build_set_calibration_json
build_set_calibration_json-cons t f fs eq fits h =
    sym (append_all-tuning 160 t (codes "{", true))
    ∙ ap (λ (gs : List Field). append_all 160 gs (codes "{", true) >>= close_json 160) eq
    ∙ append_all-members 160 f fs fits h

abbrev pub Fits : ℕ → Option ℕ → Type 0
Fits bits o = AllOf (λ v. v < 2 ^ bits) o

abbrev pub TuningFits : Tuning → Type 0
TuningFits t =
    Fits 32 t.time_offset_bits
    × Fits 8 t.brightness_cap
    × Fits 8 t.palette_override
    × Fits 32 t.color_correction
    × Fits 32 t.color_temperature

Fit-included :
    (tag : ℕ) (w : Width) (o : Option ℕ) (fs : List Field)
    → Fits (bits_of w) o
    → Fit fs
    → Fit (included tag w o fs)
Fit-included tag w none fs h rest = rest
Fit-included tag w (some v) fs h rest = (h, rest)

room-included :
    (tag : ℕ) (w : Width) (o : Option ℕ) (fs : List Field)
    → room (included tag w o fs) ≤ field_room w + room fs
room-included tag w none fs = omega arith
room-included tag w (some v) fs = omega arith

pub Fit-tuning : (t : Tuning) → TuningFits t → Fit (tuning_fields t)
Fit-tuning t (offset, cap, palette, correction, temperature) =
    Fit-included 0 w32 t.time_offset_bits _ offset (
      Fit-included 1 w8 t.brightness_cap _ cap (
        Fit-included 2 w8 t.palette_override _ palette (
          Fit-included 3 w32 t.color_correction _ correction
            (Fit-included 4 w32 t.color_temperature [] temperature tt))))

room-tuning : (t : Tuning) → room (tuning_fields t) + 2 ≤ 160
room-tuning t =
    let last = included 4 w32 t.color_temperature [] in
    let fourth = included 3 w32 t.color_correction last in
    let third = included 2 w8 t.palette_override fourth in
    let second = included 1 w8 t.brightness_cap third in
    omega (
      arith,
      room-included 0 w32 t.time_offset_bits second,
      room-included 1 w8 t.brightness_cap third,
      room-included 2 w8 t.palette_override fourth,
      room-included 3 w32 t.color_correction last,
      room-included 4 w32 t.color_temperature [],
    )

abbrev NotEmpty : List Field → Type 0
NotEmpty fields = (f : Field) × (fs : List Field) × (fields ≡ f ∷ fs)

-- The five values one after the other: the first that is given makes the first field.
included-NotEmpty :
    (tag : ℕ) (w : Width) (o : Option ℕ) (fs : List Field) (later : Bool)
    → (later ≡ true → NotEmpty fs)
    → (is_given o || later) ≡ true
    → NotEmpty (included tag w o fs)
included-NotEmpty tag w none fs later next h = next h
included-NotEmpty tag w (some v) fs later next h = (_, fs, refl)

nested :
    (a b c d e : Bool)
    → (a || b || c || d || e) ≡ true
    → (a || (b || (c || (d || (e || false))))) ≡ true
nested a b c d e h = ground arith

tuning_fields-NotEmpty : (t : Tuning) → changes_something t ≡ true → NotEmpty (tuning_fields t)
tuning_fields-NotEmpty t h =
    included-NotEmpty 0 w32 t.time_offset_bits _ _
      (included-NotEmpty 1 w8 t.brightness_cap _ _ (
        included-NotEmpty 2 w8 t.palette_override _ _ (
          included-NotEmpty 3 w32 t.color_correction _ _
            (included-NotEmpty 4 w32 t.color_temperature [] false λ no. absurd (ground arith)))))
      (nested (is_given t.time_offset_bits) (is_given t.brightness_cap)
        (is_given t.palette_override) (is_given t.color_correction) (is_given t.color_temperature)
        h)

-- A tuning that changes something, with values within their widths, is printed as its object; the
-- buffer has room for it.
pub build_set_calibration_json-json_object :
    (t : Tuning)
    → TuningFits t
    → changes_something t ≡ true
    → build_set_calibration_json 160 t ≡ some (json_object (tuning_fields t))
build_set_calibration_json-json_object t fits h =
    let (f, fs, eq) = tuning_fields-NotEmpty t h in
    build_set_calibration_json-cons t f fs eq (subst Fit eq (Fit-tuning t fits))
      (subst (λ (gs : List Field). room gs + 2 ≤ 160) eq (room-tuning t))
    ∙ ap (λ (gs : List Field). some (json_object gs)) (sym eq)
