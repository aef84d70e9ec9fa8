-- ===== src/Console/Tunings.antt =====
-- `build_set_calibration_json` of led_orchestra_console.cpp: the fields that it appends, one after the other, are the
-- object of the values that are included.
pub mod Fits
use mathlib.Core.Path.{subst}
use led_orchestra.Base.{
  ℕ, ◌+◌, ◌^◌, ◌≤◌, ◌<◌, ◌≡◌, refl, sym, ap, ◌∙◌, Bool, true, false, ◌||◌, Option, none, some, List,
  [], ◌∷◌, ◌++◌, arith, ◌==◌, if◌then◌else◌, ◌>>=◌, length, length-append, append_assoc,
}
use led_orchestra.Libc.{codes, decimal}
use led_orchestra.Console.Json.{Tuning, append_json_field, append_value, close_json}
use led_orchestra.Console.Objects.{
  Field, Width, w8, w32, label, members, Fit, json_object, field_room, room, length-label,
  length-decimal, formatted-fits,
}

-- A value that is included, and the fields behind it.
abbrev pub included : ℕ → Width → Option ℕ → List Field → List Field
included tag width none fs = fs
included tag width (some value) fs = record { tag = tag; width = width; value = value } ∷ fs

abbrev pub tuning_fields : Tuning → List Field
tuning_fields t = included 0 w32 t.time_offset_bits (
    included 1 w8 t.brightness_cap (
      included 2 w8 t.palette_override
        (included 3 w32 t.color_correction (included 4 w32 t.color_temperature []))))

abbrev separated : Bool → Field → List ℕ
separated first f = (if first then label f else b',' ∷ label f) ++ decimal f.value

separate :
    (first : Bool) (name value : List ℕ)
    → (if first then name ++ value else b',' ∷ (name ++ value))
      ≡ (if first then name else b',' ∷ name) ++ value
separate true name value = refl
separate false name value = refl

pub >>=-assoc :
    {A B C : Type 0} (m : Option A) (f : A → Option B) (g : B → Option C)
    → ((m >>= f) >>= g) ≡ (m >>= λ a. f a >>= g)
>>=-assoc none f g = refl
>>=-assoc (some a) f g = refl

pub >>=-same :
    {A B : Type 0} (m : Option A) (f g : A → Option B)
    → ((a : A) → f a ≡ g a)
    → (m >>= f) ≡ (m >>= g)
>>=-same none f g h = refl
>>=-same (some a) f g h = h a

field_room_small : (w : Width) → field_room w < 48
field_room_small w8 = omega arith
field_room_small w32 = omega arith
field_room_small Width.w16 = omega arith
field_room_small Width.w64 = omega arith

length-field :
    (first : Bool) (f : Field) → Fit (f ∷ []) → length (separated first f) ≤ field_room f.width
length-field first f (fits, rest) =
    rw (length-append (if first then label f else b',' ∷ label f) (decimal f.value))
      (omega (arith, length-label f.width first f.tag f.value, length-decimal f.width f.value fits))

module _ (size : ℕ) where
  append_json_field-room :
      (field json : List ℕ) (first : Bool)
      → length json + length (if first then field else b',' ∷ field) + 1 ≤ size
      → append_json_field size field (json, first)
        ≡ some (json ++ (if first then field else b',' ∷ field), false)
  append_json_field-room field json true h = ground arith
  append_json_field-room field json false h = ground arith

  -- A field that has room is appended behind its comma.
  append_value-room :
      (f : Field) (json : List ℕ) (first : Bool)
      → Fit (f ∷ [])
      → length json + field_room f.width + 1 ≤ size
      → append_value size (label f) (some f.value) (json, first)
        ≡ some (json ++ separated first f, false)
  unfolding append_value
  append_value-room f json first fits h =
      let field = label f ++ decimal f.value in
      let short : length field ≤ field_room f.width = length-field true f fits in
      let long : length (if first then field else b',' ∷ field) ≤ field_room f.width =
        subst (λ (t : List ℕ). length t ≤ field_room f.width)
          (sym (separate first (label f) (decimal f.value))) (length-field first f fits) in
      ap (λ (o : Option (List ℕ)). o >>= λ t. append_json_field size t (json, first))
        (formatted-fits 48 field (omega arith) (omega (arith, field_room_small f.width)))
      ∙ append_json_field-room field json first (omega arith)
      ∙ ap (λ (t : List ℕ). some (json ++ t, false)) (separate first (label f) (decimal f.value))

  unfoldable pub append_all : List Field → List ℕ × Bool → Option (List ℕ × Bool)
  append_all [] buffer = some buffer
  append_all (f ∷ fs) buffer = append_value size (label f) (some f.value) buffer >>= append_all fs

  close_json-room :
      (json : List ℕ)
      → length json + 2 ≤ size
      → close_json size (json, false) ≡ some (json ++ codes "}")
  unfolding close_json
  close_json-room json h = ground arith

  -- The fields behind the first, and the brace.
  append_all-rest :
      (fs : List Field) (json : List ℕ)
      → Fit fs
      → length json + room fs + 1 ≤ size
      → (append_all fs (json, false) >>= close_json size) ≡ some (json ++ members false fs)
  unfolding append_all
  append_all-rest [] json fits h = close_json-room json (omega arith)
  append_all-rest (f ∷ fs) json (fits, rest) h =
      let grown = json ++ separated false f in
      let longer : length grown ≤ length json + field_room f.width =
        rw (length-append json (separated false f))
          (omega (arith, length-field false f (fits, tt))) in
      ap (λ (o : Option (List ℕ × Bool)). (o >>= append_all fs) >>= close_json size)
        (append_value-room f json false (fits, tt) (omega arith))
      ∙ append_all-rest fs grown rest (omega arith)
      ∙ ap some (append_assoc json (separated false f) (members false fs))
      ∙ ap (λ t. some (json ++ t))
          (append_assoc (b',' ∷ label f) (decimal f.value) (members false fs))

  -- All the fields.
  pub append_all-members :
      (f : Field) (fs : List Field)
      → Fit (f ∷ fs)
      → room (f ∷ fs) + 2 ≤ size
      → (append_all (f ∷ fs) (codes "{", true) >>= close_json size) ≡ some (json_object (f ∷ fs))
  unfolding append_all
  append_all-members f fs (fits, rest) h =
      let grown = codes "{" ++ separated true f in
      let longer : length grown ≤ 1 + field_room f.width =
        rw (length-append (codes "{") (separated true f))
          (omega (arith, length-field true f (fits, tt))) in
      ap (λ (o : Option (List ℕ × Bool)). (o >>= append_all fs) >>= close_json size)
        (append_value-room f (codes "{") true (fits, tt) (omega arith))
      ∙ append_all-rest fs grown rest (omega arith)
      ∙ ap (λ t. some (codes "{" ++ t))
          (append_assoc (label f) (decimal f.value) (members false fs))

  abbrev pub Buffer : Type 0
  Buffer = List ℕ × Bool

  abbrev pub step : ℕ → Width → Option ℕ → Buffer → Option Buffer
  step tag width o buffer =
      append_value size (label (record { tag = tag; width = width; value = 0 })) o buffer

  append_all-included :
      (tag : ℕ) (width : Width) (o : Option ℕ) (fs : List Field) (buffer : Buffer)
      → (append_all (included tag width o fs) buffer >>= close_json size)
        ≡ (step tag width o buffer >>= λ b. append_all fs b >>= close_json size)
  unfolding append_all append_value
  append_all-included tag width none fs buffer = refl
  append_all-included tag width (some value) fs buffer =
      >>=-assoc (step tag width (some value) buffer) (append_all fs) (close_json size)

  -- The five steps of the source are those of the fields that are included.
  pub append_all-tuning :
      (t : Tuning) (buffer : Buffer)
      → (append_all (tuning_fields t) buffer >>= close_json size) ≡ (
          step 0 w32 t.time_offset_bits buffer >>= λ b0. step 1 w8 t.brightness_cap b0 >>= λ b1.
          step 2 w8 t.palette_override b1 >>= λ b2. step 3 w32 t.color_correction b2 >>= λ b3.
          step 4 w32 t.color_temperature b3 >>= λ b4. close_json size b4)
  unfolding append_all
  append_all-tuning t buffer =
      let last = included 4 w32 t.color_temperature [] in
      let fourth = included 3 w32 t.color_correction last in
      let third = included 2 w8 t.palette_override fourth in
      let second = included 1 w8 t.brightness_cap third in
      append_all-included 0 w32 t.time_offset_bits second buffer
      ∙ >>=-same (step 0 w32 t.time_offset_bits buffer) _ _ λ b0.
        append_all-included 1 w8 t.brightness_cap third b0
        ∙ >>=-same (step 1 w8 t.brightness_cap b0) _ _ λ b1.
          append_all-included 2 w8 t.palette_override fourth b1
          ∙ >>=-same (step 2 w8 t.palette_override b1) _ _ λ b2.
            append_all-included 3 w32 t.color_correction last b2
            ∙ >>=-same (step 3 w32 t.color_correction b2) _ _
                λ b3. append_all-included 4 w32 t.color_temperature [] b3
