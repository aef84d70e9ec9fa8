-- ===== src/Console/Objects.antt =====
-- JSON objects of unsigned numbers, as the JSON-to-TLV converter of the SDK takes them: the key of a
-- field is its context tag and its type.
use led_orchestra.Base.{
  ℕ, ◌+◌, ◌^◌, ◌≤◌, ◌<◌, ◌≡◌, Bool, true, false, none, some, List, [], ◌∷◌, ◌++◌, arith, ltb,
  if◌then◌else◌, length, length-append,
}
use led_orchestra.Libc.{codes, decimal, formatted}
use led_orchestra.Libc.Decimals.{length-digits}
use led_orchestra.Scene.{Scene, NodeConfig}
use led_orchestra.Cluster.{Elements, end_of_tlv, element, Payload}

pub data Width : Type 0 where
  w8 w16 w32 w64 : Width

abbrev pub bits_of : Width → ℕ
bits_of w8 = 8
bits_of w16 = 16
bits_of w32 = 32
bits_of w64 = 64

abbrev pub type_name : Width → List ℕ
type_name w8 = codes "U8"
type_name w16 = codes "U16"
type_name w32 = codes "U32"
type_name w64 = codes "U64"

-- The most digits of a value.
abbrev pub most_digits : Width → ℕ
most_digits w8 = 3
most_digits w16 = 5
most_digits w32 = 10
most_digits w64 = 20

-- A tag below 10, the type, and the value.
pub record Field : Type 0 where
  pub tag : ℕ
  pub width : Width
  pub value : ℕ

abbrev pub label : Field → List ℕ
label f = b'"' ∷ (b'0' + f.tag) ∷ b':' ∷ type_name f.width ++ codes "\":"

-- The fields and the closing brace; a comma comes before each but the first.
abbrev pub members : Bool → List Field → List ℕ
members first [] = codes "}"
members first (f ∷ fs) =
    (if first then label f else b',' ∷ label f) ++ (decimal f.value ++ members false fs)

abbrev pub json_object : List Field → List ℕ
json_object fs = b'{' ∷ members true fs

-- Each value fits its type.
abbrev pub Fit : List Field → Type 0
Fit [] = Unit
Fit (f ∷ fs) = (f.value < 2 ^ bits_of f.width) × Fit fs

-- What the SDK's reader answers on the structure of these fields.
abbrev pub elements_of : List Field → Elements
elements_of [] = end_of_tlv true
elements_of (f ∷ fs) =
    element (some f.tag) (λ bits. if ltb f.value (2 ^ bits) then some f.value else none)
      (elements_of fs)

abbrev pub payload_of : List Field → Payload
payload_of fs = record { is_structure = true; enters = true; elements = elements_of fs }

abbrev pub scene_fields : Scene → List Field
scene_fields s =
    record { tag = 0; width = w8; value = s.effect }
    ∷ record { tag = 1; width = w8; value = s.red }
    ∷ record { tag = 2; width = w8; value = s.green }
    ∷ record { tag = 3; width = w8; value = s.blue }
    ∷ record { tag = 4; width = w8; value = s.speed }
    ∷ record { tag = 5; width = w8; value = s.brightness }
    ∷ record { tag = 6; width = w32; value = s.sequence }
    ∷ record { tag = 7; width = w64; value = s.scheduled_start_ms }
    ∷ []

abbrev pub config_fields : NodeConfig → List Field
config_fields c =
    record { tag = 0; width = w16; value = c.node_id }
    ∷ record { tag = 1; width = w16; value = c.segment_start }
    ∷ record { tag = 2; width = w16; value = c.segment_len }
    ∷ record { tag = 3; width = w16; value = c.total_leds }
    ∷ record { tag = 4; width = w8; value = c.led_gpio }
    ∷ []

abbrev pub clock_fields : ℕ → List Field
clock_fields time = record { tag = 0; width = w64; value = time } ∷ []

-- The most bytes of a field, its comma included.
abbrev pub field_room : Width → ℕ
field_room w8 = 11
field_room w16 = 14
field_room w32 = 19
field_room w64 = 29

abbrev pub room : List Field → ℕ
room [] = 1
room (f ∷ fs) = field_room f.width + room fs

pub length-decimal : (w : Width) (n : ℕ) → n < 2 ^ bits_of w → length (decimal n) ≤ most_digits w
length-decimal w8 n h = length-digits 3 20 n (omega arith) (omega arith)
length-decimal w16 n h = length-digits 5 20 n (omega arith) (omega arith)
length-decimal w32 n h = length-digits 10 20 n (omega arith) (omega arith)
length-decimal w64 n h = length-digits 20 20 n (omega arith) (omega arith)

pub length-label :
    (w : Width) (first : Bool) (tag value : ℕ)
    → let f : Field = record { tag = tag; width = w; value = value } in
      length (if first then label f else b',' ∷ label f) + most_digits w ≤ field_room w
length-label w8 true tag value = omega arith
length-label w8 false tag value = omega arith
length-label w16 true tag value = omega arith
length-label w16 false tag value = omega arith
length-label w32 true tag value = omega arith
length-label w32 false tag value = omega arith
length-label w64 true tag value = omega arith
length-label w64 false tag value = omega arith

length-members : (first : Bool) (fs : List Field) → Fit fs → length (members first fs) ≤ room fs
length-members first [] h = omega arith
length-members first (f ∷ fs) (fits, rest) =
    let name = if first then label f else b',' ∷ label f in
    rw
      (
        length-append name (decimal f.value ++ members false fs),
        length-append (decimal f.value) (members false fs),
      )
      (omega (
        arith,
        length-label f.width first f.tag f.value,
        length-decimal f.width f.value fits,
        length-members false fs rest,
      ))

pub formatted-fits :
    (size : ℕ) (text : List ℕ)
    → 0 < length text
    → length text < size
    → formatted size text ≡ some text
formatted-fits size text pos h = ground arith

-- An object whose fields have room is printed whole.
pub formatted-json_object :
    (size : ℕ) (fs : List Field)
    → Fit fs
    → 1 + room fs < size
    → formatted size (json_object fs) ≡ some (json_object fs)
formatted-json_object size fs fits h =
    formatted-fits size (json_object fs) (omega arith) (omega (arith, length-members true fs fits))
