-- ===== src/Console/Reading.antt =====
-- What the parsers of led_orchestra_console.cpp make of printed values.
use led_orchestra.Base.{
  ℕ, ◌+◌, ◌-◌, ◌*◌, ◌/◌, ◌%◌, ◌^◌, ◌≤◌, ◌<◌, ◌≡◌, refl, ap, ◌∙◌, Bool, true, false, Option, none,
  some, inl, inr, List, [], ◌∷◌, arith, ltb, ◌==◌, if◌then◌else◌, Bool-cases, all_below,
  all_below_sound, ==→eq,
}
use led_orchestra.Libc.{decimal, strtoul, digit_value, skip_spaces, read_sign, base_of, read_digits}
use led_orchestra.Libc.Decimals.{word, strtoull-decimal, strtoll-decimal, strtoll-minus}
use led_orchestra.Console.{
  whole_number, whole_i32, parse_u64, parse_u32, parse_u16, parse_u8, parse_i32_bits, parse_byte,
  parse_rgb, parse_rgb_packed,
}

parse_u64-decimal : (n : ℕ) → n < 2 ^ 64 → parse_u64 (decimal n) ≡ some n
unfolding parse_u64
parse_u64-decimal n h = ap whole_number (strtoull-decimal n h)

-- A number below 2^64, printed in decimal, is read as it is by each parser that it fits, and refused
-- by the others.
pub parse_decimal :
    (n : ℕ)
    → n < 2 ^ 64
    → (parse_u64 (decimal n) ≡ some n)
      × (parse_u32 (decimal n) ≡ (if ltb n (2 ^ 32) then some n else none))
      × (parse_u16 (decimal n) ≡ (if ltb n (2 ^ 16) then some n else none))
      × (parse_u8 (decimal n) ≡ (if ltb n (2 ^ 8) then some n else none))
unfolding parse_u32 parse_u16 parse_u8
parse_decimal n h =
    let eq = parse_u64-decimal n h in
    (eq, rw eq (ground arith), rw eq (ground arith), rw eq (ground arith))

-- `%d` of an `int32_t` with these bits.
abbrev pub signed_decimal : ℕ → List ℕ
signed_decimal bits = if ltb bits (2 ^ 31) then decimal bits else b'-' ∷ decimal (2 ^ 32 - bits)

whole_i32-high : (n : ℕ) → n ≤ 2 ^ 31 → 0 < n → whole_i32 (word (2 ^ 64 - n)) ≡ some (2 ^ 32 - n)
whole_i32-high n h pos =
    let back : (2 ^ 64 - n) % 2 ^ 32 ≡ 2 ^ 32 - n = omega arith in rw back (ground arith)

whole_i32-low : (n : ℕ) → n < 2 ^ 31 → whole_i32 (word n) ≡ some n
whole_i32-low n h = let same : n % 2 ^ 32 ≡ n = omega arith in rw same (ground arith)

-- A signed number that is printed is read as its 32 bits.
pub parse_i32_bits-signed_decimal :
    (bits : ℕ) → bits < 2 ^ 32 → parse_i32_bits (signed_decimal bits) ≡ some bits
unfolding parse_i32_bits
parse_i32_bits-signed_decimal bits h = elim (Bool-cases (ltb bits (2 ^ 31))) [
  | inl e ↦
      rw e (ap whole_i32 (strtoll-decimal bits (ground arith)) ∙ whole_i32-low bits (ground arith))
  | inr e ↦ rw e (
      ap whole_i32 (strtoll-minus (2 ^ 32 - bits) (ground arith) (ground arith))
      ∙ whole_i32-high (2 ^ 32 - bits) (ground arith) (ground arith)
      ∙ ap some (omega arith))
]

-- A digit in base 16, and a byte in two of them.
abbrev pub hex_digit : ℕ → ℕ
hex_digit d = if ltb d 10 then b'0' + d else b'A' + (d - 10)

-- `%02X%02X%02X`.
abbrev pub rgb_text : ℕ → ℕ → ℕ → List ℕ
rgb_text red green blue =
    hex_digit (red / 16)
    ∷ hex_digit (red % 16)
    ∷ hex_digit (green / 16)
    ∷ hex_digit (green % 16)
    ∷ hex_digit (blue / 16)
    ∷ hex_digit (blue % 16)
    ∷ []

abbrev read_as : ℕ → Option ℕ → Bool
read_as v none = false
read_as v (some n) = n == v

read_as-some : (v : ℕ) (o : Option ℕ) → read_as v o ≡ true → o ≡ some v
read_as-some v none h = absurd (ground arith)
read_as-some v (some n) h = ap some (==→eq n v h)

-- Checked on each of the 256 bytes.
parse_byte-hex : (v : ℕ) → v < 256 → parse_byte (hex_digit (v / 16)) (hex_digit (v % 16)) ≡ some v
unfolding parse_byte strtoul digit_value skip_spaces read_sign base_of read_digits all_below
parse_byte-hex v h =
    let test = λ (n : ℕ). read_as n (parse_byte (hex_digit (n / 16)) (hex_digit (n % 16))) in
    read_as-some v (parse_byte (hex_digit (v / 16)) (hex_digit (v % 16)))
      (all_below_sound 256 test v refl h)

-- Three bytes that are printed as RRGGBB are read as they are, and packed as 0x00RRGGBB.
pub parse_rgb-rgb_text :
    (red green blue : ℕ)
    → red < 2 ^ 8
    → green < 2 ^ 8
    → blue < 2 ^ 8
    → (parse_rgb (rgb_text red green blue) ≡ some (red, green, blue))
      × (parse_rgb_packed (rgb_text red green blue) ≡ some (red * 2 ^ 16 + green * 2 ^ 8 + blue))
unfolding parse_rgb parse_rgb_packed
parse_rgb-rgb_text red green blue r g b =
    let r_eq = parse_byte-hex red r in
    let g_eq = parse_byte-hex green g in
    let b_eq = parse_byte-hex blue b in (rw (r_eq, g_eq, b_eq) refl, rw (r_eq, g_eq, b_eq) refl)
