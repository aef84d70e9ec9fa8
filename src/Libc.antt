-- ===== src/Libc.antt =====
-- What the source uses of the C library: the numbers that strtoull, strtoll and strtoul read from a
-- text, and the decimals that snprintf prints. A text is the list of its bytes without the zero at its end.
pub mod Decimals
use Prim.Native.Char.{code}
use Prim.Native.String.{String}
use led_orchestra.Base.{
  ℕ, zero, suc, ◌+◌, ◌-◌, ◌*◌, ◌/◌, ◌%◌, ◌^◌, Bool, true, false, ◌&&◌, ◌||◌, Option, none, some,
  List, [], ◌∷◌, ◌++◌, ltb, leb, ◌==◌, if◌then◌else◌, length, drop,
}

-- The bytes of a literal.
abbrev pub codes : String → List ℕ
codes String.[] = []
codes (String.◌∷◌ c s) = code c ∷ codes s

-- What a call says of a text: the number (a negative one as its bit pattern), whether there was one, what
-- stands behind it, and whether errno was set.
pub record Parsed : Type 0 where
  pub value : ℕ
  pub consumed : Bool
  pub rest : List ℕ
  pub failed : Bool

-- The value of a digit or letter; 36 if the byte is neither.
unfoldable pub digit_value : ℕ → ℕ
digit_value c =
    if leb b'0' c && leb c b'9'
    then c - b'0'
    else if leb b'a' c && leb c b'z'
    then c - b'a' + 10
    else if leb b'A' c && leb c b'Z'
    then c - b'A' + 10
    else 36

-- `isspace`.
abbrev pub is_space : ℕ → Bool
is_space c = (c == b' ') || (leb 9 c && leb c 13)

unfoldable pub skip_spaces : List ℕ → List ℕ
skip_spaces [] = []
skip_spaces (c ∷ text) = elim (is_space c) [ true ↦ skip_spaces text | false ↦ c ∷ text ]

-- A sign, if there is one: whether it is a minus, and the text behind it.
unfoldable pub read_sign : List ℕ → Bool × List ℕ
read_sign [] = (false, [])
read_sign (c ∷ text) =
    if c == b'-' then (true, text) else if c == b'+' then (false, text) else (false, c ∷ text)

abbrev pub starts_digit : ℕ → List ℕ → Bool
starts_digit base [] = false
starts_digit base (c ∷ text) = ltb (digit_value c) base

-- "0x" or "0X" before a hexadecimal digit.
abbrev pub is_hex : List ℕ → Bool
is_hex (zero_digit ∷ (x ∷ text)) =
    (zero_digit == b'0') && ((x == b'x') || (x == b'X')) && starts_digit 16 text
is_hex text = false

abbrev pub starts_zero : List ℕ → Bool
starts_zero [] = false
starts_zero (c ∷ text) = c == b'0'

-- The base that a text is read in, and the text without its prefix. Base 0 is found from the prefix.
unfoldable pub base_of : ℕ → List ℕ → ℕ × List ℕ
base_of base text =
    if ((base == 0) || (base == 16)) && is_hex text
    then (16, drop 2 text)
    else if base == 0
    then ((if starts_zero text then 8 else 10), text)
    else (base, text)

-- The digits at the start of a text, behind those that gave `n`.
unfoldable pub read_digits : ℕ → ℕ → List ℕ → ℕ × List ℕ
read_digits base n [] = (n, [])
read_digits base n (c ∷ text) = elim (ltb (digit_value c) base) [
  | true ↦ read_digits base (base * n + digit_value c) text
  | false ↦ (n, c ∷ text)
]

-- The digits of a number: its magnitude and what follows; `none` if there are none.
abbrev pub digits_in : ℕ × List ℕ → Option (ℕ × List ℕ)
digits_in (base, text) = if starts_digit base text then some (read_digits base 0 text) else none

-- Spaces, a sign, a prefix and the digits: whether the sign is a minus, the magnitude, and what follows.
abbrev pub read_number : ℕ → List ℕ → Bool × Option (ℕ × List ℕ)
read_number base text =
    let signed = read_sign (skip_spaces text) in (signed.0, digits_in (base_of base signed.1))

abbrev pub overflowed : ℕ → List ℕ → Parsed
overflowed limit rest = record { value = limit; consumed = true; rest = rest; failed = true }

abbrev pub in_range : ℕ → List ℕ → Parsed
in_range value rest = record { value = value; consumed = true; rest = rest; failed = false }

abbrev pub nothing_read : List ℕ → Parsed
nothing_read text = record { value = 0; consumed = false; rest = text; failed = false }

-- A word of so many bits; a minus negates it.
abbrev pub unsigned_value : ℕ → List ℕ → Bool × Option (ℕ × List ℕ) → Parsed
unsigned_value bits text (negative, none) = nothing_read text
unsigned_value bits text (negative, some (n, rest)) =
    if leb (2 ^ bits) n
    then overflowed (2 ^ bits - 1) rest
    else in_range (if negative then (2 ^ bits - n) % 2 ^ bits else n) rest

-- A signed word of 64 bits.
abbrev pub signed_value : List ℕ → Bool × Option (ℕ × List ℕ) → Parsed
signed_value text (negative, none) = nothing_read text
signed_value text (true, some (n, rest)) =
    if ltb (2 ^ 63) n then overflowed (2 ^ 63) rest else in_range ((2 ^ 64 - n) % 2 ^ 64) rest
signed_value text (false, some (n, rest)) =
    if leb (2 ^ 63) n then overflowed (2 ^ 63 - 1) rest else in_range n rest

unfoldable pub strtoull : ℕ → List ℕ → Parsed
strtoull base text = unsigned_value 64 text (read_number base text)

unfoldable pub strtoll : ℕ → List ℕ → Parsed
strtoll base text = signed_value text (read_number base text)

-- `unsigned long` has 32 bits on the target.
unfoldable pub strtoul : ℕ → List ℕ → Parsed
strtoul base text = unsigned_value 32 text (read_number base text)

-- At most so many digits of a number.
unfoldable pub digits : ℕ → ℕ → List ℕ
digits zero n = []
digits (suc f) n = elim (ltb n 10) [
  | true ↦ (b'0' + n) ∷ []
  | false ↦ digits f (n / 10) ++ ((b'0' + n % 10) ∷ [])
]

-- `%u`, PRIu32 and PRIu64: a word of at most 64 bits has at most 20 digits.
abbrev pub decimal : ℕ → List ℕ
decimal n = digits 20 n

-- `snprintf` into a buffer of `size` bytes, with the check that the source makes of its answer: the text,
-- if it is not empty and fits.
abbrev pub formatted : ℕ → List ℕ → Option (List ℕ)
formatted size text = if (length text == 0) || leb size (length text) then none else some text
