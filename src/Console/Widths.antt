-- ===== src/Console/Widths.antt =====
-- The widths of what the parsers of led_orchestra_console.cpp read.
use led_orchestra.Base.{
  ℕ, ◌-◌, ◌^◌, ◌≤◌, ◌<◌, ◌≡◌, refl, Bool, true, false, Option, none, some, List, [], ◌∷◌, arith,
  if◌then◌else◌, ◌>>=◌,
}
use led_orchestra.Base.Words.{u8}
use mathlib.Core.Path.{subst}
use led_orchestra.Libc.{Parsed, strtoull, strtoll, unsigned_value, read_number, strtoul}
use led_orchestra.Console.{
  is_empty, whole_number, at_most, whole_i32, parse_u64, parse_u32, parse_u16, parse_u8,
  parse_i32_bits, parse_byte, parse_rgb, parse_rgb_packed,
}

-- Every value that there is has the property.
abbrev pub AllOf : {A : Type 0} → (A → Type 0) → Option A → Type 0
AllOf P none = Unit
AllOf P (some a) = P a

pub AllOf-bind :
    {A B : Type 0} (P : B → Type 0) (m : Option A) (f : A → Option B)
    → ((a : A) → m ≡ some a → AllOf P (f a))
    → AllOf P (m >>= f)
AllOf-bind P none f h = tt
AllOf-bind P (some a) f h = h a refl

pub AllOf-some : {A : Type 0} (P : A → Type 0) (o : Option A) (a : A) → AllOf P o → o ≡ some a → P a
AllOf-some P o a h eq = subst (AllOf P) eq h

at_most-fits : (most : ℕ) (o : Option ℕ) (v : ℕ) → at_most most o ≡ some v → v ≤ most
at_most-fits most none v h = absurd (ground arith)
at_most-fits most (some n) v h = ground arith

unsigned_value-fits :
    (text : List ℕ) (r : Bool × Option (ℕ × List ℕ)) → (unsigned_value 64 text r).value < 2 ^ 64
unsigned_value-fits text (negative, none) = omega arith
unsigned_value-fits text (true, some (n, rest)) = ground arith
unsigned_value-fits text (false, some (n, rest)) = ground arith

whole_number-fits : (p : Parsed) (v : ℕ) → p.value < 2 ^ 64 → whole_number p ≡ some v → v < 2 ^ 64
whole_number-fits p v small h = ground arith

-- What is read fits its width.
pub parse_u64-fits : (text : List ℕ) (v : ℕ) → parse_u64 text ≡ some v → v < 2 ^ 64
unfolding parse_u64 strtoull
parse_u64-fits text v h =
    whole_number-fits (strtoull 0 text) v (unsigned_value-fits text (read_number 0 text)) h

pub parse_u32-fits : (text : List ℕ) (v : ℕ) → parse_u32 text ≡ some v → v < 2 ^ 32
unfolding parse_u32
parse_u32-fits text v h = omega (arith, at_most-fits (2 ^ 32 - 1) (parse_u64 text) v h)

pub parse_u16-fits : (text : List ℕ) (v : ℕ) → parse_u16 text ≡ some v → v < 2 ^ 16
unfolding parse_u16
parse_u16-fits text v h = omega (arith, at_most-fits (2 ^ 16 - 1) (parse_u64 text) v h)

pub parse_u8-fits : (text : List ℕ) (v : ℕ) → parse_u8 text ≡ some v → v < 2 ^ 8
unfolding parse_u8
parse_u8-fits text v h = omega (arith, at_most-fits (2 ^ 8 - 1) (parse_u64 text) v h)

whole_i32-fits : (p : Parsed) (v : ℕ) → whole_i32 p ≡ some v → v < 2 ^ 32
whole_i32-fits p v h = ground arith

pub parse_i32_bits-fits : (text : List ℕ) (v : ℕ) → parse_i32_bits text ≡ some v → v < 2 ^ 32
unfolding parse_i32_bits
parse_i32_bits-fits text v h = whole_i32-fits (strtoll 0 text) v h

whole_byte :
    (p : Parsed) (v : ℕ)
    → (if is_empty p.rest then some (u8 p.value) else none) ≡ some v
    → v < 2 ^ 8
whole_byte p v h = ground arith

parse_byte-fits : (high low v : ℕ) → parse_byte high low ≡ some v → v < 2 ^ 8
unfolding parse_byte
parse_byte-fits high low v h = whole_byte (strtoul 16 (high ∷ (low ∷ []))) v h

abbrev pub AreBytes : ℕ × ℕ × ℕ → Type 0
AreBytes (red, green, blue) = (red < 2 ^ 8) × (green < 2 ^ 8) × (blue < 2 ^ 8)

parse_rgb-bytes : (hex : List ℕ) → AllOf AreBytes (parse_rgb hex)
unfolding parse_rgb
parse_rgb-bytes [] = tt
parse_rgb-bytes (a ∷ []) = tt
parse_rgb-bytes (a ∷ (b ∷ [])) = tt
parse_rgb-bytes (a ∷ (b ∷ (c ∷ []))) = tt
parse_rgb-bytes (a ∷ (b ∷ (c ∷ (d ∷ [])))) = tt
parse_rgb-bytes (a ∷ (b ∷ (c ∷ (d ∷ (e ∷ []))))) = tt
parse_rgb-bytes (a ∷ (b ∷ (c ∷ (d ∷ (e ∷ (f ∷ [])))))) =
    AllOf-bind AreBytes (parse_byte a b) _ λ r hr. AllOf-bind AreBytes (parse_byte c d) _ λ g hg.
      AllOf-bind AreBytes (parse_byte e f) _
        λ blue hb. (parse_byte-fits a b r hr, parse_byte-fits c d g hg, parse_byte-fits e f blue hb)
parse_rgb-bytes (a ∷ (b ∷ (c ∷ (d ∷ (e ∷ (f ∷ (g ∷ text))))))) = tt

pub parse_rgb-fits : (hex : List ℕ) (rgb : ℕ × ℕ × ℕ) → parse_rgb hex ≡ some rgb → AreBytes rgb
parse_rgb-fits hex rgb h = AllOf-some AreBytes (parse_rgb hex) rgb (parse_rgb-bytes hex) h

pub parse_rgb_packed-fits : (hex : List ℕ) (v : ℕ) → parse_rgb_packed hex ≡ some v → v < 2 ^ 32
unfolding parse_rgb_packed
parse_rgb_packed-fits hex v h =
    AllOf-some (λ n. n < 2 ^ 32) (parse_rgb_packed hex) v
      (AllOf-bind (λ n. n < 2 ^ 32) (parse_rgb hex) _
        λ rgb eq. omega (
          arith,
          (parse_rgb-fits hex rgb eq).0,
          (parse_rgb-fits hex rgb eq).1,
          (parse_rgb-fits hex rgb eq).2,
        ))
      h
