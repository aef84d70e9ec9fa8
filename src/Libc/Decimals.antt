-- ===== src/Libc/Decimals.antt =====
-- The decimals that snprintf prints, and what strtoull reads of them.
use led_orchestra.Base.{
  ℕ, zero, suc, ◌+◌, ◌-◌, ◌*◌, ◌/◌, ◌%◌, ◌^◌, ◌≤◌, ◌<◌, ◌≡◌, refl, sym, ap, ◌∙◌, Bool, true, false,
  Option, some, inl, inr, List, [], ◌∷◌, ◌++◌, arith, ltb, length, length-append, append_assoc,
  append_nil, Bool-cases,
}
use led_orchestra.Libc.{
  Parsed, digit_value, skip_spaces, read_sign, base_of, is_hex, read_digits, read_number, strtoull,
  strtoll, signed_value, unsigned_value, digits_in, in_range, digits, decimal,
}

-- 10 to the power of `f`.
abbrev pub limit : ℕ → ℕ
limit zero = 1
limit (suc f) = 10 * limit f

digit_value-digit : (d : ℕ) → d < 10 → digit_value (b'0' + d) ≡ d
unfolding digit_value
digit_value-digit d h = ground arith

read_digits-digit :
    (n d : ℕ) (rest : List ℕ)
    → d < 10
    → read_digits 10 n ((b'0' + d) ∷ rest) ≡ read_digits 10 (10 * n + d) rest
unfolding read_digits
read_digits-digit n d rest h = ground (arith, digit_value-digit d h)

digits_small : (f n : ℕ) → n < 10 → digits (suc f) n ≡ (b'0' + n) ∷ []
unfolding digits
digits_small f n h = ground arith

digits_large : (f n : ℕ) → 10 ≤ n → digits (suc f) n ≡ digits f (n / 10) ++ ((b'0' + n % 10) ∷ [])
unfolding digits
digits_large f n h = ground arith

room : (f n : ℕ) → n < limit (suc f) → 10 ≤ n → 0 < f
room zero n h low = absurd (omega arith)
room (suc f) n h low = omega arith

-- What is printed is read back, and reading goes on behind it.
pub read_digits-digits :
    (f n : ℕ) (rest : List ℕ)
    → n < limit f
    → 0 < f
    → read_digits 10 0 (digits f n ++ rest) ≡ read_digits 10 n rest
read_digits-digits zero n rest h pos = absurd (omega arith)
read_digits-digits (suc f) n rest h pos = elim (Bool-cases (ltb n 10)) [
  | inl e ↦
      ap (λ t. read_digits 10 0 (t ++ rest)) (digits_small f n (ground arith))
      ∙ read_digits-digit 0 n rest (ground arith)
      ∙ ap (λ m. read_digits 10 m rest) (omega arith)
  | inr e ↦
      ap (λ t. read_digits 10 0 (t ++ rest)) (digits_large f n (ground arith))
      ∙ ap (read_digits 10 0) (append_assoc (digits f (n / 10)) ((b'0' + n % 10) ∷ []) rest)
      ∙ read_digits-digits f (n / 10) ((b'0' + n % 10) ∷ rest) (ground arith)
          (room f n h (ground arith))
      ∙ read_digits-digit (n / 10) (n % 10) rest (omega arith)
      ∙ ap (λ m. read_digits 10 m rest) (omega arith)
]

-- The first digit of a number that is not 0 is not 0.
pub digits-leading :
    (f n : ℕ)
    → n < limit f
    → 0 < n
    → (c : ℕ) × (text : List ℕ) × (digits f n ≡ c ∷ text) × (b'1' ≤ c) × (c ≤ b'9')
digits-leading zero n h pos = absurd (omega arith)
digits-leading (suc f) n h pos = elim (Bool-cases (ltb n 10)) [
  | inl e ↦ (b'0' + n, [], digits_small f n (ground arith), omega arith, ground arith)
  | inr e ↦
      let (c, text, eq, low, high) = digits-leading f (n / 10) (omega arith) (ground arith) in
      (
        c,
        text ++ ((b'0' + n % 10) ∷ []),
        digits_large f n (ground arith) ∙ ap (λ t. t ++ ((b'0' + n % 10) ∷ [])) eq,
        low,
        high,
      )
]

-- A number below 10^k is printed in at most k digits.
pub length-digits : (k f n : ℕ) → n < limit k → 0 < k → length (digits f n) ≤ k
unfolding digits
length-digits zero f n h pos = absurd (omega arith)
length-digits (suc k) zero n h pos = omega arith
length-digits (suc k) (suc f) n h pos = elim (Bool-cases (ltb n 10)) [
  | inl e ↦ rw (digits_small f n (ground arith)) (omega arith)
  | inr e ↦
      rw (digits_large f n (ground arith), length-append (digits f (n / 10)) ((b'0' + n % 10) ∷ []))
        (omega (arith, length-digits k f (n / 10) (omega arith) (room k n h (ground arith))))
]

-- What is read of a text that is a number and no more.
abbrev pub word : ℕ → Parsed
word n = in_range n []

module _ (c : ℕ) (text : List ℕ) (low : b'1' ≤ c) (high : c ≤ b'9') where
  pub skip_spaces-digit : skip_spaces (c ∷ text) ≡ c ∷ text
  unfolding skip_spaces
  skip_spaces-digit = ground arith

  pub read_sign-digit : read_sign (c ∷ text) ≡ (false, c ∷ text)
  unfolding read_sign
  read_sign-digit = ground arith

  is_hex-digit : (rest : List ℕ) → is_hex (c ∷ rest) ≡ false
  is_hex-digit [] = refl
  is_hex-digit (d ∷ rest) = ground arith

  pub base_of-digit : base_of 0 (c ∷ text) ≡ (10, c ∷ text)
  unfolding base_of
  base_of-digit = rw (is_hex-digit text) (ground arith)

  pub digits_in-digit : digits_in (10, c ∷ text) ≡ some (read_digits 10 0 (c ∷ text))
  unfolding digit_value
  digits_in-digit = ground arith

-- The digits of a number that is not 0, in base 0.
pub digits_in-decimal :
    (n : ℕ) → 0 < n → n < 2 ^ 64 → digits_in (base_of 0 (decimal n)) ≡ some (n, [])
unfolding read_digits
digits_in-decimal n pos h =
    let (c, text, eq, low, high) = digits-leading 20 n (omega arith) pos in
    ap (λ t. digits_in (base_of 0 t)) eq
    ∙ ap digits_in (base_of-digit c text low high)
    ∙ digits_in-digit c text low high
    ∙ ap some (
        ap (read_digits 10 0) (sym eq ∙ sym (append_nil (decimal n)))
        ∙ read_digits-digits 20 n [] (omega arith) (omega arith))

pub read_sign-decimal :
    (n : ℕ) → 0 < n → n < 2 ^ 64 → read_sign (skip_spaces (decimal n)) ≡ (false, decimal n)
read_sign-decimal n pos h =
    let (c, text, eq, low, high) = digits-leading 20 n (omega arith) pos in
    ap (λ t. read_sign (skip_spaces t)) eq
    ∙ ap read_sign (skip_spaces-digit c text low high)
    ∙ read_sign-digit c text low high
    ∙ ap (λ (t : List ℕ). (false, t)) (sym eq)

pub read_number-decimal :
    (n : ℕ) → 0 < n → n < 2 ^ 64 → read_number 0 (decimal n) ≡ (false, some (n, []))
read_number-decimal n pos h =
    ap (λ (s : Bool × List ℕ). (s.0, digits_in (base_of 0 s.1))) (read_sign-decimal n pos h)
    ∙ ap (λ (d : Option (ℕ × List ℕ)). (false, d)) (digits_in-decimal n pos h)

read_sign-minus : (text : List ℕ) → read_sign (skip_spaces (b'-' ∷ text)) ≡ (true, text)
unfolding read_sign skip_spaces
read_sign-minus text = refl

pub read_number-minus :
    (n : ℕ) → 0 < n → n < 2 ^ 64 → read_number 0 (b'-' ∷ decimal n) ≡ (true, some (n, []))
read_number-minus n pos h =
    ap (λ (s : Bool × List ℕ). (s.0, digits_in (base_of 0 s.1))) (read_sign-minus (decimal n))
    ∙ ap (λ (d : Option (ℕ × List ℕ)). (true, d)) (digits_in-decimal n pos h)

read_number-zero : read_number 0 (decimal 0) ≡ (false, some (0, []))
unfolding read_digits digits digit_value skip_spaces read_sign base_of
read_number-zero = refl

pub read_number-word : (n : ℕ) → n < 2 ^ 64 → read_number 0 (decimal n) ≡ (false, some (n, []))
read_number-word zero h = read_number-zero
read_number-word (suc n) h = read_number-decimal (suc n) (omega arith) h

unsigned_value-word :
    (text : List ℕ) (n : ℕ) → n < 2 ^ 64 → unsigned_value 64 text (false, some (n, [])) ≡ word n
unsigned_value-word text n h = ground arith

-- strtoull reads a printed word as it is.
pub strtoull-decimal : (n : ℕ) → n < 2 ^ 64 → strtoull 0 (decimal n) ≡ word n
unfolding strtoull
strtoull-decimal n h =
    ap (unsigned_value 64 (decimal n)) (read_number-word n h) ∙ unsigned_value-word (decimal n) n h

signed_value-word :
    (text : List ℕ) (n : ℕ) → n < 2 ^ 63 → signed_value text (false, some (n, [])) ≡ word n
signed_value-word text n h = ground arith

signed_value-minus :
    (text : List ℕ) (n : ℕ)
    → 0 < n
    → n ≤ 2 ^ 63
    → signed_value text (true, some (n, [])) ≡ word (2 ^ 64 - n)
signed_value-minus text n pos h =
    let small : (2 ^ 64 - n) % 2 ^ 64 ≡ 2 ^ 64 - n = omega arith in rw small (ground arith)

-- strtoll reads a printed number, or the negative one behind a minus.
pub strtoll-decimal : (n : ℕ) → n < 2 ^ 63 → strtoll 0 (decimal n) ≡ word n
unfolding strtoll
strtoll-decimal n h =
    ap (signed_value (decimal n)) (read_number-word n (omega arith))
    ∙ signed_value-word (decimal n) n h

pub strtoll-minus : (n : ℕ) → 0 < n → n ≤ 2 ^ 63 → strtoll 0 (b'-' ∷ decimal n) ≡ word (2 ^ 64 - n)
unfolding strtoll
strtoll-minus n pos h =
    ap (signed_value (b'-' ∷ decimal n)) (read_number-minus n pos (omega arith))
    ∙ signed_value-minus (b'-' ∷ decimal n) n pos h
