-- ===== src/Effects/Field/Fibonacci.antt =====
-- The table of `fib_mod256` in led_orchestra_effects.cpp and the Fibonacci numbers.
use mathlib.Core.Path.{◌≡⟨◌⟩◌, ◌∎}
use led_orchestra.Base.{
  ℕ, zero, suc, ◌+◌, ◌*◌, ◌/◌, ◌%◌, ◌<◌, ◌≡◌, refl, sym, ◌∙◌, ap, arith, get_or,
}
use led_orchestra.Base.Words.{u8}
use led_orchestra.Effects.Field.{fill_table, fib_table, fib_mod256}

-- 1, 2, 3, 5, 8, …
unfoldable pub fibonacci : ℕ → ℕ
fibonacci zero = 1
fibonacci (suc zero) = 2
fibonacci (suc (suc n)) = fibonacci n + fibonacci (suc n)

-- The n-th term of the sequence of bytes that starts with `a`, `b`.
bytes_from : ℕ → ℕ → ℕ → ℕ
bytes_from zero a b = a
bytes_from (suc n) a b = bytes_from n b (u8 (b + a))

get_or-fill_table :
    (left i a b : ℕ) → i < left → get_or (fill_table left a b) i 0 ≡ bytes_from (suc (suc i)) a b
unfolding fill_table bytes_from
get_or-fill_table zero i a b h = absurd (omega arith)
get_or-fill_table (suc left) zero a b h = refl
get_or-fill_table (suc left) (suc i) a b h = get_or-fill_table left i b (u8 (b + a)) (omega arith)

get_or-fib_table : (i : ℕ) → i < 384 → get_or fib_table i 0 ≡ bytes_from i 1 2
unfolding fib_table bytes_from
get_or-fib_table zero h = refl
get_or-fib_table (suc zero) h = refl
get_or-fib_table (suc (suc i)) h = get_or-fill_table 382 i 1 2 (omega arith)

bytes_from-fibonacci :
    (n k : ℕ) → bytes_from n (u8 (fibonacci k)) (u8 (fibonacci (suc k))) ≡ u8 (fibonacci (n + k))
unfolding bytes_from fibonacci
bytes_from-fibonacci zero k = ap (λ (t : ℕ). u8 (fibonacci t)) (omega arith)
bytes_from-fibonacci (suc n) k =
    let sum : u8 (u8 (fibonacci (suc k)) + u8 (fibonacci k)) ≡ u8 (fibonacci (suc (suc k))) =
      omega arith in
    rw sum (bytes_from-fibonacci n (suc k) ∙ ap (λ (t : ℕ). u8 (fibonacci t)) (omega arith))

bytes_from-add :
    (m n a b : ℕ)
    → bytes_from (m + n) a b ≡ bytes_from n (bytes_from m a b) (bytes_from (suc m) a b)
unfolding bytes_from
bytes_from-add zero n a b = let start : zero + n ≡ n = omega arith in rw start
bytes_from-add (suc m) n a b =
    let shift : suc m + n ≡ suc (m + n) = omega arith in
    rw shift (bytes_from-add m n b (u8 (b + a)))

-- The period: after 384 terms the sequence stands at 1, 2 again.
period : (bytes_from 384 1 2 ≡ 1) × (bytes_from 385 1 2 ≡ 2)
unfolding bytes_from
period = (refl, refl)

bytes_from_periodic : (q r : ℕ) → bytes_from (384 * q + r) 1 2 ≡ bytes_from r 1 2
bytes_from_periodic zero r = ap (λ (t : ℕ). bytes_from t 1 2) (omega arith)
bytes_from_periodic (suc q) r =
    let shift : 384 * suc q + r ≡ 384 + (384 * q + r) = omega arith in
    rw (shift, bytes_from-add 384 (384 * q + r) 1 2, period.0, period.1) (bytes_from_periodic q r)

bytes_from_start : (n : ℕ) → bytes_from n 1 2 ≡ u8 (fibonacci n)
unfolding fibonacci
bytes_from_start n =
    let end : n + 0 ≡ n = omega arith in
    bytes_from-fibonacci n 0 ∙ ap (λ (t : ℕ). u8 (fibonacci t)) end

-- Every call, whatever its index, answers with the Fibonacci number mod 256.
pub fib_mod256-fibonacci : (n : ℕ) → fib_mod256 n ≡ u8 (fibonacci n)
unfolding fib_mod256
fib_mod256-fibonacci n =
    fib_mod256 n
    ≡⟨ get_or-fib_table (n % 384) (omega arith) ⟩ bytes_from (n % 384) 1 2
    ≡⟨ sym (bytes_from_periodic (n / 384) (n % 384)) ⟩ bytes_from (384 * (n / 384) + n % 384) 1 2
    ≡⟨ (rw split) ⟩ bytes_from n 1 2
    ≡⟨ bytes_from_start n ⟩ u8 (fibonacci n) ∎
  where
    split : 384 * (n / 384) + n % 384 ≡ n
    split = omega arith
