-- ===== src/Effects/Field/Distance.antt =====
-- `ring_distance` of led_orchestra_effects.cpp.
use native.Mathlib.Decide.{dec_lt}
use native.Mathlib.Nat.{mod-eq_of_lt, mod-eq-sub-mod}
use led_orchestra.Base.{◌∙◌, ℕ, ◌+◌, ◌-◌, ◌*◌, ◌%◌, ◌^◌, ◌≤◌, ◌<◌, ◌≡◌, ◌⊎◌, inl, inr, arith}
use led_orchestra.Effects.Field.{ring_distance}

-- For two positions on a strip of less than 2^16 pixels the distance is the same both ways, at most half the strip, and
-- zero only for equal positions.
pub ring_distance_laws :
    (a b len : ℕ)
    → a < len
    → b < len
    → len < 2 ^ 16
    → (ring_distance a b len ≡ ring_distance b a len)
      × (2 * ring_distance a b len ≤ len)
      × (ring_distance a b len ≡ 0 → a ≡ b)
unfolding ring_distance
ring_distance_laws a b len ha hb hl = (ground arith, ground arith, λ e. ground arith)

rotate_cases :
    (a k len : ℕ)
    → a < len
    → k < len
    → ((a + k < len) × ((a + k) % len ≡ a + k)) ⊎ ((len ≤ a + k) × ((a + k) % len ≡ a + k - len))
rotate_cases a k len ha hk = elim (dec_lt (a + k) len) [
  | yes h ↦ inl (h, mod-eq_of_lt h)
  | no h ↦
      inr (
        omega arith,
        mod-eq-sub-mod {n = a + k} {m = len} (omega arith) ∙ mod-eq_of_lt (omega arith),
      )
]

-- Moving both positions round a strip of less than 2^16 pixels keeps their distance: a pattern drawn by distance from a
-- moving head keeps its shape.
pub ring_distance_rotate :
    (a b k len : ℕ)
    → a < len
    → b < len
    → k < len
    → len < 2 ^ 16
    → ring_distance ((a + k) % len) ((b + k) % len) len ≡ ring_distance a b len
unfolding ring_distance
ring_distance_rotate a b k len ha hb hk hl =
    ground (arith, rotate_cases a k len ha hk, rotate_cases b k len hb hk)
