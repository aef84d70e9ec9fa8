-- ===== src/Effects/Field.antt =====
-- The helpers of led_orchestra_effects.cpp that every effect shares: the Fibonacci table, the pixel
-- hash and the distance on the ring.
pub mod Fibonacci
pub mod Distance
use Prim.Native.Nat.{bit_xor, min, max}
use led_orchestra.Base.{
  ℕ, zero, suc, ◌+◌, ◌-◌, ◌*◌, ◌%◌, ◌^◌, List, [], ◌∷◌, ◌==◌, if◌then◌else◌, get_or,
}
use led_orchestra.Base.Words.{u8, u16, u32, ◌>>>◌}

abbrev pub pisano_256 : ℕ
pisano_256 = 384

-- The loop that fills `table`, with the rounds left and the last two entries: each is the cast sum
-- of the two before it.
unfoldable pub fill_table : ℕ → ℕ → ℕ → List ℕ
fill_table zero before last = []
fill_table (suc left) before last =
    let next = u8 (last + before) in next ∷ fill_table left last next

unfoldable pub fib_table : List ℕ
unfolding fill_table
fib_table = 1 ∷ 2 ∷ fill_table (pisano_256 - 2) 1 2

unfoldable pub fib_mod256 : ℕ → ℕ
unfolding fib_table
fib_mod256 n = get_or fib_table (n % pisano_256) 0

unfoldable pub hash8 : ℕ → ℕ
hash8 x =
    let x1 = bit_xor x (x >>> 16) in
    let x2 = u32 (x1 * 0x7feb352d) in
    let x3 = bit_xor x2 (x2 >>> 15) in
    let x4 = u32 (x3 * 0x846ca68b) in let x5 = bit_xor x4 (x4 >>> 16) in u8 (x5 >>> 24)

unfoldable pub ring_distance : ℕ → ℕ → ℕ → ℕ
ring_distance a b len =
    if len == 0
    then 0
    else (let hi = max a b in
        let lo = min a b in let direct = u16 (hi - lo) in min direct (u16 (len + 2 ^ 16 - direct)))
