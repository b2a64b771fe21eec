-- ===== src/Common/Memory.antt =====
-- Byte memory: what a pointer to raw bytes sees, as a function of the offset, and the
-- little-endian numbers in it.
use Prim.Native.Nat.{ℕ, ◌+◌, ◌*◌, ◌/◌, ◌%◌, ◌^◌, ◌<◌, bit_xor}
use mathlib.Core.Path.{◌≡◌, refl, ap₂, ◌∙◌}
use native.Mathlib.Nat.{mod-eq_of_lt}
use native.Mathlib.Omega.{arith}
use os_irose_new.Common.Tests.{◌==◌, if◌then◌else◌}
use os_irose_new.Common.Xor.{xor_byte, xor-div, xor-mod}

abbrev pub Memory : Type 0
Memory = ℕ → ℕ

abbrev pub IsBytes : Memory → Type 0
IsBytes m = (i : ℕ) → m i < 256

-- m[i] = v
abbrev pub store : Memory → ℕ → ℕ → Memory
store m i v j = if j == i then v else m j

-- *(uint16_t*)(m + i)
abbrev pub load16 : Memory → ℕ → ℕ
load16 m i = m i + 256 * m (i + 1)

-- *(uint16_t*)(m + i) = v
abbrev pub store16 : Memory → ℕ → ℕ → Memory
store16 m i v = store (store m i (v % 256)) (i + 1) (v / 256 % 256)

-- The five bytes at the start, as a number of 40 bits.
unfoldable pub load40 : Memory → ℕ
load40 m = m 0 + 256 * (m 1 + 256 * (m 2 + 256 * (m 3 + 256 * m 4)))

unfoldable pub store40 : Memory → ℕ → Memory
store40 m x =
    store
      (store (store (store (store m 0 (x % 256)) 1 (x / 256 % 256)) 2 (x / 65536 % 256)) 3
        (x / 16777216 % 256))
      4 (x / 4294967296 % 256)

pub load40-lt : (m : Memory) → IsBytes m → load40 m < 2 ^ 40
unfolding load40
load40-lt m h = omega (arith, h 0, h 1, h 2, h 3, h 4)

pub load40-store40 : (m : Memory) (x : ℕ) → x < 2 ^ 40 → load40 (store40 m x) ≡ x
unfolding load40 store40
load40-store40 m x h = omega arith

pub store40_above : (m : Memory) (x j : ℕ) → 4 < j → store40 m x j ≡ m j
unfolding store40
store40_above m x j h = ground arith

pub store40-IsBytes : (m : Memory) (x : ℕ) → IsBytes m → IsBytes (store40 m x)
unfolding store40
store40-IsBytes m x h j = ground (arith, h j)

pub store-IsBytes : (m : Memory) (i v : ℕ) → v < 256 → IsBytes m → IsBytes (store m i v)
store-IsBytes m i v p h j = ground (arith, h j)

low_byte : (a x : ℕ) → a < 256 → (a + 256 * x) % 2 ^ 8 ≡ a
low_byte a x p = omega arith

above_byte : (a x : ℕ) → a < 256 → (a + 256 * x) / 2 ^ 8 ≡ x
above_byte a x p = omega arith

-- Exclusive or of two numbers, the lowest byte and the rest apart.
xor-byte :
    (a x b y : ℕ)
    → a < 256
    → b < 256
    → bit_xor (a + 256 * x) (b + 256 * y) ≡ bit_xor a b + 256 * bit_xor x y
xor-byte a x b y p q = omega (
  arith,
  xor-div 8 (a + 256 * x) (b + 256 * y) ∙ ap₂ bit_xor (above_byte a x p) (above_byte b y q),
  xor-mod 8 (a + 256 * x) (b + 256 * y) ∙ ap₂ bit_xor (low_byte a x p) (low_byte b y q),
)

-- On a byte only the low byte of the other number counts.
xor_byte_low : (x v : ℕ) → x < 256 → xor_byte x v ≡ bit_xor x (v % 256)
unfolding xor_byte
xor_byte_low x v h = xor-mod 8 x v ∙ ap₂ bit_xor (mod-eq_of_lt h) refl

-- Byte by byte is the same as on the whole number.
pub load40-xor :
    (m v : Memory)
    → IsBytes m
    → load40 (λ i. xor_byte (m i) (v i)) ≡ bit_xor (load40 m) (load40 (λ i. v i % 256))
unfolding load40
load40-xor m v h =
    rw
      (
        xor-byte (m 0) _ (v 0 % 256) _ (h 0) (omega arith),
        xor-byte (m 1) _ (v 1 % 256) _ (h 1) (omega arith),
        xor-byte (m 2) _ (v 2 % 256) _ (h 2) (omega arith),
        xor-byte (m 3) _ (v 3 % 256) _ (h 3) (omega arith),
        xor_byte_low (m 0) (v 0) (h 0),
        xor_byte_low (m 1) (v 1) (h 1),
        xor_byte_low (m 2) (v 2) (h 2),
        xor_byte_low (m 3) (v 3) (h 3),
        xor_byte_low (m 4) (v 4) (h 4),
      )
      refl

pub load40_congr : (m n : Memory) → ((j : ℕ) → j < 5 → m j ≡ n j) → load40 m ≡ load40 n
unfolding load40
load40_congr m n h = omega (
  arith,
  h 0 (omega arith),
  h 1 (omega arith),
  h 2 (omega arith),
  h 3 (omega arith),
  h 4 (omega arith),
)

-- The memories are the same below `n`.
abbrev pub Agree : ℕ → Memory → Memory → Type 0
Agree n b m = (j : ℕ) → j < n → b j ≡ m j
